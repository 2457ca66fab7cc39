-- ===== src/Cursor/Loops.antt =====
-- The counted loops of the parsers over limnifs-core/src/cursor.rs, by one rule each for what a
-- success says and for when it succeeds.
use limnifs.Prelude.{
  ℕ, zero, suc, ◌*◌, ◌≤◌, ◌≡◌, refl, ap, sym, ◌∙◌, List, [], ◌∷◌, ◌++◌, append-nil, append_assoc,
  arith, length, length-append,
}
use limnifs.Cursor.{Cursor, Parser, parse_list}
use limnifs.Cursor.Steps.{IsValid, Steps, stay, follow}
use limnifs.Cursor.Rules.{
  Sound, Sound-ok, Sound-bind, Sound-weaken, Runs-weaken, Runs, Runs-bind, At, Reads, Took,
}

module _ {A : Type 0} (encode : A → List ℕ) where
  abbrev pub encode_list : List A → List ℕ
  encode_list [] = []
  encode_list (x ∷ xs) = encode x ++ encode_list xs

  pub length-encode_list :
      (k : ℕ) (xs : List A)
      → ((x : A) → k ≤ length (encode x))
      → length xs * k ≤ length (encode_list xs)
  length-encode_list k [] h = omega arith
  length-encode_list k (x ∷ xs) h =
      omega (arith, h x, length-encode_list k xs h, length-append (encode x) (encode_list xs))

module _ {A : Type 0} (Good : List A → A → Type 0) where
  -- Each entry is good after those before it.
  abbrev pub Goods : List A → List A → Type 0
  Goods seen [] = Unit
  Goods seen (x ∷ xs) = Good seen x × Goods (seen ++ (x ∷ [])) xs

module _ {A : Type 0} (entry : List A → Parser A) (encode : A → List ℕ)
    (Good : List A → A → Type 0) where
  -- What a loop that began with `seen` took for `n` entries.
  abbrev pub TookList : ℕ → List A → Cursor → List A → Cursor → Type 0
  TookList n seen c out c' =
      (xs : List A) × (out ≡ seen ++ xs)
      × (length xs ≡ n)
      × Goods Good seen xs
      × Steps c (encode_list encode xs) c'
      × IsValid c'

  loop-Sound :
      ((seen : List A) (c : Cursor) → IsValid c → Sound (Took (Good seen) encode c) (entry seen c))
      → (n : ℕ) (seen : List A) (c : Cursor) → IsValid c
      → Sound (TookList n seen c) (parse_list entry n seen c)
  unfolding parse_list
  loop-Sound one zero seen c v = Sound-ok ([], sym (append-nil seen), refl, tt, stay c, v)
  loop-Sound one (suc n) seen c v = Sound-bind (one seen c v) λ x c1 (g, s1, v1).
      Sound-weaken (loop-Sound one n (seen ++ (x ∷ [])) c1 v1) λ out c2 (xs, e, l, gs, s2, v2).
        (x ∷ xs, e ∙ append_assoc seen (x ∷ []) xs, ap suc l, (g, gs), follow s1 s2, v2)

  pub parse_list-Sound :
      ((seen : List A) (c : Cursor) → IsValid c → Sound (Took (Good seen) encode c) (entry seen c))
      → (n : ℕ) (c : Cursor) → IsValid c
      → Sound
          (Took (λ xs. (length xs ≡ n) × Goods Good [] xs) (encode_list encode) c)
          (parse_list entry n [] c)
  parse_list-Sound one n c v =
      Sound-weaken (loop-Sound one n [] c v) λ out c' (xs, e, l, g, s, v'). rw e ((l, g), s, v')

  loop-Runs :
      ((seen : List A) (x : A) (c : Cursor) (rest : List ℕ)
        → Good seen x
        → At c (encode x ++ rest)
        → Runs x (Reads c (encode x) rest) (entry seen c))
      → (xs seen : List A) (c : Cursor) (rest : List ℕ) → Goods Good seen xs
      → At c (encode_list encode xs ++ rest)
      → Runs
          (seen ++ xs)
          (Reads c (encode_list encode xs) rest)
          (parse_list entry (length xs) seen c)
  unfolding parse_list
  loop-Runs one [] seen c rest g a = (c, rw append-nil, (stay c, a))
  loop-Runs one (x ∷ xs) seen c rest (g, gs) a =
      Runs-bind _ (one seen x c (encode_list encode xs ++ rest) g (simp append_assoc at a))
        λ c1 (s1, a1).
          Runs-weaken (loop-Runs one xs (seen ++ (x ∷ [])) c1 rest gs a1)
            (append_assoc seen (x ∷ []) xs) λ c2 (s2, a2). (follow s1 s2, a2)

  pub parse_list-Runs :
      ((seen : List A) (x : A) (c : Cursor) (rest : List ℕ)
        → Good seen x
        → At c (encode x ++ rest)
        → Runs x (Reads c (encode x) rest) (entry seen c))
      → (xs : List A) (n : ℕ) (c : Cursor) (rest : List ℕ) → length xs ≡ n
      → Goods Good [] xs
      → At c (encode_list encode xs ++ rest)
      → Runs xs (Reads c (encode_list encode xs) rest) (parse_list entry n [] c)
  parse_list-Runs one xs n c rest l g a = rw (← l) (loop-Runs one xs [] c rest g a)
