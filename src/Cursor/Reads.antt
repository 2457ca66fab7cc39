-- ===== src/Cursor/Reads.antt =====
-- The accessors of limnifs-core/src/cursor.rs, each with what a success says and when it succeeds.
use limnifs.Prelude.{
  ℕ, ◌+◌, ◌^◌, ◌≤◌, ◌<◌, ◌≡◌, refl, sym, ap, List, [], ◌∷◌, ◌++◌, false, ok, arith, ltb, leb,
  ltb→le, le→ltb, length, length-append, length-take, length-drop, take, drop, take-append-drop,
  take-length-append, get_or,
}
use limnifs.Prelude.Bytes.{
  IsByte, from_le_bytes, to_le_bytes, length-to_le_bytes, from_le_bytes-lt,
  from_le_bytes-to_le_bytes, to_le_bytes-from_le_bytes,
}
use limnifs.Cursor.{
  Cursor, Parser, usize_mod, remaining, read_n, read_u8, read_u16_le, read_u32_le, read_u64_le,
  return, ◌>>=◌,
}
use limnifs.Cursor.Steps.{IsValid, Steps, Steps-inside, Steps-IsByte, Steps-advance}
use limnifs.Cursor.Rules.{
  Sound, Sound-ok, Sound-err, Sound-if, Sound-bind, Runs, Runs-bind, At, Reads, Took,
}

At-Reads :
    {c c' : Cursor} {xs rest : List ℕ}
    → At c (xs ++ rest)
    → Steps c xs c'
    → remaining c' ≡ rest
    → Reads c xs rest c'
At-Reads a s h = (s, record { valid = Steps-inside a.valid s; unread = h })

room : (c : Cursor) → IsValid c → c.pos + length (remaining c) ≡ length c.bytes
unfolding remaining
room c v = omega (arith, length-drop c.pos c.bytes, v.inside)

pub read_n-Runs :
    (n : ℕ) (c : Cursor) (xs rest : List ℕ)
    → length xs ≡ n
    → At c (xs ++ rest)
    → Runs xs (Reads c xs rest) (read_n n c)
unfolding read_n
read_n-Runs n c xs rest e a =
    let fits : leb usize_mod (c.pos + n) ≡ false = ground (arith, bound, a.valid.fits) in
    let inside : ltb (length c.bytes) (c.pos + n) ≡ false = le→ltb _ _ bound in
    (record c { pos = c.pos + n }, rw (fits, inside, value), moved)
  where
    bound : c.pos + n ≤ length c.bytes
    bound = omega (arith, room c a.valid, ap length a.unread, length-append xs rest)

    value : take n (drop c.pos c.bytes) ≡ xs
    value = unfold remaining in rw (a.unread, ← e) (take-length-append xs rest)

    moved : Reads c xs rest (record c { pos = c.pos + n })
    moved = let (s, h) = Steps-advance c xs rest a.unread in rw (← e) (At-Reads a s h)

front :
    (n : ℕ) (c : Cursor)
    → IsValid c
    → c.pos + n ≤ length c.bytes
    → length (take n (remaining c)) ≡ n
front n c v h = omega (arith, length-take n (remaining c), room c v)

pub read_n-Sound :
    (n : ℕ) (c : Cursor) → IsValid c → Sound (Took (λ xs. length xs ≡ n) (λ xs. xs) c) (read_n n c)
unfolding read_n
read_n-Sound n c v =
    Sound-if (leb usize_mod (c.pos + n)) (λ _. Sound-err)
      λ fits.
        Sound-if (ltb (length c.bytes) (c.pos + n)) (λ _. Sound-err)
          λ inside. Sound-ok (unfold remaining in done (front n c v (ltb→le _ _ inside)))
  where
    done :
        length (take n (remaining c)) ≡ n
        → Took
            (λ xs. length xs ≡ n)
            (λ xs. xs)
            c
            (take n (remaining c))
            (record c { pos = c.pos + n })
    done e =
        let (s, _) =
          Steps-advance c (take n (remaining c)) (drop n (remaining c))
            (sym (take-append-drop n (remaining c))) in
        let s' : Steps c (take n (remaining c)) (record c { pos = c.pos + n }) = rw e at s in
        (e, s', Steps-inside v s')

pub read_u8-Runs :
    (c : Cursor) (b : ℕ) (rest : List ℕ)
    → At c (b ∷ rest)
    → Runs b (Reads c (b ∷ []) rest) (read_u8 c)
unfolding read_u8
read_u8-Runs c b rest a =
    Runs-bind (λ xs c'. ok (get_or xs 0 0, c')) (read_n-Runs 1 c (b ∷ []) rest (omega arith) a)
      λ c' r. (c', refl, r)

one_byte : (xs : List ℕ) → length xs ≡ 1 → xs ≡ get_or xs 0 0 ∷ []
one_byte [] h = absurd (omega arith)
one_byte (x ∷ []) h = refl
one_byte (x ∷ y ∷ xs) h = absurd (omega arith)

pub read_u8-Sound : (c : Cursor) → IsValid c → Sound (Took IsByte (λ b. b ∷ []) c) (read_u8 c)
unfolding read_u8
read_u8-Sound c v = Sound-bind (read_n-Sound 1 c v) λ xs c' (e, s, v'). Sound-ok (took xs c' e s v')
  where
    took :
        (xs : List ℕ) (c' : Cursor)
        → length xs ≡ 1
        → Steps c xs c'
        → IsValid c'
        → Took IsByte (λ b. b ∷ []) c (get_or xs 0 0) c'
    took xs c' e s v' =
        let s' : Steps c (get_or xs 0 0 ∷ []) c' = rw (one_byte xs e) at s in
        ((Steps-IsByte v s').0, s', v')

-- A word of `w` bytes.
read_word : ℕ → Parser ℕ
read_word w = do bytes ← read_n w; return (from_le_bytes bytes)

read_word-Runs :
    (w : ℕ) (c : Cursor) (n : ℕ) (rest : List ℕ)
    → n < 256 ^ w
    → At c (to_le_bytes w n ++ rest)
    → Runs n (Reads c (to_le_bytes w n) rest) (read_word w c)
unfolding read_word
read_word-Runs w c n rest h a =
    Runs-bind (λ xs c'. ok (from_le_bytes xs, c'))
      (read_n-Runs w c (to_le_bytes w n) rest (length-to_le_bytes w n) a)
      λ c' r. (c', rw (from_le_bytes-to_le_bytes w n h), r)

read_word-Sound :
    (w : ℕ) (c : Cursor)
    → IsValid c
    → Sound (Took (λ n. n < 256 ^ w) (to_le_bytes w) c) (read_word w c)
unfolding read_word
read_word-Sound w c v =
    Sound-bind (read_n-Sound w c v) λ xs c' (e, s, v'). Sound-ok (took xs c' e s v')
  where
    took :
        (xs : List ℕ) (c' : Cursor)
        → length xs ≡ w
        → Steps c xs c'
        → IsValid c'
        → Took (λ n. n < 256 ^ w) (to_le_bytes w) c (from_le_bytes xs) c'
    took xs c' e s v' =
        let bytes = Steps-IsByte v s in
        (rw e at (from_le_bytes-lt xs bytes), rw (← e, to_le_bytes-from_le_bytes xs bytes) s, v')

pub read_u16-Runs :
    (c : Cursor) (n : ℕ) (rest : List ℕ)
    → n < 2 ^ 16
    → At c (to_le_bytes 2 n ++ rest)
    → Runs n (Reads c (to_le_bytes 2 n) rest) (read_u16_le c)
unfolding read_u16_le read_word
read_u16-Runs = read_word-Runs 2

pub read_u16-Sound :
    (c : Cursor) → IsValid c → Sound (Took (λ n. n < 2 ^ 16) (to_le_bytes 2) c) (read_u16_le c)
unfolding read_u16_le read_word
read_u16-Sound = read_word-Sound 2

pub read_u32-Runs :
    (c : Cursor) (n : ℕ) (rest : List ℕ)
    → n < 2 ^ 32
    → At c (to_le_bytes 4 n ++ rest)
    → Runs n (Reads c (to_le_bytes 4 n) rest) (read_u32_le c)
unfolding read_u32_le read_word
read_u32-Runs = read_word-Runs 4

pub read_u32-Sound :
    (c : Cursor) → IsValid c → Sound (Took (λ n. n < 2 ^ 32) (to_le_bytes 4) c) (read_u32_le c)
unfolding read_u32_le read_word
read_u32-Sound = read_word-Sound 4

pub read_u64-Runs :
    (c : Cursor) (n : ℕ) (rest : List ℕ)
    → n < 2 ^ 64
    → At c (to_le_bytes 8 n ++ rest)
    → Runs n (Reads c (to_le_bytes 8 n) rest) (read_u64_le c)
unfolding read_u64_le read_word
read_u64-Runs = read_word-Runs 8

pub read_u64-Sound :
    (c : Cursor) → IsValid c → Sound (Took (λ n. n < 2 ^ 64) (to_le_bytes 8) c) (read_u64_le c)
unfolding read_u64_le read_word
read_u64-Sound = read_word-Sound 8
