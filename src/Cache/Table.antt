-- ===== src/Cache/Table.antt =====
-- The hash maps of limnifs-core/src/slab_cache.rs as association lists, with their laws.
use limnifs.Prelude.{
  ℕ, suc, ◌+◌, ◌≡◌, refl, ◌↔◌, inl, inr, Bool, true, false, not, ◌&&◌, ◌||◌, Option, none, some,
  List, [], ◌∷◌, ◌++◌, arith, if◌then◌else◌, bytes_eq, bytes_eq_refl, bytes_eq→eq, Bool-cases,
  length,
}

abbrev pub Key : Type 0
Key = List ℕ

-- Equality of two keys.
abbrev pub same : Key → Key → Bool
same = bytes_eq

pub same_iff : (a b : Key) → (same a b ≡ true) ↔ (a ≡ b)
same_iff a b = (bytes_eq→eq a b, (λ p. rw p (bytes_eq_refl b)))

same_sym : (a b : Key) → same a b ≡ false → same b a ≡ false
same_sym a b h = ground (arith, same_iff a b, same_iff b a)

module _ {V : Type 0} where
  unfoldable pub lookup : Key → List (Key × V) → Option V
  lookup key [] = none
  lookup key ((k, v) ∷ es) = if same k key then some v else lookup key es

  unfoldable pub put : Key → V → List (Key × V) → List (Key × V)
  put key v [] = (key, v) ∷ []
  put key v ((k, w) ∷ es) = if same k key then (key, v) ∷ es else (k, w) ∷ put key v es

  unfoldable pub remove : Key → List (Key × V) → List (Key × V)
  remove key [] = []
  remove key ((k, v) ∷ es) = if same k key then es else (k, v) ∷ remove key es

  unfoldable pub has : Key → List (Key × V) → Bool
  has key [] = false
  has key ((k, v) ∷ es) = same k key || has key es

  -- No key occurs twice.
  abbrev pub Distinct : List (Key × V) → Type 0
  Distinct [] = Unit
  Distinct ((k, v) ∷ es) = (has k es ≡ false) × Distinct es

  pub has-lookup : (key : Key) (es : List (Key × V)) → has key es ≡ false → lookup key es ≡ none
  unfolding has lookup
  has-lookup key [] h = refl
  has-lookup key ((k, v) ∷ es) h = ground (arith, has-lookup key es)

  pub lookup-has :
      (key : Key) (es : List (Key × V)) → has key es ≡ true → (v : V) × (lookup key es ≡ some v)
  unfolding has lookup
  lookup-has key [] h = absurd (ground arith)
  lookup-has key ((k, v) ∷ es) h = elim (Bool-cases (same k key)) [
    | inl t ↦ (v, rw t)
    | inr f ↦ let (w, e) = lookup-has key es (ground arith) in (w, rw f e)
  ]

  pub has_of_lookup :
      (key : Key) (es : List (Key × V)) (v : V) → lookup key es ≡ some v → has key es ≡ true
  unfolding has lookup
  has_of_lookup key [] v h = cc
  has_of_lookup key ((k, w) ∷ es) v h = ground (arith, has_of_lookup key es v)

  pub has-append :
      (key : Key) (xs ys : List (Key × V)) → has key (xs ++ ys) ≡ (has key xs || has key ys)
  unfolding has
  has-append key [] ys = refl
  has-append key ((k, v) ∷ xs) ys = ground (arith, has-append key xs ys)

  -- The slot at the front may go to the back.
  pub Distinct-rotate :
      (key : Key) (v : V) (es : List (Key × V))
      → has key es ≡ false
      → Distinct es
      → Distinct (es ++ ((key, v) ∷ []))
  unfolding has
  Distinct-rotate key v [] h d = (refl, tt)
  Distinct-rotate key v ((k, w) ∷ es) h (n, d) =
      let away : same k key ≡ false = ground arith in
      let back = same_sym k key away in
      let front = has-append k es ((key, v) ∷ []) in
      (ground (arith, front, back), Distinct-rotate key v es (ground arith) d)

  pub lookup-put :
      (key j : Key) (v : V) (es : List (Key × V))
      → lookup j (put key v es) ≡ (if same key j then some v else lookup j es)
  unfolding lookup put
  lookup-put key j v [] = refl
  lookup-put key j v ((k, w) ∷ es) =
      ground (arith, same_iff k key, same_iff k j, same_iff key j, lookup-put key j v es)

  pub has-put :
      (key j : Key) (v : V) (es : List (Key × V)) → has j (put key v es) ≡ (same key j || has j es)
  unfolding has put
  has-put key j v [] = refl
  has-put key j v ((k, w) ∷ es) =
      ground (arith, same_iff k key, same_iff k j, same_iff key j, has-put key j v es)

  pub Distinct-put :
      (key : Key) (v : V) (es : List (Key × V)) → Distinct es → Distinct (put key v es)
  unfolding put has
  Distinct-put key v [] d = (refl, tt)
  Distinct-put key v ((k, w) ∷ es) (n, d) = elim (Bool-cases (same k key)) [
    | inl t ↦ let e : k ≡ key = (same_iff k key).0 t in rw t (rw e at n, d)
    | inr f ↦
        let back = same_sym k key f in
        rw f (ground (arith, has-put key k v es, back), Distinct-put key v es d)
  ]

  pub has-remove :
      (key j : Key) (es : List (Key × V))
      → Distinct es
      → has j (remove key es) ≡ (not (same key j) && has j es)
  unfolding has remove
  has-remove key j [] d = ground arith
  has-remove key j ((k, w) ∷ es) (n, d) =
      ground (arith, same_iff k key, same_iff k j, same_iff key j, has-remove key j es d)

  pub Distinct-remove : (key : Key) (es : List (Key × V)) → Distinct es → Distinct (remove key es)
  unfolding remove
  Distinct-remove key [] d = tt
  Distinct-remove key ((k, w) ∷ es) (n, d) = elim (Bool-cases (same k key)) [
    | inl t ↦ rw t d
    | inr f ↦ rw f (ground (arith, has-remove key k es d), Distinct-remove key es d)
  ]

  -- What is left after a removal was there before.
  pub lookup-remove :
      (key j : Key) (v : V) (es : List (Key × V))
      → Distinct es
      → lookup j (remove key es) ≡ some v
      → lookup j es ≡ some v
  unfolding lookup remove
  lookup-remove key j v [] d h = cc
  lookup-remove key j v ((k, w) ∷ es) (n, d) h = elim (Bool-cases (same k key)) [
    | inl t ↦
        let still : lookup j es ≡ some v = rw t at h in
        let found = has_of_lookup j es v still in ground (arith, same_iff k j)
    | inr f ↦ ground (arith, lookup-remove key j v es d)
  ]

  pub length-put :
      (key : Key) (v : V) (es : List (Key × V))
      → length (put key v es) ≡ (if has key es then length es else suc (length es))
  unfolding put has
  length-put key v [] = refl
  length-put key v ((k, w) ∷ es) = ground (arith, length-put key v es)

-- The bytes of all values.
unfoldable pub total : List (Key × List ℕ) → ℕ
total [] = 0
total ((k, v) ∷ es) = length v + total es

-- The bytes of a value that may be there.
abbrev pub size : Option (List ℕ) → ℕ
size none = 0
size (some v) = length v

-- A replaced value leaves the sum, a new one joins it.
pub total-put :
    (key : Key) (v : List ℕ) (es : List (Key × List ℕ))
    → length v + total es ≡ total (put key v es) + size (lookup key es)
unfolding put lookup total
total-put key v [] = omega arith
total-put key v ((k, w) ∷ es) = elim (Bool-cases (same k key)) [
  | inl t ↦ rw t (omega arith)
  | inr f ↦ rw f (omega (arith, total-put key v es))
]

pub total-remove :
    (key : Key) (v : List ℕ) (es : List (Key × List ℕ))
    → lookup key es ≡ some v
    → total es ≡ total (remove key es) + length v
unfolding remove lookup total
total-remove key v [] h = cc
total-remove key v ((k, w) ∷ es) h = elim (Bool-cases (same k key)) [
  | inl t ↦ ground (arith, t)
  | inr f ↦ let rest = total-remove key v es in ground (arith, f, rest)
]
