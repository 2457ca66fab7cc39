-- ===== src/Cursor/Unique.antt =====
-- Loops over limnifs-core/src/cursor.rs that refuse a key that an earlier entry has: the entries'
-- keys are pairwise different.
use limnifs.Prelude.{
  ◌≡◌, refl, ◌≢◌, ◌↔◌, List, [], ◌∷◌, ◌++◌, Bool, true, false, ◌||◌, arith, All, All-append,
  All-append_left, All-append_right, Bool-cases, inl, inr,
}
use limnifs.Cursor.Loops.{Goods}

-- `entries.iter().any(test)`
unfoldable pub any {ℓ} : {A : Type ℓ} → (A → Bool) → List A → Bool
any test [] = false
any test (x ∷ xs) = test x || any test xs

module _ {A K : Type 0} (key : A → K) where
  abbrev pub Unique : List A → Type 0
  Unique [] = Unit
  Unique (x ∷ xs) = All (λ y. key x ≢ key y) xs × Unique xs

  abbrev Away : List A → List A → Type 0
  Away seen xs = All (λ s. All (λ x. key s ≢ key x) xs) seen

  Away-nil : (seen : List A) → Away seen []
  Away-nil [] = tt
  Away-nil (s ∷ seen) = (tt, Away-nil seen)

  Away-cons :
      (x : A) (seen xs : List A) → All (λ s. key s ≢ key x) seen → Away seen xs → Away seen (x ∷ xs)
  Away-cons x [] xs h k = tt
  Away-cons x (s ∷ seen) xs (p, h) (q, k) = ((p, q), Away-cons x seen xs h k)

  Away-head : (x : A) (seen xs : List A) → Away seen (x ∷ xs) → All (λ s. key s ≢ key x) seen
  Away-head x [] xs h = tt
  Away-head x (s ∷ seen) xs ((p, q), h) = (p, Away-head x seen xs h)

  Away-tail : (x : A) (seen xs : List A) → Away seen (x ∷ xs) → Away seen xs
  Away-tail x [] xs h = tt
  Away-tail x (s ∷ seen) xs ((p, q), h) = (q, Away-tail x seen xs h)

module _ {A K : Type 0} (key : A → K) (same : K → K → Bool)
    (same_iff : (a b : K) → (same a b ≡ true) ↔ (a ≡ b)) (P : A → Type 0) where
  -- An entry with property `P` whose key is new.
  abbrev pub New : List A → A → Type 0
  New seen x = P x × (any (λ e. same (key e) (key x)) seen ≡ false)

  any-away :
      (x : A) (seen : List A)
      → any (λ e. same (key e) (key x)) seen ≡ false
      → All (λ s. key s ≢ key x) seen
  unfolding any
  any-away x [] h = tt
  any-away x (s ∷ seen) h = elim (Bool-cases (same (key s) (key x))) [
    | inl t ↦ absurd (ground arith)
    | inr f ↦
        ((λ e. ground (arith, (same_iff (key s) (key x)).1 e)), any-away x seen (ground arith))
  ]

  away-any :
      (x : A) (seen : List A)
      → All (λ s. key s ≢ key x) seen
      → any (λ e. same (key e) (key x)) seen ≡ false
  unfolding any
  away-any x [] h = refl
  away-any x (s ∷ seen) (n, h) = elim (Bool-cases (same (key s) (key x))) [
    | inl t ↦ absurd (n ((same_iff _ _).0 t))
    | inr f ↦ rw f (away-any x seen h)
  ]

  split : (seen xs : List A) → Goods New seen xs → Away key seen xs × Unique key xs × All P xs
  split seen [] g = (Away-nil key seen, tt, tt)
  split seen (x ∷ xs) ((p, f), g) =
      let (w, u, h) = split (seen ++ (x ∷ [])) xs g in
      (
        Away-cons key x seen xs (any-away x seen f)
            (All-append_left (λ s. All (λ y. key s ≢ key y) xs) seen (x ∷ []) w),
        ((All-append_right (λ s. All (λ y. key s ≢ key y) xs) seen (x ∷ []) w).0, u),
        (p, h),
      )

  join : (seen xs : List A) → Away key seen xs → Unique key xs → All P xs → Goods New seen xs
  join seen [] w u h = tt
  join seen (x ∷ xs) w (n, u) (p, h) = (
    (p, away-any x seen (Away-head key x seen xs w)),
    join (seen ++ (x ∷ [])) xs
        (All-append (λ s. All (λ y. key s ≢ key y) xs) seen (x ∷ []) (Away-tail key x seen xs w)
          (n, tt))
        u h,
  )

  -- The loop's test on each entry comes to: all have `P`, and no two have the same key.
  pub Goods-Unique : (xs : List A) → Goods New [] xs ↔ (Unique key xs × All P xs)
  Goods-Unique xs = ((λ g. let (w, u, h) = split [] xs g in (u, h)), (λ g. join [] xs tt g.0 g.1))

module _ {A : Type 0} (P : A → Type 0) where
  -- A loop whose entries do not look back.
  pub Goods-All : (seen xs : List A) → Goods (λ _. P) seen xs ↔ All P xs
  Goods-All seen [] = ((λ _. tt), (λ _. tt))
  Goods-All seen (x ∷ xs) =
      let (f, g) = Goods-All (seen ++ (x ∷ [])) xs in ((λ h. (h.0, f h.1)), (λ h. (h.0, g h.1)))
