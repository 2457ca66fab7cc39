-- ===== src/Prelude/Slices.antt =====
-- Sums and joins of lists, and the laws of `take` and `drop` on a join.
use Prim.Native.Nat.{ℕ, zero, suc, ◌+◌, ◌≤◌}
use mathlib.Core.Path.{◌≡◌, refl, sym, ap, ◌∙◌}
use mathlib.Core.List.{List, [], ◌∷◌, ◌++◌}
use native.Mathlib.Omega.{arith}
use limnifs.Prelude.Lists.{length, take, drop, length-append}

abbrev pub sum : List ℕ → ℕ
sum [] = 0
sum (x ∷ xs) = x + sum xs

pub sum-append : (xs ys : List ℕ) → sum (xs ++ ys) ≡ sum xs + sum ys
sum-append [] ys = omega arith
sum-append (x ∷ xs) ys = omega (arith, sum-append xs ys)

pub sum-take-drop : (n : ℕ) (xs : List ℕ) → sum (take n xs) + sum (drop n xs) ≡ sum xs
sum-take-drop zero xs = omega arith
sum-take-drop (suc n) [] = omega arith
sum-take-drop (suc n) (x ∷ xs) = omega (arith, sum-take-drop n xs)

module _ {ℓ} {A : Type ℓ} where
  abbrev pub concat : List (List A) → List A
  concat [] = []
  concat (xs ∷ xss) = xs ++ concat xss

  -- `&xs[from..from + n]`
  abbrev pub slice : ℕ → ℕ → List A → List A
  slice from n xs = take n (drop from xs)

  pub take_all : (n : ℕ) (xs : List A) → length xs ≤ n → take n xs ≡ xs
  take_all zero [] h = refl
  take_all zero (x ∷ xs) h = absurd (omega (arith, h))
  take_all (suc n) [] h = refl
  take_all (suc n) (x ∷ xs) h = ap (λ ys. x ∷ ys) (take_all n xs (omega (arith, h)))

  pub drop_all : (n : ℕ) (xs : List A) → length xs ≤ n → drop n xs ≡ []
  drop_all zero [] h = refl
  drop_all zero (x ∷ xs) h = absurd (omega (arith, h))
  drop_all (suc n) [] h = refl
  drop_all (suc n) (x ∷ xs) h = drop_all n xs (omega (arith, h))

  pub take-append_left : (n : ℕ) (xs ys : List A) → n ≤ length xs → take n (xs ++ ys) ≡ take n xs
  take-append_left zero xs ys h = refl
  take-append_left (suc n) [] ys h = absurd (omega (arith, h))
  take-append_left (suc n) (x ∷ xs) ys h =
      ap (λ zs. x ∷ zs) (take-append_left n xs ys (omega (arith, h)))

  pub take-append_right :
      (n k : ℕ) (xs ys : List A) → n ≡ length xs + k → take n (xs ++ ys) ≡ xs ++ take k ys
  take-append_right n k [] ys e = ap (λ m. take m ys) (omega (arith, e))
  take-append_right zero k (x ∷ xs) ys e = absurd (omega (arith, e))
  take-append_right (suc n) k (x ∷ xs) ys e =
      ap (λ zs. x ∷ zs) (take-append_right n k xs ys (omega (arith, e)))

  pub drop-append_left :
      (n : ℕ) (xs ys : List A) → n ≤ length xs → drop n (xs ++ ys) ≡ drop n xs ++ ys
  drop-append_left zero xs ys h = refl
  drop-append_left (suc n) [] ys h = absurd (omega (arith, h))
  drop-append_left (suc n) (x ∷ xs) ys h = drop-append_left n xs ys (omega (arith, h))

  pub drop-append_right :
      (n k : ℕ) (xs ys : List A) → n ≡ length xs + k → drop n (xs ++ ys) ≡ drop k ys
  drop-append_right n k [] ys e = ap (λ m. drop m ys) (omega (arith, e))
  drop-append_right zero k (x ∷ xs) ys e = absurd (omega (arith, e))
  drop-append_right (suc n) k (x ∷ xs) ys e = drop-append_right n k xs ys (omega (arith, e))

  -- The bytes behind a prefix of known length.
  pub slice-append :
      (from n : ℕ) (xs ys zs : List A)
      → from ≡ length xs
      → n ≡ length ys
      → slice from n (xs ++ (ys ++ zs)) ≡ ys
  slice-append from n xs ys zs f m =
      ap (take n) (drop-append_right from 0 xs (ys ++ zs) (omega (arith, f)))
      ∙ take-append_left n ys zs (omega (arith, m))
      ∙ take_all n ys (omega (arith, m))

  pub length-concat_cons :
      (xs : List A) (xss : List (List A))
      → length (concat (xs ∷ xss)) ≡ length xs + length (concat xss)
  length-concat_cons xs xss = length-append xs (concat xss)

  pub take-plus :
      (m n k : ℕ) (xs : List A) → k ≡ m + n → take k xs ≡ take m xs ++ take n (drop m xs)
  take-plus zero n k xs e = ap (λ j. take j xs) (omega (arith, e))
  take-plus (suc m) n k [] e = take_nil k ∙ sym (take_nil n)
    where
      take_nil : (j : ℕ) → take {A = A} j [] ≡ []
      take_nil zero = refl
      take_nil (suc j) = refl
  take-plus (suc m) n zero (x ∷ xs) e = absurd (omega (arith, e))
  take-plus (suc m) n (suc k) (x ∷ xs) e = ap (λ ys. x ∷ ys) (take-plus m n k xs (omega (arith, e)))

  pub take-take : (m n : ℕ) (xs : List A) → m ≤ n → take m (take n xs) ≡ take m xs
  take-take zero n xs h = refl
  take-take (suc m) zero xs h = absurd (omega (arith, h))
  take-take (suc m) (suc n) [] h = refl
  take-take (suc m) (suc n) (x ∷ xs) h = ap (λ ys. x ∷ ys) (take-take m n xs (omega (arith, h)))

  pub drop-take : (m n k : ℕ) (xs : List A) → n ≡ m + k → drop m (take n xs) ≡ take k (drop m xs)
  drop-take zero n k xs e = ap (λ j. take j xs) (omega (arith, e))
  drop-take (suc m) zero k xs e = absurd (omega (arith, e))
  drop-take (suc m) (suc n) k [] e = sym (take_none k)
    where
      take_none : (j : ℕ) → take {A = A} j [] ≡ []
      take_none zero = refl
      take_none (suc j) = refl
  drop-take (suc m) (suc n) k (x ∷ xs) e = drop-take m n k xs (omega (arith, e))

-- Two byte strings in a row, of which the first have one length, are the same one by one.
pub append_split :
    (xs ys xs' ys' : List ℕ)
    → length xs ≡ length xs'
    → xs ++ ys ≡ xs' ++ ys'
    → (xs ≡ xs') × (ys ≡ ys')
append_split [] ys [] ys' l e = (refl, e)
append_split [] ys (x' ∷ xs') ys' l e = absurd (omega (arith, l))
append_split (x ∷ xs) ys [] ys' l e = absurd (omega (arith, l))
append_split (x ∷ xs) ys (x' ∷ xs') ys' l e =
    let head : x ≡ x' = cc in
    let tail : xs ++ ys ≡ xs' ++ ys' = cc in
    let (same, rest) = append_split xs ys xs' ys' (omega (arith, l)) tail in (cc, rest)
