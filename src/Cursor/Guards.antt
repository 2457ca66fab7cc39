-- ===== src/Cursor/Guards.antt =====
-- The checks between the reads of the parsers over limnifs-core/src/cursor.rs: a rejected test, the
-- check of the bytes left, a checked product, and an option that must hold a value.
use limnifs.Prelude.{
  ℕ, ◌*◌, ◌^◌, ◌≤◌, ◌<◌, ◌≡◌, refl, ap, List, [], Bool, true, false, Option, none, some, arith, ltb,
  leb, ltb→le, le→ltb, length,
}
use limnifs.Error.{CoreError}
use limnifs.Cursor.{
  Cursor, Parser, usize_mod, reject, or_fail, branch, remaining, remaining_len, checked_mul,
  ensure_remaining,
}
use limnifs.Cursor.Steps.{IsValid, Steps, stay, remaining_len-remaining}
use limnifs.Cursor.Rules.{Sound, Sound-ok, Sound-err, Sound-if, Runs, At, Reads}

-- A check that passed says `P` and leaves the cursor.
abbrev pub Checked : {A : Type 0} → (A → Type 0) → Cursor → A → Cursor → Type 0
Checked P c a c' = P a × Steps c [] c' × IsValid c'

stays : (c : Cursor) (xs : List ℕ) → At c xs → Reads c [] xs c
stays c xs a = (stay c, a)

pub reject-Sound :
    (test : Bool) (e : CoreError) (c : Cursor)
    → IsValid c
    → Sound (Checked (λ _. test ≡ false) c) (reject test e c)
unfolding reject
reject-Sound true e c v = Sound-err
reject-Sound false e c v = Sound-ok (refl, stay c, v)

pub reject-Runs :
    (test : Bool) (e : CoreError) (c : Cursor) (xs : List ℕ)
    → test ≡ false
    → At c xs
    → Runs tt (Reads c [] xs) (reject test e c)
unfolding reject
reject-Runs test e c xs h a = (c, rw h, stays c xs a)

pub ensure-Sound :
    (n : ℕ) (c : Cursor)
    → IsValid c
    → Sound (Checked (λ _. n ≤ length (remaining c)) c) (ensure_remaining n c)
unfolding ensure_remaining
ensure-Sound n c v =
    Sound-if (ltb (remaining_len c) n) (λ _. Sound-err)
      λ h. Sound-ok (omega (arith, ltb→le _ _ h, remaining_len-remaining c), stay c, v)

pub ensure-Runs :
    (n : ℕ) (c : Cursor) (xs : List ℕ)
    → n ≤ length xs
    → At c xs
    → Runs tt (Reads c [] xs) (ensure_remaining n c)
unfolding ensure_remaining
ensure-Runs n c xs h a =
    let fits : ltb (remaining_len c) n ≡ false =
      le→ltb _ _ (omega (arith, remaining_len-remaining c, ap length a.unread)) in
    (c, rw fits, stays c xs a)

pub checked_mul-Sound :
    (m n : ℕ) (e : CoreError) (c : Cursor)
    → IsValid c
    → Sound (Checked (λ p. p ≡ m * n) c) (checked_mul m n e c)
unfolding checked_mul
checked_mul-Sound m n e c v =
    Sound-if (leb usize_mod (m * n)) (λ _. Sound-err) λ _. Sound-ok (refl, stay c, v)

pub checked_mul-Runs :
    (m n : ℕ) (e : CoreError) (c : Cursor) (xs : List ℕ)
    → m * n < 2 ^ 64
    → At c xs
    → Runs (m * n) (Reads c [] xs) (checked_mul m n e c)
unfolding checked_mul
checked_mul-Runs m n e c xs h a =
    let fits : leb usize_mod (m * n) ≡ false = ground arith in (c, rw fits, stays c xs a)

pub or_fail-Sound :
    {A : Type 0} (o : Option A) (e : CoreError) (c : Cursor)
    → IsValid c
    → Sound (Checked (λ a. o ≡ some a) c) (or_fail o e c)
unfolding or_fail
or_fail-Sound none e c v = Sound-err
or_fail-Sound (some a) e c v = Sound-ok (refl, stay c, v)

pub or_fail-Runs :
    {A : Type 0} (o : Option A) (e : CoreError) (c : Cursor) (a : A) (xs : List ℕ)
    → o ≡ some a
    → At c xs
    → Runs a (Reads c [] xs) (or_fail o e c)
unfolding or_fail
or_fail-Runs o e c a xs h at = (c, rw h, stays c xs at)

module _ {ℓ} {A : Type ℓ} (test : Bool) (p q : Parser A) (c : Cursor) where
  pub branch-Sound :
      {Q : A → Cursor → Type 0}
      → (test ≡ true → Sound Q (p c))
      → (test ≡ false → Sound Q (q c))
      → Sound Q (branch test p q c)
  unfolding branch
  branch-Sound h k = Sound-if test h k

  pub branch-true :
      {a : A} {Q : Cursor → Type 0} → test ≡ true → Runs a Q (p c) → Runs a Q (branch test p q c)
  unfolding branch
  branch-true h r = rw h r

  pub branch-false :
      {a : A} {Q : Cursor → Type 0} → test ≡ false → Runs a Q (q c) → Runs a Q (branch test p q c)
  unfolding branch
  branch-false h r = rw h r
