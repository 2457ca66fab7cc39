-- ===== src/Cursor/Rules.antt =====
-- Reasoning about a chain of reads over limnifs-core/src/cursor.rs: what holds if it succeeds
-- (`Sound`), and that it succeeds with a given value (`Runs`).
use limnifs.Prelude.{ℕ, ◌≡◌, refl, ap, ◌∙◌, subst, List, Bool, true, false, ok, err, if◌then◌else◌}
use limnifs.Error.{CoreError}
use limnifs.Cursor.{Cursor, Outcome, Parser, continue, remaining}
use limnifs.Cursor.Steps.{IsValid, Steps}

module _ {ℓ} {A : Type ℓ} where
  -- On success, `Q` holds of the value and of the cursor.
  abbrev pub Post : (A → Cursor → Type 0) → Outcome A → Type 0
  Post Q (ok (a, c)) = Q a c
  Post Q (err e) = Unit

  pub record Sound (Q : A → Cursor → Type 0) (r : Outcome A) : Type 0 where
    pub holds : Post Q r

  pub Sound-ok : {Q : A → Cursor → Type 0} {a : A} {c : Cursor} → Q a c → Sound Q (ok (a, c))
  Sound-ok q = record { holds = q }

  pub Sound-err : {Q : A → Cursor → Type 0} {e : CoreError} → Sound Q (err e)
  Sound-err = record { holds = tt }

  pub Sound-if :
      {Q : A → Cursor → Type 0} (test : Bool) {x y : Outcome A}
      → (test ≡ true → Sound Q x)
      → (test ≡ false → Sound Q y)
      → Sound Q (if test then x else y)
  Sound-if true h k = h refl
  Sound-if false h k = k refl

  pub sound_use :
      {Q : A → Cursor → Type 0} {r : Outcome A} {a : A} {c : Cursor}
      → Sound Q r
      → r ≡ ok (a, c)
      → Q a c
  sound_use {Q} s e = subst (Post Q) e s.holds

  pub Sound-weaken :
      {R Q : A → Cursor → Type 0} {r : Outcome A}
      → Sound R r
      → ((a : A) (c : Cursor) → R a c → Q a c)
      → Sound Q r
  Sound-weaken {r = ok (a, c)} s k = Sound-ok (k a c s.holds)
  Sound-weaken {r = err e} s k = Sound-err

  -- The outcome is the value `a`, with a cursor at which `Q` holds.
  abbrev pub Runs : A → (Cursor → Type 0) → Outcome A → Type ℓ
  Runs a Q r = (c : Cursor) × (r ≡ ok (a, c)) × Q c

module _ {ℓ} {A : Type ℓ} where
  pub Runs-weaken :
      {a b : A} {R Q : Cursor → Type 0} {r : Outcome A}
      → Runs a R r
      → a ≡ b
      → ((c : Cursor) → R c → Q c)
      → Runs b Q r
  Runs-weaken (c, e, h) p k = (c, e ∙ ap (λ x. ok (x, c)) p, k c h)

module _ {ℓ κ} {A : Type ℓ} {B : Type κ} where
  pub Sound-bind :
      {R : A → Cursor → Type 0} {Q : B → Cursor → Type 0} {r : Outcome A} {f : A → Parser B}
      → Sound R r
      → ((a : A) (c : Cursor) → R a c → Sound Q (f a c))
      → Sound Q (continue r f)
  Sound-bind {r = ok (a, c)} s k = k a c s.holds
  Sound-bind {r = err e} s k = Sound-err

  pub Runs-bind :
      {a : A} {b : B} {R Q : Cursor → Type 0} {r : Outcome A} (f : A → Parser B)
      → Runs a R r
      → ((c : Cursor) → R c → Runs b Q (f a c))
      → Runs b Q (continue r f)
  Runs-bind f (c, e, h) k = let (c', e', q) = k c h in (c', ap (λ r. continue r f) e ∙ e', q)

-- A valid cursor before the unread bytes `xs`.
pub record At (c : Cursor) (xs : List ℕ) : Type 0 where
  pub valid : IsValid c
  pub unread : remaining c ≡ xs

-- What a read of the bytes `xs` before `rest` leaves.
abbrev pub Reads : Cursor → List ℕ → List ℕ → Cursor → Type 0
Reads c xs rest c' = Steps c xs c' × At c' rest

-- What a successful read says: `P` of the value, and that its encoding is what was read.
abbrev pub Took : {A : Type 0} → (A → Type 0) → (A → List ℕ) → Cursor → A → Cursor → Type 0
Took P encode c a c' = P a × Steps c (encode a) c' × IsValid c'
