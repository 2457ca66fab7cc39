-- ===== src/Epoch/Named.antt =====
-- limnifs-core/src/epoch: reads whose errors are all the section's truncation (`map_err`).
use limnifs.Prelude.{ap, ok, err}
use limnifs.Error.{corrupt, Section, Fault}
use limnifs.Cursor.{Cursor, Outcome, Parser}
use limnifs.Cursor.Rules.{Sound, Sound-err, Runs}

unfoldable pub relabel {ℓ} : {A : Type ℓ} → Section → Outcome A → Outcome A
relabel section (ok x) = ok x
relabel section (err e) = err (corrupt section Fault.truncated)

-- `read.map_err(..)?`
unfoldable pub named {ℓ} : {A : Type ℓ} → Section → Parser A → Parser A
unfolding relabel
named section p c = relabel section (p c)

relabel-Sound :
    {A : Type 0} {Q : A → Cursor → Type 0} (section : Section) (o : Outcome A)
    → Sound Q o
    → Sound Q (relabel section o)
unfolding relabel
relabel-Sound section (ok x) s = s
relabel-Sound section (err e) s = Sound-err

pub named-Sound :
    {A : Type 0} {Q : A → Cursor → Type 0} (section : Section) (p : Parser A) (c : Cursor)
    → Sound Q (p c)
    → Sound Q (named section p c)
unfolding named
named-Sound section p c s = relabel-Sound section (p c) s

pub named-Runs :
    {A : Type 0} {a : A} {Q : Cursor → Type 0} (section : Section) (p : Parser A) (c : Cursor)
    → Runs a Q (p c)
    → Runs a Q (named section p c)
unfolding named relabel
named-Runs section p c (c', e, q) = (c', ap (relabel section) e, q)
