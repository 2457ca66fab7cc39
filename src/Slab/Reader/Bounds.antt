-- ===== src/Slab/Reader/Bounds.antt =====
-- limnifs-core/src/slab_reader.rs: the walk over a slab's records against the layout of a slab.
use limnifs.Prelude.{
  ℕ, zero, suc, ◌+◌, ◌*◌, ◌^◌, ◌≤◌, ◌<◌, ◌≡◌, refl, sym, true, false, List, [], ◌∷◌, ◌++◌,
  append_assoc, Result, ok, err, arith, leb, length, length-append, sum, All, else_ok, ok_injective,
}
use limnifs.Prelude.Bytes.{to_le_bytes}
use limnifs.Error.{CoreError}
use limnifs.Cursor.{Cursor, Outcome, position}
use limnifs.Cursor.Steps.{IsValid, Steps, stay, follow, after}
use limnifs.Cursor.Rules.{Sound, Sound-ok, Sound-err, Sound-bind, Runs, Runs-bind, At, Reads}
use limnifs.Cursor.Loops.{encode_list}
use limnifs.Slab.Header.{SlabHeader}
use limnifs.Slab.Record.{
  DropRecord, parse_drop_record, drop_record_len, default_drop_max_plaintext_bytes,
}
use limnifs.Format.{representation_to_bytes}
use limnifs.Slab.Record
use limnifs.Slab.Reader.{at_window, add_window, lift, stop_or, walk_records}

abbrev pub IsRecord : SlabHeader → DropRecord → Type 0
IsRecord header r = Record.RoundTrip.IsWellFormed header default_drop_max_plaintext_bytes r

abbrev pub encode_records : List DropRecord → List ℕ
encode_records rs = encode_list Record.RoundTrip.encode rs

-- `Σ len_in_window`
unfoldable pub window_len : List DropRecord → ℕ
window_len [] = 0
window_len (r ∷ rs) = r.len_in_window + window_len rs

pub length-encode_record :
    (header : SlabHeader) (r : DropRecord)
    → IsRecord header r
    → length (Record.RoundTrip.encode r) ≡ drop_record_len
unfolding Record.RoundTrip.encode representation_to_bytes to_le_bytes
length-encode_record header r w = omega (arith, w.id, length-append r.drop_id _)

pub length-encode_records :
    (header : SlabHeader) (rs : List DropRecord)
    → All (IsRecord header) rs
    → length (encode_records rs) ≡ length rs * drop_record_len
length-encode_records header [] w = omega arith
length-encode_records header (r ∷ rs) (w, ws) = omega (
  arith,
  length-encode_record header r w,
  length-encode_records header rs ws,
  length-append (Record.RoundTrip.encode r) (encode_records rs),
)

at_window_stop : (total pos n : ℕ) → at_window total pos n ≡ ok true → pos + n ≡ total
unfolding at_window
at_window_stop total pos n e = grind (arith, e)

at_window_go :
    (total pos n : ℕ) → at_window total pos n ≡ ok false → pos + n + drop_record_len ≤ total
unfolding at_window
at_window_go total pos n e = grind (arith, e)

pub at_window_end : (total pos n : ℕ) → pos + n ≡ total → at_window total pos n ≡ ok true
unfolding at_window
at_window_end total pos n e = grind (arith, e)

pub at_window_record :
    (total pos n : ℕ) → pos + n + drop_record_len ≤ total → at_window total pos n ≡ ok false
unfolding at_window
at_window_record total pos n e = grind (arith, e)

add_window_lem :
    (n m : ℕ) (r : DropRecord) → add_window n r ≡ ok m → (m ≡ n + r.len_in_window) × (m < 2 ^ 64)
unfolding add_window
add_window_lem n m r e =
    let (t, same) = else_ok _ (leb (2 ^ 64) (n + r.len_in_window)) e in
    let sum = ok_injective same in (sym sum, ground (arith, t, sum))

stop_or-Sound :
    {Q : List DropRecord → Cursor → Type 0} (o : Result CoreError _)
    (more : Cursor → Outcome (List DropRecord)) (c : Cursor)
    → (o ≡ ok true → Q [] c)
    → (o ≡ ok false → Sound Q (more c))
    → Sound Q (stop_or o more c)
unfolding stop_or
stop_or-Sound (err e) more c h k = Sound-err
stop_or-Sound (ok true) more c h k = Sound-ok (h refl)
stop_or-Sound (ok false) more c h k = k refl

lift-Sound :
    {A : Type 0} (o : Result CoreError A) (c : Cursor)
    → IsValid c
    → Sound (λ a c'. (o ≡ ok a) × Steps c [] c' × IsValid c') (lift o c)
unfolding lift
lift-Sound (ok a) c v = Sound-ok (refl, stay c, v)
lift-Sound (err e) c v = Sound-err

-- What a walk from `c` with `n` window bytes so far gives.
pub record Walked (header : SlabHeader) (n : ℕ) (c : Cursor) (rs : List DropRecord) (c' : Cursor)
    : Type 0 where
  pub records : All (IsRecord header) rs
  pub steps : Steps c (encode_records rs) c'
  pub valid : IsValid c'
  pub window : c'.pos + (n + window_len rs) ≡ header.total_length

pub walk-Sound :
    (fuel : ℕ) (header : SlabHeader) (n : ℕ) (c : Cursor)
    → IsValid c
    → Sound (Walked header n c) (walk_records fuel header n c)
unfolding walk_records window_len position parse_drop_record
walk-Sound zero header n c v = Sound-err
walk-Sound (suc fuel) header n c v =
    stop_or-Sound (at_window header.total_length c.pos n) _ c
      (λ e. record {
        records = tt;
        steps = stay c;
        valid = v;
        window = omega (arith, at_window_stop header.total_length c.pos n e);
      })
      λ e.
        Sound-bind (Record.RoundTrip.parse-Sound header default_drop_max_plaintext_bytes c v)
          λ r c1 (w, s1, v1). Sound-bind (lift-Sound (add_window n r) c1 v1) λ m c2 (sum, s2, v2).
            Sound-bind (walk-Sound fuel header m c2 v2) λ rs c3 k. Sound-ok (record {
              records = (w, k.records);
              steps = follow (after s1 s2) k.steps;
              valid = k.valid;
              window = omega (arith, k.window, (add_window_lem n m r sum).0);
            })

lift-Runs :
    {A : Type 0} (o : Result CoreError A) (a : A) (c : Cursor) (xs : List ℕ)
    → o ≡ ok a
    → At c xs
    → Runs a (Reads c [] xs) (lift o c)
unfolding lift
lift-Runs o a c xs e at = rw e (c, refl, (stay c, at))

pub add_window_fits :
    (n : ℕ) (r : DropRecord)
    → n + r.len_in_window < 2 ^ 64
    → add_window n r ≡ ok (n + r.len_in_window)
unfolding add_window
add_window_fits n r h =
    let fits : leb (2 ^ 64) (n + r.len_in_window) ≡ false = ground (arith, h) in rw fits refl

pub walk-Runs :
    (fuel : ℕ) (header : SlabHeader) (n : ℕ) (c : Cursor) (rs : List DropRecord) (rest : List ℕ)
    → All (IsRecord header) rs
    → At c (encode_records rs ++ rest)
    → length rs < fuel
    → c.pos + (n + window_len rs) + length rs * drop_record_len ≡ header.total_length
    → n + window_len rs < 2 ^ 64
    → Runs rs (Reads c (encode_records rs) rest) (walk_records fuel header n c)
unfolding walk_records window_len position parse_drop_record stop_or
walk-Runs zero header n c rs rest w a l e small = absurd (omega (arith, l))
walk-Runs (suc fuel) header n c [] rest w a l e small =
    rw (at_window_end header.total_length c.pos n (omega (arith, e))) (c, refl, (stay c, a))
walk-Runs (suc fuel) header n c (r ∷ rs) rest (w, ws) a l e small =
    let a' = simp append_assoc at a in
    let goes = at_window_record header.total_length c.pos n (omega (arith, e)) in
    let sum = add_window_fits n r (omega (arith, small)) in
    rw goes (
      Runs-bind _ (Record.RoundTrip.parse-Runs header default_drop_max_plaintext_bytes r c _ w a')
        λ c1 (s1, a1). Runs-bind _ (lift-Runs (add_window n r) _ c1 _ sum a1) λ c2 (s2, a2).
          Runs-bind _
            (walk-Runs fuel header (n + r.len_in_window) c2 rs rest ws a2 (omega (arith, l))
              (omega (arith, e, s1.moved, s2.moved, length-encode_record header r w))
              (omega (arith, small)))
            λ c3 (s3, a3). (c3, refl, (follow (after s1 s2) s3, a3)))
