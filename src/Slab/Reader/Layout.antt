-- ===== src/Slab/Reader/Layout.antt =====
-- limnifs-core/src/slab_reader.rs: a parsed slab against the layout of its bytes.
use limnifs.Prelude.{
  ℕ, suc, ◌+◌, ◌*◌, ◌^◌, ◌<◌, ◌≡◌, refl, ap, subst, ◌∙◌, true, not, List, ◌++◌, append_assoc, ok,
  err, arith, ◌==◌, eq_of_not_ne, length, length-append, All, ok_injective,
}
use limnifs.Prelude.Bytes.{IsByte, to_le_bytes}
use limnifs.Cursor.{Cursor, Outcome, remaining, position, new}
use limnifs.Cursor.Steps.{IsValid, follow, after}
use limnifs.Cursor.Rules.{Sound, Sound-ok, Sound-bind, Runs-bind, At}
use limnifs.Cursor.Guards.{reject-Sound, reject-Runs}
use limnifs.Slab.Header.{SlabHeader, parse_slab_header, default_slab_max_bytes, slab_header_len}
use limnifs.Slab.Record.{drop_record_len}
use limnifs.Slab.Header
use limnifs.Slab.Reader.{SlabView, parse_slab_from, parse_slab, value_of}
use limnifs.Slab.Reader.Bounds.{
  IsRecord, encode_records, window_len, length-encode_records, walk-Sound, walk-Runs,
}

-- Header, records, window; the window is as long as the records say, and follows the last of them.
pub record IsLaidOut (view : SlabView) (window : List ℕ) : Type 0 where
  pub header : Header.RoundTrip.IsWellFormed default_slab_max_bytes view.header
  pub records : All (IsRecord view.header) view.drop_records
  pub bytes :
      view.bytes
      ≡ Header.RoundTrip.encode view.header ++ (encode_records view.drop_records ++ window)
  pub sums : length window ≡ window_len view.drop_records
  pub total : view.header.total_length ≡ length view.bytes
  pub start : view.solid_window_start ≡ slab_header_len + length view.drop_records * drop_record_len

pub length-encode_header :
    (h : SlabHeader)
    → Header.RoundTrip.IsWellFormed default_slab_max_bytes h
    → length (Header.RoundTrip.encode h) ≡ slab_header_len
unfolding Header.RoundTrip.encode to_le_bytes
length-encode_header h w = omega (arith, w.hash, length-append h.slab_id.hash _)

pub new-IsValid : (bytes : List ℕ) → length bytes < 2 ^ 63 → All IsByte bytes → IsValid (new bytes)
unfolding new
new-IsValid bytes small are = record { fits = small; inside = omega arith; are_bytes = are }

pub new-At : (bytes : List ℕ) → length bytes < 2 ^ 63 → All IsByte bytes → At (new bytes) bytes
unfolding new remaining
new-At bytes small are = record { valid = new-IsValid bytes small are; unread = refl }

-- What the parser leaves, on a cursor before all of the bytes.
abbrev Parsed : List ℕ → SlabView → Cursor → Type 0
Parsed bytes view c' = (view.bytes ≡ bytes) × IsLaidOut view (remaining c')

parse-Sound :
    (bytes : List ℕ)
    → length bytes < 2 ^ 63
    → All IsByte bytes
    → Sound (Parsed bytes) (parse_slab_from bytes (new bytes))
unfolding parse_slab_from parse_slab_header position new remaining
parse-Sound bytes small are =
    let c = new bytes in
    Sound-bind (Header.RoundTrip.parse-Sound default_slab_max_bytes c (new-IsValid bytes small are))
      λ h c1 (w, s1, v1). Sound-bind (reject-Sound _ _ c1 v1) λ _ c2 (h2, s2, v2).
        Sound-bind (walk-Sound (suc (length bytes)) h 0 c2 v2) λ rs c3 k.
          let total : h.total_length ≡ length bytes =
            eq_of_not_ne h.total_length (length bytes) h2 in
          let all = follow (after s1 s2) k.steps in
          let head = length-encode_header h w in
          let records = length-encode_records h rs k.records in
          let both = length-append (Header.RoundTrip.encode h) (encode_records rs) in
          let split : bytes ≡ (Header.RoundTrip.encode h ++ encode_records rs) ++ remaining c3 =
            all.split in
          Sound-ok (
            refl,
            record {
              header = w;
              records = k.records;
              bytes =
                  split
                  ∙ append_assoc (Header.RoundTrip.encode h) (encode_records rs) (remaining c3);
              sums = omega (
                arith,
                k.window,
                total,
                all.moved,
                ap length split,
                length-append (Header.RoundTrip.encode h ++ encode_records rs) (remaining c3),
              );
              total = total;
              start = omega (arith, all.moved, head, records, both);
            },
          )

value_of_lem :
    {Q : SlabView → Cursor → Type 0} (o : Outcome SlabView) (view : SlabView)
    → Sound Q o
    → value_of o ≡ ok view
    → (c : Cursor) × Q view c
unfolding value_of
value_of_lem {Q} (ok (a, c)) view s e = (c, subst (λ x. Q x c) (ok_injective e) s.holds)
value_of_lem (err x) view s e = cc

-- What `parse_slab` accepts, of bytes that fit a slice, is a slab's layout: a well-formed header that
-- declares the buffer's length, well-formed records one behind the other, and behind the last one the
-- window, exactly as long as the records' window lengths add up to.
pub parse_slab_canonical :
    (bytes : List ℕ) (view : SlabView)
    → length bytes < 2 ^ 63
    → All IsByte bytes
    → parse_slab bytes ≡ ok view
    → (view.bytes ≡ bytes) × ((window : List ℕ) × IsLaidOut view window)
unfolding parse_slab
parse_slab_canonical bytes view small are e =
    let (c, (same, w)) = value_of_lem _ view (parse-Sound bytes small are) e in
    (same, (remaining c, w))

-- The bytes of any laid out view, of records of any codec and plaintext length, parse to that view:
-- the walk finds the window behind exactly the records, by the sum of their window lengths, and does
-- not run out of fuel.
pub parse_slab-encode :
    (view : SlabView) (window : List ℕ)
    → All IsByte view.bytes
    → IsLaidOut view window
    → parse_slab view.bytes ≡ ok view
unfolding parse_slab parse_slab_from parse_slab_header position new value_of remaining
parse_slab-encode view window are w =
    let bytes = view.bytes in
    let h = view.header in
    let rs = view.drop_records in
    let max = w.header.short in
    let small : length bytes < 2 ^ 63 = omega (arith, w.total, max) in
    let head = length-encode_header h w.header in
    let records = length-encode_records h rs w.records in
    let inner = length-append (encode_records rs) window in
    let size =
      ap length w.bytes ∙ length-append (Header.RoundTrip.encode h) (encode_records rs ++ window) in
    let at = new-At bytes small are in
    let at' : At (new bytes) (Header.RoundTrip.encode h ++ (encode_records rs ++ window)) = record {
      valid = at.valid;
      unread = at.unread ∙ w.bytes;
    } in
    let (c3, run, _) =
      Runs-bind {b = view} {Q = λ _. Unit} _
        (Header.RoundTrip.parse-Runs default_slab_max_bytes h (new bytes) _ w.header at')
        λ c1 (s1, a1).
          Runs-bind _
            (reject-Runs _ _ c1 _ (ap not (==_iff' h.total_length (length bytes) w.total)) a1)
            λ c2 (s2, a2).
              Runs-bind _
                (walk-Runs (suc (length bytes)) h 0 c2 rs window w.records a2
                  (omega (arith, size, inner, records))
                  (omega (arith, (after s1 s2).moved, head, size, inner, records, w.total, w.sums))
                  (omega (arith, size, inner, w.sums, small)))
                λ c3 (s3, a3). (
                  c3,
                  ap (λ n. ok (record view { solid_window_start = n }, c3))
                      (omega (
                        arith,
                        (follow (after s1 s2) s3).moved,
                        length-append (Header.RoundTrip.encode h) (encode_records rs),
                        head,
                        records,
                        w.start,
                      )),
                  tt,
                ) in
    ap value_of run
  where
    ==_iff' : (a b : ℕ) → a ≡ b → (a == b) ≡ true
    ==_iff' a b e = ground (arith, e)
