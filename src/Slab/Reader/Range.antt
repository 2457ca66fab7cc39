-- ===== src/Slab/Reader/Range.antt =====
-- limnifs-core/src/slab_reader.rs: a range of a drop against the whole drop.
use limnifs.Prelude.{
  ℕ, ◌+◌, ◌-◌, ◌^◌, ◌≤◌, ◌<◌, ◌≡◌, refl, ap, inl, inr, true, false, not, Bool-cases, option_cases,
  Option, none, some, List, Result, ok, err, arith, ltb, leb, ◌==◌, ◌||◌, if◌then◌else◌, length,
  slice, else_ok, wrap_add_lem,
}
use limnifs.Error.{CoreError, corrupt, Section, Fault}
use limnifs.Codec.{Codec, IsLossless}
use limnifs.Cursor.{usize_mod}
use limnifs.Seekable.RoundTrip.{decode_seekable_range-decode_seekable}
use limnifs.Slab.Record.{DropRecord}
use limnifs.Slab.Reader.{
  SlabView, DictLookup, find_record, check_drop_readable, is_seekable, no_dict, decode_drop_bytes,
  decode_at, read_record, plaintext_for, plaintext_for_with_dict_lookup, drop_window_bounds,
  range_in, seekable_range, plaintext_range,
}

some_injective : {A : Type 0} {a b : A} → ◌≡◌ {A = Option A} (some a) (some b) → a ≡ b
some_injective p = cc

-- What a drop that was read says of its record and its range.
record Located (codec : Codec) (lookup : DictLookup) (view : SlabView) (r : DropRecord)
    (bytes : List ℕ) : Type 0 where
  word : view.solid_window_start + r.offset_in_window + r.len_in_window < usize_mod
  inside : view.solid_window_start + r.offset_in_window + r.len_in_window ≤ length view.bytes
  decoded :
      decode_drop_bytes codec lookup r
        (slice (view.solid_window_start + r.offset_in_window) r.len_in_window view.bytes)
      ≡ ok bytes

else_some :
    {A : Type 0} {x : Option A} {a : A} (test : _)
    → (if test then none else x) ≡ some a
    → (test ≡ false) × (x ≡ some a)
else_some true p = cc
else_some false p = (refl, p)

read_record_lem :
    (codec : Codec) (lookup : DictLookup) (view : SlabView) (r : DropRecord) (bytes : List ℕ)
    → read_record codec lookup view r ≡ some (ok bytes)
    → Located codec lookup view r bytes
unfolding read_record decode_at
read_record_lem codec lookup view r bytes e =
    let start = view.solid_window_start + r.offset_in_window in
    elim (option_cases (check_drop_readable r)) [
      | inr (x, c) ↦ let e' = simp (read_record, c) at e in cc
      | inl c ↦
          let e1 = simp (read_record, c) at e in
          let (t, e2) = else_some (leb usize_mod (start + r.len_in_window)) e1 in
          let e3 = some_injective e2 in
          let (u, e4) = else_ok _ (ltb (length view.bytes) (start + r.len_in_window)) e3 in
          record { word = ground (arith, t); inside = ground (arith, u); decoded = e4 }
    ]

-- The range's answer: bytes inside the plaintext, or some error.
abbrev Ranges : Option (Result CoreError (List ℕ)) → ℕ → ℕ → List ℕ → Type 0
Ranges answer off len bytes =
    (e : CoreError) × (answer
      ≡ some (if leb (off + len) (length bytes) then ok (slice off len bytes) else err e))

range_in_lem :
    (off len : ℕ) (bytes : List ℕ)
    → off + len < 2 ^ 64
    → Ranges (some (range_in off len (ok bytes))) off len bytes
unfolding range_in
range_in_lem off len bytes word = (
  corrupt Section.drop_read Fault.outside,
  elim (Bool-cases (leb (off + len) (length bytes))) [
    | inl t ↦
        let fits : (ltb (length bytes) off || ltb (length bytes) (off + len)) ≡ false =
          ground (arith, t) in
        let ordered : ltb (off + len) off ≡ false = ground arith in
        let width : off + len - off ≡ len = omega arith in
        simp (range_in, wrap_add_lem off len word, t, fits, ordered, width) refl
    | inr f ↦
        let out : (ltb (length bytes) off || ltb (length bytes) (off + len)) ≡ true =
          ground (arith, f) in
        simp (range_in, wrap_add_lem off len word, f, out) refl
  ],
)

seekable_range_lem :
    (codec : Codec) (view : SlabView) (r : DropRecord) (off len : ℕ) (bytes : List ℕ)
    → IsLossless codec
    → off + len < 2 ^ 64
    → is_seekable r ≡ true
    → Located codec (λ _. none) view r bytes
    → Ranges (some (seekable_range codec view r off len)) off len bytes
unfolding seekable_range drop_window_bounds decode_drop_bytes
seekable_range_lem codec view r off len bytes laws word t l =
    let start = view.solid_window_start + r.offset_in_window in
    let first : leb usize_mod start ≡ false = ground (arith, l.word) in
    let last : leb usize_mod (start + r.len_in_window) ≡ false = ground (arith, l.word) in
    let inside : ltb (length view.bytes) (start + r.len_in_window) ≡ false =
      ground (arith, l.inside) in
    let width : start + r.len_in_window - start ≡ r.len_in_window = omega arith in
    let e1 = simp (decode_drop_bytes, t) at l.decoded in
    let (_, run) = else_ok _ (not (r.dict_id == no_dict)) e1 in
    (
      corrupt Section.seekable Fault.outside,
      ap some (
          simp (seekable_range, drop_window_bounds, first, last, inside, width)
            (decode_seekable_range-decode_seekable codec r.representation.codec
              (slice start r.len_in_window view.bytes) r.plaintext_len off len bytes laws word
              run)),
    )

-- With a codec that gives the declared lengths: if a drop reads as a plaintext, then each range of it
-- whose end fits 64 bits reads as that range of the plaintext, through the seekable frames as well as by
-- slicing; such a range that ends behind the plaintext is an error.
pub plaintext_range-plaintext_for :
    (codec : Codec) (view : SlabView) (drop_id : List ℕ) (off len : ℕ) (bytes : List ℕ)
    → IsLossless codec
    → off + len < 2 ^ 64
    → plaintext_for codec view drop_id ≡ some (ok bytes)
    → (e : CoreError) × (plaintext_range codec view drop_id off len
        ≡ some (if leb (off + len) (length bytes) then ok (slice off len bytes) else err e))
unfolding plaintext_for plaintext_for_with_dict_lookup plaintext_range
plaintext_range-plaintext_for codec view drop_id off len bytes laws word e =
    elim (option_cases (find_record drop_id view.drop_records)) [
      | inl n ↦ let e' = simp (plaintext_for, plaintext_for_with_dict_lookup, n) at e in cc
      | inr (r, f) ↦ elim (Bool-cases (is_seekable r)) [
        | inl t ↦
            let e1 = simp (plaintext_for, plaintext_for_with_dict_lookup, f) at e in
            let (x, same) =
              seekable_range_lem codec view r off len bytes laws word t
                (read_record_lem codec _ view r bytes e1) in
            (x, simp (plaintext_range, f, t) same)
        | inr u ↦
            let (x, same) = range_in_lem off len bytes word in
            (x, simp (plaintext_range, f, u, e) same)
      ]
    ]
