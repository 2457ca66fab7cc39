-- ===== src/Slab/Reader.antt =====
-- limnifs-core/src/slab_reader.rs: a slab in memory, its drop records, and the drops' bytes.
pub mod Bounds
pub mod Layout
pub mod Range
use limnifs.Prelude.{
  ℕ, zero, suc, ◌+◌, ◌-◌, ◌^◌, bit_and, Bool, true, false, not, ◌&&◌, ◌||◌, Option, none, some,
  List, [], ◌∷◌, ◌++◌, Result, ok, err, ltb, leb, ◌==◌, if◌then◌else◌, bytes_eq, length, slice, sum,
  map, wrap_add,
}
use limnifs.Error.{CoreError, corrupt, unsupported_feature, Section, Fault}
use limnifs.Codec.{Codec}
use limnifs.Cursor.{
  Cursor, Outcome, Parser, ◌>>=◌, ◌>>◌, return, fail, reject, new, position, usize_mod,
}
use limnifs.Seekable.{decode_seekable, decode_seekable_range}
use limnifs.Slab.Header.{SlabHeader, parse_slab_header}
use limnifs.Slab.Record.{DropRecord, drop_record_len, parse_drop_record}

pub record SlabView : Type 0 where
  pub bytes : List ℕ
  pub header : SlabHeader
  pub drop_records : List DropRecord
  pub solid_window_start : ℕ

abbrev pub no_dict : ℕ
no_dict = 0xff

abbrev pub drop_flag_seekable : ℕ
drop_flag_seekable = 1

-- `drop_records.iter().find(|r| r.drop_id == drop_id)`
unfoldable pub find_record : List ℕ → List DropRecord → Option DropRecord
find_record drop_id [] = none
find_record drop_id (r ∷ records) =
    if bytes_eq r.drop_id drop_id then some r else find_record drop_id records

-- The error that keeps a record from being read.
unfoldable pub check_drop_readable : DropRecord → Option CoreError
check_drop_readable r =
    if not (r.representation.aead == 0)
    then some (unsupported_feature Section.drop_read Fault.unexpected_aead)
    else if not (r.solid_window_index == 0)
    then some (unsupported_feature Section.drop_read Fault.reserved_nonzero)
    else none

unfoldable pub is_seekable : DropRecord → Bool
is_seekable r = not (bit_and r.flags drop_flag_seekable == 0)

abbrev pub DictLookup : Type 0
DictLookup = ℕ → Option (List ℕ)

unfoldable pub decode_with_dict :
    Codec → DropRecord → List ℕ → Option (List ℕ) → Result CoreError (List ℕ)
decode_with_dict codec r raw none = err (corrupt Section.drop_read Fault.unknown_code)
decode_with_dict codec r raw (some dict_bytes) =
    codec.decompress_with_dict raw r.plaintext_len dict_bytes

unfoldable pub decode_drop_bytes :
    Codec → DictLookup → DropRecord → List ℕ → Result CoreError (List ℕ)
unfolding is_seekable decode_with_dict
decode_drop_bytes codec dict_lookup r raw =
    if is_seekable r
    then if not (r.dict_id == no_dict)
      then err (unsupported_feature Section.drop_read Fault.bad_flag)
      else decode_seekable codec r.representation.codec raw r.plaintext_len
    else if r.dict_id == no_dict
    then codec.decompress r.representation.codec raw r.plaintext_len
    else decode_with_dict codec r raw (dict_lookup r.dict_id)

-- How the walk goes on at `pos` with the window bytes `window_len_sum` of the records so far: it is
-- at the window, before one more record, or in error.
unfoldable pub at_window : ℕ → ℕ → ℕ → Result CoreError Bool
at_window total_length pos window_len_sum =
    let remaining = total_length - pos in
    if ltb total_length pos
    then err (corrupt Section.slab Fault.overflow)
    else if remaining == window_len_sum
    then ok true
    else if ltb remaining window_len_sum
    then err (corrupt Section.slab Fault.overrun)
    else if ltb (remaining - window_len_sum) drop_record_len
    then err (corrupt Section.slab Fault.truncated)
    else ok false

-- `window_len_sum.checked_add(record.len_in_window)`
unfoldable pub add_window : ℕ → DropRecord → Result CoreError ℕ
add_window window_len_sum r =
    if leb (2 ^ 64) (window_len_sum + r.len_in_window)
    then err (corrupt Section.slab Fault.overflow)
    else ok (window_len_sum + r.len_in_window)

-- `value?` in a parser.
unfoldable pub lift {ℓ} : {A : Type ℓ} → Result CoreError A → Parser A
lift (ok a) c = ok (a, c)
lift (err e) c = err e

-- The walk stops at the window, and else goes on.
unfoldable pub stop_or : Result CoreError Bool → Parser (List DropRecord) → Parser (List DropRecord)
stop_or (err e) more c = err e
stop_or (ok true) more c = ok ([], c)
stop_or (ok false) more c = more c

-- The loop over the records, with fuel.
unfoldable pub walk_records : ℕ → SlabHeader → ℕ → Parser (List DropRecord)
unfolding at_window add_window lift position stop_or
walk_records zero header window_len_sum c = err (corrupt Section.slab Fault.overrun)
walk_records (suc fuel) header window_len_sum c =
    stop_or (at_window header.total_length (position c) window_len_sum)
      (do
        r ← parse_drop_record header
        window_len_sum1 ← lift (add_window window_len_sum r)
        records ← walk_records fuel header window_len_sum1
        return (r ∷ records))
      c

-- A record takes bytes of the slab, so its length is fuel enough.
unfoldable pub parse_slab_from : List ℕ → Parser SlabView
unfolding walk_records position
parse_slab_from bytes = do
  header ← parse_slab_header
  reject (not (header.total_length == length bytes)) (corrupt Section.slab Fault.length_mismatch)
  drop_records ← walk_records (suc (length bytes)) header 0
  λ c. ok (
    record {
      bytes = bytes;
      header = header;
      drop_records = drop_records;
      solid_window_start = position c;
    },
    c,
  )

unfoldable pub value_of {ℓ} : {A : Type ℓ} → Outcome A → Result CoreError A
value_of (ok (a, c)) = ok a
value_of (err e) = err e

unfoldable pub parse_slab : List ℕ → Result CoreError SlabView
unfolding parse_slab_from value_of new
parse_slab bytes = value_of (parse_slab_from bytes (new bytes))

-- The range of a record whose start and end are `usize` values, decoded if it lies in the slab.
unfoldable pub decode_at :
    Codec → DictLookup → SlabView → DropRecord → ℕ → Result CoreError (List ℕ)
unfolding decode_drop_bytes
decode_at codec dict_lookup view r start =
    if ltb (length view.bytes) (start + r.len_in_window)
    then err (corrupt Section.drop_read Fault.outside)
    else decode_drop_bytes codec dict_lookup r (slice start r.len_in_window view.bytes)

unfoldable pub read_record :
    Codec → DictLookup → SlabView → DropRecord → Option (Result CoreError (List ℕ))
unfolding check_drop_readable decode_at
read_record codec dict_lookup view r =
    let start = view.solid_window_start + r.offset_in_window in
    elim (check_drop_readable r) [
      | some e ↦ some (err e)
      | none ↦
          if leb usize_mod (start + r.len_in_window)
          then none
          else some (decode_at codec dict_lookup view r start)
    ]

unfoldable pub plaintext_for_with_dict_lookup :
    Codec → DictLookup → SlabView → List ℕ → Option (Result CoreError (List ℕ))
unfolding find_record read_record
plaintext_for_with_dict_lookup codec dict_lookup view drop_id =
    elim (find_record drop_id view.drop_records) [
      | none ↦ none
      | some r ↦ read_record codec dict_lookup view r
    ]

unfoldable pub plaintext_for : Codec → SlabView → List ℕ → Option (Result CoreError (List ℕ))
unfolding plaintext_for_with_dict_lookup
plaintext_for codec = plaintext_for_with_dict_lookup codec (λ _. none)

unfoldable pub drop_window_bounds : SlabView → DropRecord → Result CoreError (ℕ × ℕ)
drop_window_bounds view r =
    let start = view.solid_window_start + r.offset_in_window in
    let end = start + r.len_in_window in
    if leb usize_mod start
    then err (corrupt Section.drop_read Fault.overflow)
    else if leb usize_mod end
    then err (corrupt Section.drop_read Fault.overflow)
    else if ltb (length view.bytes) end
    then err (corrupt Section.drop_read Fault.outside)
    else ok (start, end)

-- The range of a decoded drop.
unfoldable pub range_in : ℕ → ℕ → Result CoreError (List ℕ) → Result CoreError (List ℕ)
unfolding wrap_add
range_in off len (err e) = err e
range_in off len (ok bytes) =
    let end = wrap_add off len in
    if ltb (length bytes) off || ltb (length bytes) end
    then err (corrupt Section.drop_read Fault.outside)
    else if ltb end off
    then err (corrupt Section.drop_read Fault.panic)
    else ok (slice off (end - off) bytes)

unfoldable pub seekable_range : Codec → SlabView → DropRecord → ℕ → ℕ → Result CoreError (List ℕ)
unfolding drop_window_bounds
seekable_range codec view r off len = elim (drop_window_bounds view r) [
  | err e ↦ err e
  | ok (start, end) ↦
      decode_seekable_range codec r.representation.codec (slice start (end - start) view.bytes) off
        len
]

unfoldable pub plaintext_range :
    Codec → SlabView → List ℕ → ℕ → ℕ → Option (Result CoreError (List ℕ))
unfolding find_record is_seekable seekable_range plaintext_for range_in
plaintext_range codec view drop_id off len = elim (find_record drop_id view.drop_records) [
  | none ↦ none
  | some r ↦
      if is_seekable r
      then some (seekable_range codec view r off len)
      else elim (plaintext_for codec view drop_id) [
        | none ↦ none
        | some plaintext ↦ some (range_in off len plaintext)
      ]
]
