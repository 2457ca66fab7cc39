-- ===== src/Slab/Store.antt =====
-- limnifs-core/src/slab_store.rs: all slabs of an image, with an index from drop ids to records. A slab's
-- bytes are the same in an owned buffer and in a memory map (SlabSource).
pub mod Index
use limnifs.Prelude.{
  ℕ, zero, suc, ◌+◌, ◌-◌, Bool, true, false, not, ◌||◌, Option, none, some, List, [], ◌∷◌, ◌++◌,
  Result, ok, err, ltb, leb, ◌==◌, if◌then◌else◌, bytes_eq, length, slice,
}
use limnifs.Error.{CoreError, corrupt, unsupported_feature, Section, Fault}
use limnifs.Codec.{Codec}
use limnifs.Cursor.{usize_mod}
use limnifs.Seekable.{decode_seekable, decode_seekable_range}
use limnifs.Slab.Record.{DropRecord}
use limnifs.Slab.Reader.{
  SlabView, DictLookup, no_dict, is_seekable, decode_with_dict, parse_slab, range_in,
}

pub record ParsedSlab : Type 0 where
  pub records : List DropRecord
  pub solid_window_start : ℕ

-- `HashMap<[u8; 32], (usize, usize)>`, a key at most once.
abbrev pub DropIndex : Type 0
DropIndex = List (List ℕ × (ℕ × ℕ))

unfoldable pub lookup : List ℕ → DropIndex → Option (ℕ × ℕ)
lookup key [] = none
lookup key ((k, v) ∷ index) = if bytes_eq k key then some v else lookup key index

unfoldable pub remove : List ℕ → DropIndex → DropIndex
remove key [] = []
remove key ((k, v) ∷ index) =
    let rest = remove key index in if bytes_eq k key then rest else (k, v) ∷ rest

-- `HashMap::insert`: the new value takes the place of an old one.
unfoldable pub insert : List ℕ → ℕ × ℕ → DropIndex → DropIndex
unfolding remove
insert key v index = (key, v) ∷ remove key index

-- `HashMap::extend`
unfoldable pub extend : DropIndex → List (List ℕ × (ℕ × ℕ)) → DropIndex
unfolding insert
extend index [] = index
extend index ((k, v) ∷ entries) = extend (insert k v index) entries

unfoldable pub entries_of : ℕ → ℕ → List DropRecord → List (List ℕ × (ℕ × ℕ))
entries_of ordinal ridx [] = []
entries_of ordinal ridx (r ∷ records) =
    (r.drop_id, (ordinal, ridx)) ∷ entries_of ordinal (ridx + 1) records

unfoldable pub parsed_of : SlabView → ParsedSlab
parsed_of view = record {
  records = view.drop_records;
  solid_window_start = view.solid_window_start;
}

unfoldable pub index_slab : List ℕ → ℕ → Result CoreError (ParsedSlab × List (List ℕ × (ℕ × ℕ)))
unfolding entries_of parsed_of
index_slab bytes ordinal = elim (parse_slab bytes) [
  | err e ↦ err e
  | ok view ↦ ok (parsed_of view, entries_of ordinal 0 view.drop_records)
]

pub record SlabStore : Type 0 where
  pub slabs : List (List ℕ)
  pub parsed : List ParsedSlab
  pub drop_index : DropIndex
  pub dictionaries : DictLookup

-- The loop over the slabs, from the one with the ordinal.
unfoldable pub index_slabs :
    ℕ → List (List ℕ) → List ParsedSlab → DropIndex → Result CoreError (List ParsedSlab × DropIndex)
unfolding extend index_slab
index_slabs ordinal [] parsed index = ok (parsed, index)
index_slabs ordinal (bytes ∷ slabs) parsed index = elim (index_slab bytes ordinal) [
  | err e ↦ err e
  | ok (slab, entries) ↦
      index_slabs (ordinal + 1) slabs (parsed ++ (slab ∷ [])) (extend index entries)
]

unfoldable pub from_bytes : List (List ℕ) → Result CoreError SlabStore
unfolding index_slabs
from_bytes slabs = elim (index_slabs 0 slabs [] []) [
  | err e ↦ err e
  | ok (parsed, index) ↦
      ok (record { slabs = slabs; parsed = parsed; drop_index = index; dictionaries = λ _. none })
]

unfoldable pub set_dictionaries : DictLookup → SlabStore → SlabStore
set_dictionaries dictionaries store = record store { dictionaries = dictionaries }

unfoldable pub slab_count : SlabStore → ℕ
slab_count store = length store.slabs

unfoldable pub drop_count : SlabStore → ℕ
drop_count store = length store.drop_index

unfoldable pub is_some {ℓ} : {A : Type ℓ} → Option A → Bool
is_some none = false
is_some (some a) = true

-- `contains_key`
unfoldable pub contains : SlabStore → List ℕ → Bool
unfolding lookup is_some
contains store drop_id = is_some (lookup drop_id store.drop_index)

-- `slice.get(i)`
unfoldable pub get {ℓ} : {A : Type ℓ} → List A → ℕ → Option A
get [] i = none
get (x ∷ xs) zero = some x
get (x ∷ xs) (suc i) = get xs i

-- `option?`
abbrev pub then_some {ℓ κ} : {A : Type ℓ} {B : Type κ} → Option A → (A → Option B) → Option B
then_some none f = none
then_some (some a) f = f a

-- A drop's slab, its record, and its range.
pub record Window : Type 0 where
  pub bytes : List ℕ
  pub r : DropRecord
  pub start : ℕ
  pub end : ℕ

unfoldable pub window_of : List ℕ → ℕ → DropRecord → Option Window
window_of bytes solid_window_start r =
    let start = solid_window_start + r.offset_in_window in
    let end = start + r.len_in_window in
    if leb usize_mod end
    then none
    else if ltb (length bytes) end
    then none
    else some (record { bytes = bytes; r = r; start = start; end = end })

unfoldable pub locate_window : SlabStore → List ℕ → Option Window
unfolding lookup get window_of
locate_window store drop_id = then_some (lookup drop_id store.drop_index) λ at.
    then_some (get store.slabs at.0) λ bytes.
      then_some (get store.parsed at.0)
        λ slab. then_some (get slab.records at.1) λ r. window_of bytes slab.solid_window_start r

unfoldable pub decode_drop : Codec → DictLookup → DropRecord → List ℕ → Result CoreError (List ℕ)
unfolding is_seekable decode_with_dict
decode_drop codec dict_lookup r raw =
    if is_seekable r
    then if not (r.dict_id == no_dict)
      then err (unsupported_feature Section.drop_read Fault.bad_flag)
      else decode_seekable codec r.representation.codec raw r.plaintext_len
    else if not (r.representation.aead == 0)
    then err (unsupported_feature Section.drop_read Fault.unexpected_aead)
    else if not (r.solid_window_index == 0)
    then err (unsupported_feature Section.drop_read Fault.reserved_nonzero)
    else if r.dict_id == no_dict
    then codec.decompress r.representation.codec raw r.plaintext_len
    else decode_with_dict codec r raw (dict_lookup r.dict_id)

unfoldable pub raw_of : Window → List ℕ
raw_of w = slice w.start (w.end - w.start) w.bytes

unfoldable pub plaintext_of : Codec → DictLookup → Window → Result CoreError (List ℕ)
unfolding decode_drop raw_of
plaintext_of codec dict_lookup w = decode_drop codec dict_lookup w.r (raw_of w)

unfoldable pub plaintext_for : Codec → SlabStore → List ℕ → Option (Result CoreError (List ℕ))
unfolding locate_window plaintext_of
plaintext_for codec store drop_id =
    then_some (locate_window store drop_id) λ w. some (plaintext_of codec store.dictionaries w)

unfoldable pub range_of : Codec → DictLookup → Window → ℕ → ℕ → Result CoreError (List ℕ)
unfolding is_seekable raw_of plaintext_of range_in
range_of codec dict_lookup w off len =
    if is_seekable w.r
    then decode_seekable_range codec w.r.representation.codec (raw_of w) off len
    else range_in off len (plaintext_of codec dict_lookup w)

unfoldable pub plaintext_range :
    Codec → SlabStore → List ℕ → ℕ → ℕ → Option (Result CoreError (List ℕ))
unfolding locate_window range_of
plaintext_range codec store drop_id off len =
    then_some (locate_window store drop_id) λ w. some (range_of codec store.dictionaries w off len)

unfoldable pub raw_window : SlabStore → List ℕ → Option (List ℕ × DropRecord)
unfolding locate_window raw_of
raw_window store drop_id = then_some (locate_window store drop_id) λ w. some (raw_of w, w.r)

unfoldable pub drop_is_seekable : SlabStore → List ℕ → Option Bool
unfolding locate_window is_seekable
drop_is_seekable store drop_id = then_some (locate_window store drop_id) λ w. some (is_seekable w.r)
