-- ===== src/Tests/Slab.antt =====
-- The theorems on slabs in memory and behind the page cache (limnifs-core/src/slab_reader.rs and
-- paged_slab.rs) at a slab of one stored drop.
use limnifs.Prelude.{
  ℕ, ◌≡◌, refl, ◌+◌, List, [], ◌∷◌, none, some, Result, ok, err, if◌then◌else◌, arith, leb, length,
  slice, All, replicate, bytes_eq, inr, ◌⊎◌,
}
use limnifs.Prelude.Bytes.{IsByte, to_le_bytes}
use limnifs.Error.{CoreError}
use limnifs.Format.{representation_to_bytes}
use limnifs.Slab.Header.{SlabHeader}
use limnifs.Slab.Header.RoundTrip as HeaderLayout
use limnifs.Slab.Record.{DropRecord}
use limnifs.Slab.Record.RoundTrip as RecordLayout
use limnifs.Slab.Reader.{
  SlabView, parse_slab, plaintext_for, plaintext_range, plaintext_for_with_dict_lookup, find_record,
  read_record, check_drop_readable, decode_at, decode_drop_bytes, is_seekable,
}
use limnifs.Slab.Reader.Bounds.{window_len}
use limnifs.Slab.Reader.Layout.{IsLaidOut, parse_slab_canonical, parse_slab-encode}
use limnifs.Slab.Reader.Range.{plaintext_range-plaintext_for}
use limnifs.Paged.{PagedBytes, read_at}
use limnifs.Paged.Run.{IsCoherent}
use limnifs.Paged.Read.{Gives, read_at-slice}
use limnifs.Paged.Slab.{fetch_plaintext}
use limnifs.Paged.Slab.Parity.{slab_of, fetch_plaintext-plaintext_for}
use limnifs.Slab.Store.{
  SlabStore, from_bytes, index_slabs, index_slab, extend, insert, entries_of, parsed_of,
  locate_window, window_of,
}
use limnifs.Slab.Store.{remove}
use limnifs.Slab.Store.Index.{Absent, Holds, locate_window-from_bytes}
use limnifs.Tests.Seekable.{stored, stored-IsLossless}

abbrev header : SlabHeader
header = record {
  format_version = 1;
  slab_id = record { ordinal = 0; hash = replicate 32 8 };
  total_length = 109;
  ec_descriptor = 0;
  crypto_hint = 0;
}

abbrev drop_id : List ℕ
drop_id = replicate 32 6

abbrev drop : DropRecord
drop = record {
  drop_id = drop_id;
  plaintext_len = 3;
  representation = record { codec = 0; aead = 0; ec = 0 };
  solid_window_index = 0;
  offset_in_window = 0;
  len_in_window = 3;
  dict_id = 0xff;
  flags = 0;
}

abbrev plaintext : List ℕ
plaintext = 1 ∷ 2 ∷ 3 ∷ []

abbrev slab : List ℕ
slab =
    76 ∷ 73 ∷ 77 ∷ 49 ∷ 1 ∷ 0 ∷ 0 ∷ 0 ∷ 0 ∷ 0 ∷ 0 ∷ 0 ∷ 0 ∷ 0 ∷ 8 ∷ 8 ∷ 8 ∷ 8 ∷ 8 ∷ 8 ∷ 8 ∷ 8 ∷ 8
    ∷ 8 ∷ 8 ∷ 8 ∷ 8 ∷ 8 ∷ 8 ∷ 8 ∷ 8 ∷ 8 ∷ 8 ∷ 8 ∷ 8 ∷ 8 ∷ 8 ∷ 8 ∷ 8 ∷ 8 ∷ 8 ∷ 8 ∷ 8 ∷ 8 ∷ 8 ∷ 8
    ∷ 109 ∷ 0 ∷ 0 ∷ 0 ∷ 0 ∷ 0 ∷ 0 ∷ 0 ∷ 0 ∷ 0 ∷ 6 ∷ 6 ∷ 6 ∷ 6 ∷ 6 ∷ 6 ∷ 6 ∷ 6 ∷ 6 ∷ 6 ∷ 6 ∷ 6 ∷ 6
    ∷ 6 ∷ 6 ∷ 6 ∷ 6 ∷ 6 ∷ 6 ∷ 6 ∷ 6 ∷ 6 ∷ 6 ∷ 6 ∷ 6 ∷ 6 ∷ 6 ∷ 6 ∷ 6 ∷ 6 ∷ 6 ∷ 6 ∷ 3 ∷ 0 ∷ 0 ∷ 0 ∷ 0
    ∷ 0 ∷ 0 ∷ 0 ∷ 0 ∷ 0 ∷ 0 ∷ 0 ∷ 3 ∷ 0 ∷ 0 ∷ 0 ∷ 255 ∷ 0 ∷ 1 ∷ 2 ∷ 3 ∷ []

abbrev view : SlabView
view = record { bytes = slab; header = header; drop_records = drop ∷ []; solid_window_start = 106 }

slab_are_bytes : All IsByte slab
slab_are_bytes = omega arith

view-IsLaidOut : IsLaidOut view plaintext
unfolding HeaderLayout.encode RecordLayout.encode to_le_bytes representation_to_bytes window_len
view-IsLaidOut = record {
  header = omega arith;
  records = (
    record {
      id = refl;
      word = omega arith;
      short = omega arith;
      sealed = inr refl;
      coded = inr refl;
      offset = omega arith;
      len = omega arith;
      range = omega arith;
    },
    tt,
  );
  bytes = refl;
  sums = refl;
  total = refl;
  start = refl;
}

parse_slab_round_trip : parse_slab slab ≡ ok view
parse_slab_round_trip = parse_slab-encode view plaintext slab_are_bytes view-IsLaidOut

parse_slab_canonical_example : (view.bytes ≡ slab) × ((window : List ℕ) × IsLaidOut view window)
parse_slab_canonical_example =
    parse_slab_canonical slab view (omega arith) slab_are_bytes parse_slab_round_trip

drop_reads : plaintext_for stored view drop_id ≡ some (ok plaintext)
unfolding plaintext_for plaintext_for_with_dict_lookup find_record read_record check_drop_readable
    decode_at decode_drop_bytes is_seekable bytes_eq
drop_reads = refl

plaintext_range_example :
    (e : CoreError) × (plaintext_range stored view drop_id 1 2
      ≡ some (if leb (1 + 2) (length plaintext) then ok (slice 1 2 plaintext) else err e))
plaintext_range_example =
    plaintext_range-plaintext_for stored view drop_id 1 2 plaintext stored-IsLossless (omega arith)
      drop_reads

-- A transport with the slab's bytes.
abbrev reader : ℕ → ℕ → Result CoreError (List ℕ)
reader offset len = ok (slice offset len slab)

abbrev empty_pages : PagedBytes
empty_pages = record { len = none; cache = []; capacity = 2 }

empty_pages-IsCoherent : IsCoherent slab empty_pages
empty_pages-IsCoherent = record { known = tt; pages = tt }

read_at_example : Gives slab (read_at reader 56 32 empty_pages) (slice 56 32 slab) empty_pages
read_at_example =
    read_at-slice slab reader (λ offset len. refl) 56 32 empty_pages (omega arith)
      empty_pages-IsCoherent

fetch_plaintext_example :
    (s1 : PagedBytes) × (fetch_plaintext reader stored
        (λ _. none)
        (slab_of view empty_pages)
        drop_id
      ≡ (plaintext_for_with_dict_lookup stored (λ _. none) view drop_id, slab_of view s1))
    × IsCoherent slab s1
fetch_plaintext_example =
    fetch_plaintext-plaintext_for slab reader (λ offset len. refl) stored (λ _. none) view drop_id
      empty_pages (omega arith) slab_are_bytes parse_slab_round_trip empty_pages-IsCoherent

abbrev store : SlabStore
store = record {
  slabs = slab ∷ [];
  parsed = parsed_of view ∷ [];
  drop_index = (drop_id, (0, 0)) ∷ [];
  dictionaries = λ _. none;
}

store_of_slab : from_bytes (slab ∷ []) ≡ ok store
unfolding from_bytes index_slabs index_slab extend insert remove entries_of
store_of_slab = simp (from_bytes, index_slabs, index_slab, parse_slab_round_trip) refl

locate_window_example :
    ((locate_window store drop_id ≡ none) × Absent (slab ∷ []) drop_id)
    ⊎ ((o : ℕ) × (i : ℕ) × (h : Holds (slab ∷ []) store.parsed drop_id o i) × (locate_window store
            drop_id
          ≡ window_of h.bytes h.view.solid_window_start h.r))
locate_window_example = locate_window-from_bytes (slab ∷ []) store drop_id store_of_slab
