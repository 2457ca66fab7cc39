-- ===== src/Paged/Slab.antt =====
-- limnifs-core/src/paged_slab.rs: a slab behind the page cache, of which only the record table is read
-- when it is opened.
pub mod Parity
use limnifs.Prelude.{
  ℕ, zero, suc, ◌+◌, ◌-◌, ◌^◌, Bool, true, false, not, Option, none, some, List, [], ◌∷◌, Result,
  ok, err, ltb, leb, ◌==◌, if◌then◌else◌, length,
}
use limnifs.Error.{CoreError, too_short, corrupt, Section, Fault}
use limnifs.Codec.{Codec}
use limnifs.Cursor.{new}
use limnifs.Slab.Header.{SlabHeader, slab_header_len, parse_slab_header}
use limnifs.Slab.Record.{DropRecord, drop_record_len, parse_drop_record}
use limnifs.Slab.Reader.{
  DictLookup, at_window, add_window, value_of, find_record, check_drop_readable, decode_drop_bytes,
}
use limnifs.Paged.{PagedBytes, Step, read_at, set_len, with_cache_pages}

pub record SlabRecordTable : Type 0 where
  pub header : SlabHeader
  pub drop_records : List DropRecord
  pub solid_window_start : ℕ

pub record PagedSlab : Type 0 where
  pub paged : PagedBytes
  pub table : SlabRecordTable

-- `?` between steps.
unfoldable pub then_step : {A B : Type 0} → Step A → (A → PagedBytes → Step B) → Step B
then_step (err e, s) f = (err e, s)
then_step (ok a, s) f = f a s

-- A read that came back short is refused.
unfoldable pub exactly : ℕ → List ℕ → PagedBytes → Step (List ℕ)
exactly n bytes s =
    if not (length bytes == n) then (err (too_short (length bytes) n), s) else (ok bytes, s)

-- The walk's step at `pos`: it stops, or goes on.
unfoldable pub stop_at :
    Result CoreError Bool → ℕ → Step (List DropRecord × ℕ) → PagedBytes → Step (List DropRecord × ℕ)
stop_at (err e) pos more s = (err e, s)
stop_at (ok true) pos more s = (ok ([], pos), s)
stop_at (ok false) pos more s = more

unfoldable pub push_record :
    DropRecord → List DropRecord × ℕ → PagedBytes → Step (List DropRecord × ℕ)
push_record r (records, pos) s = (ok (r ∷ records, pos), s)

module _ (reader : ℕ → ℕ → Result CoreError (List ℕ)) where
  -- The loop over the records from `pos`, with fuel: the records, and where the window begins.
  unfoldable pub walk_table : ℕ → SlabHeader → ℕ → ℕ → PagedBytes → Step (List DropRecord × ℕ)
  unfolding at_window add_window value_of new then_step exactly stop_at push_record
  walk_table zero header window_len_sum pos s = (err (corrupt Section.slab Fault.overrun), s)
  walk_table (suc fuel) header window_len_sum pos s =
      stop_at (at_window header.total_length pos window_len_sum) pos
        (then_step (read_at reader pos drop_record_len s) λ record_bytes s1.
          then_step (exactly drop_record_len record_bytes s1) λ record_bytes s1.
            then_step (value_of (parse_drop_record header (new record_bytes)), s1)
              λ r s1.
                then_step (add_window window_len_sum r, s1)
                  λ window_len_sum1 s1.
                    then_step (walk_table fuel header window_len_sum1 (pos + drop_record_len) s1)
                      (push_record r))
        s

  -- A record takes bytes of the slab, so its length is fuel enough.
  unfoldable pub parse_slab_record_table : PagedBytes → Step SlabRecordTable
  unfolding walk_table value_of new then_step exactly
  parse_slab_record_table s = then_step (read_at reader 0 slab_header_len s) λ header_bytes s1.
      then_step (exactly slab_header_len header_bytes s1) λ header_bytes s1.
        then_step (value_of (parse_slab_header (new header_bytes)), s1)
          λ header s1.
            then_step (walk_table (suc header.total_length) header 0 slab_header_len s1)
              λ walked s1. (
                ok (record {
                  header = header;
                  drop_records = walked.0;
                  solid_window_start = walked.1;
                }),
                s1,
              )

  unfoldable pub open_with_cache_pages : ℕ → Result CoreError PagedSlab
  unfolding parse_slab_record_table set_len with_cache_pages
  open_with_cache_pages cache_pages =
      let (r, s) = parse_slab_record_table (with_cache_pages cache_pages) in
      elim r [
        | err e ↦ err e
        | ok table ↦ ok (record { paged = set_len table.header.total_length s; table = table })
      ]

  -- The bytes of a record's range, decoded when all of them came.
  unfoldable pub decode_raw :
      Codec → DictLookup → DropRecord → Result CoreError (List ℕ) → Result CoreError (List ℕ)
  unfolding decode_drop_bytes
  decode_raw codec dict_lookup r (err e) = err e
  decode_raw codec dict_lookup r (ok raw) =
      if not (length raw == r.len_in_window)
      then err (corrupt Section.drop_read Fault.truncated)
      else decode_drop_bytes codec dict_lookup r raw

  unfoldable pub fetch_record :
      Codec → DictLookup → PagedSlab → DropRecord → Option (Result CoreError (List ℕ)) × PagedSlab
  unfolding check_drop_readable decode_raw
  fetch_record codec dict_lookup slab r =
      let start = slab.table.solid_window_start + r.offset_in_window in
      let end = start + r.len_in_window in
      elim (check_drop_readable r) [
        | some e ↦ (some (err e), slab)
        | none ↦
            if leb (2 ^ 64) end
            then (none, slab)
            else if ltb slab.table.header.total_length end
            then (some (err (corrupt Section.drop_read Fault.outside)), slab)
            else let (raw, s) = read_at reader start r.len_in_window slab.paged in
              (some (decode_raw codec dict_lookup r raw), record slab { paged = s })
      ]

  unfoldable pub fetch_plaintext :
      Codec → DictLookup → PagedSlab → List ℕ → Option (Result CoreError (List ℕ)) × PagedSlab
  unfolding find_record fetch_record
  fetch_plaintext codec dict_lookup slab drop_id =
      elim (find_record drop_id slab.table.drop_records) [
        | none ↦ (none, slab)
        | some r ↦ fetch_record codec dict_lookup slab r
      ]
