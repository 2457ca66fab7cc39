-- ===== src/Paged/Slab/Parity.antt =====
-- limnifs-core/src/paged_slab.rs against slab_reader.rs: a slab read through the page cache and the
-- same slab in memory.
use limnifs.Prelude.{
  ℕ, ◌+◌, ◌^◌, ◌≤◌, ◌<◌, ◌≡◌, refl, inl, inr, true, Bool-cases, option_cases, List, Result, ok,
  arith, ltb, leb, ◌==◌, length, length-take, length-drop, drop, slice, All,
}
use limnifs.Prelude.Bytes.{IsByte}
use limnifs.Error.{CoreError}
use limnifs.Codec.{Codec}
use limnifs.Cursor.{Cursor, usize_mod}
use limnifs.Slab.Record.{DropRecord}
use limnifs.Slab.Header
use limnifs.Slab.Record
use limnifs.Slab.Reader.{
  SlabView, DictLookup, find_record, check_drop_readable, decode_at, read_record,
  plaintext_for_with_dict_lookup, parse_slab,
}
use limnifs.Slab.Reader.Layout.{IsLaidOut, parse_slab_canonical}
use limnifs.Paged.{PagedBytes}
use limnifs.Paged.Run.{IsCoherent}
use limnifs.Paged.Read.{read_at-slice}
use limnifs.Paged.Slab.{SlabRecordTable, PagedSlab, decode_raw, fetch_record, fetch_plaintext}

-- The table that a view of the whole slab has, and the paged slab with it.
abbrev pub table_of : SlabView → SlabRecordTable
table_of view = record {
  header = view.header;
  drop_records = view.drop_records;
  solid_window_start = view.solid_window_start;
}

abbrev pub slab_of : SlabView → PagedBytes → PagedSlab
slab_of view s = record { paged = s; table = table_of view }

module _ (file : List ℕ) (reader : ℕ → ℕ → Result CoreError (List ℕ))
    (pread : (offset len : ℕ) → reader offset len ≡ ok (slice offset len file)) where
  fetch_record-read_record :
      (codec : Codec) (lookup : DictLookup) (view : SlabView) (window : List ℕ) (r : DropRecord)
      (s : PagedBytes)
      → length file < 2 ^ 63
      → view.bytes ≡ file
      → IsLaidOut view window
      → IsCoherent file s
      → (s1 : PagedBytes) × (fetch_record reader codec lookup (slab_of view s) r
          ≡ (read_record codec lookup view r, slab_of view s1))
        × IsCoherent file s1
  unfolding fetch_record read_record decode_raw decode_at
  fetch_record-read_record codec lookup view window r s small same w c =
      let start = view.solid_window_start + r.offset_in_window in
      let end = start + r.len_in_window in
      let total : view.header.total_length ≡ length view.bytes = w.total in
      elim (option_cases (check_drop_readable r)) [
        | inr (x, check) ↦ (s, simp (fetch_record, read_record, check) refl, c)
        | inl check ↦ elim (Bool-cases (leb usize_mod end)) [
          | inl t ↦ (s, simp (fetch_record, read_record, check, t) refl, c)
          | inr f ↦ elim (Bool-cases (ltb (length file) end)) [
            | inl t ↦
                (s, simp (fetch_record, read_record, check, f, total, same, t, decode_at) refl, c)
            | inr g ↦
                let inside : end ≤ length file = ground (arith, g) in
                let (s1, got, c1, _) =
                  read_at-slice file reader pread start r.len_in_window s
                    (omega (arith, inside, small)) c in
                let width : length (slice start r.len_in_window file) ≡ r.len_in_window = omega (
                  arith,
                  length-take r.len_in_window (drop start file),
                  length-drop start file,
                  inside,
                ) in
                let whole : (length (slice start r.len_in_window file) == r.len_in_window) ≡ true =
                  ground (arith, width) in
                (
                  s1,
                  simp
                      (
                        fetch_record, read_record, check, f, total, g, decode_at, got, decode_raw,
                        whole, same,
                      )
                      refl,
                  c1,
                )
          ]
        ]
      ]

  -- Of a slab whose bytes parse in memory, behind a transport that is `pread` on them, a drop
  -- fetched through the page cache is the drop read from the slab in memory: the same bytes, the
  -- same error or the same absence under every id, with any codec and dictionaries, from every
  -- coherent cache, which stays coherent.
  pub fetch_plaintext-plaintext_for :
      (codec : Codec) (lookup : DictLookup) (view : SlabView) (drop_id : List ℕ) (s : PagedBytes)
      → length file < 2 ^ 63
      → All IsByte file
      → parse_slab file ≡ ok view
      → IsCoherent file s
      → (s1 : PagedBytes) × (fetch_plaintext reader codec lookup (slab_of view s) drop_id
          ≡ (plaintext_for_with_dict_lookup codec lookup view drop_id, slab_of view s1))
        × IsCoherent file s1
  unfolding fetch_plaintext plaintext_for_with_dict_lookup
  fetch_plaintext-plaintext_for codec lookup view drop_id s small are e c =
      let (same, (window, w)) = parse_slab_canonical file view small are e in
      elim (option_cases (find_record drop_id view.drop_records)) [
        | inl n ↦ (s, simp (fetch_plaintext, plaintext_for_with_dict_lookup, n) refl, c)
        | inr (r, f) ↦
            let (s1, run, c1) =
              fetch_record-read_record codec lookup view window r s small same w c in
            (s1, simp (fetch_plaintext, plaintext_for_with_dict_lookup, f) run, c1)
      ]
