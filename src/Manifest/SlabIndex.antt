-- ===== src/Manifest/SlabIndex.antt =====
-- limnifs-core/src/slab_index.rs: the section of slabs and their locators.
pub mod RoundTrip
use limnifs.Prelude.{ℕ, ◌+◌, not, Option, none, some, List, [], ◌∷◌, ◌==◌, if◌then◌else◌}
use limnifs.Error.{corrupt, unsupported_feature, Section, Fault}
use limnifs.Cursor.{
  Parser, ◌>>=◌, ◌>>◌, return, reject, read_n, read_u8, read_u32_le, read_u64_le, checked_mul,
  ensure_remaining, parse_list,
}
use limnifs.Cursor.Unique.{any}
use limnifs.Format.{SlabId, slab_id_eq}
use limnifs.Manifest.Locator.{
  LocatorEntry, default_max_uri_bytes, parse_locator_entries_with_ceiling,
}

pub record SlabIndexEntry : Type 0 where
  pub slab_id : SlabId
  pub locators : List LocatorEntry

pub record SlabIndex : Type 0 where
  pub entries : List SlabIndexEntry

abbrev pub section_version : ℕ
section_version = 1

abbrev pub entry_fixed_len : ℕ
entry_fixed_len = 40 + 4

-- `iter().find(|entry| &entry.slab_id == slab_id)`
unfoldable pub find_entry : SlabId → List SlabIndexEntry → Option SlabIndexEntry
find_entry slab_id [] = none
find_entry slab_id (e ∷ es) = if slab_id_eq e.slab_id slab_id then some e else find_entry slab_id es

unfoldable pub find : SlabIndex → SlabId → Option SlabIndexEntry
unfolding find_entry
find index slab_id = find_entry slab_id index.entries

-- The body of the loop, with the entries that are already there.
unfoldable pub parse_entry : ℕ → List SlabIndexEntry → Parser SlabIndexEntry
parse_entry max_locator_uri_bytes entries = do
  ordinal ← read_u64_le
  hash ← read_n 32
  reject (any (λ e. slab_id_eq e.slab_id (record { ordinal = ordinal; hash = hash })) entries)
      (corrupt Section.slab_index Fault.duplicate)
  locator_count ← read_u32_le
  reject (locator_count == 0) (corrupt Section.slab_index Fault.none_declared)
  locators ← parse_locator_entries_with_ceiling locator_count max_locator_uri_bytes
  return (record { slab_id = record { ordinal = ordinal; hash = hash }; locators = locators })

unfoldable pub parse_slab_index_with_ceiling : ℕ → Parser SlabIndex
parse_slab_index_with_ceiling max_locator_uri_bytes = do
  version ← read_u8
  reject (not (version == section_version)) (unsupported_feature Section.slab_index Fault.version)
  entry_count ← read_u32_le
  min_section_size ←
      checked_mul entry_count entry_fixed_len (corrupt Section.slab_index Fault.overflow)
  ensure_remaining min_section_size
  entries ← parse_list (parse_entry max_locator_uri_bytes) entry_count []
  return (record { entries = entries })

unfoldable pub parse_slab_index : Parser SlabIndex
parse_slab_index = parse_slab_index_with_ceiling default_max_uri_bytes
