-- ===== src/Manifest/MetadataReference.antt =====
-- limnifs-core/src/metadata_reference.rs: the section that says where the metadata blob is. The
-- function `decompress` stands for limnifs-core/src/codec: codec, bytes and expected length to the
-- bytes, or nothing where it fails.
pub mod RoundTrip
use limnifs.Prelude.{
  ℕ, zero, suc, ◌+◌, ◌-◌, ◌*◌, ◌/◌, ◌%◌, ◌^◌, ◌≤◌, ◌<◌, min, max, bit_and, bit_xor, ◌≡◌, refl, sym,
  ap, subst, ◌∙◌, ◌≢◌, ◌↔◌, ◌⊎◌, inl, inr, Bool, true, false, not, ◌&&◌, ◌||◌, Option, none, some,
  List, [], ◌∷◌, ◌++◌, map, append-nil, append_assoc, arith, Result, ok, err, ltb, leb, ◌==◌,
  if◌then◌else◌, ==_iff, ==_refl, eq_of_not_ne, ltb→lt, ltb→le, lt→ltb, le→ltb, bytes_eq,
  bytes_eq_refl, bytes_eq→eq, Bool-cases, length, take, drop, replicate, get_or, All, length-append,
  length-take, length-drop, length-replicate, length-map, take-append-drop, take-length-append,
  drop-length-append,
}
use limnifs.Prelude.Bytes.{
  IsByte, from_le_bytes, to_le_bytes, length-to_le_bytes, from_le_bytes-lt,
  from_le_bytes-to_le_bytes, to_le_bytes-from_le_bytes,
}
use limnifs.Prelude.{
  ℕ, zero, suc, ◌+◌, ◌-◌, ◌*◌, ◌/◌, ◌%◌, ◌^◌, ◌≤◌, ◌<◌, min, max, bit_and, bit_xor, ◌≡◌, refl, sym,
  ap, subst, ◌∙◌, ◌≢◌, ◌↔◌, ◌⊎◌, inl, inr, Bool, true, false, not, ◌&&◌, ◌||◌, Option, none, some,
  List, [], ◌∷◌, ◌++◌, map, append-nil, append_assoc, arith, Result, ok, err, ltb, leb, ◌==◌,
  if◌then◌else◌, ==_iff, ==_refl, eq_of_not_ne, ltb→lt, ltb→le, lt→ltb, le→ltb, bytes_eq,
  bytes_eq_refl, bytes_eq→eq, Bool-cases, length, take, drop, replicate, get_or, All, length-append,
  length-take, length-drop, length-replicate, length-map, take-append-drop, take-length-append,
  drop-length-append,
}
use limnifs.Prelude.Bytes.{
  IsByte, from_le_bytes, to_le_bytes, length-to_le_bytes, from_le_bytes-lt,
  from_le_bytes-to_le_bytes, to_le_bytes-from_le_bytes,
}
use limnifs.Error.{CoreError, too_short, bad_magic, corrupt, unsupported_feature, Section, Fault}
use limnifs.Cursor.{
  Cursor, Parser, Outcome, continue, ◌>>=◌, ◌>>◌, return, fail, reject, or_fail, branch, read_n,
  read_n_owned, read_magic, read_u8, read_u16_le, read_u32_le, read_u64_le, checked_mul,
  ensure_remaining, parse_list, branch, remaining, remaining_len,
}
use limnifs.Cursor.Unique.{any}
use limnifs.Manifest.Locator.{
  LocatorEntry, default_max_uri_bytes, parse_locator_entries_with_ceiling,
}

pub record MetadataReference : Type 0 where
  pub metadata_hash : List ℕ
  pub locators : List LocatorEntry
  pub inline_metadata : Option (List ℕ)
  pub codec : ℕ
  pub uncompressed_len : ℕ

abbrev pub section_version : ℕ
section_version = 1

abbrev pub section_version_2 : ℕ
section_version_2 = 2

abbrev pub codec_store : ℕ
codec_store = 0

abbrev pub default_inline_metadata_max_bytes : ℕ
default_inline_metadata_max_bytes = 1024 * 1024

unfoldable pub is_some : Option (List ℕ) → Bool
is_some none = false
is_some (some bytes) = true

unfoldable pub is_inlined : MetadataReference → Bool
unfolding is_some
is_inlined r = is_some r.inline_metadata

-- `locators.is_empty()`
unfoldable pub no_locators : List LocatorEntry → Bool
no_locators [] = true
no_locators (l ∷ ls) = false

-- `u32::try_from(n).unwrap_or(u32::MAX)`
unfoldable pub as_u32 : ℕ → ℕ
as_u32 n = if ltb n (2 ^ 32) then n else 2 ^ 32 - 1

module _ (decompress : ℕ → List ℕ → ℕ → Option (List ℕ)) where
  -- What follows the read of compressed bytes.
  unfoldable pub expand : ℕ → ℕ → List ℕ → Parser (Option (List ℕ))
  expand uncompressed_len codec wire_bytes = do
    uncompressed ←
        or_fail (decompress codec wire_bytes uncompressed_len)
          (corrupt Section.metadata_reference Fault.decompress_failed)
    reject (not (as_u32 (length uncompressed) == uncompressed_len))
        (corrupt Section.metadata_reference Fault.length_mismatch)
    return (some uncompressed)

  -- What follows a length that is not zero.
  unfoldable pub read_wire : ℕ → ℕ → ℕ → ℕ → Parser (Option (List ℕ))
  read_wire inline_data_len max_inline_metadata_bytes uncompressed_len codec = do
    reject (ltb max_inline_metadata_bytes inline_data_len)
        (corrupt Section.metadata_reference Fault.above_ceiling)
    wire_bytes ← read_n_owned inline_data_len
    branch (codec == codec_store) (return (some wire_bytes))
        (expand uncompressed_len codec wire_bytes)

  unfoldable pub read_inline_blob : ℕ → ℕ → ℕ → ℕ → Parser (Option (List ℕ))
  read_inline_blob inline_data_len max_inline_metadata_bytes uncompressed_len codec =
      branch (inline_data_len == 0) (return none)
        (read_wire inline_data_len max_inline_metadata_bytes uncompressed_len codec)

  unfoldable pub parse_v1 : ℕ → ℕ → Parser MetadataReference
  parse_v1 max_locator_uri_bytes max_inline_metadata_bytes = do
    metadata_hash ← read_n 32
    locator_count ← read_u32_le
    locators ← parse_locator_entries_with_ceiling locator_count max_locator_uri_bytes
    inline_metadata_len ← read_u32_le
    inline_metadata ←
        read_inline_blob inline_metadata_len max_inline_metadata_bytes inline_metadata_len
          codec_store
    reject (no_locators locators && not (is_some inline_metadata))
        (corrupt Section.metadata_reference Fault.unreachable)
    return (record {
      metadata_hash = metadata_hash;
      locators = locators;
      inline_metadata = inline_metadata;
      codec = codec_store;
      uncompressed_len = inline_metadata_len;
    })

  unfoldable pub parse_v2 : ℕ → ℕ → Parser MetadataReference
  parse_v2 max_locator_uri_bytes max_inline_metadata_bytes = do
    metadata_hash ← read_n 32
    uncompressed_len ← read_u32_le
    codec ← read_u8
    locator_count ← read_u32_le
    locators ← parse_locator_entries_with_ceiling locator_count max_locator_uri_bytes
    inline_data_len ← read_u32_le
    inline_metadata ←
        read_inline_blob inline_data_len max_inline_metadata_bytes uncompressed_len codec
    reject (no_locators locators && not (is_some inline_metadata))
        (corrupt Section.metadata_reference Fault.unreachable)
    return (record {
      metadata_hash = metadata_hash;
      locators = locators;
      inline_metadata = inline_metadata;
      codec = codec;
      uncompressed_len = uncompressed_len;
    })

  unfoldable pub parse_metadata_reference_with_ceilings : ℕ → ℕ → Parser MetadataReference
  parse_metadata_reference_with_ceilings max_locator_uri_bytes max_inline_metadata_bytes = do
    version ← read_u8
    branch (version == section_version) (parse_v1 max_locator_uri_bytes max_inline_metadata_bytes) (
        branch (version == section_version_2)
          (parse_v2 max_locator_uri_bytes max_inline_metadata_bytes)
          (fail (unsupported_feature Section.metadata_reference Fault.version)))

  unfoldable pub parse_metadata_reference : Parser MetadataReference
  parse_metadata_reference =
      parse_metadata_reference_with_ceilings default_max_uri_bytes default_inline_metadata_max_bytes
