-- ===== src/Manifest/EcParams.antt =====
-- limnifs-core/src/ec_params.rs: the section of erasure-coding parameters.
pub mod RoundTrip
use limnifs.Prelude.{ℕ, ◌+◌, not, List, [], ltb, ◌==◌}
use limnifs.Error.{corrupt, unsupported_feature, Section, Fault}
use limnifs.Cursor.{
  Parser, ◌>>=◌, ◌>>◌, return, reject, read_n, read_u8, read_u16_le, read_u32_le, read_u64_le,
  checked_mul, ensure_remaining, parse_list,
}
use limnifs.Cursor.Unique.{any}
use limnifs.Format.{SlabId, slab_id_eq}

pub record EcOverride : Type 0 where
  pub slab_id : SlabId
  pub k : ℕ
  pub m : ℕ

pub record EcParams : Type 0 where
  pub k : ℕ
  pub m : ℕ
  pub polynomial : ℕ
  pub overrides : List EcOverride

abbrev pub section_version : ℕ
section_version = 1

abbrev pub default_ec_polynomial : ℕ
default_ec_polynomial = 0x011d

abbrev pub max_shards : ℕ
max_shards = 255

abbrev pub override_entry_len : ℕ
override_entry_len = 40 + 1 + 1

unfoldable pub default_params : ℕ → ℕ → EcParams
default_params k m = record { k = k; m = m; polynomial = default_ec_polynomial; overrides = [] }

unfoldable pub validate_shard_counts : ℕ → ℕ → Parser (Unit {0})
validate_shard_counts k m = do
  reject (k == 0) (corrupt Section.ec_params Fault.zero_k)
  reject (m == 0) (corrupt Section.ec_params Fault.zero_m)
  reject (ltb max_shards (k + m)) (corrupt Section.ec_params Fault.too_many_shards)

-- The body of the loop, with the overrides that are already there.
unfoldable pub parse_override : List EcOverride → Parser EcOverride
parse_override overrides = do
  ordinal ← read_u64_le
  hash ← read_n 32
  k ← read_u8
  m ← read_u8
  validate_shard_counts k m
  reject (any (λ o. slab_id_eq o.slab_id (record { ordinal = ordinal; hash = hash })) overrides)
      (corrupt Section.ec_params Fault.duplicate)
  return (record { slab_id = record { ordinal = ordinal; hash = hash }; k = k; m = m })

unfoldable pub parse_ec_params : Parser EcParams
parse_ec_params = do
  version ← read_u8
  reject (not (version == section_version)) (unsupported_feature Section.ec_params Fault.version)
  k ← read_u8
  m ← read_u8
  validate_shard_counts k m
  polynomial ← read_u16_le
  reject (not (polynomial == default_ec_polynomial))
      (unsupported_feature Section.ec_params Fault.bad_polynomial)
  override_count ← read_u32_le
  min_size ←
      checked_mul override_count override_entry_len (corrupt Section.ec_params Fault.overflow)
  ensure_remaining min_size
  overrides ← parse_list parse_override override_count []
  return (record { k = k; m = m; polynomial = polynomial; overrides = overrides })
