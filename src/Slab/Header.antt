-- ===== src/Slab/Header.antt =====
-- limnifs-core/src/slab.rs: the slab header.
pub mod RoundTrip
use limnifs.Prelude.{ℕ, ◌*◌, Bool, not, ◌&&◌, List, [], ◌∷◌, ltb, ◌==◌, bytes_eq}
use limnifs.Error.{corrupt, unsupported_feature, Section, Fault}
use limnifs.Cursor.{
  Parser, ◌>>=◌, ◌>>◌, return, reject, read_n, read_magic, read_u8, read_u16_le, read_u64_le,
}
use limnifs.Format.{SlabId}

pub record SlabHeader : Type 0 where
  pub format_version : ℕ
  pub slab_id : SlabId
  pub total_length : ℕ
  pub ec_descriptor : ℕ
  pub crypto_hint : ℕ

-- b"LIM1"
abbrev pub slab_magic : List ℕ
slab_magic = 76 ∷ 73 ∷ 77 ∷ 49 ∷ []

abbrev pub default_slab_max_bytes : ℕ
default_slab_max_bytes = 64 * 1024 * 1024

abbrev pub slab_format_version : ℕ
slab_format_version = 1

abbrev pub slab_header_len : ℕ
slab_header_len = 56

abbrev pub ec_descriptor_extended : ℕ
ec_descriptor_extended = 0xff

abbrev pub crypto_hint_extended : ℕ
crypto_hint_extended = 0xff

unfoldable pub has_erasure_coding : SlabHeader → Bool
has_erasure_coding h = not (h.ec_descriptor == 0) && not (h.ec_descriptor == ec_descriptor_extended)

unfoldable pub is_sealed : SlabHeader → Bool
is_sealed h = not (h.crypto_hint == 0) && not (h.crypto_hint == crypto_hint_extended)

unfoldable pub parse_slab_header_with_ceiling : ℕ → Parser SlabHeader
parse_slab_header_with_ceiling max_total_length = do
  magic ← read_magic
  reject (not (bytes_eq magic slab_magic)) (corrupt Section.slab_header Fault.bad_magic_bytes)
  format_version ← read_u16_le
  reject (not (format_version == slab_format_version))
      (unsupported_feature Section.slab_header Fault.version)
  ordinal ← read_u64_le
  hash ← read_n 32
  total_length ← read_u64_le
  reject (ltb total_length slab_header_len) (corrupt Section.slab_header Fault.below_minimum)
  reject (ltb max_total_length total_length) (corrupt Section.slab_header Fault.above_ceiling)
  ec_descriptor ← read_u8
  reject (ec_descriptor == ec_descriptor_extended)
      (unsupported_feature Section.slab_header Fault.extended)
  crypto_hint ← read_u8
  reject (crypto_hint == crypto_hint_extended)
      (unsupported_feature Section.slab_header Fault.extended)
  return (record {
    format_version = format_version;
    slab_id = record { ordinal = ordinal; hash = hash };
    total_length = total_length;
    ec_descriptor = ec_descriptor;
    crypto_hint = crypto_hint;
  })

unfoldable pub parse_slab_header : Parser SlabHeader
parse_slab_header = parse_slab_header_with_ceiling default_slab_max_bytes
