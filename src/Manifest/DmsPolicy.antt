-- ===== src/Manifest/DmsPolicy.antt =====
-- limnifs-core/src/dms_policy.rs: the section of the dead-man's-switch shares. A string is its UTF-8
-- bytes.
pub mod RoundTrip
use limnifs.Prelude.{
  ℕ, ◌*◌, ◌^◌, Bool, true, false, not, Option, none, some, List, [], ◌∷◌, ltb, ◌==◌, if◌then◌else◌,
  bytes_eq,
}
use limnifs.Error.{corrupt, unsupported_feature, Section, Fault}
use limnifs.Cursor.{
  Parser, ◌>>=◌, ◌>>◌, return, reject, read_n, read_n_owned, read_u8, read_u32_le, parse_list,
  branch,
}
use limnifs.Cursor.Unique.{any}
use limnifs.Prelude.Utf8.{is_utf8}

pub record ShareRecord : Type 0 where
  pub custodian_id : List ℕ
  pub share_data : List ℕ

pub record DmsPolicy : Type 0 where
  pub k : ℕ
  pub n : ℕ
  pub shares : List ShareRecord
  pub reconstruction_hint : Option (List ℕ)

abbrev pub section_version : ℕ
section_version = 1

abbrev pub scheme_shamir : ℕ
scheme_shamir = 0

abbrev pub scheme_extended : ℕ
scheme_extended = 0xff

abbrev pub default_share_data_max_bytes : ℕ
default_share_data_max_bytes = 1024

abbrev pub default_hint_max_bytes : ℕ
default_hint_max_bytes = 4 * 1024

-- `u16::try_from(n).unwrap_or(0)`
unfoldable pub as_u16 : ℕ → ℕ
as_u16 n = if ltb n (2 ^ 16) then n else 0

unfoldable pub is_empty : List ℕ → Bool
is_empty [] = true
is_empty (b ∷ bs) = false

unfoldable pub validate_shamir_params : ℕ → ℕ → Parser (Unit {0})
validate_shamir_params k n = do
  reject (k == 0) (corrupt Section.dms_policy Fault.zero_k)
  reject (n == 0) (corrupt Section.dms_policy Fault.zero_m)
  reject (ltb n k) (corrupt Section.dms_policy Fault.too_many_shards)

unfoldable pub read_string_with_ceiling : ℕ → ℕ → Parser (List ℕ)
read_string_with_ceiling raw_len ceiling = do
  reject (ltb ceiling raw_len) (corrupt Section.dms_policy Fault.above_ceiling)
  bytes ← read_n raw_len
  reject (not (is_utf8 bytes)) (corrupt Section.dms_policy Fault.not_utf8)
  return bytes

unfoldable pub parse_share_record : ℕ → ℕ → Parser ShareRecord
parse_share_record max_hint_bytes max_share_data_bytes = do
  custodian_id_len ← read_u32_le
  cid ← read_string_with_ceiling custodian_id_len max_hint_bytes
  reject (is_empty cid) (corrupt Section.dms_policy Fault.empty_name)
  share_data_len ← read_u32_le
  reject (share_data_len == 0) (corrupt Section.dms_policy Fault.zero_length)
  reject (ltb max_share_data_bytes share_data_len) (corrupt Section.dms_policy Fault.above_ceiling)
  share_data ← read_n_owned share_data_len
  return (record { custodian_id = cid; share_data = share_data })

-- The body of the loop. `seen_custodians` holds the ids of the shares that are already there.
unfoldable pub parse_share : ℕ → ℕ → List ShareRecord → Parser ShareRecord
parse_share max_hint_bytes max_share_data_bytes shares = do
  share ← parse_share_record max_hint_bytes max_share_data_bytes
  reject (any (λ s. bytes_eq s.custodian_id share.custodian_id) shares)
      (corrupt Section.dms_policy Fault.duplicate)
  return share

-- What follows a hint length that is not zero.
unfoldable pub parse_hint_bytes : ℕ → ℕ → Parser (Option (List ℕ))
parse_hint_bytes max_hint_bytes hint_len = do
  reject (ltb max_hint_bytes hint_len) (corrupt Section.dms_policy Fault.above_ceiling)
  bytes ← read_n hint_len
  reject (not (is_utf8 bytes)) (corrupt Section.dms_policy Fault.not_utf8)
  return (some bytes)

unfoldable pub parse_reconstruction_hint : ℕ → Parser (Option (List ℕ))
parse_reconstruction_hint max_hint_bytes = do
  hint_len ← read_u32_le
  branch (hint_len == 0) (return none) (parse_hint_bytes max_hint_bytes hint_len)

unfoldable pub parse_dms_policy_with_ceilings : ℕ → ℕ → Parser DmsPolicy
parse_dms_policy_with_ceilings max_share_data_bytes max_hint_bytes = do
  version ← read_u8
  reject (not (version == section_version)) (unsupported_feature Section.dms_policy Fault.version)
  scheme ← read_u8
  reject (scheme == scheme_extended) (unsupported_feature Section.dms_policy Fault.extended)
  reject (not (scheme == scheme_shamir)) (unsupported_feature Section.dms_policy Fault.unknown_code)
  k ← read_u8
  n ← read_u8
  validate_shamir_params k n
  share_count ← read_u32_le
  reject (not (n == as_u16 share_count)) (corrupt Section.dms_policy Fault.count_mismatch)
  shares ← parse_list (parse_share max_hint_bytes max_share_data_bytes) share_count []
  reconstruction_hint ← parse_reconstruction_hint max_hint_bytes
  return (record { k = k; n = n; shares = shares; reconstruction_hint = reconstruction_hint })

unfoldable pub parse_dms_policy : Parser DmsPolicy
parse_dms_policy =
    parse_dms_policy_with_ceilings default_share_data_max_bytes default_hint_max_bytes
