-- ===== src/Manifest/FeatureFlags.antt =====
-- limnifs-core/src/feature_flags.rs: the section of feature flags.
pub mod RoundTrip
use limnifs.Prelude.{
  ℕ, Bool, true, false, not, Option, none, some, List, [], ◌∷◌, ◌==◌, if◌then◌else◌,
}
use limnifs.Error.{corrupt, unsupported_feature, Section, Fault}
use limnifs.Cursor.{
  Parser, ◌>>=◌, ◌>>◌, return, reject, or_fail, read_u8, read_u16_le, read_u32_le, checked_mul,
  ensure_remaining, parse_list,
}
use limnifs.Cursor.Unique.{any}

pub record FeatureFlag : Type 0 where
  pub flag_id : ℕ
  pub required : Bool

pub record FeatureFlags : Type 0 where
  pub entries : List FeatureFlag

abbrev pub section_version : ℕ
section_version = 1

abbrev pub entry_len : ℕ
entry_len = 3

unfoldable pub is_empty : FeatureFlags → Bool
is_empty flags = elim flags.entries [ [] ↦ true | _ ↦ false ]

-- `iter().find(|entry| entry.flag_id == flag_id)`
unfoldable pub find : ℕ → List FeatureFlag → Option FeatureFlag
find flag_id [] = none
find flag_id (f ∷ fs) = if f.flag_id == flag_id then some f else find flag_id fs

unfoldable pub get : FeatureFlags → ℕ → Option FeatureFlag
unfolding find
get flags flag_id = find flag_id flags.entries

unfoldable pub is_required : FeatureFlags → ℕ → Bool
unfolding get
is_required flags flag_id = elim (get flags flag_id) [ none ↦ false | some f ↦ f.required ]

unfoldable pub required_of : ℕ → Option Bool
required_of b = if b == 0 then some false else if b == 1 then some true else none

-- The body of the loop, with the entries that are already there.
unfoldable pub parse_entry : List FeatureFlag → Parser FeatureFlag
parse_entry entries = do
  flag_id ← read_u16_le
  reject (flag_id == 0) (corrupt Section.feature_flags Fault.zero_id)
  required_byte ← read_u8
  required ← or_fail (required_of required_byte) (corrupt Section.feature_flags Fault.bad_flag)
  reject (any (λ e. e.flag_id == flag_id) entries) (corrupt Section.feature_flags Fault.duplicate)
  return (record { flag_id = flag_id; required = required })

unfoldable pub parse_feature_flags_section : Parser FeatureFlags
parse_feature_flags_section = do
  version ← read_u8
  reject (not (version == section_version))
      (unsupported_feature Section.feature_flags Fault.version)
  entry_count ← read_u32_le
  payload_size ← checked_mul entry_count entry_len (corrupt Section.feature_flags Fault.overflow)
  ensure_remaining payload_size
  entries ← parse_list parse_entry entry_count []
  return (record { entries = entries })
