-- ===== src/Tests/Manifest.antt =====
-- The theorems on the manifest's sections (limnifs-core/src) at concrete images.
use limnifs.Prelude.{◌≡◌, refl, true, false, [], ◌∷◌, ◌++◌, arith, ok, bytes_eq, replicate}
use limnifs.Prelude.Bytes.{from_le_bytes, to_le_bytes}
use limnifs.Cursor.{
  Cursor, reject, or_fail, read_n, read_n_owned, read_magic, read_u8, read_u16_le, read_u32_le,
  read_u64_le, checked_mul, ensure_remaining, parse_list, remaining, remaining_len,
}
use limnifs.Cursor.Steps.{IsValid, Steps}
use limnifs.Cursor.Unique.{any}
use limnifs.Prelude.Utf8.{is_utf8, split_once}
use limnifs.Format.{SlabId, slab_id_eq}
use limnifs.Manifest.Header
use limnifs.Manifest.Header.RoundTrip as HeaderLayout
use limnifs.Manifest.FeatureFlags
use limnifs.Manifest.FeatureFlags.RoundTrip as FeatureFlagsLayout
use limnifs.Manifest.Locator
use limnifs.Manifest.Locator.RoundTrip as LocatorLayout
use limnifs.Manifest.SlabIndex
use limnifs.Manifest.SlabIndex.RoundTrip as SlabIndexLayout
use limnifs.Manifest.History
use limnifs.Manifest.History.RoundTrip as HistoryLayout
use limnifs.Manifest.EcParams
use limnifs.Manifest.EcParams.RoundTrip as EcParamsLayout

abbrev header : Header.ManifestHeader
header = record { drop_store_version = 1; metadata_version = 2; manifest_version = 0x0301 }

abbrev header_cursor : Cursor
header_cursor = record {
  bytes = 76 ∷ 77 ∷ 70 ∷ 83 ∷ 1 ∷ 0 ∷ 2 ∷ 0 ∷ 1 ∷ 3 ∷ 0 ∷ 0 ∷ 0 ∷ 0 ∷ 0 ∷ 0 ∷ 9 ∷ [];
  pos = 0;
}

header-IsValid : IsValid header_cursor
header-IsValid = omega arith

header_well : HeaderLayout.IsWord header
header_well = omega arith

header_bytes : remaining header_cursor ≡ Header.to_bytes header ++ (9 ∷ [])
unfolding remaining to_le_bytes Header.to_bytes
header_bytes = refl

header_round_trip :
    (c' : Cursor) × (Header.parse_manifest_header header_cursor ≡ ok (header, c'))
    × Steps header_cursor (Header.to_bytes header) c'
    × (remaining c' ≡ 9 ∷ [])
header_round_trip =
    HeaderLayout.parse_manifest_header-to_bytes header header_cursor (9 ∷ []) header_well
      header-IsValid header_bytes

header_parsed :
    Header.parse_manifest_header header_cursor ≡ ok (header, record header_cursor { pos = 16 })
unfolding Header.parse_manifest_header read_magic Header.any_nonzero read_n reject read_u8
    read_u16_le read_u32_le read_u64_le bytes_eq from_le_bytes remaining_len checked_mul
    ensure_remaining parse_list any or_fail
header_parsed = refl

header_canonical :
    HeaderLayout.IsWord header
    × Steps header_cursor (Header.to_bytes header) (record header_cursor { pos = 16 })
header_canonical =
    HeaderLayout.parse_manifest_header_canonical header_cursor header
      (record header_cursor { pos = 16 }) header-IsValid header_parsed

abbrev flags : FeatureFlags.FeatureFlags
flags = record {
  entries =
      record { flag_id = 1; required = true } ∷ record { flag_id = 300; required = false } ∷ [];
}

abbrev flags_cursor : Cursor
flags_cursor = record { bytes = 1 ∷ 2 ∷ 0 ∷ 0 ∷ 0 ∷ 1 ∷ 0 ∷ 1 ∷ 44 ∷ 1 ∷ 0 ∷ 9 ∷ []; pos = 0 }

flags-IsValid : IsValid flags_cursor
flags-IsValid = omega arith

flags_well : FeatureFlagsLayout.IsWellFormed flags
flags_well = record {
  counted = omega arith;
  unique = ((omega arith, tt), (tt, tt));
  ids = omega arith;
}

flags_bytes : remaining flags_cursor ≡ FeatureFlagsLayout.encode flags ++ (9 ∷ [])
unfolding remaining to_le_bytes FeatureFlagsLayout.encode FeatureFlagsLayout.encode_entry
flags_bytes = refl

flags_round_trip :
    (c' : Cursor) × (FeatureFlags.parse_feature_flags_section flags_cursor ≡ ok (flags, c'))
    × Steps flags_cursor (FeatureFlagsLayout.encode flags) c'
    × (remaining c' ≡ 9 ∷ [])
flags_round_trip =
    FeatureFlagsLayout.parse_feature_flags_section-encode flags flags_cursor (9 ∷ []) flags_well
      flags-IsValid flags_bytes

flags_parsed :
    FeatureFlags.parse_feature_flags_section flags_cursor
    ≡ ok (flags, record flags_cursor { pos = 11 })
unfolding FeatureFlags.parse_feature_flags_section FeatureFlags.parse_entry FeatureFlags.required_of
    read_n reject read_u8 read_u16_le read_u32_le read_u64_le bytes_eq from_le_bytes remaining_len
    checked_mul ensure_remaining parse_list any or_fail
flags_parsed = refl

flags_canonical :
    FeatureFlagsLayout.IsWellFormed flags
    × Steps flags_cursor (FeatureFlagsLayout.encode flags) (record flags_cursor { pos = 11 })
flags_canonical =
    FeatureFlagsLayout.parse_feature_flags_section_canonical flags_cursor flags
      (record flags_cursor { pos = 11 }) flags-IsValid flags_parsed

abbrev slab : SlabId
slab = record { ordinal = 5; hash = replicate 32 7 }

abbrev sidecar : Locator.LocatorEntry
sidecar = record { uri = 102 ∷ 105 ∷ 108 ∷ 101 ∷ 58 ∷ 97 ∷ [] }

sidecar_well : LocatorLayout.IsLocator 4096 sidecar
unfolding is_utf8 Locator.is_ascii_alphabetic Locator.is_scheme_char
sidecar_well = record {
  counted = omega arith;
  long = omega arith;
  short = omega arith;
  utf8 = refl;
  grammar = record {
    front = 102 ∷ 105 ∷ 108 ∷ 101 ∷ [];
    back = 97 ∷ [];
    whole = refl;
    grammar = (refl, (refl, (refl, (refl, tt))));
    some_part = λ e. cc;
  };
}

abbrev slabs : SlabIndex.SlabIndex
slabs = record { entries = record { slab_id = slab; locators = sidecar ∷ [] } ∷ [] }

abbrev slabs_cursor : Cursor
slabs_cursor = record {
  bytes =
      1 ∷ 1 ∷ 0 ∷ 0 ∷ 0 ∷ 5 ∷ 0 ∷ 0 ∷ 0 ∷ 0 ∷ 0 ∷ 0 ∷ 0 ∷ 7 ∷ 7 ∷ 7 ∷ 7 ∷ 7 ∷ 7 ∷ 7 ∷ 7 ∷ 7 ∷ 7 ∷ 7
      ∷ 7 ∷ 7 ∷ 7 ∷ 7 ∷ 7 ∷ 7 ∷ 7 ∷ 7 ∷ 7 ∷ 7 ∷ 7 ∷ 7 ∷ 7 ∷ 7 ∷ 7 ∷ 7 ∷ 7 ∷ 7 ∷ 7 ∷ 7 ∷ 7 ∷ 1 ∷ 0
      ∷ 0 ∷ 0 ∷ 6 ∷ 0 ∷ 0 ∷ 0 ∷ 102 ∷ 105 ∷ 108 ∷ 101 ∷ 58 ∷ 97 ∷ 9 ∷ [];
  pos = 0;
}

slabs-IsValid : IsValid slabs_cursor
slabs-IsValid = omega arith

slabs_well : SlabIndexLayout.IsWellFormed 4096 slabs
slabs_well = record {
  counted = omega arith;
  unique = (tt, tt);
  entries = (
    record {
      ordinal = omega arith;
      hash = refl;
      reachable = omega arith;
      counted = omega arith;
      located = (sidecar_well, tt);
    },
    tt,
  );
}

slabs_bytes : remaining slabs_cursor ≡ SlabIndexLayout.encode slabs ++ (9 ∷ [])
unfolding remaining to_le_bytes SlabIndexLayout.encode SlabIndexLayout.encode_entry
    LocatorLayout.encode_entry
slabs_bytes = refl

slabs_round_trip :
    (c' : Cursor) × (SlabIndex.parse_slab_index_with_ceiling 4096 slabs_cursor ≡ ok (slabs, c'))
    × Steps slabs_cursor (SlabIndexLayout.encode slabs) c'
    × (remaining c' ≡ 9 ∷ [])
slabs_round_trip =
    SlabIndexLayout.parse_slab_index_with_ceiling-encode 4096 slabs slabs_cursor (9 ∷ []) slabs_well
      slabs-IsValid slabs_bytes

slabs_parsed :
    SlabIndex.parse_slab_index_with_ceiling 4096 slabs_cursor
    ≡ ok (slabs, record slabs_cursor { pos = 59 })
unfolding SlabIndex.parse_slab_index_with_ceiling SlabIndex.parse_entry slab_id_eq
    Locator.parse_locator_entries_with_ceiling Locator.parse_locator_entry_with_ceiling is_utf8
    split_once Locator.is_nil Locator.is_valid_scheme Locator.is_ascii_alphabetic read_n reject
    read_u8 read_u16_le read_u32_le read_u64_le bytes_eq from_le_bytes remaining_len checked_mul
    ensure_remaining parse_list any or_fail
slabs_parsed = refl

slabs_canonical :
    SlabIndexLayout.IsWellFormed 4096 slabs
    × Steps slabs_cursor (SlabIndexLayout.encode slabs) (record slabs_cursor { pos = 59 })
slabs_canonical =
    SlabIndexLayout.parse_slab_index_with_ceiling_canonical 4096 slabs_cursor slabs
      (record slabs_cursor { pos = 59 }) slabs-IsValid slabs_parsed

abbrev history : History.History
history = record {
  entries =
      record {
        op = History.HistoryOp.flatten;
        timestamp_ns = 258;
        inputs = replicate 32 7 ∷ [];
        params = 4 ∷ [];
      }
      ∷ [];
}

abbrev history_cursor : Cursor
history_cursor = record {
  bytes =
      1 ∷ 1 ∷ 0 ∷ 0 ∷ 0 ∷ 3 ∷ 2 ∷ 1 ∷ 0 ∷ 0 ∷ 0 ∷ 0 ∷ 0 ∷ 0 ∷ 1 ∷ 0 ∷ 0 ∷ 0 ∷ 7 ∷ 7 ∷ 7 ∷ 7 ∷ 7 ∷ 7
      ∷ 7 ∷ 7 ∷ 7 ∷ 7 ∷ 7 ∷ 7 ∷ 7 ∷ 7 ∷ 7 ∷ 7 ∷ 7 ∷ 7 ∷ 7 ∷ 7 ∷ 7 ∷ 7 ∷ 7 ∷ 7 ∷ 7 ∷ 7 ∷ 7 ∷ 7 ∷ 7
      ∷ 7 ∷ 7 ∷ 7 ∷ 1 ∷ 0 ∷ 0 ∷ 0 ∷ 4 ∷ 9 ∷ [];
  pos = 0;
}

history-IsValid : IsValid history_cursor
history-IsValid = omega arith

history_well : HistoryLayout.IsWellFormed 4096 history
history_well = record {
  counted = omega arith;
  nonempty = omega arith;
  entries = (
    record {
      time = omega arith;
      counted = omega arith;
      roots = (refl, tt);
      params_counted = omega arith;
      params_short = omega arith;
    },
    tt,
  );
}

history_bytes : remaining history_cursor ≡ HistoryLayout.encode history ++ (9 ∷ [])
unfolding remaining to_le_bytes HistoryLayout.encode HistoryLayout.encode_entry History.to_byte
history_bytes = refl

history_round_trip :
    (c' : Cursor) × (History.parse_history_with_ceiling 4096 history_cursor ≡ ok (history, c'))
    × Steps history_cursor (HistoryLayout.encode history) c'
    × (remaining c' ≡ 9 ∷ [])
history_round_trip =
    HistoryLayout.parse_history_with_ceiling-encode 4096 history history_cursor (9 ∷ [])
      history_well history-IsValid history_bytes

history_parsed :
    History.parse_history_with_ceiling 4096 history_cursor
    ≡ ok (history, record history_cursor { pos = 55 })
unfolding History.parse_history_with_ceiling History.parse_history_entry_with_ceiling
    History.from_byte read_n_owned History.chunks_exact read_n reject read_u8 read_u16_le
    read_u32_le read_u64_le bytes_eq from_le_bytes remaining_len checked_mul ensure_remaining
    parse_list any or_fail
history_parsed = refl

history_canonical :
    HistoryLayout.IsWellFormed 4096 history
    × Steps history_cursor (HistoryLayout.encode history) (record history_cursor { pos = 55 })
history_canonical =
    HistoryLayout.parse_history_with_ceiling_canonical 4096 history_cursor history
      (record history_cursor { pos = 55 }) history-IsValid history_parsed

abbrev coding : EcParams.EcParams
coding = record {
  k = 4;
  m = 2;
  polynomial = 0x011d;
  overrides = record { slab_id = slab; k = 8; m = 3 } ∷ [];
}

abbrev coding_cursor : Cursor
coding_cursor = record {
  bytes =
      1 ∷ 4 ∷ 2 ∷ 29 ∷ 1 ∷ 1 ∷ 0 ∷ 0 ∷ 0 ∷ 5 ∷ 0 ∷ 0 ∷ 0 ∷ 0 ∷ 0 ∷ 0 ∷ 0 ∷ 7 ∷ 7 ∷ 7 ∷ 7 ∷ 7 ∷ 7 ∷ 7
      ∷ 7 ∷ 7 ∷ 7 ∷ 7 ∷ 7 ∷ 7 ∷ 7 ∷ 7 ∷ 7 ∷ 7 ∷ 7 ∷ 7 ∷ 7 ∷ 7 ∷ 7 ∷ 7 ∷ 7 ∷ 7 ∷ 7 ∷ 7 ∷ 7 ∷ 7 ∷ 7
      ∷ 7 ∷ 7 ∷ 8 ∷ 3 ∷ 9 ∷ [];
  pos = 0;
}

coding-IsValid : IsValid coding_cursor
coding-IsValid = omega arith

coding_well : EcParamsLayout.IsWellFormed coding
coding_well = record {
  shards = omega arith;
  field = refl;
  counted = omega arith;
  unique = (tt, tt);
  overrides = (record { ordinal = omega arith; hash = refl; shards = omega arith }, tt);
}

coding_bytes : remaining coding_cursor ≡ EcParamsLayout.encode coding ++ (9 ∷ [])
unfolding remaining to_le_bytes EcParamsLayout.encode EcParamsLayout.encode_override
coding_bytes = refl

coding_round_trip :
    (c' : Cursor) × (EcParams.parse_ec_params coding_cursor ≡ ok (coding, c'))
    × Steps coding_cursor (EcParamsLayout.encode coding) c'
    × (remaining c' ≡ 9 ∷ [])
coding_round_trip =
    EcParamsLayout.parse_ec_params-encode coding coding_cursor (9 ∷ []) coding_well coding-IsValid
      coding_bytes

coding_parsed :
    EcParams.parse_ec_params coding_cursor ≡ ok (coding, record coding_cursor { pos = 51 })
unfolding EcParams.parse_ec_params EcParams.parse_override EcParams.validate_shard_counts slab_id_eq
    read_n reject read_u8 read_u16_le read_u32_le read_u64_le bytes_eq from_le_bytes remaining_len
    checked_mul ensure_remaining parse_list any or_fail
coding_parsed = refl

coding_canonical :
    EcParamsLayout.IsWellFormed coding
    × Steps coding_cursor (EcParamsLayout.encode coding) (record coding_cursor { pos = 51 })
coding_canonical =
    EcParamsLayout.parse_ec_params_canonical coding_cursor coding
      (record coding_cursor { pos = 51 }) coding-IsValid coding_parsed
