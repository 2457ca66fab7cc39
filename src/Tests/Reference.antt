-- ===== src/Tests/Reference.antt =====
-- The theorems on metadata references (limnifs-core/src/metadata_reference.rs) at a packed blob.
use limnifs.Prelude.{
  ◌≡◌, refl, ℕ, ◌⊎◌, inr, Option, some, List, [], ◌∷◌, ◌++◌, arith, All, ok, length, replicate,
}
use limnifs.Prelude.Bytes.{from_le_bytes, to_le_bytes}
use limnifs.Cursor.{
  Cursor, reject, or_fail, read_n, read_n_owned, read_u8, read_u32_le, read_u64_le, parse_list,
  branch, remaining, remaining_len, checked_mul, ensure_remaining,
}
use limnifs.Cursor.Steps.{IsValid, Steps}
use limnifs.Prelude.Utf8.{is_utf8, utf8_rest, split_once}
use limnifs.Manifest.Locator.{
  is_nil, is_valid_scheme, is_ascii_alphabetic, is_scheme_char, all_scheme_chars,
  parse_locator_entry_with_ceiling, parse_locator_entries_with_ceiling,
}
use limnifs.Manifest.Locator.RoundTrip.{IsLocator, encode_entry}
use limnifs.Manifest.MetadataReference.{
  MetadataReference, codec_store, is_some, no_locators, as_u32, expand, read_wire, read_inline_blob,
  parse_v1, parse_v2, parse_metadata_reference_with_ceilings,
}
use limnifs.Manifest.MetadataReference.RoundTrip.{
  encode_v1, encode_v2, encode_blob, IsWellFormed, parse_metadata_reference_with_ceilings-encode_v2,
  parse_metadata_reference_with_ceilings_canonical,
}

-- A codec that repeats 7.
abbrev repeat : ℕ → List ℕ → ℕ → Option (List ℕ)
repeat codec bytes n = some (replicate n 7)

abbrev reference : MetadataReference
reference = record {
  metadata_hash = replicate 32 5;
  locators = record { uri = 102 ∷ 105 ∷ 108 ∷ 101 ∷ 58 ∷ 109 ∷ 46 ∷ 98 ∷ 105 ∷ 110 ∷ [] } ∷ [];
  inline_metadata = some (7 ∷ 7 ∷ 7 ∷ []);
  codec = 4;
  uncompressed_len = 3;
}

abbrev reference_cursor : Cursor
reference_cursor = record {
  bytes =
      2 ∷ 5 ∷ 5 ∷ 5 ∷ 5 ∷ 5 ∷ 5 ∷ 5 ∷ 5 ∷ 5 ∷ 5 ∷ 5 ∷ 5 ∷ 5 ∷ 5 ∷ 5 ∷ 5 ∷ 5 ∷ 5 ∷ 5 ∷ 5 ∷ 5 ∷ 5 ∷ 5
      ∷ 5 ∷ 5 ∷ 5 ∷ 5 ∷ 5 ∷ 5 ∷ 5 ∷ 5 ∷ 5 ∷ 3 ∷ 0 ∷ 0 ∷ 0 ∷ 4 ∷ 1 ∷ 0 ∷ 0 ∷ 0 ∷ 10 ∷ 0 ∷ 0 ∷ 0 ∷ 102
      ∷ 105 ∷ 108 ∷ 101 ∷ 58 ∷ 109 ∷ 46 ∷ 98 ∷ 105 ∷ 110 ∷ 1 ∷ 0 ∷ 0 ∷ 0 ∷ 7 ∷ 9 ∷ [];
  pos = 0;
}

abbrev reference_end : Cursor
reference_end = record reference_cursor { pos = 61 }

reference_cursor-IsValid : IsValid reference_cursor
reference_cursor-IsValid = omega arith

reference_bytes : remaining reference_cursor ≡ encode_v2 reference (7 ∷ []) ++ (9 ∷ [])
unfolding remaining to_le_bytes encode_v2 encode_blob encode_entry
reference_bytes = refl

reference_parsed :
    parse_metadata_reference_with_ceilings repeat 64 16 reference_cursor
    ≡ ok (reference, reference_end)
unfolding parse_metadata_reference_with_ceilings parse_v1 parse_v2 read_inline_blob read_wire expand
    as_u32 is_some no_locators is_nil is_valid_scheme is_ascii_alphabetic is_scheme_char
    all_scheme_chars parse_locator_entry_with_ceiling parse_locator_entries_with_ceiling is_utf8
    utf8_rest split_once read_n_owned read_n reject or_fail read_u8 read_u32_le read_u64_le
    from_le_bytes parse_list branch remaining_len checked_mul ensure_remaining
reference_parsed = refl

parse_metadata_reference_canonical_example :
    (wire : List ℕ) × IsWellFormed repeat 64 16 wire reference
    × (((reference.codec ≡ codec_store)
          × (reference.uncompressed_len ≡ length wire)
          × Steps reference_cursor (encode_v1 reference wire) reference_end)
        ⊎ Steps reference_cursor (encode_v2 reference wire) reference_end)
parse_metadata_reference_canonical_example =
    parse_metadata_reference_with_ceilings_canonical repeat 64 16 reference_cursor reference
      reference_end reference_cursor-IsValid reference_parsed

reference_locators : All (IsLocator 64) reference.locators
reference_locators =
    (parse_metadata_reference_with_ceilings_canonical repeat 64 16 reference_cursor reference
      reference_end reference_cursor-IsValid reference_parsed).1.locators

reference-IsWellFormed : IsWellFormed repeat 64 16 (7 ∷ []) reference
unfolding is_some no_locators as_u32
reference-IsWellFormed = record {
  hash = refl;
  counted = omega arith;
  locators = reference_locators;
  reachable = refl;
  len = omega arith;
  wire_counted = omega arith;
  short = omega arith;
  unpacks = ((λ e. omega (arith, e)), inr ((λ e. omega (arith, e)), refl, refl));
}

parse_metadata_reference_round_trip_example :
    (c' : Cursor) × (parse_metadata_reference_with_ceilings repeat 64 16 reference_cursor
      ≡ ok (reference, c'))
    × Steps reference_cursor (encode_v2 reference (7 ∷ [])) c'
    × (remaining c' ≡ 9 ∷ [])
parse_metadata_reference_round_trip_example =
    parse_metadata_reference_with_ceilings-encode_v2 repeat 64 16 (7 ∷ []) reference
      reference_cursor (9 ∷ []) reference-IsWellFormed refl reference_cursor-IsValid reference_bytes
