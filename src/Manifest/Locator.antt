-- ===== src/Manifest/Locator.antt =====
-- limnifs-core/src/locator.rs: locator entries, length-prefixed URIs. A URI is its UTF-8 bytes.
pub mod Grammar
pub mod RoundTrip
use limnifs.Prelude.{
  ℕ, ◌+◌, ◌*◌, Bool, true, false, not, ◌&&◌, ◌||◌, Option, none, some, List, [], ◌∷◌, Result, ok,
  err, ltb, leb, ◌==◌, if◌then◌else◌, bytes_eq,
}
use limnifs.Error.{CoreError, corrupt, Section, Fault}
use limnifs.Cursor.{
  Parser, ◌>>=◌, ◌>>◌, return, reject, or_fail, read_n, read_u32_le, checked_mul, ensure_remaining,
  parse_list,
}
use limnifs.Prelude.Utf8.{is_utf8, split_once, contains}

pub record LocatorEntry : Type 0 where
  pub uri : List ℕ

abbrev pub default_max_uri_bytes : ℕ
default_max_uri_bytes = 4 * 1024

abbrev pub min_uri_bytes : ℕ
min_uri_bytes = 4

abbrev pub length_prefix_len : ℕ
length_prefix_len = 4

abbrev pub colon : ℕ
colon = b':'

unfoldable pub is_nil : List ℕ → Bool
is_nil [] = true
is_nil (b ∷ bs) = false

unfoldable pub scheme : LocatorEntry → Option (List ℕ)
scheme l = elim (split_once colon l.uri) [ none ↦ none | some (before, behind) ↦ some before ]

unfoldable pub scheme_specific_part : LocatorEntry → Option (List ℕ)
scheme_specific_part l = elim (split_once colon l.uri) [
  | none ↦ none
  | some (before, behind) ↦ some behind
]

unfoldable pub is_ascii_alphabetic : ℕ → Bool
is_ascii_alphabetic c = (leb b'a' c && leb c b'z') || (leb b'A' c && leb c b'Z')

unfoldable pub is_scheme_char : ℕ → Bool
unfolding is_ascii_alphabetic
is_scheme_char c =
    is_ascii_alphabetic c || (leb b'0' c && leb c b'9') || c == b'+' || c == b'-' || c == b'.'

-- `chars.all(..)`
unfoldable pub all_scheme_chars : List ℕ → Bool
unfolding is_scheme_char
all_scheme_chars [] = true
all_scheme_chars (c ∷ cs) = is_scheme_char c && all_scheme_chars cs

unfoldable pub is_valid_scheme : List ℕ → Bool
unfolding all_scheme_chars
is_valid_scheme [] = false
is_valid_scheme (c ∷ cs) = if not (is_ascii_alphabetic c) then false else all_scheme_chars cs

unfoldable pub parse_locator_entry_with_ceiling : ℕ → Parser LocatorEntry
parse_locator_entry_with_ceiling max_uri_bytes = do
  raw_length ← read_u32_le
  reject (ltb raw_length min_uri_bytes) (corrupt Section.locator Fault.below_minimum)
  reject (ltb max_uri_bytes raw_length) (corrupt Section.locator Fault.above_ceiling)
  uri ← read_n raw_length
  reject (not (is_utf8 uri)) (corrupt Section.locator Fault.not_utf8)
  parts ← or_fail (split_once colon uri) (corrupt Section.locator Fault.no_separator)
  reject (is_nil parts.0) (corrupt Section.locator Fault.empty_scheme)
  reject (not (is_valid_scheme parts.0)) (corrupt Section.locator Fault.bad_scheme)
  reject (is_nil parts.1) (corrupt Section.locator Fault.empty_part)
  return (record { uri = uri })

unfoldable pub parse_locator_entry : Parser LocatorEntry
parse_locator_entry = parse_locator_entry_with_ceiling default_max_uri_bytes

unfoldable pub parse_locator_entries_with_ceiling : ℕ → ℕ → Parser (List LocatorEntry)
parse_locator_entries_with_ceiling count max_uri_bytes = do
  min_total ←
      checked_mul count (length_prefix_len + min_uri_bytes) (corrupt Section.locator Fault.overflow)
  ensure_remaining min_total
  parse_list (λ _. parse_locator_entry_with_ceiling max_uri_bytes) count []

unfoldable pub parse_locator_entries : ℕ → Parser (List LocatorEntry)
parse_locator_entries count = parse_locator_entries_with_ceiling count default_max_uri_bytes

-- "file:"
abbrev pub file_prefix : List ℕ
file_prefix = b'f' ∷ b'i' ∷ b'l' ∷ b'e' ∷ b':' ∷ []

-- `strip_prefix`
unfoldable pub strip_prefix : List ℕ → List ℕ → Option (List ℕ)
strip_prefix [] s = some s
strip_prefix (p ∷ ps) [] = none
strip_prefix (p ∷ ps) (b ∷ bs) = let rest = strip_prefix ps bs in if p == b then rest else none

-- The names that could leave the image's directory.
unfoldable pub escapes : List ℕ → Bool
unfolding is_nil
escapes rest =
    is_nil rest
    || bytes_eq rest (b'.' ∷ [])
    || bytes_eq rest (b'.' ∷ b'.' ∷ [])
    || contains b'/' rest
    || contains b'\\' rest
    || contains 0 rest
    || contains colon rest

unfoldable pub local_sidecar_name : List ℕ → Result CoreError (List ℕ)
unfolding strip_prefix
local_sidecar_name uri = elim (strip_prefix file_prefix uri) [
  | none ↦ err (corrupt Section.locator Fault.no_separator)
  | some rest ↦ if escapes rest then err (corrupt Section.locator Fault.slash) else ok rest
]
