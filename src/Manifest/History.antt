-- ===== src/Manifest/History.antt =====
-- limnifs-core/src/history.rs: the section of the operations that made the image.
pub mod Chunks
pub mod RoundTrip
use limnifs.Prelude.{
  ℕ, zero, suc, ◌+◌, ◌*◌, ◌/◌, not, Option, none, some, List, [], ◌∷◌, ltb, ◌==◌, if◌then◌else◌,
  length, take, drop,
}
use limnifs.Error.{corrupt, unsupported_feature, Section, Fault}
use limnifs.Cursor.{
  Parser, ◌>>=◌, ◌>>◌, return, reject, or_fail, read_n, read_n_owned, read_u8, read_u32_le,
  read_u64_le, checked_mul, ensure_remaining, parse_list,
}
use limnifs.Format.{ManifestRoot}

pub data HistoryOp : Type 0 where
  build delta flatten turnover deepen : HistoryOp

unfoldable pub from_byte : ℕ → Option HistoryOp
from_byte b =
    if b == 1
    then some build
    else if b == 2
    then some delta
    else if b == 3
    then some flatten
    else if b == 4
    then some turnover
    else if b == 5
    then some deepen
    else none

unfoldable pub to_byte : HistoryOp → ℕ
to_byte build = 1
to_byte delta = 2
to_byte flatten = 3
to_byte turnover = 4
to_byte deepen = 5

pub record HistoryEntry : Type 0 where
  pub op : HistoryOp
  pub timestamp_ns : ℕ
  pub inputs : List ManifestRoot
  pub params : List ℕ

pub record History : Type 0 where
  pub entries : List HistoryEntry

abbrev pub section_version : ℕ
section_version = 1

abbrev pub op_extended : ℕ
op_extended = 0xff

abbrev pub entry_fixed_len : ℕ
entry_fixed_len = 1 + 8 + 4

abbrev pub default_params_max_bytes : ℕ
default_params_max_bytes = 4 * 1024

unfoldable pub chunks : ℕ → List ℕ → List (List ℕ)
chunks zero bytes = []
chunks (suc n) bytes = take 32 bytes ∷ chunks n (drop 32 bytes)

-- `bytes.chunks_exact(32)`
unfoldable pub chunks_exact : List ℕ → List (List ℕ)
unfolding chunks
chunks_exact bytes = chunks (length bytes / 32) bytes

unfoldable pub parse_history_entry_with_ceiling : ℕ → Parser HistoryEntry
parse_history_entry_with_ceiling max_params_bytes = do
  op_byte ← read_u8
  reject (op_byte == op_extended) (unsupported_feature Section.history Fault.extended)
  op ← or_fail (from_byte op_byte) (unsupported_feature Section.history Fault.unknown_code)
  timestamp_ns ← read_u64_le
  input_count ← read_u32_le
  inputs_size ← checked_mul input_count 32 (corrupt Section.history Fault.overflow)
  inputs_bytes ← read_n inputs_size
  params_len ← read_u32_le
  reject (ltb max_params_bytes params_len) (corrupt Section.history Fault.above_ceiling)
  params ← read_n_owned params_len
  return (record {
    op = op;
    timestamp_ns = timestamp_ns;
    inputs = chunks_exact inputs_bytes;
    params = params;
  })

unfoldable pub parse_history_with_ceiling : ℕ → Parser History
parse_history_with_ceiling max_params_bytes = do
  version ← read_u8
  reject (not (version == section_version)) (unsupported_feature Section.history Fault.version)
  entry_count ← read_u32_le
  reject (entry_count == 0) (corrupt Section.history Fault.none_declared)
  min_section_size ←
      checked_mul entry_count (entry_fixed_len + 4) (corrupt Section.history Fault.overflow)
  ensure_remaining min_section_size
  entries ← parse_list (λ _. parse_history_entry_with_ceiling max_params_bytes) entry_count []
  return (record { entries = entries })

unfoldable pub parse_history : Parser History
parse_history = parse_history_with_ceiling default_params_max_bytes
