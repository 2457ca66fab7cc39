-- ===== src/Epoch/Header.antt =====
-- limnifs-core/src/epoch/header.rs: the 200 bytes in front of an epoch.
pub mod RoundTrip
use limnifs.Prelude.{
  ℕ, ◌+◌, ◌%◌, not, List, [], ◌∷◌, ◌++◌, ltb, ◌==◌, if◌then◌else◌, bit_and, replicate,
}
use limnifs.Prelude.Bytes.{to_le_bytes}
use limnifs.Error.{corrupt, Section, Fault}
use limnifs.Cursor.{
  Parser, ◌>>=◌, ◌>>◌, return, reject, read_n, read_u16_le, read_u32_le, read_u64_le, skip,
}
use limnifs.Epoch.Named.{named}

abbrev pub epoch_format_version : ℕ
epoch_format_version = 1

abbrev pub epoch_magic : ℕ
epoch_magic = 0x4C494D45

abbrev pub header_size : ℕ
header_size = 200

-- `flags | bit`, for one bit.
unfoldable pub set_bit : ℕ → ℕ → ℕ
set_bit bit flags = if bit_and flags bit == 0 then flags + bit else flags

unfoldable pub signed : ℕ → ℕ
unfolding set_bit
signed flags = set_bit 1 flags

unfoldable pub timestamped : ℕ → ℕ
unfolding set_bit
timestamped flags = set_bit 2 flags

unfoldable pub sealed : ℕ → ℕ
unfolding set_bit
sealed flags = set_bit 4 flags

pub record EpochHeader : Type 0 where
  pub version : ℕ
  pub flags : ℕ
  pub parent_epoch_id : List ℕ
  pub base_image_root : List ℕ
  pub epoch_sequence : ℕ
  pub ops_hash : List ℕ
  pub drops_hash : List ℕ
  pub own_epoch_id : List ℕ
  pub timestamp_unix : ℕ

unfoldable pub default : EpochHeader
default = record {
  version = epoch_format_version;
  flags = 0;
  parent_epoch_id = replicate 32 0;
  base_image_root = replicate 32 0;
  epoch_sequence = 0;
  ops_hash = replicate 32 0;
  drops_hash = replicate 32 0;
  own_epoch_id = replicate 32 0;
  timestamp_unix = 0;
}

unfoldable pub write_epoch_header : EpochHeader → List ℕ
write_epoch_header h =
    to_le_bytes 4 epoch_magic
    ++ (to_le_bytes 2 h.version
        ++ (to_le_bytes 2 h.flags
            ++ (h.parent_epoch_id
                ++ (h.base_image_root
                    ++ (to_le_bytes 8 h.epoch_sequence
                        ++ (h.ops_hash
                            ++ (h.drops_hash
                                ++ (h.own_epoch_id
                                    ++ (to_le_bytes 8 h.timestamp_unix ++ replicate 16 0)))))))))

unfoldable pub copy_id : Parser (List ℕ)
copy_id = named Section.epoch_header (read_n 32)

unfoldable pub parse_epoch_header : Parser EpochHeader
parse_epoch_header = do
  magic ← named Section.epoch_header read_u32_le
  reject (not (magic == epoch_magic)) (corrupt Section.epoch_header Fault.bad_magic_bytes)
  version ← named Section.epoch_header read_u16_le
  reject (ltb epoch_format_version version) (corrupt Section.epoch_header Fault.version)
  flags ← named Section.epoch_header read_u16_le
  parent_epoch_id ← copy_id
  base_image_root ← copy_id
  epoch_sequence ← named Section.epoch_header read_u64_le
  ops_hash ← copy_id
  drops_hash ← copy_id
  own_epoch_id ← copy_id
  timestamp_unix ← named Section.epoch_header read_u64_le
  named Section.epoch_header (skip 16)
  return (record {
    version = version;
    flags = flags;
    parent_epoch_id = parent_epoch_id;
    base_image_root = base_image_root;
    epoch_sequence = epoch_sequence;
    ops_hash = ops_hash;
    drops_hash = drops_hash;
    own_epoch_id = own_epoch_id;
    timestamp_unix = timestamp_unix;
  })
