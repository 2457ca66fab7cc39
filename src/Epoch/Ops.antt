-- ===== src/Epoch/Ops.antt =====
-- limnifs-core/src/epoch/ops.rs: the changes to the tree that an epoch makes. A path is its UTF-8 bytes.
pub mod RoundTrip
use limnifs.Prelude.{ℕ, Option, none, some, not, List, [], ◌∷◌, ◌++◌, ◌==◌, if◌then◌else◌, length}
use limnifs.Prelude.Bytes.{to_le_bytes}
use limnifs.Prelude.Utf8.{is_utf8}
use limnifs.Error.{corrupt, Section, Fault}
use limnifs.Cursor.{
  Parser, ◌>>=◌, ◌>>◌, return, reject, or_fail, read_n, read_u8, read_u32_le, read_u64_le,
  parse_list,
}
use limnifs.Cursor.Loops.{encode_list}
use limnifs.Epoch.Named.{named}

pub data EpochOpKind : Type 0 where
  add remove modify chmod rename mkdir rmdir : EpochOpKind

unfoldable pub from_u8 : ℕ → Option EpochOpKind
from_u8 raw =
    if raw == 0
    then some EpochOpKind.add
    else if raw == 1
    then some EpochOpKind.remove
    else if raw == 2
    then some EpochOpKind.modify
    else if raw == 3
    then some EpochOpKind.chmod
    else if raw == 4
    then some EpochOpKind.rename
    else if raw == 5
    then some EpochOpKind.mkdir
    else if raw == 6
    then some EpochOpKind.rmdir
    else none

-- `kind as u8`
unfoldable pub opcode : EpochOpKind → ℕ
opcode EpochOpKind.add = 0
opcode EpochOpKind.remove = 1
opcode EpochOpKind.modify = 2
opcode EpochOpKind.chmod = 3
opcode EpochOpKind.rename = 4
opcode EpochOpKind.mkdir = 5
opcode EpochOpKind.rmdir = 6

-- `add` has the path, the drop's id, the length, the mode and the time; `modify` has no mode.
pub data EpochOp : Type 0 where
  add : List ℕ → List ℕ → ℕ → ℕ → ℕ → EpochOp
  remove : List ℕ → EpochOp
  modify : List ℕ → List ℕ → ℕ → ℕ → EpochOp
  chmod : List ℕ → ℕ → EpochOp
  rename : List ℕ → List ℕ → EpochOp
  mkdir : List ℕ → ℕ → EpochOp
  rmdir : List ℕ → EpochOp

unfoldable pub kind : EpochOp → EpochOpKind
kind (EpochOp.add path drop_id len mode mtime) = EpochOpKind.add
kind (EpochOp.remove path) = EpochOpKind.remove
kind (EpochOp.modify path drop_id len mtime) = EpochOpKind.modify
kind (EpochOp.chmod path mode) = EpochOpKind.chmod
kind (EpochOp.rename from to) = EpochOpKind.rename
kind (EpochOp.mkdir path mode) = EpochOpKind.mkdir
kind (EpochOp.rmdir path) = EpochOpKind.rmdir

unfoldable pub write_path : List ℕ → List ℕ
write_path path = to_le_bytes 4 (length path) ++ path

-- The fields behind the opcode.
unfoldable pub write_fields : EpochOp → List ℕ
write_fields (EpochOp.add path drop_id len mode mtime) =
    write_path path
    ++ (drop_id ++ (to_le_bytes 8 len ++ (to_le_bytes 4 mode ++ to_le_bytes 8 mtime)))
write_fields (EpochOp.remove path) = write_path path
write_fields (EpochOp.modify path drop_id len mtime) =
    write_path path ++ (drop_id ++ (to_le_bytes 8 len ++ to_le_bytes 8 mtime))
write_fields (EpochOp.chmod path mode) = write_path path ++ to_le_bytes 4 mode
write_fields (EpochOp.rename from to) = write_path from ++ write_path to
write_fields (EpochOp.mkdir path mode) = write_path path ++ to_le_bytes 4 mode
write_fields (EpochOp.rmdir path) = write_path path

unfoldable pub write_one_op : EpochOp → List ℕ
write_one_op op = opcode (kind op) ∷ write_fields op

unfoldable pub write_op_section : List EpochOp → List ℕ
write_op_section ops = to_le_bytes 4 (length ops) ++ encode_list write_one_op ops

unfoldable pub read_path : Parser (List ℕ)
read_path = do
  len ← named Section.epoch_ops read_u32_le
  bytes ← named Section.epoch_ops (read_n len)
  reject (not (is_utf8 bytes)) (corrupt Section.epoch_ops Fault.not_utf8)
  return bytes

unfoldable pub read_id : Parser (List ℕ)
read_id = named Section.epoch_ops (read_n 32)

unfoldable pub read_u32 : Parser ℕ
read_u32 = named Section.epoch_ops read_u32_le

unfoldable pub read_u64 : Parser ℕ
read_u64 = named Section.epoch_ops read_u64_le

unfoldable pub parse_one_op : EpochOpKind → Parser EpochOp
parse_one_op EpochOpKind.add = do
  path ← read_path
  drop_id ← read_id
  len ← read_u64
  mode ← read_u32
  mtime ← read_u64
  return (EpochOp.add path drop_id len mode mtime)
parse_one_op EpochOpKind.remove = do path ← read_path; return (EpochOp.remove path)
parse_one_op EpochOpKind.modify = do
  path ← read_path
  drop_id ← read_id
  len ← read_u64
  mtime ← read_u64
  return (EpochOp.modify path drop_id len mtime)
parse_one_op EpochOpKind.chmod = do
  path ← read_path
  mode ← read_u32
  return (EpochOp.chmod path mode)
parse_one_op EpochOpKind.rename = do
  from ← read_path
  to ← read_path
  return (EpochOp.rename from to)
parse_one_op EpochOpKind.mkdir = do
  path ← read_path
  mode ← read_u32
  return (EpochOp.mkdir path mode)
parse_one_op EpochOpKind.rmdir = do path ← read_path; return (EpochOp.rmdir path)

-- The body of the loop.
unfoldable pub parse_op : Parser EpochOp
parse_op = do
  raw ← named Section.epoch_ops read_u8
  op_kind ← or_fail (from_u8 raw) (corrupt Section.epoch_ops Fault.unknown_code)
  parse_one_op op_kind

unfoldable pub parse_op_section : Parser (List EpochOp)
parse_op_section = do
  count ← named Section.epoch_ops read_u32_le
  parse_list (λ _. parse_op) count []
