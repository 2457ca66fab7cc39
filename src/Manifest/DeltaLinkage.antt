-- ===== src/Manifest/DeltaLinkage.antt =====
-- limnifs-core/src/delta_linkage.rs: the base image and the tree operations of a delta. A path is its
-- UTF-8 bytes.
pub mod RoundTrip
use limnifs.Prelude.{
  ℕ, ◌+◌, Bool, true, false, not, Option, none, some, List, [], ◌==◌, if◌then◌else◌,
}
use limnifs.Error.{corrupt, unsupported_feature, Section, Fault}
use limnifs.Cursor.{
  Parser, ◌>>=◌, ◌>>◌, return, reject, or_fail, read_n, read_u8, read_u32_le, read_u64_le,
  checked_mul, ensure_remaining, parse_list, branch,
}
use limnifs.Prelude.Utf8.{is_utf8, contains, contains_pair}
use limnifs.Format.{ManifestRoot}

pub data TreeOpKind : Type 0 where
  add remove replace : TreeOpKind

unfoldable pub from_byte : ℕ → Option TreeOpKind
from_byte b =
    if b == 1
    then some add
    else if b == 2
    then some remove
    else if b == 3
    then some replace
    else none

unfoldable pub has_inode_number : TreeOpKind → Bool
has_inode_number add = true
has_inode_number remove = false
has_inode_number replace = true

pub record TreeOp : Type 0 where
  pub kind : TreeOpKind
  pub path : List ℕ
  pub inode_number : Option ℕ

pub record DeltaLinkage : Type 0 where
  pub base_root : ManifestRoot
  pub tree_ops : List TreeOp

abbrev pub section_version : ℕ
section_version = 1

abbrev pub min_tree_op_len : ℕ
min_tree_op_len = 1 + 4 + 1

unfoldable pub read_inode_number : Parser (Option ℕ)
read_inode_number = do n ← read_u64_le; return (some n)

-- The body of the loop.
unfoldable pub parse_tree_op : Parser TreeOp
parse_tree_op = do
  op_byte ← read_u8
  reject (op_byte == 0xff) (unsupported_feature Section.delta_linkage Fault.extended)
  kind ← or_fail (from_byte op_byte) (unsupported_feature Section.delta_linkage Fault.unknown_code)
  path_len ← read_u32_le
  reject (path_len == 0) (corrupt Section.delta_linkage Fault.empty_name)
  path ← read_n path_len
  reject (not (is_utf8 path)) (corrupt Section.delta_linkage Fault.not_utf8)
  reject (contains 0 path) (corrupt Section.delta_linkage Fault.nul_byte)
  reject (contains_pair b'/' path) (corrupt Section.delta_linkage Fault.double_slash)
  inode_number ← branch (has_inode_number kind) read_inode_number (return none)
  return (record { kind = kind; path = path; inode_number = inode_number })

unfoldable pub parse_delta_linkage : Parser DeltaLinkage
parse_delta_linkage = do
  version ← read_u8
  reject (not (version == section_version))
      (unsupported_feature Section.delta_linkage Fault.version)
  base_root ← read_n 32
  op_count ← read_u32_le
  min_total ← checked_mul op_count min_tree_op_len (corrupt Section.delta_linkage Fault.overflow)
  ensure_remaining min_total
  tree_ops ← parse_list (λ _. parse_tree_op) op_count []
  return (record { base_root = base_root; tree_ops = tree_ops })
