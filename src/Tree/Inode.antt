-- ===== src/Tree/Inode.antt =====
-- limnifs-core/src/inode.rs: a file's inode with its extended attributes and its content handle.
pub mod Content
pub mod Attributes
pub mod RoundTrip
pub mod Length
use limnifs.Prelude.{
  ℕ, ◌-◌, ◌*◌, bit_and, Bool, true, false, not, ◌&&◌, ◌||◌, Option, none, some, List, [], ◌∷◌, ltb,
  leb, ◌==◌, length,
}
use limnifs.Error.{corrupt, Section, Fault}
use limnifs.Cursor.{
  Parser, ◌>>=◌, ◌>>◌, return, fail, reject, branch, read_n, read_n_owned, read_u8, read_u32_le,
  read_u64_le, parse_list,
}
use limnifs.Prelude.Utf8.{is_utf8, contains}
use limnifs.Format.{DropId}

pub record XAttr : Type 0 where
  pub namespace : ℕ
  pub key : List ℕ
  pub value : List ℕ

pub record SliceRef : Type 0 where
  pub file_byte_start : ℕ
  pub file_byte_end : ℕ
  pub drop_id : DropId
  pub drop_byte_start : ℕ
  pub drop_byte_len : ℕ

pub data ContentHandle : Type 0 where
  inline_data : List ℕ → ContentHandle
  shared_inline : ℕ → ContentHandle
  slice_map : List SliceRef → ContentHandle
  directory : List ℕ → ContentHandle
  symlink : List ℕ → ContentHandle
  device : ℕ → ContentHandle
  pipe : ℕ → ContentHandle

pub record Inode : Type 0 where
  pub number : ℕ
  pub mode : ℕ
  pub uid : ℕ
  pub gid : ℕ
  pub mtime_ns : ℕ
  pub ctime_ns : ℕ
  pub nlink : ℕ
  pub atime_ns : Option ℕ
  pub xattrs : List XAttr
  pub content_handle : ContentHandle

abbrev pub default_inline_data_max_bytes : ℕ
default_inline_data_max_bytes = 4 * 1024

abbrev pub s_ifmt : ℕ
s_ifmt = 0xf000

abbrev pub s_ifreg : ℕ
s_ifreg = 0x8000

abbrev pub s_ifdir : ℕ
s_ifdir = 0x4000

abbrev pub s_iflnk : ℕ
s_iflnk = 0xa000

-- `S_IFBLK | S_IFCHR`
unfoldable pub is_device : ℕ → Bool
is_device t = t == 0x6000 || t == 0x2000

-- `S_IFIFO | S_IFSOCK`
unfoldable pub is_pipe : ℕ → Bool
is_pipe t = t == 0x1000 || t == 0xc000

abbrev pub file_type_of : ℕ → ℕ
file_type_of mode = bit_and mode s_ifmt

unfoldable pub file_type : Inode → ℕ
file_type i = file_type_of i.mode

unfoldable pub is_regular : Inode → Bool
unfolding file_type
is_regular i = file_type i == s_ifreg

unfoldable pub is_directory : Inode → Bool
unfolding file_type
is_directory i = file_type i == s_ifdir

-- `flags & mask != 0`
unfoldable pub has_flag : ℕ → ℕ → Bool
has_flag mask flags = not (bit_and flags mask == 0)

abbrev pub flag_atime : ℕ
flag_atime = 0x01

abbrev pub flag_has_xattrs : ℕ
flag_has_xattrs = 0x02

abbrev pub flag_inline_data : ℕ
flag_inline_data = 0x04

abbrev pub flag_shared_inline : ℕ
flag_shared_inline = 0x08

abbrev pub flag_reserved_mask : ℕ
flag_reserved_mask = 0xf0

-- `slices.last()`: the end of the last slice.
unfoldable pub last_end : List SliceRef → Option ℕ
last_end [] = none
last_end (s ∷ []) = some s.file_byte_end
last_end (s ∷ t ∷ ss) = last_end (t ∷ ss)

-- `slices.first().map_or(0, ..)`
unfoldable pub first_start : List SliceRef → ℕ
first_start [] = 0
first_start (s ∷ ss) = s.file_byte_start

-- The length of a slice map.
unfoldable pub slices_len : List SliceRef → ℕ
slices_len ss = elim (last_end ss) [ none ↦ 0 | some e ↦ e - first_start ss ]

unfoldable pub file_len : ContentHandle → ℕ
file_len (inline_data bytes) = length bytes
file_len (shared_inline index) = 0
file_len (slice_map slices) = slices_len slices
file_len (directory hash) = 0
file_len (symlink target) = 0
file_len (device dev) = 0
file_len (pipe id) = 0

-- The body of the loop over the attributes.
unfoldable pub parse_xattr : Parser XAttr
parse_xattr = do
  namespace ← read_u8
  reject (ltb 0x03 namespace) (corrupt Section.inode Fault.unknown_code)
  key_len ← read_u32_le
  key ← read_n key_len
  reject (not (is_utf8 key)) (corrupt Section.inode Fault.not_utf8)
  reject (contains 0 key) (corrupt Section.inode Fault.nul_byte)
  value_len ← read_u32_le
  value ← read_n_owned value_len
  return (record { namespace = namespace; key = key; value = value })

unfoldable pub parse_xattr_block : Parser (List XAttr)
parse_xattr_block = do count ← read_u32_le; parse_list (λ _. parse_xattr) count []

-- The body of the loop over the slices.
unfoldable pub parse_slice : Parser SliceRef
parse_slice = do
  file_byte_start ← read_u64_le
  file_byte_end ← read_u64_le
  reject (leb file_byte_end file_byte_start) (corrupt Section.inode Fault.empty_slice)
  drop_id ← read_n 32
  drop_byte_start ← read_u32_le
  drop_byte_len ← read_u32_le
  return (record {
    file_byte_start = file_byte_start;
    file_byte_end = file_byte_end;
    drop_id = drop_id;
    drop_byte_start = drop_byte_start;
    drop_byte_len = drop_byte_len;
  })

-- `validate_slice_map`: each slice starts where the one before ended.
unfoldable pub is_contiguous : ℕ → List SliceRef → Bool
is_contiguous expected_start [] = true
is_contiguous expected_start (s ∷ ss) =
    s.file_byte_start == expected_start && is_contiguous s.file_byte_end ss

-- The arms of `parse_content_handle`.
unfoldable pub parse_shared : Parser ContentHandle
parse_shared = do index ← read_u32_le; return (shared_inline index)

unfoldable pub parse_inline : ℕ → Parser ContentHandle
parse_inline max_inline_bytes = do
  inline_len ← read_u32_le
  reject (ltb max_inline_bytes inline_len) (corrupt Section.inode Fault.above_ceiling)
  bytes ← read_n_owned inline_len
  return (inline_data bytes)

unfoldable pub parse_slices : Parser ContentHandle
parse_slices = do
  slice_count ← read_u32_le
  slices ← parse_list (λ _. parse_slice) slice_count []
  reject (not (is_contiguous 0 slices)) (corrupt Section.inode Fault.gap)
  return (slice_map slices)

unfoldable pub parse_directory : Parser ContentHandle
parse_directory = do hash ← read_n 32; return (directory hash)

unfoldable pub parse_symlink : Parser ContentHandle
parse_symlink = do
  target_len ← read_u32_le
  target ← read_n target_len
  reject (not (is_utf8 target)) (corrupt Section.inode Fault.not_utf8)
  return (symlink target)

unfoldable pub parse_device : Parser ContentHandle
parse_device = do dev ← read_u64_le; return (device dev)

unfoldable pub parse_pipe : Parser ContentHandle
parse_pipe = do id ← read_u64_le; return (pipe id)

-- The arm of `S_IFREG`.
unfoldable pub parse_regular : ℕ → ℕ → Parser ContentHandle
parse_regular flags max_inline_bytes =
    branch (has_flag flag_shared_inline flags) parse_shared
      (branch (has_flag flag_inline_data flags) (parse_inline max_inline_bytes) parse_slices)

-- The arms of all other types.
unfoldable pub parse_special : ℕ → Parser ContentHandle
parse_special t = branch (t == s_ifdir) parse_directory (
    branch (t == s_iflnk) parse_symlink (
      branch (is_device t) parse_device
        (branch (is_pipe t) parse_pipe (fail (corrupt Section.inode Fault.unknown_code)))))

unfoldable pub parse_content_handle : ℕ → ℕ → ℕ → Parser ContentHandle
parse_content_handle mode flags max_inline_bytes =
    branch (file_type_of mode == s_ifreg) (parse_regular flags max_inline_bytes)
      (parse_special (file_type_of mode))

unfoldable pub read_atime : Parser (Option ℕ)
read_atime = do atime ← read_u64_le; return (some atime)

unfoldable pub parse_inode_with_ceiling : ℕ → Parser Inode
parse_inode_with_ceiling max_inline_bytes = do
  number ← read_u64_le
  mode ← read_u32_le
  uid ← read_u32_le
  gid ← read_u32_le
  mtime_ns ← read_u64_le
  ctime_ns ← read_u64_le
  nlink ← read_u32_le
  flags ← read_u8
  reject (has_flag flag_reserved_mask flags) (corrupt Section.inode Fault.reserved_flags)
  atime_ns ← branch (has_flag flag_atime flags) read_atime (return none)
  xattrs ← branch (has_flag flag_has_xattrs flags) parse_xattr_block (return [])
  content_handle ← parse_content_handle mode flags max_inline_bytes
  return (record {
    number = number;
    mode = mode;
    uid = uid;
    gid = gid;
    mtime_ns = mtime_ns;
    ctime_ns = ctime_ns;
    nlink = nlink;
    atime_ns = atime_ns;
    xattrs = xattrs;
    content_handle = content_handle;
  })

unfoldable pub parse_inode : Parser Inode
parse_inode = parse_inode_with_ceiling default_inline_data_max_bytes
