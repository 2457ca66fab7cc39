-- ===== src/Tree/Directory.antt =====
-- limnifs-core/src/directory_node.rs: a directory's sorted entries. A name is its UTF-8 bytes.
pub mod Order
pub mod RoundTrip
use limnifs.Prelude.{
  ℕ, Bool, true, false, not, ◌&&◌, ◌||◌, Option, none, some, List, [], ◌∷◌, ltb, ◌==◌,
}
use limnifs.Error.{corrupt, unsupported_feature, Section, Fault}
use limnifs.Cursor.{
  Parser, ◌>>=◌, ◌>>◌, return, reject, read_n, read_u8, read_u32_le, read_u64_le, parse_list,
}
use limnifs.Prelude.Utf8.{is_utf8, contains}

pub record DirEntry : Type 0 where
  pub name : List ℕ
  pub inode_number : ℕ
  pub entry_type : ℕ

pub record DirectoryNode : Type 0 where
  pub version : ℕ
  pub entries : List DirEntry

abbrev pub directory_node_version : ℕ
directory_node_version = 1

-- The order of two names: byte by byte, as Rust compares strings.
unfoldable pub name_lt : List ℕ → List ℕ → Bool
name_lt [] [] = false
name_lt [] (b ∷ bs) = true
name_lt (a ∷ xs) [] = false
name_lt (a ∷ xs) (b ∷ ys) = ltb a b || ((a == b) && name_lt xs ys)

-- `prev_name`: the name of the entry before.
unfoldable pub prev_name : List DirEntry → Option (List ℕ)
prev_name [] = none
prev_name (e ∷ []) = some e.name
prev_name (e ∷ f ∷ es) = prev_name (f ∷ es)

-- `if let Some(prev) = prev_name { if prev >= name { .. } }`
unfoldable pub out_of_order : Option (List ℕ) → List ℕ → Bool
out_of_order none name = false
out_of_order (some prev) name = not (name_lt prev name)

unfoldable pub is_empty : List ℕ → Bool
is_empty [] = true
is_empty (b ∷ bs) = false

-- `matches!(entry_type, FILE | DIRECTORY | SYMLINK | SPECIAL)`
unfoldable pub is_entry_type : ℕ → Bool
is_entry_type t = t == 1 || t == 2 || t == 3 || t == 4

-- The body of the loop, with the entries that are already there.
unfoldable pub parse_entry : List DirEntry → Parser DirEntry
parse_entry entries = do
  name_len ← read_u32_le
  name ← read_n name_len
  reject (is_empty name) (corrupt Section.directory_node Fault.empty_name)
  reject (contains b'/' name) (corrupt Section.directory_node Fault.slash)
  reject (contains 0 name) (corrupt Section.directory_node Fault.nul_byte)
  reject (not (is_utf8 name)) (corrupt Section.directory_node Fault.not_utf8)
  reject (out_of_order (prev_name entries) name) (corrupt Section.directory_node Fault.unsorted)
  inode_number ← read_u64_le
  entry_type ← read_u8
  reject (not (is_entry_type entry_type)) (corrupt Section.directory_node Fault.unknown_code)
  return (record { name = name; inode_number = inode_number; entry_type = entry_type })

unfoldable pub parse_directory_node : Parser DirectoryNode
parse_directory_node = do
  version ← read_u8
  reject (not (version == directory_node_version))
      (unsupported_feature Section.directory_node Fault.version)
  entry_count ← read_u32_le
  entries ← parse_list parse_entry entry_count []
  return (record { version = version; entries = entries })
