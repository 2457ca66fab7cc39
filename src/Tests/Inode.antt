-- ===== src/Tests/Inode.antt =====
-- The theorems on inodes (limnifs-core/src/inode.rs) at a file of two slices.
use limnifs.Prelude.{
  ◌≡◌, refl, ℕ, inl, some, List, [], ◌∷◌, ◌++◌, arith, ok, ltb, replicate, if◌then◌else◌,
}
use limnifs.Prelude.Bytes.{from_le_bytes, to_le_bytes}
use limnifs.Cursor.{
  Cursor, reject, read_n, read_n_owned, read_u8, read_u32_le, read_u64_le, parse_list, branch,
  remaining,
}
use limnifs.Cursor.Steps.{IsValid, Steps}
use limnifs.Prelude.Utf8.{is_utf8, utf8_rest, contains}
use limnifs.Tree.Inode.{
  SliceRef, Inode, slice_map, has_flag, is_contiguous, file_len, parse_slice, parse_slices,
  parse_shared, parse_inline, parse_regular, parse_special, parse_content_handle, parse_xattr,
  parse_xattr_block, read_atime, parse_inode_with_ceiling,
}
use limnifs.Tree.Inode.Attributes.{encode_xattr, encode_xattrs, encode_atime}
use limnifs.Tree.Inode.Content.{encode_slice, encode_content}
use limnifs.Tree.Inode.RoundTrip.{
  encode, IsWellFormed, parse_inode_with_ceiling-encode, parse_inode_with_ceiling_canonical,
}
use limnifs.Tree.Inode.Length.{holders, file_len-holders}

abbrev slices : List SliceRef
slices =
    record {
      file_byte_start = 0;
      file_byte_end = 10;
      drop_id = replicate 32 6;
      drop_byte_start = 0;
      drop_byte_len = 10;
    }
    ∷ record {
      file_byte_start = 10;
      file_byte_end = 15;
      drop_id = replicate 32 8;
      drop_byte_start = 2;
      drop_byte_len = 5;
    }
    ∷ []

abbrev file : Inode
file = record {
  number = 7;
  mode = 0x81a4;
  uid = 1;
  gid = 2;
  mtime_ns = 3;
  ctime_ns = 4;
  nlink = 1;
  atime_ns = some 5;
  xattrs = record { namespace = 1; key = b'a' ∷ []; value = 66 ∷ [] } ∷ [];
  content_handle = slice_map slices;
}

abbrev file_cursor : Cursor
file_cursor = record {
  bytes =
      7 ∷ 0 ∷ 0 ∷ 0 ∷ 0 ∷ 0 ∷ 0 ∷ 0 ∷ 164 ∷ 129 ∷ 0 ∷ 0 ∷ 1 ∷ 0 ∷ 0 ∷ 0 ∷ 2 ∷ 0 ∷ 0 ∷ 0 ∷ 3 ∷ 0 ∷ 0
      ∷ 0 ∷ 0 ∷ 0 ∷ 0 ∷ 0 ∷ 4 ∷ 0 ∷ 0 ∷ 0 ∷ 0 ∷ 0 ∷ 0 ∷ 0 ∷ 1 ∷ 0 ∷ 0 ∷ 0 ∷ 3 ∷ 5 ∷ 0 ∷ 0 ∷ 0 ∷ 0
      ∷ 0 ∷ 0 ∷ 0 ∷ 1 ∷ 0 ∷ 0 ∷ 0 ∷ 1 ∷ 1 ∷ 0 ∷ 0 ∷ 0 ∷ 97 ∷ 1 ∷ 0 ∷ 0 ∷ 0 ∷ 66 ∷ 2 ∷ 0 ∷ 0 ∷ 0 ∷ 0
      ∷ 0 ∷ 0 ∷ 0 ∷ 0 ∷ 0 ∷ 0 ∷ 0 ∷ 10 ∷ 0 ∷ 0 ∷ 0 ∷ 0 ∷ 0 ∷ 0 ∷ 0 ∷ 6 ∷ 6 ∷ 6 ∷ 6 ∷ 6 ∷ 6 ∷ 6 ∷ 6
      ∷ 6 ∷ 6 ∷ 6 ∷ 6 ∷ 6 ∷ 6 ∷ 6 ∷ 6 ∷ 6 ∷ 6 ∷ 6 ∷ 6 ∷ 6 ∷ 6 ∷ 6 ∷ 6 ∷ 6 ∷ 6 ∷ 6 ∷ 6 ∷ 6 ∷ 6 ∷ 6
      ∷ 6 ∷ 0 ∷ 0 ∷ 0 ∷ 0 ∷ 10 ∷ 0 ∷ 0 ∷ 0 ∷ 10 ∷ 0 ∷ 0 ∷ 0 ∷ 0 ∷ 0 ∷ 0 ∷ 0 ∷ 15 ∷ 0 ∷ 0 ∷ 0 ∷ 0 ∷ 0
      ∷ 0 ∷ 0 ∷ 8 ∷ 8 ∷ 8 ∷ 8 ∷ 8 ∷ 8 ∷ 8 ∷ 8 ∷ 8 ∷ 8 ∷ 8 ∷ 8 ∷ 8 ∷ 8 ∷ 8 ∷ 8 ∷ 8 ∷ 8 ∷ 8 ∷ 8 ∷ 8
      ∷ 8 ∷ 8 ∷ 8 ∷ 8 ∷ 8 ∷ 8 ∷ 8 ∷ 8 ∷ 8 ∷ 8 ∷ 8 ∷ 2 ∷ 0 ∷ 0 ∷ 0 ∷ 5 ∷ 0 ∷ 0 ∷ 0 ∷ 9 ∷ [];
  pos = 0;
}

abbrev file_end : Cursor
file_end = record file_cursor { pos = 180 }

file_cursor-IsValid : IsValid file_cursor
file_cursor-IsValid = omega arith

file_bytes : remaining file_cursor ≡ encode 3 file ++ (9 ∷ [])
unfolding remaining to_le_bytes encode encode_atime encode_xattrs encode_xattr encode_content
    encode_slice has_flag
file_bytes = refl

file_parsed : parse_inode_with_ceiling 4096 file_cursor ≡ ok (file, file_end)
unfolding parse_inode_with_ceiling parse_content_handle parse_regular parse_special parse_shared
    parse_inline parse_slices parse_slice is_contiguous has_flag read_atime parse_xattr_block
    parse_xattr is_utf8 utf8_rest contains read_n_owned read_n reject read_u8 read_u32_le
    read_u64_le from_le_bytes parse_list branch
file_parsed = refl

parse_inode_canonical_example :
    (flags : ℕ) × IsWellFormed 4096 flags file × Steps file_cursor (encode flags file) file_end
parse_inode_canonical_example =
    parse_inode_with_ceiling_canonical 4096 file_cursor file file_end file_cursor-IsValid
      file_parsed

file-IsWellFormed : IsWellFormed 4096 3 file
unfolding has_flag is_utf8 utf8_rest contains
file-IsWellFormed = record {
  number = omega arith;
  mode = omega arith;
  uid = omega arith;
  gid = omega arith;
  mtime = omega arith;
  ctime = omega arith;
  nlink = omega arith;
  reserved = refl;
  atime = (refl, omega arith);
  xattrs = (
    omega arith,
    (
      record {
        namespace = omega arith;
        key_counted = omega arith;
        utf8 = refl;
        no_nul = refl;
        value_counted = omega arith;
      },
      tt,
    ),
  );
  content = inl (
    refl,
    (
      refl,
      refl,
      omega arith,
      (refl, (refl, tt)),
      (
        record {
          start = omega arith;
          end = omega arith;
          nonempty = omega arith;
          id = refl;
          drop_start = omega arith;
          drop_len = omega arith;
        },
        (
          record {
            start = omega arith;
            end = omega arith;
            nonempty = omega arith;
            id = refl;
            drop_start = omega arith;
            drop_len = omega arith;
          },
          tt,
        ),
      ),
    ),
  );
}

parse_inode_round_trip_example :
    (c' : Cursor) × (parse_inode_with_ceiling 4096 file_cursor ≡ ok (file, c'))
    × Steps file_cursor (encode 3 file) c'
    × (remaining c' ≡ 9 ∷ [])
parse_inode_round_trip_example =
    parse_inode_with_ceiling-encode 4096 3 file file_cursor (9 ∷ []) file-IsWellFormed
      file_cursor-IsValid file_bytes

file_len-holders_example :
    holders 12 slices ≡ (if ltb 12 (file_len (slice_map slices)) then 1 else 0)
file_len-holders_example =
    file_len-holders 4096 file_cursor file file_end slices 12 file_cursor-IsValid file_parsed refl
