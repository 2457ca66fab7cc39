-- ===== src/Tests/Store.antt =====
-- The theorems on slab headers, drop records and directories (limnifs-core/src) at concrete images.
use limnifs.Prelude.{◌≡◌, refl, [], ◌∷◌, ◌++◌, arith, ok, bytes_eq, replicate}
use limnifs.Prelude.Bytes.{from_le_bytes, to_le_bytes}
use limnifs.Cursor.{
  Cursor, reject, or_fail, read_n, read_n_owned, read_magic, read_u8, read_u16_le, read_u32_le,
  read_u64_le, checked_mul, ensure_remaining, parse_list, branch, remaining, remaining_len,
}
use limnifs.Cursor.Steps.{IsValid, Steps}
use limnifs.Cursor.Unique.{any}
use limnifs.Prelude.Utf8.{is_utf8, utf8_rest, contains}
use limnifs.Format.{representation_from_bytes, representation_to_bytes}
use limnifs.Slab.Header
use limnifs.Slab.Header.RoundTrip as HeaderLayout
use limnifs.Slab.Record
use limnifs.Slab.Record.RoundTrip as RecordLayout
use limnifs.Tree.Directory
use limnifs.Tree.Directory.RoundTrip as DirectoryLayout

abbrev slab : Header.SlabHeader
slab = record {
  format_version = 1;
  slab_id = record { ordinal = 3; hash = replicate 32 8 };
  total_length = 4096;
  ec_descriptor = 0;
  crypto_hint = 1;
}

abbrev slab_cursor : Cursor
slab_cursor = record {
  bytes =
      76 ∷ 73 ∷ 77 ∷ 49 ∷ 1 ∷ 0 ∷ 3 ∷ 0 ∷ 0 ∷ 0 ∷ 0 ∷ 0 ∷ 0 ∷ 0 ∷ 8 ∷ 8 ∷ 8 ∷ 8 ∷ 8 ∷ 8 ∷ 8 ∷ 8 ∷ 8
      ∷ 8 ∷ 8 ∷ 8 ∷ 8 ∷ 8 ∷ 8 ∷ 8 ∷ 8 ∷ 8 ∷ 8 ∷ 8 ∷ 8 ∷ 8 ∷ 8 ∷ 8 ∷ 8 ∷ 8 ∷ 8 ∷ 8 ∷ 8 ∷ 8 ∷ 8 ∷ 8
      ∷ 0 ∷ 16 ∷ 0 ∷ 0 ∷ 0 ∷ 0 ∷ 0 ∷ 0 ∷ 0 ∷ 1 ∷ 9 ∷ [];
  pos = 0;
}

slab-IsValid : IsValid slab_cursor
slab-IsValid = omega arith

slab_bytes : remaining slab_cursor ≡ HeaderLayout.encode slab ++ (9 ∷ [])
unfolding remaining to_le_bytes HeaderLayout.encode
slab_bytes = refl

slab_parsed :
    Header.parse_slab_header_with_ceiling 8192 slab_cursor
    ≡ ok (slab, record slab_cursor { pos = 56 })
unfolding Header.parse_slab_header_with_ceiling read_n_owned read_n reject read_u8 read_u16_le
    read_u32_le read_u64_le read_magic bytes_eq from_le_bytes remaining_len checked_mul
    ensure_remaining parse_list any or_fail branch
slab_parsed = refl

slab_well : HeaderLayout.IsWellFormed 8192 slab
slab_well =
    (HeaderLayout.parse_slab_header_with_ceiling_canonical 8192 slab_cursor slab
      (record slab_cursor { pos = 56 }) slab-IsValid slab_parsed).0

slab_round_trip :
    (c' : Cursor) × (Header.parse_slab_header_with_ceiling 8192 slab_cursor ≡ ok (slab, c'))
    × Steps slab_cursor (HeaderLayout.encode slab) c'
    × (remaining c' ≡ 9 ∷ [])
slab_round_trip =
    HeaderLayout.parse_slab_header_with_ceiling-encode 8192 slab slab_cursor (9 ∷ []) slab_well
      slab-IsValid slab_bytes

slab_canonical :
    HeaderLayout.IsWellFormed 8192 slab
    × Steps slab_cursor (HeaderLayout.encode slab) (record slab_cursor { pos = 56 })
slab_canonical =
    HeaderLayout.parse_slab_header_with_ceiling_canonical 8192 slab_cursor slab
      (record slab_cursor { pos = 56 }) slab-IsValid slab_parsed

abbrev drop : Record.DropRecord
drop = record {
  drop_id = replicate 32 6;
  plaintext_len = 100;
  representation = record { codec = 1; aead = 2; ec = 0 };
  solid_window_index = 0;
  offset_in_window = 56;
  len_in_window = 80;
  dict_id = 0;
  flags = 0;
}

abbrev drop_cursor : Cursor
drop_cursor = record {
  bytes =
      6 ∷ 6 ∷ 6 ∷ 6 ∷ 6 ∷ 6 ∷ 6 ∷ 6 ∷ 6 ∷ 6 ∷ 6 ∷ 6 ∷ 6 ∷ 6 ∷ 6 ∷ 6 ∷ 6 ∷ 6 ∷ 6 ∷ 6 ∷ 6 ∷ 6 ∷ 6 ∷ 6
      ∷ 6 ∷ 6 ∷ 6 ∷ 6 ∷ 6 ∷ 6 ∷ 6 ∷ 6 ∷ 100 ∷ 0 ∷ 0 ∷ 0 ∷ 1 ∷ 2 ∷ 0 ∷ 0 ∷ 56 ∷ 0 ∷ 0 ∷ 0 ∷ 80 ∷ 0
      ∷ 0 ∷ 0 ∷ 0 ∷ 0 ∷ 9 ∷ [];
  pos = 0;
}

drop-IsValid : IsValid drop_cursor
drop-IsValid = omega arith

drop_bytes : remaining drop_cursor ≡ RecordLayout.encode drop ++ (9 ∷ [])
unfolding remaining to_le_bytes RecordLayout.encode representation_to_bytes
drop_bytes = refl

drop_parsed :
    Record.parse_drop_record_with_ceiling slab 4096 drop_cursor
    ≡ ok (drop, record drop_cursor { pos = 50 })
unfolding Record.parse_drop_record_with_ceiling Header.is_sealed Header.has_erasure_coding
    representation_from_bytes read_n_owned read_n reject read_u8 read_u16_le read_u32_le read_u64_le
    bytes_eq from_le_bytes remaining_len checked_mul ensure_remaining parse_list any or_fail branch
drop_parsed = refl

drop_well : RecordLayout.IsWellFormed slab 4096 drop
drop_well =
    (RecordLayout.parse_drop_record_with_ceiling_canonical slab 4096 drop_cursor drop
      (record drop_cursor { pos = 50 }) drop-IsValid drop_parsed).0

drop_round_trip :
    (c' : Cursor) × (Record.parse_drop_record_with_ceiling slab 4096 drop_cursor ≡ ok (drop, c'))
    × Steps drop_cursor (RecordLayout.encode drop) c'
    × (remaining c' ≡ 9 ∷ [])
drop_round_trip =
    RecordLayout.parse_drop_record_with_ceiling-encode slab 4096 drop drop_cursor (9 ∷ []) drop_well
      drop-IsValid drop_bytes

drop_canonical :
    RecordLayout.IsWellFormed slab 4096 drop
    × Steps drop_cursor (RecordLayout.encode drop) (record drop_cursor { pos = 50 })
drop_canonical =
    RecordLayout.parse_drop_record_with_ceiling_canonical slab 4096 drop_cursor drop
      (record drop_cursor { pos = 50 }) drop-IsValid drop_parsed

abbrev directory : Directory.DirectoryNode
directory = record {
  version = 1;
  entries =
      record { name = b'a' ∷ []; inode_number = 5; entry_type = 1 }
      ∷ record { name = b'b' ∷ b'c' ∷ []; inode_number = 6; entry_type = 2 }
      ∷ [];
}

abbrev directory_cursor : Cursor
directory_cursor = record {
  bytes =
      1 ∷ 2 ∷ 0 ∷ 0 ∷ 0 ∷ 1 ∷ 0 ∷ 0 ∷ 0 ∷ 97 ∷ 5 ∷ 0 ∷ 0 ∷ 0 ∷ 0 ∷ 0 ∷ 0 ∷ 0 ∷ 1 ∷ 2 ∷ 0 ∷ 0 ∷ 0
      ∷ 98 ∷ 99 ∷ 6 ∷ 0 ∷ 0 ∷ 0 ∷ 0 ∷ 0 ∷ 0 ∷ 0 ∷ 2 ∷ 9 ∷ [];
  pos = 0;
}

directory-IsValid : IsValid directory_cursor
directory-IsValid = omega arith

directory_bytes : remaining directory_cursor ≡ DirectoryLayout.encode directory ++ (9 ∷ [])
unfolding remaining to_le_bytes DirectoryLayout.encode DirectoryLayout.encode_entry
directory_bytes = refl

directory_parsed :
    Directory.parse_directory_node directory_cursor
    ≡ ok (directory, record directory_cursor { pos = 34 })
unfolding Directory.parse_directory_node Directory.parse_entry Directory.is_empty
    Directory.is_entry_type Directory.out_of_order Directory.prev_name Directory.name_lt is_utf8
    utf8_rest contains read_n_owned read_n reject read_u8 read_u16_le read_u32_le read_u64_le
    bytes_eq from_le_bytes remaining_len checked_mul ensure_remaining parse_list any or_fail branch
directory_parsed = refl

directory_well : DirectoryLayout.IsWellFormed directory
directory_well =
    (DirectoryLayout.parse_directory_node_canonical directory_cursor directory
      (record directory_cursor { pos = 34 }) directory-IsValid directory_parsed).0

directory_round_trip :
    (c' : Cursor) × (Directory.parse_directory_node directory_cursor ≡ ok (directory, c'))
    × Steps directory_cursor (DirectoryLayout.encode directory) c'
    × (remaining c' ≡ 9 ∷ [])
directory_round_trip =
    DirectoryLayout.parse_directory_node-encode directory directory_cursor (9 ∷ []) directory_well
      directory-IsValid directory_bytes

directory_canonical :
    DirectoryLayout.IsWellFormed directory
    × Steps directory_cursor
        (DirectoryLayout.encode directory)
        (record directory_cursor { pos = 34 })
directory_canonical =
    DirectoryLayout.parse_directory_node_canonical directory_cursor directory
      (record directory_cursor { pos = 34 }) directory-IsValid directory_parsed
