-- ===== src/Slab/Record.antt =====
-- limnifs-core/src/drop_record.rs: the record of one drop in a slab.
pub mod RoundTrip
use limnifs.Prelude.{ℕ, ◌+◌, ◌*◌, ◌^◌, not, ◌&&◌, ltb, leb, ◌==◌}
use limnifs.Error.{corrupt, Section, Fault}
use limnifs.Cursor.{Parser, ◌>>=◌, ◌>>◌, return, reject, read_n, read_u8, read_u32_le}
use limnifs.Format.{DropId, Representation, representation_from_bytes}
use limnifs.Slab.Header.{SlabHeader, is_sealed, has_erasure_coding}

pub record DropRecord : Type 0 where
  pub drop_id : DropId
  pub plaintext_len : ℕ
  pub representation : Representation
  pub solid_window_index : ℕ
  pub offset_in_window : ℕ
  pub len_in_window : ℕ
  pub dict_id : ℕ
  pub flags : ℕ

abbrev pub drop_record_len : ℕ
drop_record_len = 50

abbrev pub default_drop_max_plaintext_bytes : ℕ
default_drop_max_plaintext_bytes = 64 * 1024 * 1024

unfoldable pub parse_drop_record_with_ceiling : SlabHeader → ℕ → Parser DropRecord
parse_drop_record_with_ceiling slab max_plaintext = do
  drop_id ← read_n 32
  plaintext_len ← read_u32_le
  reject (ltb max_plaintext plaintext_len) (corrupt Section.drop_record Fault.above_ceiling)
  repr_bytes ← read_n 3
  let representation = representation_from_bytes repr_bytes
  reject (not (is_sealed slab) && not (representation.aead == 0))
      (corrupt Section.drop_record Fault.unexpected_aead)
  reject (not (has_erasure_coding slab) && not (representation.ec == 0))
      (corrupt Section.drop_record Fault.unexpected_ec)
  solid_window_index ← read_u8
  offset_in_window ← read_u32_le
  len_in_window ← read_u32_le
  reject (leb (2 ^ 32) (offset_in_window + len_in_window))
      (corrupt Section.drop_record Fault.overflow)
  dict_id ← read_u8
  flags ← read_u8
  return (record {
    drop_id = drop_id;
    plaintext_len = plaintext_len;
    representation = representation;
    solid_window_index = solid_window_index;
    offset_in_window = offset_in_window;
    len_in_window = len_in_window;
    dict_id = dict_id;
    flags = flags;
  })

unfoldable pub parse_drop_record : SlabHeader → Parser DropRecord
parse_drop_record slab = parse_drop_record_with_ceiling slab default_drop_max_plaintext_bytes
