-- ===== src/Epoch/Drops.antt =====
-- limnifs-core/src/epoch/drop_payload.rs: the drops that an epoch brings.
pub mod RoundTrip
use limnifs.Prelude.{ℕ, ◌∷◌, ◌++◌, List, [], length}
use limnifs.Prelude.Bytes.{to_le_bytes}
use limnifs.Error.{Section}
use limnifs.Cursor.{Parser, ◌>>=◌, return, read_n, read_u8, read_u32_le, parse_list}
use limnifs.Cursor.Loops.{encode_list}
use limnifs.Epoch.Named.{named}

pub record EpochDrop : Type 0 where
  pub drop_id : List ℕ
  pub codec : ℕ
  pub plaintext_len : ℕ
  pub payload : List ℕ

-- The body of the loop.
unfoldable pub write_one_drop : EpochDrop → List ℕ
write_one_drop d =
    d.drop_id
    ++ (d.codec
        ∷ (to_le_bytes 4 d.plaintext_len ++ (to_le_bytes 4 (length d.payload) ++ d.payload)))

unfoldable pub write_drop_section : List EpochDrop → List ℕ
write_drop_section drops = to_le_bytes 4 (length drops) ++ encode_list write_one_drop drops

unfoldable pub parse_one_drop : Parser EpochDrop
parse_one_drop = do
  drop_id ← named Section.epoch_drops (read_n 32)
  codec ← named Section.epoch_drops read_u8
  plaintext_len ← named Section.epoch_drops read_u32_le
  payload_len ← named Section.epoch_drops read_u32_le
  payload ← named Section.epoch_drops (read_n payload_len)
  return (record {
    drop_id = drop_id;
    codec = codec;
    plaintext_len = plaintext_len;
    payload = payload;
  })

unfoldable pub parse_drop_section : Parser (List EpochDrop)
parse_drop_section = do
  count ← named Section.epoch_drops read_u32_le
  parse_list (λ _. parse_one_drop) count []
