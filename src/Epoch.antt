-- ===== src/Epoch.antt =====
-- limnifs-core/src/epoch/mod.rs: an epoch, a commit on top of an image, as a file with a header, operations
-- and drops. BLAKE3 is the parameter `blake3`.
pub mod Named
pub mod Header
pub mod Ops
pub mod Drops
pub mod RoundTrip
pub mod Identity
use limnifs.Prelude.{ℕ, ◌+◌, not, List, ◌++◌, Result, ok, err, bytes_eq, take, drop, replicate}
use limnifs.Error.{CoreError, corrupt, Section, Fault}
use limnifs.Cursor.{Cursor, Outcome, Parser, ◌>>=◌, ◌>>◌, return, reject, new}
use limnifs.Slab.Reader.{value_of}
use limnifs.Epoch.Header.{EpochHeader, write_epoch_header, parse_epoch_header}
use limnifs.Epoch.Ops.{EpochOp, write_op_section, parse_op_section}
use limnifs.Epoch.Drops.{EpochDrop, write_drop_section, parse_drop_section}

pub record Epoch : Type 0 where
  pub header : EpochHeader
  pub ops : List EpochOp
  pub drops : List EpochDrop

unfoldable pub to_bytes : Epoch → List ℕ
to_bytes e = write_epoch_header e.header ++ (write_op_section e.ops ++ write_drop_section e.drops)

abbrev pub own_epoch_id_offset : ℕ
own_epoch_id_offset = 144

-- `tmp[offset..offset + 32].copy_from_slice(&[0u8; 32])`
unfoldable pub zero_own_epoch_id : List ℕ → List ℕ
zero_own_epoch_id bytes =
    take own_epoch_id_offset bytes ++ (replicate 32 0 ++ drop (own_epoch_id_offset + 32) bytes)

module _ (blake3 : List ℕ → List ℕ) where
  unfoldable pub compute_epoch_id : List ℕ → List ℕ
  compute_epoch_id epoch_bytes = blake3 epoch_bytes

  unfoldable pub id : Epoch → List ℕ
  unfolding compute_epoch_id to_bytes
  id e = compute_epoch_id (to_bytes e)

  -- The header with the hashes of the sections, and with the own id zero.
  unfoldable pub hashed_header : EpochHeader → List EpochOp → List EpochDrop → EpochHeader
  hashed_header header ops drops = record header {
    ops_hash = blake3 (write_op_section ops);
    drops_hash = blake3 (write_drop_section drops);
    own_epoch_id = replicate 32 0;
  }

  unfoldable pub build : EpochHeader → List EpochOp → List EpochDrop → Epoch
  unfolding hashed_header compute_epoch_id to_bytes
  build header ops drops =
      let zeroed = hashed_header header ops drops in
      record {
        header = record zeroed {
          own_epoch_id =
              compute_epoch_id (to_bytes (record { header = zeroed; ops = ops; drops = drops }));
        };
        ops = ops;
        drops = drops;
      }

  unfoldable pub parse_epoch : List ℕ → Parser Epoch
  parse_epoch bytes = do
    header ← parse_epoch_header
    reject (not (bytes_eq (compute_epoch_id (zero_own_epoch_id bytes)) header.own_epoch_id))
        (corrupt Section.epoch Fault.length_mismatch)
    ops ← parse_op_section
    drops ← parse_drop_section
    return (record { header = header; ops = ops; drops = drops })

  unfoldable pub from_bytes : List ℕ → Result CoreError Epoch
  unfolding parse_epoch value_of new
  from_bytes bytes = value_of (parse_epoch bytes (new bytes))
