-- ===== src/Tests/Epoch.antt =====
-- The theorems on epochs (limnifs-core/src/epoch) at an epoch that makes a directory and adds a file, with a
-- hash that gives one digest to all inputs.
use limnifs.Prelude.{
  true, ℕ, ◌≡◌, refl, ◌⊎◌, ◌<◌, ◌^◌, List, [], ◌∷◌, arith, ok, length, replicate, All,
}
use limnifs.Prelude.Bytes.{IsByte, to_le_bytes}
use limnifs.Prelude.Utf8.{is_utf8, utf8_rest}
use limnifs.Merkle.Root.{Collision}
use limnifs.Epoch.Header.{EpochHeader, write_epoch_header}
use limnifs.Epoch.Ops.{
  EpochOp, write_op_section, write_one_op, write_fields, write_path, kind, opcode,
}
use limnifs.Epoch.Ops.RoundTrip.{AreOps, IsPath}
use limnifs.Epoch.Drops.{EpochDrop, write_drop_section, write_one_drop}
use limnifs.Epoch.Drops.RoundTrip.{AreDrops}
use limnifs.Epoch.{Epoch, to_bytes, build, hashed_header, compute_epoch_id, from_bytes}
use limnifs.Epoch.RoundTrip.{IsBase, from_bytes-build}
use limnifs.Epoch.Identity.{from_bytes_binding}

abbrev constant_hash : List ℕ → List ℕ
constant_hash bytes = replicate 32 7

abbrev header : EpochHeader
header = record {
  version = 1;
  flags = 2;
  parent_epoch_id = replicate 32 1;
  base_image_root = replicate 32 2;
  epoch_sequence = 5;
  ops_hash = replicate 32 0;
  drops_hash = replicate 32 0;
  own_epoch_id = replicate 32 0;
  timestamp_unix = 1700000000;
}

-- "d", then "d/f".
abbrev ops : List EpochOp
ops =
    EpochOp.mkdir (100 ∷ []) 493
    ∷ EpochOp.add (100 ∷ 47 ∷ 102 ∷ []) (replicate 32 6) 3 420 1700000000
    ∷ []

abbrev drops : List EpochDrop
drops =
    record { drop_id = replicate 32 6; codec = 0; plaintext_len = 3; payload = 1 ∷ 2 ∷ 3 ∷ [] } ∷ []

abbrev epoch : Epoch
epoch = build constant_hash header ops drops

header-IsBase : IsBase header
header-IsBase = omega arith

is_path : (path : List ℕ) → length path < 2 ^ 32 → is_utf8 path ≡ true → IsPath path
is_path path h u = record { counted = h; utf8 = u }

ops-AreOps : AreOps ops
unfolding is_utf8 utf8_rest
ops-AreOps = record {
  counted = omega arith;
  fit = (
    (is_path (100 ∷ []) (omega arith) refl, omega arith),
    (
      (
        is_path (100 ∷ 47 ∷ 102 ∷ []) (omega arith) refl,
        refl,
        omega arith,
        omega arith,
        omega arith,
      ),
      tt,
    ),
  );
}

drops-AreDrops : AreDrops drops
drops-AreDrops = record {
  counted = omega arith;
  fit = (record { id = refl; plaintext = omega arith; counted = omega arith }, tt);
}

epoch_is_short : length (to_bytes epoch) < 2 ^ 63
unfolding to_bytes build hashed_header compute_epoch_id write_epoch_header write_op_section
    write_one_op write_fields write_path kind opcode write_drop_section write_one_drop to_le_bytes
epoch_is_short = omega arith

epoch_is_bytes : All IsByte (to_bytes epoch)
unfolding to_bytes build hashed_header compute_epoch_id write_epoch_header write_op_section
    write_one_op write_fields write_path kind opcode write_drop_section write_one_drop to_le_bytes
epoch_is_bytes = omega arith

from_bytes_example : from_bytes constant_hash (to_bytes epoch) ≡ ok epoch
from_bytes_example =
    from_bytes-build constant_hash (λ xs. refl) header ops drops header-IsBase ops-AreOps
      drops-AreDrops epoch_is_short epoch_is_bytes

from_bytes_binding_example : (to_bytes epoch ≡ to_bytes epoch) ⊎ Collision constant_hash
from_bytes_binding_example =
    from_bytes_binding constant_hash (to_bytes epoch) (to_bytes epoch) epoch epoch epoch_is_short
      epoch_is_short epoch_is_bytes epoch_is_bytes from_bytes_example from_bytes_example refl
