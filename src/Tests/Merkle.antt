-- ===== src/Tests/Merkle.antt =====
-- The theorem on merkle roots (limnifs-core/src/merkle.rs) at a hash that gives one digest to all inputs.
use limnifs.Prelude.{ℕ, ◌≡◌, refl, ◌⊎◌, List, replicate}
use limnifs.Merkle.{SectionHashes, compute_merkle_root}
use limnifs.Merkle.Root.{AreDigests, Collision, compute_merkle_root_binding}

abbrev constant_hash : List ℕ → List ℕ
constant_hash bytes = replicate 32 7

abbrev hashes : ℕ → SectionHashes
hashes n = record {
  metadata = replicate 32 n;
  format_header = replicate 32 1;
  feature_flags = replicate 32 2;
  metadata_reference = replicate 32 3;
  slab_index = replicate 32 4;
  crypto_params = replicate 32 5;
  ec_params = replicate 32 5;
  dms_policy = replicate 32 5;
  delta_linkage = replicate 32 5;
  history = replicate 32 6;
}

hashes-AreDigests : (n : ℕ) → AreDigests (hashes n)
hashes-AreDigests n = record {
  metadata = refl;
  format_header = refl;
  feature_flags = refl;
  metadata_reference = refl;
  slab_index = refl;
  crypto_params = refl;
  ec_params = refl;
  dms_policy = refl;
  delta_linkage = refl;
}

one_root :
    compute_merkle_root constant_hash (hashes 8) ≡ compute_merkle_root constant_hash (hashes 9)
unfolding compute_merkle_root
one_root = refl

compute_merkle_root_example : (hashes 8 ≡ hashes 9) ⊎ Collision constant_hash
compute_merkle_root_example =
    compute_merkle_root_binding constant_hash (hashes 8) (hashes 9) (hashes-AreDigests 8)
      (hashes-AreDigests 9) one_root
