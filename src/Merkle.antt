-- ===== src/Merkle.antt =====
-- limnifs-core/src/merkle.rs: the root of a manifest, a hash over the hashes of its ten sections. BLAKE3
-- is the parameter `blake3`.
pub mod Root
use limnifs.Prelude.{ℕ, List, [], ◌∷◌, ◌++◌}

-- b"limnifs/v1"
abbrev pub merkle_domain_separator : List ℕ
merkle_domain_separator = 108 ∷ 105 ∷ 109 ∷ 110 ∷ 105 ∷ 102 ∷ 115 ∷ 47 ∷ 118 ∷ 49 ∷ []

pub record SectionHashes : Type 0 where
  pub metadata : List ℕ
  pub format_header : List ℕ
  pub feature_flags : List ℕ
  pub metadata_reference : List ℕ
  pub slab_index : List ℕ
  pub crypto_params : List ℕ
  pub ec_params : List ℕ
  pub dms_policy : List ℕ
  pub delta_linkage : List ℕ
  pub history : List ℕ

-- What the hasher is fed, in order.
unfoldable pub merkle_input : SectionHashes → List ℕ
merkle_input hashes =
    merkle_domain_separator
    ++ (hashes.metadata
        ++ (hashes.format_header
            ++ (hashes.feature_flags
                ++ (hashes.metadata_reference
                    ++ (hashes.slab_index
                        ++ (hashes.crypto_params
                            ++ (hashes.ec_params
                                ++ (hashes.dms_policy
                                    ++ (hashes.delta_linkage ++ hashes.history)))))))))

module _ (blake3 : List ℕ → List ℕ) where
  unfoldable pub hash_section : List ℕ → List ℕ
  hash_section bytes = blake3 bytes

  unfoldable pub hash_empty_section : List ℕ
  unfolding hash_section
  hash_empty_section = hash_section []

  unfoldable pub section_hashes_minimal :
      List ℕ → List ℕ → List ℕ → List ℕ → List ℕ → List ℕ → SectionHashes
  unfolding hash_empty_section
  section_hashes_minimal metadata format_header feature_flags metadata_reference slab_index
        history =
      record {
        metadata = metadata;
        format_header = format_header;
        feature_flags = feature_flags;
        metadata_reference = metadata_reference;
        slab_index = slab_index;
        crypto_params = hash_empty_section;
        ec_params = hash_empty_section;
        dms_policy = hash_empty_section;
        delta_linkage = hash_empty_section;
        history = history;
      }

  unfoldable pub compute_merkle_root : SectionHashes → List ℕ
  unfolding merkle_input
  compute_merkle_root hashes = blake3 (merkle_input hashes)
