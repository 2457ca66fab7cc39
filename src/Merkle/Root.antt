-- ===== src/Merkle/Root.antt =====
-- limnifs-core/src/merkle.rs: what an equal root says.
use limnifs.Prelude.{
  append_split, ℕ, ◌≡◌, ◌≢◌, refl, sym, ap, ◌∙◌, ◌⊎◌, inl, inr, Bool-cases, List, bytes_eq,
  bytes_eq_refl, bytes_eq→eq, length,
}
use limnifs.Merkle.{SectionHashes, merkle_input, merkle_domain_separator, compute_merkle_root}

-- Ten digests of 32 bytes.
pub record AreDigests (h : SectionHashes) : Type 0 where
  pub metadata : length h.metadata ≡ 32
  pub format_header : length h.format_header ≡ 32
  pub feature_flags : length h.feature_flags ≡ 32
  pub metadata_reference : length h.metadata_reference ≡ 32
  pub slab_index : length h.slab_index ≡ 32
  pub crypto_params : length h.crypto_params ≡ 32
  pub ec_params : length h.ec_params ≡ 32
  pub dms_policy : length h.dms_policy ≡ 32
  pub delta_linkage : length h.delta_linkage ≡ 32

-- Nine digests in front of the last one determine the ten.
merkle_input_injective :
    (h k : SectionHashes) → AreDigests h → AreDigests k → merkle_input h ≡ merkle_input k → h ≡ k
unfolding merkle_input
merkle_input_injective h k w v e =
    let (_, e0) = append_split merkle_domain_separator _ merkle_domain_separator _ refl e in
    let (metadata, e1) = append_split h.metadata _ k.metadata _ (w.metadata ∙ sym v.metadata) e0 in
    let (format_header, e2) =
      append_split h.format_header _ k.format_header _ (w.format_header ∙ sym v.format_header) e1 in
    let (feature_flags, e3) =
      append_split h.feature_flags _ k.feature_flags _ (w.feature_flags ∙ sym v.feature_flags) e2 in
    let (metadata_reference, e4) =
      append_split h.metadata_reference _ k.metadata_reference _
        (w.metadata_reference ∙ sym v.metadata_reference) e3 in
    let (slab_index, e5) =
      append_split h.slab_index _ k.slab_index _ (w.slab_index ∙ sym v.slab_index) e4 in
    let (crypto_params, e6) =
      append_split h.crypto_params _ k.crypto_params _ (w.crypto_params ∙ sym v.crypto_params) e5 in
    let (ec_params, e7) =
      append_split h.ec_params _ k.ec_params _ (w.ec_params ∙ sym v.ec_params) e6 in
    let (dms_policy, e8) =
      append_split h.dms_policy _ k.dms_policy _ (w.dms_policy ∙ sym v.dms_policy) e7 in
    let (delta_linkage, history) =
      append_split h.delta_linkage _ k.delta_linkage _ (w.delta_linkage ∙ sym v.delta_linkage) e8 in
    λ i. record {
      metadata = metadata i;
      format_header = format_header i;
      feature_flags = feature_flags i;
      metadata_reference = metadata_reference i;
      slab_index = slab_index i;
      crypto_params = crypto_params i;
      ec_params = ec_params i;
      dms_policy = dms_policy i;
      delta_linkage = delta_linkage i;
      history = history i;
    }

-- Two different inputs with one digest.
abbrev pub Collision : (List ℕ → List ℕ) → Type 0
Collision hash = (xs : List ℕ) × (ys : List ℕ) × (xs ≢ ys) × (hash xs ≡ hash ys)

-- Two inputs with one digest are the same, or a collision.
pub collide :
    (hash : List ℕ → List ℕ) (xs ys : List ℕ) → hash xs ≡ hash ys → (xs ≡ ys) ⊎ Collision hash
collide hash xs ys e = elim (Bool-cases (bytes_eq xs ys)) [
  | inl t ↦ inl (bytes_eq→eq xs ys t)
  | inr f ↦
      inr (xs, ys, (λ same. let both = sym (bytes_eq_refl xs) ∙ ap (bytes_eq xs) same ∙ f in cc), e)
]

-- The root is an identity of the section hashes up to collisions of the hash: if two sets of ten
-- 32-byte section hashes have one root, then they are the same, slot by slot, or two different
-- inputs with the same digest are at hand.
pub compute_merkle_root_binding :
    (blake3 : List ℕ → List ℕ) (h k : SectionHashes)
    → AreDigests h
    → AreDigests k
    → compute_merkle_root blake3 h ≡ compute_merkle_root blake3 k
    → (h ≡ k) ⊎ Collision blake3
unfolding compute_merkle_root
compute_merkle_root_binding blake3 h k w v e =
    elim (collide blake3 (merkle_input h) (merkle_input k) e) [
      | inl same ↦ inl (merkle_input_injective h k w v same)
      | inr collision ↦ inr collision
    ]
