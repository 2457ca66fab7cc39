-- ===== src/Format/Ids.antt =====
-- limnifs-format/src/lib.rs: the byte forms of the ids and of the small descriptors.
use limnifs.Prelude.{
  ℕ, ◌^◌, ◌<◌, ◌≡◌, refl, ◌↔◌, true, some, List, [], ◌∷◌, arith, ==_refl, bytes_eq_refl,
  bytes_eq→eq, length,
}
use limnifs.Prelude.Bytes.{from_le_bytes, to_le_bytes, from_le_bytes-to_le_bytes}
use limnifs.Format.{
  SlabId, slab_id_eq, slab_id_from_bytes, slab_id_to_bytes, Tier, epilimnion, metalimnion,
  hypolimnion, tier_from_byte, tier_to_byte, representation_to_bytes, representation_from_bytes,
}

-- Two slab ids compare equal exactly when they are equal.
pub slab_id_eq_iff : (a b : SlabId) → (slab_id_eq a b ≡ true) ↔ (a ≡ b)
unfolding slab_id_eq
slab_id_eq_iff a b = (
  (λ h.
      let o : a.ordinal ≡ b.ordinal = ground arith in
      let e : a.hash ≡ b.hash = bytes_eq→eq a.hash b.hash (ground arith) in
      λ i. record { ordinal = o i; hash = e i }),
  (λ p. rw p (ground (arith, ==_refl b.ordinal, bytes_eq_refl b.hash))),
)

-- A slab id whose ordinal is a u64 comes back from its 40 bytes.
pub slab_id_from_bytes-to_bytes :
    (s : SlabId) → s.ordinal < 2 ^ 64 → slab_id_from_bytes (slab_id_to_bytes s) ≡ s
unfolding slab_id_from_bytes slab_id_to_bytes to_le_bytes
slab_id_from_bytes-to_bytes s h =
    let n : from_le_bytes (to_le_bytes 8 s.ordinal) ≡ s.ordinal =
      from_le_bytes-to_le_bytes 8 s.ordinal h in
    λ i. record { ordinal = n i; hash = s.hash }

-- A byte decodes to a tier exactly when it is that tier's byte, so bytes above 2 are refused.
pub tier_bytes : (b : ℕ) (t : Tier) → (tier_from_byte b ≡ some t) ↔ (b ≡ tier_to_byte t)
unfolding tier_from_byte tier_to_byte
tier_bytes b epilimnion = ground arith
tier_bytes b metalimnion = ground arith
tier_bytes b hypolimnion = ground arith

pub representation_bytes :
    (bytes : List ℕ)
    → length bytes ≡ 3
    → representation_to_bytes (representation_from_bytes bytes) ≡ bytes
unfolding representation_to_bytes representation_from_bytes
representation_bytes [] h = absurd (omega arith)
representation_bytes (a ∷ []) h = absurd (omega arith)
representation_bytes (a ∷ b ∷ []) h = absurd (omega arith)
representation_bytes (a ∷ b ∷ c ∷ []) h = refl
representation_bytes (a ∷ b ∷ c ∷ d ∷ bytes) h = absurd (omega arith)
