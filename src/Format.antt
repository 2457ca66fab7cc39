-- ===== src/Format.antt =====
-- limnifs-format/src/lib.rs: the ids and small descriptors of the wire format. A 32-byte array is a
-- list of bytes.
pub mod Ids
use limnifs.Prelude.{
  ℕ, Bool, ◌&&◌, Option, none, some, List, [], ◌∷◌, ◌++◌, ◌==◌, if◌then◌else◌, bytes_eq, take, drop,
  get_or,
}
use limnifs.Prelude.Bytes.{from_le_bytes, to_le_bytes}

abbrev pub hash_len : ℕ
hash_len = 32

-- A `DropId` or a `ManifestRoot` is its 32 bytes.
abbrev pub DropId : Type 0
DropId = List ℕ

abbrev pub ManifestRoot : Type 0
ManifestRoot = List ℕ

pub record SlabId : Type 0 where
  pub ordinal : ℕ
  pub hash : List ℕ

-- The derived `==` of `SlabId`.
unfoldable pub slab_id_eq : SlabId → SlabId → Bool
slab_id_eq a b = (a.ordinal == b.ordinal) && bytes_eq a.hash b.hash

unfoldable pub slab_id_from_bytes : List ℕ → SlabId
slab_id_from_bytes bytes = record { ordinal = from_le_bytes (take 8 bytes); hash = drop 8 bytes }

unfoldable pub slab_id_to_bytes : SlabId → List ℕ
slab_id_to_bytes s = to_le_bytes 8 s.ordinal ++ s.hash

pub data Tier : Type 0 where
  epilimnion metalimnion hypolimnion : Tier

unfoldable pub tier_from_byte : ℕ → Option Tier
tier_from_byte b =
    if b == 0
    then some epilimnion
    else if b == 1
    then some metalimnion
    else if b == 2
    then some hypolimnion
    else none

unfoldable pub tier_to_byte : Tier → ℕ
tier_to_byte epilimnion = 0
tier_to_byte metalimnion = 1
tier_to_byte hypolimnion = 2

pub record Representation : Type 0 where
  pub codec : ℕ
  pub aead : ℕ
  pub ec : ℕ

unfoldable pub is_plaintext : Representation → Bool
is_plaintext r = r.aead == 0

unfoldable pub has_no_ec : Representation → Bool
has_no_ec r = r.ec == 0

unfoldable pub representation_to_bytes : Representation → List ℕ
representation_to_bytes r = r.codec ∷ r.aead ∷ r.ec ∷ []

-- The argument is a `[u8; 3]`.
unfoldable pub representation_from_bytes : List ℕ → Representation
representation_from_bytes bytes = record {
  codec = get_or bytes 0 0;
  aead = get_or bytes 1 0;
  ec = get_or bytes 2 0;
}
