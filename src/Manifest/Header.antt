-- ===== src/Manifest/Header.antt =====
-- limnifs-core/src/header.rs: the 16-byte manifest header.
pub mod RoundTrip
use limnifs.Prelude.{
  ℕ, ◌++◌, List, [], ◌∷◌, Bool, true, false, not, ◌||◌, ◌==◌, bytes_eq, replicate,
}
use limnifs.Prelude.Bytes.{to_le_bytes}
use limnifs.Error.{bad_magic, corrupt, Section, Fault}
use limnifs.Cursor.{Parser, ◌>>=◌, ◌>>◌, return, reject, read_n, read_magic, read_u16_le}

pub record ManifestHeader : Type 0 where
  pub drop_store_version : ℕ
  pub metadata_version : ℕ
  pub manifest_version : ℕ

-- b"LMFS"
abbrev pub manifest_magic : List ℕ
manifest_magic = 76 ∷ 77 ∷ 70 ∷ 83 ∷ []

pub current : ManifestHeader
current = record { drop_store_version = 1; metadata_version = 1; manifest_version = 1 }

-- Bytes 10..16 are reserved, and zero.
unfoldable pub to_bytes : ManifestHeader → List ℕ
to_bytes h =
    manifest_magic
    ++ (to_le_bytes 2 h.drop_store_version
        ++ (to_le_bytes 2 h.metadata_version
            ++ (to_le_bytes 2 h.manifest_version ++ replicate 6 0)))

-- `bytes.iter().any(|&b| b != 0)`
unfoldable pub any_nonzero : List ℕ → Bool
any_nonzero [] = false
any_nonzero (b ∷ bs) = not (b == 0) || any_nonzero bs

unfoldable pub parse_manifest_header : Parser ManifestHeader
parse_manifest_header = do
  magic ← read_magic
  reject (not (bytes_eq magic manifest_magic)) (bad_magic magic)
  drop_store_version ← read_u16_le
  metadata_version ← read_u16_le
  manifest_version ← read_u16_le
  reserved ← read_n 6
  reject (any_nonzero reserved) (corrupt Section.manifest_header Fault.reserved_nonzero)
  return (record {
    drop_store_version = drop_store_version;
    metadata_version = metadata_version;
    manifest_version = manifest_version;
  })
