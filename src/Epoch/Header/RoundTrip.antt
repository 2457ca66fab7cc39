-- ===== src/Epoch/Header/RoundTrip.antt =====
-- limnifs-core/src/epoch/header.rs: the header's parser on what the writer writes.
use limnifs.Prelude.{
  ℕ, ◌^◌, ◌≤◌, ◌<◌, ◌≡◌, refl, List, ◌++◌, append_assoc, arith, le→ltb, length, length-append,
  replicate,
}
use limnifs.Prelude.Bytes.{to_le_bytes}
use limnifs.Cursor.{Cursor, read_n, read_u16_le, read_u32_le, read_u64_le, skip}
use limnifs.Cursor.Steps.{follow, after}
use limnifs.Cursor.Rules.{Runs, Runs-bind, At, Reads}
use limnifs.Cursor.Reads.{read_n-Runs, read_u16-Runs, read_u32-Runs, read_u64-Runs}
use limnifs.Cursor.Guards.{reject-Runs}
use limnifs.Error.{Section}
use limnifs.Epoch.Named.{named, named-Runs}
use limnifs.Epoch.Header.{
  EpochHeader, epoch_magic, epoch_format_version, write_epoch_header, copy_id, parse_epoch_header,
}

-- A supported version, digests of 32 bytes, and words that fit.
pub record IsHeader (h : EpochHeader) : Type 0 where
  pub version : h.version ≤ epoch_format_version
  pub flags : h.flags < 2 ^ 16
  pub parent : length h.parent_epoch_id ≡ 32
  pub base : length h.base_image_root ≡ 32
  pub sequence : h.epoch_sequence < 2 ^ 64
  pub ops : length h.ops_hash ≡ 32
  pub drops : length h.drops_hash ≡ 32
  pub own : length h.own_epoch_id ≡ 32
  pub timestamp : h.timestamp_unix < 2 ^ 64

-- The bytes in front of the own id.
unfoldable pub front : EpochHeader → List ℕ
front h =
    to_le_bytes 4 epoch_magic
    ++ (to_le_bytes 2 h.version
        ++ (to_le_bytes 2 h.flags
            ++ (h.parent_epoch_id
                ++ (h.base_image_root
                    ++ (to_le_bytes 8 h.epoch_sequence ++ (h.ops_hash ++ h.drops_hash))))))

unfoldable pub back : EpochHeader → List ℕ
back h = to_le_bytes 8 h.timestamp_unix ++ replicate 16 0

pub write_epoch_header-parts :
    (h : EpochHeader) (rest : List ℕ)
    → write_epoch_header h ++ rest ≡ front h ++ (h.own_epoch_id ++ (back h ++ rest))
unfolding write_epoch_header front back
write_epoch_header-parts h rest = simp append_assoc refl

pub length-front : (h : EpochHeader) → IsHeader h → length (front h) ≡ 144
unfolding front to_le_bytes
length-front h w = omega (
  arith,
  w.parent,
  w.base,
  w.ops,
  w.drops,
  length-append h.parent_epoch_id _,
  length-append h.base_image_root _,
  length-append h.ops_hash h.drops_hash,
)

id-Runs :
    (xs : List ℕ) (c : Cursor) (rest : List ℕ)
    → length xs ≡ 32
    → At c (xs ++ rest)
    → Runs xs (Reads c xs rest) (copy_id c)
unfolding copy_id
id-Runs xs c rest l a = named-Runs Section.epoch_header (read_n 32) c (read_n-Runs 32 c xs rest l a)

u64-Runs :
    (n : ℕ) (c : Cursor) (rest : List ℕ)
    → n < 2 ^ 64
    → At c (to_le_bytes 8 n ++ rest)
    → Runs n (Reads c (to_le_bytes 8 n) rest) (named Section.epoch_header read_u64_le c)
u64-Runs n c rest h a = named-Runs Section.epoch_header read_u64_le c (read_u64-Runs c n rest h a)

u16-Runs :
    (n : ℕ) (c : Cursor) (rest : List ℕ)
    → n < 2 ^ 16
    → At c (to_le_bytes 2 n ++ rest)
    → Runs n (Reads c (to_le_bytes 2 n) rest) (named Section.epoch_header read_u16_le c)
u16-Runs n c rest h a = named-Runs Section.epoch_header read_u16_le c (read_u16-Runs c n rest h a)

skip-Runs :
    (c : Cursor) (xs rest : List ℕ)
    → length xs ≡ 16
    → At c (xs ++ rest)
    → Runs tt (Reads c xs rest) (skip 16 c)
unfolding skip
skip-Runs c xs rest l a =
    Runs-bind _ (read_n-Runs 16 c xs rest l a) λ c1 (s1, a1). (c1, refl, (s1, a1))

pub header-Runs :
    (h : EpochHeader) (c : Cursor) (rest : List ℕ)
    → IsHeader h
    → At c (write_epoch_header h ++ rest)
    → Runs h (Reads c (write_epoch_header h) rest) (parse_epoch_header c)
unfolding parse_epoch_header write_epoch_header
header-Runs h c rest w a =
    let a' = simp append_assoc at a in
    Runs-bind _
      (named-Runs Section.epoch_header read_u32_le c
        (read_u32-Runs c epoch_magic _ (omega arith) a'))
      λ c1 (s1, a1). Runs-bind _ (reject-Runs _ _ c1 _ refl a1) λ c2 (s2, a2).
        Runs-bind _ (u16-Runs h.version c2 _ (omega (arith, w.version)) a2) λ c3 (s3, a3).
          Runs-bind _ (reject-Runs _ _ c3 _ (le→ltb _ _ w.version) a3) λ c4 (s4, a4).
            Runs-bind _ (u16-Runs h.flags c4 _ w.flags a4) λ c5 (s5, a5).
              Runs-bind _ (id-Runs h.parent_epoch_id c5 _ w.parent a5) λ c6 (s6, a6).
                Runs-bind _ (id-Runs h.base_image_root c6 _ w.base a6) λ c7 (s7, a7).
                  Runs-bind _ (u64-Runs h.epoch_sequence c7 _ w.sequence a7) λ c8 (s8, a8).
                    Runs-bind _ (id-Runs h.ops_hash c8 _ w.ops a8) λ c9 (s9, a9).
                      Runs-bind _ (id-Runs h.drops_hash c9 _ w.drops a9) λ c10 (s10, a10).
                        Runs-bind _ (id-Runs h.own_epoch_id c10 _ w.own a10) λ c11 (s11, a11).
                          Runs-bind _ (u64-Runs h.timestamp_unix c11 _ w.timestamp a11)
                            λ c12 (s12, a12).
                              Runs-bind _
                                (named-Runs Section.epoch_header (skip 16) c12
                                  (skip-Runs c12 (replicate 16 0) rest refl a12))
                                λ c13 (s13, a13). (
                                  c13,
                                  refl,
                                  (
                                    follow (after s1 s2) (
                                        follow (after s3 s4) (
                                          follow s5 (
                                            follow s6 (
                                              follow s7 (
                                                follow s8 (
                                                  follow s9 (
                                                    follow s10 (follow s11 (follow s12 s13))))))))),
                                    a13,
                                  ),
                                )
