-- ===== src/Manifest/DeltaLinkage/RoundTrip.antt =====
-- limnifs-core/src/delta_linkage.rs: the parser against the section's layout.
use limnifs.Prelude.{
  ℕ, ◌*◌, ◌^◌, ◌≤◌, ◌<◌, ◌≡◌, refl, ap, ◌≢◌, true, false, not, Option, none, some, List, [], ◌∷◌,
  ◌++◌, append_assoc, arith, ok, ◌==◌, eq_of_not_ne, length, All, length-append,
}
use limnifs.Prelude.Bytes.{to_le_bytes, length-to_le_bytes}
use limnifs.Cursor.{Cursor, return, branch, remaining}
use limnifs.Cursor.Steps.{IsValid, Steps, stay, follow}
use limnifs.Cursor.Rules.{Sound, Sound-ok, Sound-bind, sound_use, Runs, Runs-bind, At, Reads, Took}
use limnifs.Cursor.Reads.{
  read_n-Runs, read_n-Sound, read_u8-Runs, read_u8-Sound, read_u32-Runs, read_u32-Sound,
  read_u64-Runs, read_u64-Sound,
}
use limnifs.Cursor.Guards.{
  reject-Sound, reject-Runs, ensure-Sound, ensure-Runs, checked_mul-Sound, checked_mul-Runs,
  or_fail-Sound, or_fail-Runs, branch-Sound, branch-true, branch-false,
}
use limnifs.Cursor.Loops.{encode_list, parse_list-Sound, parse_list-Runs}
use limnifs.Cursor.Unique.{Goods-All}
use limnifs.Prelude.Utf8.{is_utf8, contains, contains_pair}
use limnifs.Manifest.DeltaLinkage.{
  TreeOpKind, add, remove, replace, from_byte, has_inode_number, TreeOp, DeltaLinkage,
  section_version, min_tree_op_len, read_inode_number, parse_tree_op, parse_delta_linkage,
}

unfoldable pub kind_byte : TreeOpKind → ℕ
kind_byte add = 1
kind_byte remove = 2
kind_byte replace = 3

-- The inode number, where there is one.
unfoldable pub encode_inode_number : Option ℕ → List ℕ
encode_inode_number none = []
encode_inode_number (some n) = to_le_bytes 8 n

-- An operation: its code, the counted path, and the inode number of an `add` or a `replace`.
unfoldable pub encode_op : TreeOp → List ℕ
unfolding kind_byte
encode_op o =
    kind_byte o.kind
    ∷ (to_le_bytes 4 (length o.path) ++ (o.path ++ encode_inode_number o.inode_number))

-- The section: the version byte, the base's root, the count as a u32, the operations.
unfoldable pub encode : DeltaLinkage → List ℕ
encode d =
    section_version
    ∷ (d.base_root ++ (to_le_bytes 4 (length d.tree_ops) ++ encode_list encode_op d.tree_ops))

-- An inode number exactly on the kinds that carry one.
abbrev pub Carries : TreeOpKind → Option ℕ → Type 0
Carries k none = has_inode_number k ≡ false
Carries k (some n) = (has_inode_number k ≡ true) × (n < 2 ^ 64)

pub record IsTreeOp (o : TreeOp) : Type 0 where
  pub counted : length o.path < 2 ^ 32
  pub nonempty : length o.path ≢ 0
  pub utf8 : is_utf8 o.path ≡ true
  pub no_nul : contains 0 o.path ≡ false
  pub no_gap : contains_pair b'/' o.path ≡ false
  pub inode : Carries o.kind o.inode_number

pub record IsWellFormed (d : DeltaLinkage) : Type 0 where
  pub root : length d.base_root ≡ 32
  pub counted : length d.tree_ops < 2 ^ 32
  pub ops : All IsTreeOp d.tree_ops

byte-from_byte : (b : ℕ) (k : TreeOpKind) → from_byte b ≡ some k → b ≡ kind_byte k
unfolding from_byte kind_byte
byte-from_byte b k h = ground arith

from_byte-kind_byte :
    (k : TreeOpKind) → (from_byte (kind_byte k) ≡ some k) × ((kind_byte k == 0xff) ≡ false)
unfolding from_byte kind_byte
from_byte-kind_byte add = (refl, refl)
from_byte-kind_byte remove = (refl, refl)
from_byte-kind_byte replace = (refl, refl)

inode-Sound :
    (k : TreeOpKind) (c : Cursor)
    → IsValid c
    → Sound
        (Took (Carries k) encode_inode_number c)
        (branch (has_inode_number k) read_inode_number (return none) c)
unfolding encode_inode_number read_inode_number
inode-Sound k c v =
    branch-Sound _ _ _ c
      (λ t. Sound-bind (read_u64-Sound c v) λ n c1 (h1, s1, v1). Sound-ok ((t, h1), s1, v1))
      (λ t. Sound-ok (t, stay c, v))

inode-Runs :
    (k : TreeOpKind) (o : Option ℕ) (c : Cursor) (rest : List ℕ)
    → Carries k o
    → At c (encode_inode_number o ++ rest)
    → Runs o
        (Reads c (encode_inode_number o) rest)
        (branch (has_inode_number k) read_inode_number (return none) c)
unfolding encode_inode_number read_inode_number
inode-Runs k none c rest h a = branch-false _ _ _ c h (c, refl, (stay c, a))
inode-Runs k (some n) c rest (t, h) a =
    branch-true _ _ _ c t
      (Runs-bind _ (read_u64-Runs c n rest h a) λ c1 (s1, a1). (c1, refl, (s1, a1)))

op-Sound : (c : Cursor) → IsValid c → Sound (Took IsTreeOp encode_op c) (parse_tree_op c)
unfolding parse_tree_op encode_op
op-Sound c v = Sound-bind (read_u8-Sound c v) λ b c1 (h1, s1, v1).
    Sound-bind (reject-Sound _ _ c1 v1) λ _ c2 (h2, s2, v2).
      Sound-bind (or_fail-Sound _ _ c2 v2) λ k c3 (h3, s3, v3).
        Sound-bind (read_u32-Sound c3 v3) λ n c4 (h4, s4, v4).
          Sound-bind (reject-Sound _ _ c4 v4) λ _ c5 (h5, s5, v5).
            Sound-bind (read_n-Sound n c5 v5) λ path c6 (h6, s6, v6).
              Sound-bind (reject-Sound _ _ c6 v6) λ _ c7 (h7, s7, v7).
                Sound-bind (reject-Sound _ _ c7 v7) λ _ c8 (h8, s8, v8).
                  Sound-bind (reject-Sound _ _ c8 v8) λ _ c9 (h9, s9, v9).
                    Sound-bind (inode-Sound k c9 v9) λ inode c10 (h10, s10, v10).
                      let s1' = rw (byte-from_byte b k h3) at s1 in
                      Sound-ok (
                        record {
                          counted = omega arith;
                          nonempty = ground (arith, h6);
                          utf8 = ground arith;
                          no_nul = h8;
                          no_gap = h9;
                          inode = h10;
                        },
                        rw h6 (
                            follow s1' (
                              follow s2 (
                                follow s3 (
                                  follow s4 (
                                    follow s5
                                      (follow s6 (follow s7 (follow s8 (follow s9 s10))))))))),
                        v10,
                      )

op-Runs :
    (o : TreeOp) (c : Cursor) (rest : List ℕ)
    → IsTreeOp o
    → At c (encode_op o ++ rest)
    → Runs o (Reads c (encode_op o) rest) (parse_tree_op c)
unfolding parse_tree_op encode_op
op-Runs o c rest w a =
    let a' = simp append_assoc at a in
    let (known, plain) = from_byte-kind_byte o.kind in
    Runs-bind _ (read_u8-Runs c (kind_byte o.kind) _ a') λ c1 (s1, a1).
      Runs-bind _ (reject-Runs _ _ c1 _ plain a1) λ c2 (s2, a2).
        Runs-bind _ (or_fail-Runs _ _ c2 o.kind _ known a2) λ c3 (s3, a3).
          Runs-bind _ (read_u32-Runs c3 (length o.path) _ w.counted a3) λ c4 (s4, a4).
            Runs-bind _ (reject-Runs _ _ c4 _ (ground (arith, w.nonempty)) a4) λ c5 (s5, a5).
              Runs-bind _ (read_n-Runs _ c5 o.path _ refl a5) λ c6 (s6, a6).
                Runs-bind _ (reject-Runs _ _ c6 _ (ap not w.utf8) a6) λ c7 (s7, a7).
                  Runs-bind _ (reject-Runs _ _ c7 _ w.no_nul a7) λ c8 (s8, a8).
                    Runs-bind _ (reject-Runs _ _ c8 _ w.no_gap a8) λ c9 (s9, a9).
                      Runs-bind _ (inode-Runs o.kind o.inode_number c9 rest w.inode a9)
                        λ c10 (s10, a10). (
                          c10,
                          refl,
                          (
                            follow s1 (
                                follow s2 (
                                  follow s3 (
                                    follow s4 (
                                      follow s5
                                        (follow s6 (follow s7 (follow s8 (follow s9 s10)))))))),
                            a10,
                          ),
                        )

width :
    (os : List TreeOp)
    → All IsTreeOp os
    → length os * min_tree_op_len ≤ length (encode_list encode_op os)
unfolding encode_op
width [] h = omega arith
width (o ∷ os) (w, h) =
    let n = to_le_bytes 4 (length o.path) in
    let i = encode_inode_number o.inode_number in
    omega (
      arith,
      width os h,
      w.nonempty,
      length-append (n ++ (o.path ++ i)) (encode_list encode_op os),
      length-append n (o.path ++ i),
      length-append o.path i,
      length-to_le_bytes 4 (length o.path),
    )

parse-Sound : (c : Cursor) → IsValid c → Sound (Took IsWellFormed encode c) (parse_delta_linkage c)
unfolding parse_delta_linkage encode
parse-Sound c v = Sound-bind (read_u8-Sound c v) λ version c1 (h1, s1, v1).
    Sound-bind (reject-Sound _ _ c1 v1) λ _ c2 (h2, s2, v2).
      Sound-bind (read_n-Sound 32 c2 v2) λ root c3 (h3, s3, v3).
        Sound-bind (read_u32-Sound c3 v3) λ n c4 (h4, s4, v4).
          Sound-bind (checked_mul-Sound _ _ _ c4 v4) λ size c5 (h5, s5, v5).
            Sound-bind (ensure-Sound _ c5 v5) λ _ c6 (h6, s6, v6).
              Sound-bind
                (parse_list-Sound (λ _. parse_tree_op) encode_op (λ _. IsTreeOp) (λ _. op-Sound) n
                  c6 v6)
                λ os c7 ((l, g), s7, v7).
                  let s1' = rw (eq_of_not_ne version section_version h2) at s1 in
                  Sound-ok (
                    record {
                      root = h3;
                      counted = omega arith;
                      ops = (Goods-All IsTreeOp [] os).0 g;
                    },
                    rw l
                        (follow s1' (follow s2 (follow s3 (follow s4 (follow s5 (follow s6 s7)))))),
                    v7,
                  )

parse-Runs :
    (d : DeltaLinkage) (c : Cursor) (rest : List ℕ)
    → IsWellFormed d
    → At c (encode d ++ rest)
    → Runs d (Reads c (encode d) rest) (parse_delta_linkage c)
unfolding parse_delta_linkage encode
parse-Runs d c rest w a =
    let a' = simp append_assoc at a in
    let os = d.tree_ops in
    let long = width os w.ops in
    let body = length-append (encode_list encode_op os) rest in
    Runs-bind _ (read_u8-Runs c section_version _ a') λ c1 (s1, a1).
      Runs-bind _ (reject-Runs _ _ c1 _ refl a1) λ c2 (s2, a2).
        Runs-bind _ (read_n-Runs 32 c2 d.base_root _ w.root a2) λ c3 (s3, a3).
          Runs-bind _ (read_u32-Runs c3 (length os) _ w.counted a3) λ c4 (s4, a4).
            Runs-bind _ (checked_mul-Runs _ _ _ c4 _ (omega (arith, w.counted)) a4) λ c5 (s5, a5).
              Runs-bind _ (ensure-Runs _ c5 _ (omega (arith, long, body)) a5) λ c6 (s6, a6).
                Runs-bind _
                  (parse_list-Runs (λ _. parse_tree_op) encode_op (λ _. IsTreeOp) (λ _. op-Runs) os
                    (length os) c6 rest refl ((Goods-All IsTreeOp [] os).1 w.ops) a6)
                  λ c7 (s7, a7). (
                    c7,
                    refl,
                    (follow s1 (follow s2 (follow s3 (follow s4 (follow s5 (follow s6 s7))))), a7),
                  )

-- A well-formed delta linkage, laid out as the wire format says, parses to itself, with anything
-- behind it left unread, on any valid cursor before those bytes.
pub parse_delta_linkage-encode :
    (d : DeltaLinkage) (c : Cursor) (rest : List ℕ)
    → IsWellFormed d
    → IsValid c
    → remaining c ≡ encode d ++ rest
    → (c' : Cursor) × (parse_delta_linkage c ≡ ok (d, c'))
      × Steps c (encode d) c'
      × (remaining c' ≡ rest)
parse_delta_linkage-encode d c rest w v e =
    let (c', r, (s, a)) = parse-Runs d c rest w (record { valid = v; unread = e }) in
    (c', r, s, a.unread)

-- Whatever the parser accepts on a valid cursor is well formed: a 32-byte base root, nonempty UTF-8
-- paths with neither a NUL nor a double slash, and an inode number on exactly the operations that add
-- or replace; what it read is the layout of its result.
pub parse_delta_linkage_canonical :
    (c : Cursor) (d : DeltaLinkage) (c' : Cursor)
    → IsValid c
    → parse_delta_linkage c ≡ ok (d, c')
    → IsWellFormed d × Steps c (encode d) c'
parse_delta_linkage_canonical c d c' v e = let (w, s, _) = sound_use (parse-Sound c v) e in (w, s)
