-- ===== src/Epoch/Ops/RoundTrip.antt =====
-- limnifs-core/src/epoch/ops.rs: the operations' parser on what the writer writes.
use limnifs.Prelude.{
  ℕ, ◌^◌, ◌<◌, ◌≡◌, refl, ap, some, true, not, List, [], ◌++◌, append_assoc, length,
}
use limnifs.Prelude.Bytes.{to_le_bytes}
use limnifs.Prelude.Utf8.{is_utf8}
use limnifs.Cursor.{Cursor, ◌>>=◌, return, read_n, read_u8, read_u32_le, read_u64_le}
use limnifs.Cursor.Steps.{follow, after}
use limnifs.Cursor.Rules.{Runs, Runs-bind, Runs-weaken, At, Reads}
use limnifs.Cursor.Reads.{read_n-Runs, read_u8-Runs, read_u32-Runs, read_u64-Runs}
use limnifs.Cursor.Guards.{reject-Runs, or_fail-Runs}
use limnifs.Cursor.Loops.{parse_list-Runs, Goods}
use limnifs.Error.{Section}
use limnifs.Epoch.Named.{named-Runs}
use limnifs.Epoch.Ops.{
  EpochOpKind, EpochOp, from_u8, opcode, kind, write_path, write_fields, write_one_op,
  write_op_section, read_path, read_id, read_u32, read_u64, parse_one_op, parse_op,
  parse_op_section,
}

pub record IsPath (path : List ℕ) : Type 0 where
  pub counted : length path < 2 ^ 32
  pub utf8 : is_utf8 path ≡ true

-- Fields that fit the wire.
abbrev pub IsOp : EpochOp → Type 0
IsOp (EpochOp.add path drop_id len mode mtime) =
    IsPath path × (length drop_id ≡ 32) × (len < 2 ^ 64) × (mode < 2 ^ 32) × (mtime < 2 ^ 64)
IsOp (EpochOp.remove path) = IsPath path
IsOp (EpochOp.modify path drop_id len mtime) =
    IsPath path × (length drop_id ≡ 32) × (len < 2 ^ 64) × (mtime < 2 ^ 64)
IsOp (EpochOp.chmod path mode) = IsPath path × (mode < 2 ^ 32)
IsOp (EpochOp.rename from to) = IsPath from × IsPath to
IsOp (EpochOp.mkdir path mode) = IsPath path × (mode < 2 ^ 32)
IsOp (EpochOp.rmdir path) = IsPath path

path-Runs :
    (path : List ℕ) (c : Cursor) (rest : List ℕ)
    → IsPath path
    → At c (write_path path ++ rest)
    → Runs path (Reads c (write_path path) rest) (read_path c)
unfolding read_path write_path
path-Runs path c rest w a =
    let a' = simp append_assoc at a in
    Runs-bind _
      (named-Runs Section.epoch_ops read_u32_le c (read_u32-Runs c (length path) _ w.counted a'))
      λ c1 (s1, a1).
        Runs-bind _
          (named-Runs Section.epoch_ops (read_n (length path)) c1
            (read_n-Runs (length path) c1 path rest refl a1))
          λ c2 (s2, a2).
            Runs-bind _ (reject-Runs _ _ c2 rest (ap not w.utf8) a2)
              λ c3 (s3, a3). (c3, refl, (follow s1 (after s2 s3), a3))

id-Runs :
    (xs : List ℕ) (c : Cursor) (rest : List ℕ)
    → length xs ≡ 32
    → At c (xs ++ rest)
    → Runs xs (Reads c xs rest) (read_id c)
unfolding read_id
id-Runs xs c rest l a = named-Runs Section.epoch_ops (read_n 32) c (read_n-Runs 32 c xs rest l a)

u32-Runs :
    (n : ℕ) (c : Cursor) (rest : List ℕ)
    → n < 2 ^ 32
    → At c (to_le_bytes 4 n ++ rest)
    → Runs n (Reads c (to_le_bytes 4 n) rest) (read_u32 c)
unfolding read_u32
u32-Runs n c rest h a = named-Runs Section.epoch_ops read_u32_le c (read_u32-Runs c n rest h a)

u64-Runs :
    (n : ℕ) (c : Cursor) (rest : List ℕ)
    → n < 2 ^ 64
    → At c (to_le_bytes 8 n ++ rest)
    → Runs n (Reads c (to_le_bytes 8 n) rest) (read_u64 c)
unfolding read_u64
u64-Runs n c rest h a = named-Runs Section.epoch_ops read_u64_le c (read_u64-Runs c n rest h a)

path_u32-Runs :
    (make : List ℕ → ℕ → EpochOp) (path : List ℕ) (mode : ℕ) (c : Cursor) (rest : List ℕ)
    → IsPath path × (mode < 2 ^ 32)
    → At c ((write_path path ++ to_le_bytes 4 mode) ++ rest)
    → Runs
        (make path mode)
        (Reads c (write_path path ++ to_le_bytes 4 mode) rest)
        ((do p ← read_path; m ← read_u32; return (make p m)) c)
path_u32-Runs make path mode c rest (w, h) a =
    let a' = simp append_assoc at a in
    Runs-bind _ (path-Runs path c _ w a') λ c1 (s1, a1).
      Runs-bind _ (u32-Runs mode c1 rest h a1) λ c2 (s2, a2). (c2, refl, (follow s1 s2, a2))

fields-Runs :
    (op : EpochOp) (c : Cursor) (rest : List ℕ)
    → IsOp op
    → At c (write_fields op ++ rest)
    → Runs op (Reads c (write_fields op) rest) (parse_one_op (kind op) c)
unfolding write_fields kind parse_one_op
fields-Runs (EpochOp.add path drop_id len mode mtime) c rest (w, i, l, m, t) a =
    let a' = simp append_assoc at a in
    Runs-bind _ (path-Runs path c _ w a') λ c1 (s1, a1).
      Runs-bind _ (id-Runs drop_id c1 _ i a1) λ c2 (s2, a2).
        Runs-bind _ (u64-Runs len c2 _ l a2) λ c3 (s3, a3).
          Runs-bind _ (u32-Runs mode c3 _ m a3) λ c4 (s4, a4).
            Runs-bind _ (u64-Runs mtime c4 rest t a4)
              λ c5 (s5, a5). (c5, refl, (follow s1 (follow s2 (follow s3 (follow s4 s5))), a5))
fields-Runs (EpochOp.remove path) c rest w a =
    Runs-bind _ (path-Runs path c rest w a) λ c1 (s1, a1). (c1, refl, (s1, a1))
fields-Runs (EpochOp.modify path drop_id len mtime) c rest (w, i, l, t) a =
    let a' = simp append_assoc at a in
    Runs-bind _ (path-Runs path c _ w a') λ c1 (s1, a1).
      Runs-bind _ (id-Runs drop_id c1 _ i a1) λ c2 (s2, a2).
        Runs-bind _ (u64-Runs len c2 _ l a2) λ c3 (s3, a3).
          Runs-bind _ (u64-Runs mtime c3 rest t a3)
            λ c4 (s4, a4). (c4, refl, (follow s1 (follow s2 (follow s3 s4)), a4))
fields-Runs (EpochOp.chmod path mode) c rest w a = path_u32-Runs EpochOp.chmod path mode c rest w a
fields-Runs (EpochOp.rename from to) c rest (w, v) a =
    let a' = simp append_assoc at a in
    Runs-bind _ (path-Runs from c _ w a') λ c1 (s1, a1).
      Runs-bind _ (path-Runs to c1 rest v a1) λ c2 (s2, a2). (c2, refl, (follow s1 s2, a2))
fields-Runs (EpochOp.mkdir path mode) c rest w a = path_u32-Runs EpochOp.mkdir path mode c rest w a
fields-Runs (EpochOp.rmdir path) c rest w a =
    Runs-bind _ (path-Runs path c rest w a) λ c1 (s1, a1). (c1, refl, (s1, a1))

from_u8-opcode : (k : EpochOpKind) → from_u8 (opcode k) ≡ some k
unfolding from_u8 opcode
from_u8-opcode EpochOpKind.add = refl
from_u8-opcode EpochOpKind.remove = refl
from_u8-opcode EpochOpKind.modify = refl
from_u8-opcode EpochOpKind.chmod = refl
from_u8-opcode EpochOpKind.rename = refl
from_u8-opcode EpochOpKind.mkdir = refl
from_u8-opcode EpochOpKind.rmdir = refl

op-Runs :
    (seen : List EpochOp) (op : EpochOp) (c : Cursor) (rest : List ℕ)
    → IsOp op
    → At c (write_one_op op ++ rest)
    → Runs op (Reads c (write_one_op op) rest) (parse_op c)
unfolding parse_op write_one_op
op-Runs seen op c rest w a =
    Runs-bind _ (named-Runs Section.epoch_ops read_u8 c (read_u8-Runs c (opcode (kind op)) _ a))
      λ c1 (s1, a1).
        Runs-bind _ (or_fail-Runs _ _ c1 _ _ (from_u8-opcode (kind op)) a1) λ c2 (s2, a2).
          Runs-weaken (fields-Runs op c2 rest w a2) refl
            λ c3 (s3, a3). (follow s1 (follow s2 s3), a3)

-- Each operation fits the wire, and so does their number.
pub record AreOps (ops : List EpochOp) : Type 0 where
  pub counted : length ops < 2 ^ 32
  pub fit : Goods (λ _. IsOp) [] ops

pub section-Runs :
    (ops : List EpochOp) (c : Cursor) (rest : List ℕ)
    → AreOps ops
    → At c (write_op_section ops ++ rest)
    → Runs ops (Reads c (write_op_section ops) rest) (parse_op_section c)
unfolding parse_op_section write_op_section
section-Runs ops c rest w a =
    let a' = simp append_assoc at a in
    Runs-bind _
      (named-Runs Section.epoch_ops read_u32_le c (read_u32-Runs c (length ops) _ w.counted a'))
      λ c1 (s1, a1).
        Runs-weaken
          (parse_list-Runs (λ _. parse_op) write_one_op (λ _. IsOp) op-Runs ops (length ops) c1 rest
            refl w.fit a1)
          refl λ c2 (s2, a2). (follow s1 s2, a2)
