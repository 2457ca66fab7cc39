-- ===== src/Tree/Inode/Attributes.antt =====
-- limnifs-core/src/inode.rs: the parser of extended attributes against their layout.
use limnifs.Prelude.{
  ℕ, ◌^◌, ◌≤◌, ◌<◌, ◌≡◌, refl, ap, Bool, true, false, not, Option, none, some, List, [], ◌∷◌, ◌++◌,
  append_assoc, arith, le→ltb, length, All,
}
use limnifs.Prelude.Bytes.{to_le_bytes}
use limnifs.Prelude.{
  ℕ, ◌^◌, ◌≤◌, ◌<◌, ◌≡◌, refl, ap, Bool, true, false, not, Option, none, some, List, [], ◌∷◌, ◌++◌,
  append_assoc, arith, le→ltb, length, All,
}
use limnifs.Prelude.Bytes.{to_le_bytes}
use limnifs.Cursor.{Cursor, return, branch, read_n_owned, branch}
use limnifs.Cursor.Steps.{IsValid, stay, follow}
use limnifs.Cursor.Rules.{
  Sound, Sound-ok, Sound-bind, Sound-weaken, Runs, Runs-bind, Runs-weaken, At, Reads, Took,
}
use limnifs.Cursor.Reads.{
  read_n-Runs, read_n-Sound, read_u8-Runs, read_u8-Sound, read_u32-Runs, read_u32-Sound,
  read_u64-Runs, read_u64-Sound,
}
use limnifs.Cursor.Guards.{reject-Sound, reject-Runs, branch-Sound, branch-true, branch-false}
use limnifs.Cursor.Loops.{encode_list, parse_list-Sound, parse_list-Runs}
use limnifs.Cursor.Unique.{Goods-All}
use limnifs.Prelude.Utf8.{is_utf8, contains}
use limnifs.Tree.Inode.{XAttr, parse_xattr, parse_xattr_block, read_atime}

-- An attribute: the namespace, the counted key, the counted value.
unfoldable pub encode_xattr : XAttr → List ℕ
encode_xattr x =
    x.namespace
    ∷ (to_le_bytes 4 (length x.key) ++ (x.key ++ (to_le_bytes 4 (length x.value) ++ x.value)))

-- What the flag for attributes announces.
unfoldable pub encode_xattrs : Bool → List XAttr → List ℕ
encode_xattrs false xs = []
encode_xattrs true xs = to_le_bytes 4 (length xs) ++ encode_list encode_xattr xs

-- What the flag for the access time announces.
unfoldable pub encode_atime : Option ℕ → List ℕ
encode_atime none = []
encode_atime (some n) = to_le_bytes 8 n

-- One of the four namespaces, and a key in UTF-8 without NUL.
pub record IsXAttr (x : XAttr) : Type 0 where
  pub namespace : x.namespace ≤ 3
  pub key_counted : length x.key < 2 ^ 32
  pub utf8 : is_utf8 x.key ≡ true
  pub no_nul : contains 0 x.key ≡ false
  pub value_counted : length x.value < 2 ^ 32

-- Attributes only under the flag.
abbrev pub AreXAttrs : Bool → List XAttr → Type 0
AreXAttrs false xs = xs ≡ []
AreXAttrs true xs = (length xs < 2 ^ 32) × All IsXAttr xs

-- An access time exactly under the flag.
abbrev pub IsATime : Bool → Option ℕ → Type 0
IsATime flag none = flag ≡ false
IsATime flag (some n) = (flag ≡ true) × (n < 2 ^ 64)

xattr-Sound : (c : Cursor) → IsValid c → Sound (Took IsXAttr encode_xattr c) (parse_xattr c)
unfolding parse_xattr encode_xattr read_n_owned
xattr-Sound c v = Sound-bind (read_u8-Sound c v) λ ns c1 (h1, s1, v1).
    Sound-bind (reject-Sound _ _ c1 v1) λ _ c2 (h2, s2, v2).
      Sound-bind (read_u32-Sound c2 v2) λ n c3 (h3, s3, v3).
        Sound-bind (read_n-Sound n c3 v3) λ key c4 (h4, s4, v4).
          Sound-bind (reject-Sound _ _ c4 v4) λ _ c5 (h5, s5, v5).
            Sound-bind (reject-Sound _ _ c5 v5) λ _ c6 (h6, s6, v6).
              Sound-bind (read_u32-Sound c6 v6) λ m c7 (h7, s7, v7).
                Sound-bind (read_n-Sound m c7 v7) λ value c8 (h8, s8, v8). Sound-ok (
                  record {
                    namespace = ground arith;
                    key_counted = omega arith;
                    utf8 = ground arith;
                    no_nul = h6;
                    value_counted = omega arith;
                  },
                  rw (h4, h8)
                      (follow s1
                        (follow s2 (follow s3 (follow s4 (follow s5 (follow s6 (follow s7 s8))))))),
                  v8,
                )

xattr-Runs :
    (x : XAttr) (c : Cursor) (rest : List ℕ)
    → IsXAttr x
    → At c (encode_xattr x ++ rest)
    → Runs x (Reads c (encode_xattr x) rest) (parse_xattr c)
unfolding parse_xattr encode_xattr read_n_owned
xattr-Runs x c rest w a =
    let a' = simp append_assoc at a in
    Runs-bind _ (read_u8-Runs c x.namespace _ a') λ c1 (s1, a1).
      Runs-bind _ (reject-Runs _ _ c1 _ (le→ltb _ _ w.namespace) a1) λ c2 (s2, a2).
        Runs-bind _ (read_u32-Runs c2 (length x.key) _ w.key_counted a2) λ c3 (s3, a3).
          Runs-bind _ (read_n-Runs _ c3 x.key _ refl a3) λ c4 (s4, a4).
            Runs-bind _ (reject-Runs _ _ c4 _ (ap not w.utf8) a4) λ c5 (s5, a5).
              Runs-bind _ (reject-Runs _ _ c5 _ w.no_nul a5) λ c6 (s6, a6).
                Runs-bind _ (read_u32-Runs c6 (length x.value) _ w.value_counted a6) λ c7 (s7, a7).
                  Runs-bind _ (read_n-Runs _ c7 x.value rest refl a7) λ c8 (s8, a8). (
                    c8,
                    refl,
                    (
                      follow s1 (
                          follow s2 (follow s3 (follow s4 (follow s5 (follow s6 (follow s7 s8)))))),
                      a8,
                    ),
                  )

block-Sound :
    (c : Cursor)
    → IsValid c
    → Sound (Took (AreXAttrs true) (encode_xattrs true) c) (parse_xattr_block c)
unfolding parse_xattr_block encode_xattrs
block-Sound c v = Sound-bind (read_u32-Sound c v) λ n c1 (h1, s1, v1).
    Sound-weaken
      (parse_list-Sound (λ _. parse_xattr) encode_xattr (λ _. IsXAttr) (λ _. xattr-Sound) n c1 v1)
      λ xs c2 ((l, g), s2, v2).
        ((omega arith, (Goods-All IsXAttr [] xs).0 g), rw l (follow s1 s2), v2)

-- The attributes under their flag.
pub xattrs-Sound :
    (flag : Bool) (c : Cursor)
    → IsValid c
    → Sound
        (Took (AreXAttrs flag) (encode_xattrs flag) c)
        (branch flag parse_xattr_block (return []) c)
unfolding encode_xattrs branch
xattrs-Sound true c v = block-Sound c v
xattrs-Sound false c v = Sound-ok (refl, stay c, v)

pub xattrs-Runs :
    (flag : Bool) (xs : List XAttr) (c : Cursor) (rest : List ℕ)
    → AreXAttrs flag xs
    → At c (encode_xattrs flag xs ++ rest)
    → Runs xs (Reads c (encode_xattrs flag xs) rest) (branch flag parse_xattr_block (return []) c)
unfolding encode_xattrs branch parse_xattr_block
xattrs-Runs false xs c rest w a = (c, rw w refl, (stay c, a))
xattrs-Runs true xs c rest (n, w) a =
    let a' = simp append_assoc at a in
    Runs-bind _ (read_u32-Runs c (length xs) _ n a') λ c1 (s1, a1).
      Runs-weaken
        (parse_list-Runs (λ _. parse_xattr) encode_xattr (λ _. IsXAttr) (λ _. xattr-Runs) xs
          (length xs) c1 rest refl ((Goods-All IsXAttr [] xs).1 w) a1)
        refl λ c2 (s2, a2). (follow s1 s2, a2)

-- The access time under its flag.
pub atime-Sound :
    (flag : Bool) (c : Cursor)
    → IsValid c
    → Sound (Took (IsATime flag) encode_atime c) (branch flag read_atime (return none) c)
unfolding encode_atime read_atime
atime-Sound flag c v =
    branch-Sound _ _ _ c
      (λ t. Sound-bind (read_u64-Sound c v) λ n c1 (h1, s1, v1). Sound-ok ((t, h1), s1, v1))
      (λ t. Sound-ok (t, stay c, v))

pub atime-Runs :
    (flag : Bool) (o : Option ℕ) (c : Cursor) (rest : List ℕ)
    → IsATime flag o
    → At c (encode_atime o ++ rest)
    → Runs o (Reads c (encode_atime o) rest) (branch flag read_atime (return none) c)
unfolding encode_atime read_atime
atime-Runs flag none c rest h a = branch-false _ _ _ c h (c, refl, (stay c, a))
atime-Runs flag (some n) c rest (t, h) a =
    branch-true _ _ _ c t
      (Runs-bind _ (read_u64-Runs c n rest h a) λ c1 (s1, a1). (c1, refl, (s1, a1)))
