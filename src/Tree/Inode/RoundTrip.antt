-- ===== src/Tree/Inode/RoundTrip.antt =====
-- limnifs-core/src/inode.rs: the parser of inodes against their layout, and the length of a file.
use limnifs.Prelude.{ℕ, ◌^◌, ◌<◌, ◌≡◌, refl, false, List, ◌∷◌, ◌++◌, append_assoc, ok}
use limnifs.Prelude.Bytes.{to_le_bytes}
use limnifs.Prelude.{ℕ, ◌^◌, ◌<◌, ◌≡◌, refl, false, List, ◌∷◌, ◌++◌, append_assoc, ok}
use limnifs.Prelude.Bytes.{to_le_bytes}
use limnifs.Cursor.{Cursor, remaining}
use limnifs.Cursor.Steps.{IsValid, Steps, follow}
use limnifs.Cursor.Rules.{Sound, Sound-ok, Sound-bind, sound_use, Runs, Runs-bind, At, Reads}
use limnifs.Cursor.Reads.{
  read_u8-Runs, read_u8-Sound, read_u32-Runs, read_u32-Sound, read_u64-Runs, read_u64-Sound,
}
use limnifs.Cursor.Guards.{reject-Sound, reject-Runs}
use limnifs.Tree.Inode.{
  Inode, has_flag, flag_atime, flag_has_xattrs, flag_reserved_mask, parse_inode_with_ceiling,
}
use limnifs.Tree.Inode.Attributes.{
  encode_xattrs, encode_atime, AreXAttrs, IsATime, xattrs-Sound, xattrs-Runs, atime-Sound,
  atime-Runs,
}
use limnifs.Tree.Inode.Content.{encode_content, IsContent, IsContent-Sound, content-Runs}

-- An inode with its flags byte: the 41 fixed bytes, then what the flags announce, then the handle.
unfoldable pub encode : ℕ → Inode → List ℕ
encode flags i =
    to_le_bytes 8 i.number
    ++ (to_le_bytes 4 i.mode
        ++ (to_le_bytes 4 i.uid
            ++ (to_le_bytes 4 i.gid
                ++ (to_le_bytes 8 i.mtime_ns
                    ++ (to_le_bytes 8 i.ctime_ns
                        ++ (to_le_bytes 4 i.nlink
                            ++ (flags
                                ∷ (encode_atime i.atime_ns
                                    ++ (encode_xattrs (has_flag flag_has_xattrs flags) i.xattrs
                                        ++ encode_content i.content_handle)))))))))

-- The fields in their widths, and the optional parts as the mode and the flags call for them.
pub record IsWellFormed (max_inline_bytes flags : ℕ) (i : Inode) : Type 0 where
  pub number : i.number < 2 ^ 64
  pub mode : i.mode < 2 ^ 32
  pub uid : i.uid < 2 ^ 32
  pub gid : i.gid < 2 ^ 32
  pub mtime : i.mtime_ns < 2 ^ 64
  pub ctime : i.ctime_ns < 2 ^ 64
  pub nlink : i.nlink < 2 ^ 32
  pub reserved : has_flag flag_reserved_mask flags ≡ false
  pub atime : IsATime (has_flag flag_atime flags) i.atime_ns
  pub xattrs : AreXAttrs (has_flag flag_has_xattrs flags) i.xattrs
  pub content : IsContent max_inline_bytes i.mode flags i.content_handle

-- What a successful parse took: the layout under some flags.
TookInode : ℕ → Cursor → Inode → Cursor → Type 0
TookInode m c i c' = (flags : ℕ) × IsWellFormed m flags i × Steps c (encode flags i) c' × IsValid c'

parse-Sound :
    (m : ℕ) (c : Cursor) → IsValid c → Sound (TookInode m c) (parse_inode_with_ceiling m c)
unfolding parse_inode_with_ceiling encode TookInode
parse-Sound m c v = Sound-bind (read_u64-Sound c v) λ number c1 (h1, s1, v1).
    Sound-bind (read_u32-Sound c1 v1) λ mode c2 (h2, s2, v2).
      Sound-bind (read_u32-Sound c2 v2) λ uid c3 (h3, s3, v3).
        Sound-bind (read_u32-Sound c3 v3) λ gid c4 (h4, s4, v4).
          Sound-bind (read_u64-Sound c4 v4) λ mtime c5 (h5, s5, v5).
            Sound-bind (read_u64-Sound c5 v5) λ ctime c6 (h6, s6, v6).
              Sound-bind (read_u32-Sound c6 v6) λ nlink c7 (h7, s7, v7).
                Sound-bind (read_u8-Sound c7 v7) λ flags c8 (h8, s8, v8).
                  Sound-bind (reject-Sound _ _ c8 v8) λ _ c9 (h9, s9, v9).
                    Sound-bind (atime-Sound _ c9 v9) λ atime c10 (h10, s10, v10).
                      Sound-bind (xattrs-Sound _ c10 v10) λ xattrs c11 (h11, s11, v11).
                        Sound-bind (IsContent-Sound m mode flags c11 v11)
                          λ content c12 (h12, s12, v12). Sound-ok (
                            flags,
                            record {
                              number = h1;
                              mode = h2;
                              uid = h3;
                              gid = h4;
                              mtime = h5;
                              ctime = h6;
                              nlink = h7;
                              reserved = h9;
                              atime = h10;
                              xattrs = h11;
                              content = h12;
                            },
                            follow s1 (
                                follow s2 (
                                  follow s3 (
                                    follow s4 (
                                      follow s5 (
                                        follow s6 (
                                          follow s7 (
                                            follow s8
                                              (follow s9 (follow s10 (follow s11 s12)))))))))),
                            v12,
                          )

parse-Runs :
    (m flags : ℕ) (i : Inode) (c : Cursor) (rest : List ℕ)
    → IsWellFormed m flags i
    → At c (encode flags i ++ rest)
    → Runs i (Reads c (encode flags i) rest) (parse_inode_with_ceiling m c)
unfolding parse_inode_with_ceiling encode
parse-Runs m flags i c rest w a =
    let a' = simp append_assoc at a in
    Runs-bind _ (read_u64-Runs c i.number _ w.number a') λ c1 (s1, a1).
      Runs-bind _ (read_u32-Runs c1 i.mode _ w.mode a1) λ c2 (s2, a2).
        Runs-bind _ (read_u32-Runs c2 i.uid _ w.uid a2) λ c3 (s3, a3).
          Runs-bind _ (read_u32-Runs c3 i.gid _ w.gid a3) λ c4 (s4, a4).
            Runs-bind _ (read_u64-Runs c4 i.mtime_ns _ w.mtime a4) λ c5 (s5, a5).
              Runs-bind _ (read_u64-Runs c5 i.ctime_ns _ w.ctime a5) λ c6 (s6, a6).
                Runs-bind _ (read_u32-Runs c6 i.nlink _ w.nlink a6) λ c7 (s7, a7).
                  Runs-bind _ (read_u8-Runs c7 flags _ a7) λ c8 (s8, a8).
                    Runs-bind _ (reject-Runs _ _ c8 _ w.reserved a8) λ c9 (s9, a9).
                      Runs-bind _ (atime-Runs _ i.atime_ns c9 _ w.atime a9) λ c10 (s10, a10).
                        Runs-bind _ (xattrs-Runs _ i.xattrs c10 _ w.xattrs a10) λ c11 (s11, a11).
                          Runs-bind _
                            (content-Runs m i.mode flags i.content_handle c11 rest w.content a11)
                            λ c12 (s12, a12). (
                              c12,
                              refl,
                              (
                                follow s1 (
                                    follow s2 (
                                      follow s3 (
                                        follow s4 (
                                          follow s5 (
                                            follow s6 (
                                              follow s7 (
                                                follow s8
                                                  (follow s9 (follow s10 (follow s11 s12)))))))))),
                                a12,
                              ),
                            )

-- A well-formed inode, laid out under flags that fit it, parses to itself under the ceiling on inline
-- data, with anything behind it left unread, on any valid cursor before those bytes.
pub parse_inode_with_ceiling-encode :
    (m flags : ℕ) (i : Inode) (c : Cursor) (rest : List ℕ)
    → IsWellFormed m flags i
    → IsValid c
    → remaining c ≡ encode flags i ++ rest
    → (c' : Cursor) × (parse_inode_with_ceiling m c ≡ ok (i, c'))
      × Steps c (encode flags i) c'
      × (remaining c' ≡ rest)
parse_inode_with_ceiling-encode m flags i c rest w v e =
    let (c', r, (s, a)) = parse-Runs m flags i c rest w (record { valid = v; unread = e }) in
    (c', r, s, a.unread)

-- Whatever the parser accepts on a valid cursor is well formed under some flags: no reserved flag, each
-- optional part exactly where its flag is set, a handle of the mode's kind, inline data within the
-- ceiling, slices nonempty and without a gap from byte 0; what it read is the layout of its result.
pub parse_inode_with_ceiling_canonical :
    (m : ℕ) (c : Cursor) (i : Inode) (c' : Cursor)
    → IsValid c
    → parse_inode_with_ceiling m c ≡ ok (i, c')
    → (flags : ℕ) × IsWellFormed m flags i × Steps c (encode flags i) c'
unfolding TookInode
parse_inode_with_ceiling_canonical m c i c' v e =
    let (flags, w, s, _) = sound_use (parse-Sound m c v) e in (flags, w, s)
