-- ===== src/Tree/Directory/RoundTrip.antt =====
-- limnifs-core/src/directory_node.rs: the parser against the node's layout.
use limnifs.Prelude.{
  ℕ, ◌^◌, ◌<◌, ◌≡◌, refl, ap, ◌≢◌, ◌↔◌, true, false, not, List, [], ◌∷◌, ◌++◌, append_assoc, arith,
  ok, eq_of_not_ne, length, All,
}
use limnifs.Prelude.Bytes.{to_le_bytes}
use limnifs.Cursor.{Cursor, remaining}
use limnifs.Cursor.Steps.{IsValid, Steps, follow, after}
use limnifs.Cursor.Rules.{Sound, Sound-ok, Sound-bind, sound_use, Runs, Runs-bind, At, Reads, Took}
use limnifs.Cursor.Reads.{
  read_n-Runs, read_n-Sound, read_u8-Runs, read_u8-Sound, read_u32-Runs, read_u32-Sound,
  read_u64-Runs, read_u64-Sound,
}
use limnifs.Cursor.Guards.{reject-Sound, reject-Runs}
use limnifs.Cursor.Loops.{encode_list, parse_list-Sound, parse_list-Runs}
use limnifs.Prelude.Utf8.{is_utf8, contains}
use limnifs.Tree.Directory.{
  DirEntry, DirectoryNode, directory_node_version, is_empty, is_entry_type, parse_entry,
  parse_directory_node,
}
use limnifs.Tree.Directory.Order.{Ascending, InOrder, Goods-Ascending}

-- An entry: the counted name, the inode number, the type byte.
unfoldable pub encode_entry : DirEntry → List ℕ
encode_entry e =
    to_le_bytes 4 (length e.name)
    ++ (e.name ++ (to_le_bytes 8 e.inode_number ++ (e.entry_type ∷ [])))

-- The node: the version byte, the count as a u32, the entries.
unfoldable pub encode : DirectoryNode → List ℕ
encode n = n.version ∷ (to_le_bytes 4 (length n.entries) ++ encode_list encode_entry n.entries)

-- A name of one path component in UTF-8, and one of the four types.
pub record IsEntry (e : DirEntry) : Type 0 where
  pub counted : length e.name < 2 ^ 32
  pub nonempty : e.name ≢ []
  pub no_slash : contains b'/' e.name ≡ false
  pub no_nul : contains 0 e.name ≡ false
  pub utf8 : is_utf8 e.name ≡ true
  pub inode : e.inode_number < 2 ^ 64
  pub kind : is_entry_type e.entry_type ≡ true

-- The names ascend, so no two are equal, and each entry is well formed.
pub record IsWellFormed (n : DirectoryNode) : Type 0 where
  pub version : n.version ≡ directory_node_version
  pub counted : length n.entries < 2 ^ 32
  pub sorted : Ascending n.entries
  pub entries : All IsEntry n.entries

empty_iff : (s : List ℕ) → (is_empty s ≡ false) ↔ (s ≢ [])
unfolding is_empty
empty_iff [] = ((λ h. cc), (λ h. absurd (h refl)))
empty_iff (b ∷ bs) = ((λ h e. cc), (λ h. refl))

IsEntry-Sound :
    (seen : List DirEntry) (c : Cursor)
    → IsValid c
    → Sound (Took (InOrder IsEntry seen) encode_entry c) (parse_entry seen c)
unfolding parse_entry encode_entry
IsEntry-Sound seen c v = Sound-bind (read_u32-Sound c v) λ n c1 (h1, s1, v1).
    Sound-bind (read_n-Sound n c1 v1) λ name c2 (h2, s2, v2).
      Sound-bind (reject-Sound _ _ c2 v2) λ _ c3 (h3, s3, v3).
        Sound-bind (reject-Sound _ _ c3 v3) λ _ c4 (h4, s4, v4).
          Sound-bind (reject-Sound _ _ c4 v4) λ _ c5 (h5, s5, v5).
            Sound-bind (reject-Sound _ _ c5 v5) λ _ c6 (h6, s6, v6).
              Sound-bind (reject-Sound _ _ c6 v6) λ _ c7 (h7, s7, v7).
                Sound-bind (read_u64-Sound c7 v7) λ inode c8 (h8, s8, v8).
                  Sound-bind (read_u8-Sound c8 v8) λ kind c9 (h9, s9, v9).
                    Sound-bind (reject-Sound _ _ c9 v9) λ _ c10 (h10, s10, v10). Sound-ok (
                      (
                        record {
                          counted = omega arith;
                          nonempty = (empty_iff name).0 h3;
                          no_slash = h4;
                          no_nul = h5;
                          utf8 = ground arith;
                          inode = h8;
                          kind = ground arith;
                        },
                        h7,
                      ),
                      rw h2 (
                          follow s1 (
                            follow s2 (
                              follow s3 (
                                follow s4 (
                                  follow s5 (follow s6 (follow s7 (follow s8 (after s9 s10))))))))),
                      v10,
                    )

entry-Runs :
    (seen : List DirEntry) (e : DirEntry) (c : Cursor) (rest : List ℕ)
    → InOrder IsEntry seen e
    → At c (encode_entry e ++ rest)
    → Runs e (Reads c (encode_entry e) rest) (parse_entry seen c)
unfolding parse_entry encode_entry
entry-Runs seen e c rest (w, order) a =
    let a' = simp append_assoc at a in
    Runs-bind _ (read_u32-Runs c (length e.name) _ w.counted a') λ c1 (s1, a1).
      Runs-bind _ (read_n-Runs (length e.name) c1 e.name _ refl a1) λ c2 (s2, a2).
        Runs-bind _ (reject-Runs _ _ c2 _ ((empty_iff e.name).1 w.nonempty) a2) λ c3 (s3, a3).
          Runs-bind _ (reject-Runs _ _ c3 _ w.no_slash a3) λ c4 (s4, a4).
            Runs-bind _ (reject-Runs _ _ c4 _ w.no_nul a4) λ c5 (s5, a5).
              Runs-bind _ (reject-Runs _ _ c5 _ (ap not w.utf8) a5) λ c6 (s6, a6).
                Runs-bind _ (reject-Runs _ _ c6 _ order a6) λ c7 (s7, a7).
                  Runs-bind _ (read_u64-Runs c7 e.inode_number _ w.inode a7) λ c8 (s8, a8).
                    Runs-bind _ (read_u8-Runs c8 e.entry_type rest a8) λ c9 (s9, a9).
                      Runs-bind _ (reject-Runs _ _ c9 rest (ap not w.kind) a9) λ c10 (s10, a10). (
                        c10,
                        refl,
                        (
                          follow s1 (
                              follow s2 (
                                follow s3 (
                                  follow s4 (
                                    follow s5
                                      (follow s6 (follow s7 (follow s8 (after s9 s10)))))))),
                          a10,
                        ),
                      )

pub parse-Sound :
    (c : Cursor) → IsValid c → Sound (Took IsWellFormed encode c) (parse_directory_node c)
unfolding parse_directory_node encode
parse-Sound c v = Sound-bind (read_u8-Sound c v) λ version c1 (h1, s1, v1).
    Sound-bind (reject-Sound _ _ c1 v1) λ _ c2 (h2, s2, v2).
      Sound-bind (read_u32-Sound c2 v2) λ n c3 (h3, s3, v3).
        Sound-bind
          (parse_list-Sound parse_entry encode_entry (InOrder IsEntry) IsEntry-Sound n c3 v3)
          λ es c4 ((l, g), s4, v4).
            let (sorted, all) = (Goods-Ascending IsEntry es).0 g in
            Sound-ok (
              record {
                version = eq_of_not_ne version directory_node_version h2;
                counted = omega arith;
                sorted = sorted;
                entries = all;
              },
              rw l (follow s1 (follow s2 (follow s3 s4))),
              v4,
            )

pub parse-Runs :
    (n : DirectoryNode) (c : Cursor) (rest : List ℕ)
    → IsWellFormed n
    → At c (encode n ++ rest)
    → Runs n (Reads c (encode n) rest) (parse_directory_node c)
unfolding parse_directory_node encode
parse-Runs n c rest w a =
    let a' = simp append_assoc at a in
    let es = n.entries in
    Runs-bind _ (read_u8-Runs c n.version _ a') λ c1 (s1, a1).
      Runs-bind _ (reject-Runs _ _ c1 _ (ground (arith, w.version)) a1) λ c2 (s2, a2).
        Runs-bind _ (read_u32-Runs c2 (length es) _ w.counted a2) λ c3 (s3, a3).
          Runs-bind _
            (parse_list-Runs parse_entry encode_entry (InOrder IsEntry) entry-Runs es (length es) c3
              rest refl ((Goods-Ascending IsEntry es).1 (w.sorted, w.entries)) a3)
            λ c4 (s4, a4). (c4, refl, (follow s1 (follow s2 (follow s3 s4)), a4))

-- A well-formed directory node, laid out as the wire format says, parses to itself, with anything
-- behind it left unread, on any valid cursor before those bytes.
pub parse_directory_node-encode :
    (n : DirectoryNode) (c : Cursor) (rest : List ℕ)
    → IsWellFormed n
    → IsValid c
    → remaining c ≡ encode n ++ rest
    → (c' : Cursor) × (parse_directory_node c ≡ ok (n, c'))
      × Steps c (encode n) c'
      × (remaining c' ≡ rest)
parse_directory_node-encode n c rest w v e =
    let (c', r, (s, a)) = parse-Runs n c rest w (record { valid = v; unread = e }) in
    (c', r, s, a.unread)

-- Whatever the parser accepts on a valid cursor is well formed: every name is one nonempty UTF-8 path
-- component below all later names in byte order, so no name occurs twice, and every type is one of the
-- four; what it read is the layout of its result.
pub parse_directory_node_canonical :
    (c : Cursor) (n : DirectoryNode) (c' : Cursor)
    → IsValid c
    → parse_directory_node c ≡ ok (n, c')
    → IsWellFormed n × Steps c (encode n) c'
parse_directory_node_canonical c n c' v e = let (w, s, _) = sound_use (parse-Sound c v) e in (w, s)
