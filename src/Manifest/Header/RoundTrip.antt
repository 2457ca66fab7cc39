-- ===== src/Manifest/Header/RoundTrip.antt =====
-- limnifs-core/src/header.rs: `to_bytes` against `parse_manifest_header`.
use limnifs.Prelude.{
  ℕ, ◌^◌, ◌<◌, ◌≡◌, refl, ap, List, [], ◌∷◌, ◌++◌, append_assoc, false, not, ok, arith,
  bytes_eq_refl, bytes_eq→eq, length, replicate,
}
use limnifs.Cursor.{Cursor, remaining, read_magic}
use limnifs.Cursor.Steps.{IsValid, Steps, follow, after}
use limnifs.Cursor.Rules.{Sound, Sound-ok, Sound-bind, sound_use, Runs, Runs-bind, At, Reads, Took}
use limnifs.Cursor.Reads.{read_n-Runs, read_n-Sound, read_u16-Runs, read_u16-Sound}
use limnifs.Cursor.Guards.{reject-Sound, reject-Runs}
use limnifs.Manifest.Header.{
  ManifestHeader, manifest_magic, to_bytes, any_nonzero, parse_manifest_header,
}

-- The three versions are u16 values.
pub record IsWord (h : ManifestHeader) : Type 0 where
  pub drop_store : h.drop_store_version < 2 ^ 16
  pub metadata : h.metadata_version < 2 ^ 16
  pub manifest : h.manifest_version < 2 ^ 16

any_nonzero-replicate : any_nonzero (replicate 6 0) ≡ false
unfolding any_nonzero
any_nonzero-replicate = refl

all_zero : (bs : List ℕ) → any_nonzero bs ≡ false → bs ≡ replicate (length bs) 0
unfolding any_nonzero
all_zero [] h = refl
all_zero (b ∷ bs) h = ground (arith, all_zero bs)

parse-Runs :
    (h : ManifestHeader) (c : Cursor) (rest : List ℕ)
    → IsWord h
    → At c (to_bytes h ++ rest)
    → Runs h (Reads c (to_bytes h) rest) (parse_manifest_header c)
unfolding parse_manifest_header to_bytes read_magic
parse-Runs h c rest w a =
    let a' = simp append_assoc at a in
    Runs-bind _ (read_n-Runs 4 c manifest_magic _ refl a') λ c1 (s1, a1).
      Runs-bind _ (reject-Runs _ _ c1 _ (ap not (bytes_eq_refl manifest_magic)) a1) λ c2 (s2, a2).
        Runs-bind _ (read_u16-Runs c2 h.drop_store_version _ w.drop_store a2) λ c3 (s3, a3).
          Runs-bind _ (read_u16-Runs c3 h.metadata_version _ w.metadata a3) λ c4 (s4, a4).
            Runs-bind _ (read_u16-Runs c4 h.manifest_version _ w.manifest a4) λ c5 (s5, a5).
              Runs-bind _ (read_n-Runs 6 c5 (replicate 6 0) rest refl a5) λ c6 (s6, a6).
                Runs-bind _ (reject-Runs _ _ c6 _ any_nonzero-replicate a6) λ c7 (s7, a7). (
                  c7,
                  refl,
                  (follow s1 (follow s2 (follow s3 (follow s4 (follow s5 (after s6 s7))))), a7),
                )

parse-Sound : (c : Cursor) → IsValid c → Sound (Took IsWord to_bytes c) (parse_manifest_header c)
unfolding parse_manifest_header to_bytes read_magic
parse-Sound c v = Sound-bind (read_n-Sound 4 c v) λ magic c1 (e1, s1, v1).
    Sound-bind (reject-Sound _ _ c1 v1) λ _ c2 (e2, s2, v2).
      Sound-bind (read_u16-Sound c2 v2) λ n3 c3 (h3, s3, v3).
        Sound-bind (read_u16-Sound c3 v3) λ n4 c4 (h4, s4, v4).
          Sound-bind (read_u16-Sound c4 v4) λ n5 c5 (h5, s5, v5).
            Sound-bind (read_n-Sound 6 c5 v5) λ zeros c6 (e6, s6, v6).
              Sound-bind (reject-Sound _ _ c6 v6) λ _ c7 (e7, s7, v7).
                let m : magic ≡ manifest_magic = bytes_eq→eq _ _ (ground arith) in
                let z : zeros ≡ replicate 6 0 = rw e6 at (all_zero zeros e7) in
                Sound-ok (
                  omega arith,
                  rw m at (
                      follow s1
                        (follow s2 (follow s3 (follow s4 (follow s5 (rw z at (after s6 s7))))))),
                  v7,
                )

-- Parsing the 16 bytes that `to_bytes` writes, with anything behind them, gives the header back and
-- moves the cursor over exactly those bytes, for a valid cursor and versions that are u16 values.
pub parse_manifest_header-to_bytes :
    (h : ManifestHeader) (c : Cursor) (rest : List ℕ)
    → IsWord h
    → IsValid c
    → remaining c ≡ to_bytes h ++ rest
    → (c' : Cursor) × (parse_manifest_header c ≡ ok (h, c'))
      × Steps c (to_bytes h) c'
      × (remaining c' ≡ rest)
parse_manifest_header-to_bytes h c rest w v e =
    let (c', r, (s, a)) = parse-Runs h c rest w (record { valid = v; unread = e }) in
    (c', r, s, a.unread)

-- The parser accepts nothing else: whenever it succeeds on a valid cursor, what it read is exactly
-- what `to_bytes` writes for the header that it returns, and the versions are u16 values.
pub parse_manifest_header_canonical :
    (c : Cursor) (h : ManifestHeader) (c' : Cursor)
    → IsValid c
    → parse_manifest_header c ≡ ok (h, c')
    → IsWord h × Steps c (to_bytes h) c'
parse_manifest_header_canonical c h c' v e = let (w, s, _) = sound_use (parse-Sound c v) e in (w, s)
