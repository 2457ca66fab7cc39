-- ===== src/Slab/Header/RoundTrip.antt =====
-- limnifs-core/src/slab.rs: the header's parser against its layout.
use limnifs.Prelude.{
  ℕ, ◌^◌, ◌≤◌, ◌<◌, ◌≡◌, refl, ap, ◌≢◌, false, not, List, [], ◌∷◌, ◌++◌, append_assoc, arith, ok,
  ◌==◌, eq_of_not_ne, ltb→le, le→ltb, bytes_eq_refl, bytes_eq→eq, length,
}
use limnifs.Prelude.Bytes.{to_le_bytes}
use limnifs.Cursor.{Cursor, read_magic, remaining}
use limnifs.Cursor.Steps.{IsValid, Steps, follow, after}
use limnifs.Cursor.Rules.{Sound, Sound-ok, Sound-bind, sound_use, Runs, Runs-bind, At, Reads, Took}
use limnifs.Cursor.Reads.{
  read_n-Runs, read_n-Sound, read_u8-Runs, read_u8-Sound, read_u16-Runs, read_u16-Sound,
  read_u64-Runs, read_u64-Sound,
}
use limnifs.Cursor.Guards.{reject-Sound, reject-Runs}
use limnifs.Slab.Header.{
  SlabHeader, slab_magic, slab_format_version, slab_header_len, ec_descriptor_extended,
  crypto_hint_extended, parse_slab_header_with_ceiling,
}

-- The 56 bytes: magic, version, slab id, total length, and two descriptor bytes.
unfoldable pub encode : SlabHeader → List ℕ
encode h =
    slab_magic
    ++ (to_le_bytes 2 h.format_version
        ++ (to_le_bytes 8 h.slab_id.ordinal
            ++ (h.slab_id.hash
                ++ (to_le_bytes 8 h.total_length ++ (h.ec_descriptor ∷ h.crypto_hint ∷ [])))))

-- The supported version, a length between the header's and the ceiling, and v1 descriptors.
pub record IsWellFormed (max_total_length : ℕ) (h : SlabHeader) : Type 0 where
  pub version : h.format_version ≡ slab_format_version
  pub ordinal : h.slab_id.ordinal < 2 ^ 64
  pub hash : length h.slab_id.hash ≡ 32
  pub word : h.total_length < 2 ^ 64
  pub long : slab_header_len ≤ h.total_length
  pub short : h.total_length ≤ max_total_length
  pub ec : h.ec_descriptor ≢ ec_descriptor_extended
  pub crypto : h.crypto_hint ≢ crypto_hint_extended

ne_of_test : (a b : ℕ) → (a == b) ≡ false → a ≢ b
ne_of_test a b h = ground arith

test_of_ne : (a b : ℕ) → a ≢ b → (a == b) ≡ false
test_of_ne a b h = ground arith

pub parse-Sound :
    (m : ℕ) (c : Cursor)
    → IsValid c
    → Sound (Took (IsWellFormed m) encode c) (parse_slab_header_with_ceiling m c)
unfolding parse_slab_header_with_ceiling encode read_magic
parse-Sound m c v = Sound-bind (read_n-Sound 4 c v) λ magic c1 (h1, s1, v1).
    Sound-bind (reject-Sound _ _ c1 v1) λ _ c2 (h2, s2, v2).
      Sound-bind (read_u16-Sound c2 v2) λ version c3 (h3, s3, v3).
        Sound-bind (reject-Sound _ _ c3 v3) λ _ c4 (h4, s4, v4).
          Sound-bind (read_u64-Sound c4 v4) λ ordinal c5 (h5, s5, v5).
            Sound-bind (read_n-Sound 32 c5 v5) λ hash c6 (h6, s6, v6).
              Sound-bind (read_u64-Sound c6 v6) λ total c7 (h7, s7, v7).
                Sound-bind (reject-Sound _ _ c7 v7) λ _ c8 (h8, s8, v8).
                  Sound-bind (reject-Sound _ _ c8 v8) λ _ c9 (h9, s9, v9).
                    Sound-bind (read_u8-Sound c9 v9) λ ec c10 (h10, s10, v10).
                      Sound-bind (reject-Sound _ _ c10 v10) λ _ c11 (h11, s11, v11).
                        Sound-bind (read_u8-Sound c11 v11) λ crypto c12 (h12, s12, v12).
                          Sound-bind (reject-Sound _ _ c12 v12) λ _ c13 (h13, s13, v13).
                            let s1' = rw (bytes_eq→eq magic slab_magic (ground arith)) at s1 in
                            Sound-ok (
                              record {
                                version = eq_of_not_ne version slab_format_version h4;
                                ordinal = h5;
                                hash = h6;
                                word = h7;
                                long = ltb→le _ _ h8;
                                short = ltb→le _ _ h9;
                                ec = ne_of_test _ _ h11;
                                crypto = ne_of_test _ _ h13;
                              },
                              follow s1' (
                                  follow s2 (
                                    follow s3 (
                                      follow s4 (
                                        follow s5 (
                                          follow s6 (
                                            follow s7 (
                                              follow s8 (
                                                follow s9
                                                  (follow s10 (follow s11 (after s12 s13))))))))))),
                              v13,
                            )

pub parse-Runs :
    (m : ℕ) (h : SlabHeader) (c : Cursor) (rest : List ℕ)
    → IsWellFormed m h
    → At c (encode h ++ rest)
    → Runs h (Reads c (encode h) rest) (parse_slab_header_with_ceiling m c)
unfolding parse_slab_header_with_ceiling encode read_magic
parse-Runs m h c rest w a =
    let a' = simp append_assoc at a in
    Runs-bind _ (read_n-Runs 4 c slab_magic _ refl a') λ c1 (s1, a1).
      Runs-bind _ (reject-Runs _ _ c1 _ (ap not (bytes_eq_refl slab_magic)) a1) λ c2 (s2, a2).
        Runs-bind _ (read_u16-Runs c2 h.format_version _ (omega (arith, w.version)) a2)
          λ c3 (s3, a3).
            Runs-bind _ (reject-Runs _ _ c3 _ (ground (arith, w.version)) a3) λ c4 (s4, a4).
              Runs-bind _ (read_u64-Runs c4 h.slab_id.ordinal _ w.ordinal a4) λ c5 (s5, a5).
                Runs-bind _ (read_n-Runs 32 c5 h.slab_id.hash _ w.hash a5) λ c6 (s6, a6).
                  Runs-bind _ (read_u64-Runs c6 h.total_length _ w.word a6) λ c7 (s7, a7).
                    Runs-bind _ (reject-Runs _ _ c7 _ (le→ltb _ _ w.long) a7) λ c8 (s8, a8).
                      Runs-bind _ (reject-Runs _ _ c8 _ (le→ltb _ _ w.short) a8) λ c9 (s9, a9).
                        Runs-bind _ (read_u8-Runs c9 h.ec_descriptor _ a9) λ c10 (s10, a10).
                          Runs-bind _ (reject-Runs _ _ c10 _ (test_of_ne _ _ w.ec) a10)
                            λ c11 (s11, a11).
                              Runs-bind _ (read_u8-Runs c11 h.crypto_hint rest a11)
                                λ c12 (s12, a12).
                                  Runs-bind _
                                    (reject-Runs _ _ c12 rest (test_of_ne _ _ w.crypto) a12)
                                    λ c13 (s13, a13). (
                                      c13,
                                      refl,
                                      (
                                        follow s1 (
                                            follow s2 (
                                              follow s3 (
                                                follow s4 (
                                                  follow s5 (
                                                    follow s6 (
                                                      follow s7 (
                                                        follow s8 (
                                                          follow s9 (
                                                            follow s10
                                                            (follow s11 (after s12 s13))))))))))),
                                        a13,
                                      ),
                                    )

-- A well-formed slab header, laid out in its 56 bytes, parses to itself under the ceiling on the
-- total length, with anything behind it left unread, on any valid cursor before those bytes.
pub parse_slab_header_with_ceiling-encode :
    (m : ℕ) (h : SlabHeader) (c : Cursor) (rest : List ℕ)
    → IsWellFormed m h
    → IsValid c
    → remaining c ≡ encode h ++ rest
    → (c' : Cursor) × (parse_slab_header_with_ceiling m c ≡ ok (h, c'))
      × Steps c (encode h) c'
      × (remaining c' ≡ rest)
parse_slab_header_with_ceiling-encode m h c rest w v e =
    let (c', r, (s, a)) = parse-Runs m h c rest w (record { valid = v; unread = e }) in
    (c', r, s, a.unread)

-- Whatever the parser accepts on a valid cursor is well formed (version 1, a total length from 56 up
-- to the ceiling, no extended descriptor), and what it read is the layout of its result.
pub parse_slab_header_with_ceiling_canonical :
    (m : ℕ) (c : Cursor) (h : SlabHeader) (c' : Cursor)
    → IsValid c
    → parse_slab_header_with_ceiling m c ≡ ok (h, c')
    → IsWellFormed m h × Steps c (encode h) c'
parse_slab_header_with_ceiling_canonical m c h c' v e =
    let (w, s, _) = sound_use (parse-Sound m c v) e in (w, s)
