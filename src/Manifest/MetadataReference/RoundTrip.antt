-- ===== src/Manifest/MetadataReference/RoundTrip.antt =====
-- limnifs-core/src/metadata_reference.rs: the parser against the section's layout.
use limnifs.Prelude.{
  ℕ, ◌^◌, ◌≤◌, ◌<◌, ◌≡◌, refl, sym, ap, subst, ◌≢◌, ◌⊎◌, inl, inr, false, not, ◌&&◌, Option, none,
  some, List, [], ◌∷◌, ◌++◌, append_assoc, arith, ok, ==_iff, le→ltb, length, All,
}
use limnifs.Prelude.Bytes.{to_le_bytes}
use limnifs.Prelude.{
  ℕ, ◌^◌, ◌≤◌, ◌<◌, ◌≡◌, refl, sym, ap, subst, ◌≢◌, ◌⊎◌, inl, inr, false, not, ◌&&◌, Option, none,
  some, List, [], ◌∷◌, ◌++◌, append_assoc, arith, ok, ==_iff, le→ltb, length, All,
}
use limnifs.Prelude.Bytes.{to_le_bytes}
use limnifs.Cursor.{Cursor, read_n_owned, remaining}
use limnifs.Cursor.Steps.{IsValid, Steps, stay, follow, after}
use limnifs.Cursor.Rules.{
  Sound, Sound-ok, Sound-err, Sound-bind, sound_use, Runs, Runs-bind, At, Reads,
}
use limnifs.Cursor.Reads.{
  read_n-Runs, read_n-Sound, read_u8-Runs, read_u8-Sound, read_u32-Runs, read_u32-Sound,
}
use limnifs.Cursor.Guards.{
  reject-Sound, reject-Runs, or_fail-Sound, or_fail-Runs, branch-Sound, branch-true, branch-false,
}
use limnifs.Manifest.Locator.RoundTrip.{IsLocator, encode_entries, entries-Sound, entries-Runs}
use limnifs.Manifest.MetadataReference.{
  MetadataReference, section_version, section_version_2, codec_store, is_some, no_locators, as_u32,
  expand, read_wire, read_inline_blob, parse_v1, parse_v2, parse_metadata_reference_with_ceilings,
}

-- The bytes on the wire behind their count, of length 0 if there are none.
unfoldable pub encode_blob : List ℕ → List ℕ
encode_blob wire = to_le_bytes 4 (length wire) ++ wire

-- Version 1: the hash, the locators, the bytes as they are.
unfoldable pub encode_v1 : MetadataReference → List ℕ → List ℕ
encode_v1 r wire =
    section_version
    ∷ (r.metadata_hash
        ++ (to_le_bytes 4 (length r.locators) ++ (encode_entries r.locators ++ encode_blob wire)))

-- Version 2: the uncompressed length and the codec besides.
unfoldable pub encode_v2 : MetadataReference → List ℕ → List ℕ
encode_v2 r wire =
    section_version_2
    ∷ (r.metadata_hash
        ++ (to_le_bytes 4 r.uncompressed_len
            ++ (r.codec
                ∷ (to_le_bytes 4 (length r.locators)
                    ++ (encode_entries r.locators ++ encode_blob wire)))))

module _ (decompress : ℕ → List ℕ → ℕ → Option (List ℕ)) where
  -- The inline bytes that a codec makes of the wire's: none of none, the same if stored, and otherwise
  -- what `decompress` gives, of the declared length.
  abbrev pub Unpacks : ℕ → ℕ → List ℕ → Option (List ℕ) → Type 0
  Unpacks codec n wire none = length wire ≡ 0
  Unpacks codec n wire (some bytes) =
      (length wire ≢ 0)
      × (((codec ≡ codec_store) × (bytes ≡ wire))
          ⊎ ((codec ≢ codec_store)
              × (decompress codec wire n ≡ some bytes)
              × (as_u32 (length bytes) ≡ n)))

  pub record IsWellFormed (max_locator_uri_bytes max_inline_metadata_bytes : ℕ) (wire : List ℕ)
      (r : MetadataReference) : Type 0 where
    pub hash : length r.metadata_hash ≡ 32
    pub counted : length r.locators < 2 ^ 32
    pub locators : All (IsLocator max_locator_uri_bytes) r.locators
    pub reachable : (no_locators r.locators && not (is_some r.inline_metadata)) ≡ false
    pub len : r.uncompressed_len < 2 ^ 32
    pub wire_counted : length wire < 2 ^ 32
    pub short : length wire ≤ max_inline_metadata_bytes
    pub unpacks : Unpacks r.codec r.uncompressed_len wire r.inline_metadata

  -- What the read of the blob takes.
  TookBlob : ℕ → ℕ → ℕ → ℕ → Cursor → Option (List ℕ) → Cursor → Type 0
  TookBlob len m n codec c o c' =
      (wire : List ℕ) × (length wire ≡ len)
      × (length wire ≤ m)
      × Unpacks codec n wire o
      × Steps c wire c'
      × IsValid c'

  blob-Sound :
      (len m n codec : ℕ) (c : Cursor)
      → IsValid c
      → Sound (TookBlob len m n codec c) (read_inline_blob decompress len m n codec c)
  unfolding read_inline_blob read_wire expand read_n_owned TookBlob
  blob-Sound len m n codec c v =
      branch-Sound _ _ _ c
        (λ z. Sound-ok ([], sym ((==_iff _ _).0 z), omega arith, refl, stay c, v))
        (λ nz. Sound-bind (reject-Sound _ _ c v) λ _ c1 (h1, s1, v1).
          Sound-bind (read_n-Sound len c1 v1) λ wire c2 (h2, s2, v2).
            let some_wire : length wire ≢ 0 = λ e. ground (arith, e, h2, nz) in
            branch-Sound _ _ _ c2
              (λ stored. Sound-ok (
                wire,
                h2,
                ground (arith, h2),
                (some_wire, inl ((==_iff _ _).0 stored, refl)),
                follow s1 s2,
                v2,
              ))
              (λ packed. Sound-bind (or_fail-Sound _ _ c2 v2) λ bytes c3 (h3, s3, v3).
                Sound-bind (reject-Sound _ _ c3 v3) λ _ c4 (h4, s4, v4). Sound-ok (
                  wire,
                  h2,
                  ground (arith, h2),
                  (some_wire, inr ((λ e. ground (arith, e, packed)), h3, ground (arith, h4))),
                  follow s1 (after (after s2 s3) s4),
                  v4,
                )))

  -- What the section takes: the layout of one of the versions, of wire bytes that unpack to the inline
  -- ones.
  abbrev pub Took2 : ℕ → ℕ → Cursor → MetadataReference → Cursor → Type 0
  Took2 u m c r c' =
      (wire : List ℕ) × IsWellFormed u m wire r
      × (((r.codec ≡ codec_store)
            × (r.uncompressed_len ≡ length wire)
            × Steps c (encode_v1 r wire) c')
          ⊎ Steps c (encode_v2 r wire) c')

  pub parse-Sound :
      (u m : ℕ) (c : Cursor)
      → IsValid c
      → Sound (Took2 u m c) (parse_metadata_reference_with_ceilings decompress u m c)
  unfolding parse_metadata_reference_with_ceilings parse_v1 parse_v2 encode_v1 encode_v2 encode_blob
      TookBlob
  parse-Sound u m c v = Sound-bind (read_u8-Sound c v) λ version c1 (h1, s1, v1).
      branch-Sound _ _ _ c1
        (λ e. Sound-bind (read_n-Sound 32 c1 v1) λ hash c2 (h2, s2, v2).
          Sound-bind (read_u32-Sound c2 v2) λ n c3 (h3, s3, v3).
            Sound-bind (entries-Sound u n c3 v3) λ ls c4 ((l4, h4), s4, v4).
              Sound-bind (read_u32-Sound c4 v4) λ k c5 (h5, s5, v5).
                Sound-bind (blob-Sound k m k codec_store c5 v5)
                  λ o c6 (wire, h6, short, unpacks, s6, v6).
                    Sound-bind (reject-Sound _ _ c6 v6) λ _ c7 (h7, s7, v7).
                      let s1' = rw ((==_iff _ _).0 e) at s1 in
                      Sound-ok (
                        wire,
                        record {
                          hash = h2;
                          counted = omega arith;
                          locators = h4;
                          reachable = h7;
                          len = h5;
                          wire_counted = omega arith;
                          short = short;
                          unpacks = unpacks;
                        },
                        inl (
                          refl,
                          sym h6,
                          rw (l4, h6)
                              (follow s1'
                                (follow s2 (follow s3 (follow s4 (follow s5 (after s6 s7)))))),
                        ),
                      ))
        (λ _.
          branch-Sound _ _ _ c1
            (λ e. Sound-bind (read_n-Sound 32 c1 v1) λ hash c2 (h2, s2, v2).
              Sound-bind (read_u32-Sound c2 v2) λ len c3 (h3, s3, v3).
                Sound-bind (read_u8-Sound c3 v3) λ codec c4 (h4, s4, v4).
                  Sound-bind (read_u32-Sound c4 v4) λ n c5 (h5, s5, v5).
                    Sound-bind (entries-Sound u n c5 v5) λ ls c6 ((l6, h6), s6, v6).
                      Sound-bind (read_u32-Sound c6 v6) λ k c7 (h7, s7, v7).
                        Sound-bind (blob-Sound k m len codec c7 v7)
                          λ o c8 (wire, h8, short, unpacks, s8, v8).
                            Sound-bind (reject-Sound _ _ c8 v8) λ _ c9 (h9, s9, v9).
                              let s1' = rw ((==_iff _ _).0 e) at s1 in
                              Sound-ok (
                                wire,
                                record {
                                  hash = h2;
                                  counted = omega arith;
                                  locators = h6;
                                  reachable = h9;
                                  len = h3;
                                  wire_counted = omega arith;
                                  short = short;
                                  unpacks = unpacks;
                                },
                                inr (
                                    rw (l6, h8)
                                      (follow s1' (
                                        follow s2 (
                                          follow s3 (
                                            follow s4 (
                                              follow s5 (follow s6 (follow s7 (after s8 s9))))))))),
                              ))
            (λ _. Sound-err))

  no_bytes : (xs : List ℕ) → length xs ≡ 0 → xs ≡ []
  no_bytes [] e = refl
  no_bytes (x ∷ xs) e = absurd (omega (arith, e))

  blob-Runs :
      (m n codec : ℕ) (wire : List ℕ) (o : Option (List ℕ)) (c : Cursor) (rest : List ℕ)
      → length wire ≤ m
      → Unpacks codec n wire o
      → At c (wire ++ rest)
      → Runs o (Reads c wire rest) (read_inline_blob decompress (length wire) m n codec c)
  unfolding read_inline_blob read_wire expand read_n_owned
  blob-Runs m n codec wire none c rest short e a = branch-true _ _ _ c ((==_iff _ _).1 e) (
      let nil = no_bytes wire e in
      let a' : At c rest = subst (λ w. At c (w ++ rest)) nil a in
      (c, refl, subst (λ w. Reads c w rest c) (sym nil) (stay c, a')))
  blob-Runs m n codec wire (some bytes) c rest short (ne, how) a =
      branch-false _ _ _ c (ground (arith, ne)) (
        Runs-bind _ (reject-Runs _ _ c _ (le→ltb _ _ short) a) λ c1 (s1, a1).
          Runs-bind _ (read_n-Runs _ c1 wire rest refl a1) λ c2 (s2, a2). elim how [
            | inl (stored, e) ↦
                branch-true _ _ _ c2 ((==_iff _ _).1 stored)
                  (c2, ap (λ b. ok (some b, c2)) (sym e), (follow s1 s2, a2))
            | inr (packed, out, len) ↦ branch-false _ _ _ c2 (ground (arith, packed)) (
                Runs-bind _ (or_fail-Runs _ _ c2 bytes _ out a2) λ c3 (s3, a3).
                  Runs-bind _ (reject-Runs _ _ c3 rest (ground (arith, len)) a3)
                    λ c4 (s4, a4). (c4, refl, (follow s1 (after (after s2 s3) s4), a4)))
          ])

  parse-Runs :
      (u m : ℕ) (wire : List ℕ) (r : MetadataReference) (c : Cursor) (rest : List ℕ)
      → IsWellFormed u m wire r
      → At c (encode_v2 r wire ++ rest)
      → Runs r
          (Reads c (encode_v2 r wire) rest)
          (parse_metadata_reference_with_ceilings decompress u m c)
  unfolding parse_metadata_reference_with_ceilings parse_v2 encode_v2 encode_blob
  parse-Runs u m wire r c rest w a =
      let a' = simp append_assoc at a in
      Runs-bind _ (read_u8-Runs c section_version_2 _ a') λ c1 (s1, a1).
        branch-false _ _ _ c1 refl (
          branch-true _ _ _ c1 refl (
            Runs-bind _ (read_n-Runs 32 c1 r.metadata_hash _ w.hash a1) λ c2 (s2, a2).
              Runs-bind _ (read_u32-Runs c2 r.uncompressed_len _ w.len a2) λ c3 (s3, a3).
                Runs-bind _ (read_u8-Runs c3 r.codec _ a3) λ c4 (s4, a4).
                  Runs-bind _ (read_u32-Runs c4 (length r.locators) _ w.counted a4) λ c5 (s5, a5).
                    Runs-bind _
                      (entries-Runs u (length r.locators) r.locators c5 _ refl w.counted w.locators
                        a5)
                      λ c6 (s6, a6).
                        Runs-bind _ (read_u32-Runs c6 (length wire) _ w.wire_counted a6)
                          λ c7 (s7, a7).
                            Runs-bind _
                              (blob-Runs m r.uncompressed_len r.codec wire r.inline_metadata c7 rest
                                w.short w.unpacks a7)
                              λ c8 (s8, a8).
                                Runs-bind _ (reject-Runs _ _ c8 rest w.reachable a8) λ c9 (s9, a9).
                                  (
                                    c9,
                                    refl,
                                    (
                                      follow s1 (
                                          follow s2 (
                                            follow s3 (
                                              follow s4 (
                                                follow s5 (follow s6 (follow s7 (after s8 s9))))))),
                                      a9,
                                    ),
                                  )))

-- Inline bytes have the length that the reference declares.
abbrev pub IsDeclared : ℕ → Option (List ℕ) → Type 0
IsDeclared n none = Unit
IsDeclared n (some bytes) = n ≡ length bytes

-- A well-formed reference whose inline bytes, if it has any, are of the length that it declares, and
-- wire bytes that unpack to them, laid out as version 2, parse to that reference, with anything behind
-- left unread, on any valid cursor before those bytes.
pub parse_metadata_reference_with_ceilings-encode_v2 :
    (decompress : ℕ → List ℕ → ℕ → Option (List ℕ)) (u m : ℕ) (wire : List ℕ)
    (r : MetadataReference) (c : Cursor) (rest : List ℕ)
    → IsWellFormed decompress u m wire r
    → IsDeclared r.uncompressed_len r.inline_metadata
    → IsValid c
    → remaining c ≡ encode_v2 r wire ++ rest
    → (c' : Cursor) × (parse_metadata_reference_with_ceilings decompress u m c ≡ ok (r, c'))
      × Steps c (encode_v2 r wire) c'
      × (remaining c' ≡ rest)
parse_metadata_reference_with_ceilings-encode_v2 decompress u m wire r c rest w _ v e =
    let (c', p, (s, a)) =
      parse-Runs decompress u m wire r c rest w (record { valid = v; unread = e }) in
    (c', p, s, a.unread)

-- Whatever the parser accepts on a valid cursor is well formed with some wire bytes: a 32-byte hash,
-- locators of the grammar, at least one source, wire bytes within the ceiling that unpack to the inline
-- bytes (as they are if stored, else by `decompress` to the declared length); what it read is the
-- layout of one of the versions, stored and of the wire's length in version 1.
pub parse_metadata_reference_with_ceilings_canonical :
    (decompress : ℕ → List ℕ → ℕ → Option (List ℕ)) (u m : ℕ) (c : Cursor) (r : MetadataReference)
    (c' : Cursor)
    → IsValid c
    → parse_metadata_reference_with_ceilings decompress u m c ≡ ok (r, c')
    → (wire : List ℕ) × IsWellFormed decompress u m wire r
      × (((r.codec ≡ codec_store)
            × (r.uncompressed_len ≡ length wire)
            × Steps c (encode_v1 r wire) c')
          ⊎ Steps c (encode_v2 r wire) c')
parse_metadata_reference_with_ceilings_canonical decompress u m c r c' v e =
    sound_use (parse-Sound decompress u m c v) e
