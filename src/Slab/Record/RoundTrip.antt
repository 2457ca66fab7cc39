-- ===== src/Slab/Record/RoundTrip.antt =====
-- limnifs-core/src/drop_record.rs: the record's parser against its layout.
use limnifs.Prelude.{
  ℕ, ◌+◌, ◌^◌, ◌≤◌, ◌<◌, ◌≡◌, refl, ◌⊎◌, inl, inr, Bool, true, false, not, ◌&&◌, List, [], ◌∷◌,
  ◌++◌, append_assoc, arith, ok, ◌==◌, eq_of_not_ne, ltb→le, le→ltb, length,
}
use limnifs.Prelude.Bytes.{to_le_bytes}
use limnifs.Cursor.{Cursor, remaining}
use limnifs.Cursor.Steps.{IsValid, Steps, follow}
use limnifs.Cursor.Rules.{Sound, Sound-ok, Sound-bind, sound_use, Runs, Runs-bind, At, Reads, Took}
use limnifs.Cursor.Reads.{
  read_n-Runs, read_n-Sound, read_u8-Runs, read_u8-Sound, read_u32-Runs, read_u32-Sound,
}
use limnifs.Cursor.Guards.{reject-Sound, reject-Runs}
use limnifs.Format.{representation_to_bytes, representation_from_bytes}
use limnifs.Format.Ids.{representation_bytes}
use limnifs.Slab.Header.{SlabHeader, is_sealed, has_erasure_coding}
use limnifs.Slab.Record.{DropRecord, parse_drop_record_with_ceiling}

-- The 50 bytes of a record.
unfoldable pub encode : DropRecord → List ℕ
encode r =
    r.drop_id
    ++ (to_le_bytes 4 r.plaintext_len
        ++ (representation_to_bytes r.representation
            ++ (r.solid_window_index
                ∷ (to_le_bytes 4 r.offset_in_window
                    ++ (to_le_bytes 4 r.len_in_window ++ (r.dict_id ∷ r.flags ∷ []))))))

-- Within the ceiling, sealed or coded only if the slab is, and a window range that is a u32.
pub record IsWellFormed (slab : SlabHeader) (max_plaintext : ℕ) (r : DropRecord) : Type 0 where
  pub id : length r.drop_id ≡ 32
  pub word : r.plaintext_len < 2 ^ 32
  pub short : r.plaintext_len ≤ max_plaintext
  pub sealed : (is_sealed slab ≡ true) ⊎ (r.representation.aead ≡ 0)
  pub coded : (has_erasure_coding slab ≡ true) ⊎ (r.representation.ec ≡ 0)
  pub offset : r.offset_in_window < 2 ^ 32
  pub len : r.len_in_window < 2 ^ 32
  pub range : r.offset_in_window + r.len_in_window < 2 ^ 32

allowed : (b : Bool) (n : ℕ) → (not b && not (n == 0)) ≡ false → (b ≡ true) ⊎ (n ≡ 0)
allowed true n h = inl refl
allowed false n h = inr (eq_of_not_ne n 0 h)

passes : (b : Bool) (n : ℕ) → (b ≡ true) ⊎ (n ≡ 0) → (not b && not (n == 0)) ≡ false
passes b n (inl h) = ground arith
passes b n (inr h) = ground arith

pub parse-Sound :
    (slab : SlabHeader) (m : ℕ) (c : Cursor)
    → IsValid c
    → Sound (Took (IsWellFormed slab m) encode c) (parse_drop_record_with_ceiling slab m c)
unfolding parse_drop_record_with_ceiling encode
parse-Sound slab m c v = Sound-bind (read_n-Sound 32 c v) λ id c1 (h1, s1, v1).
    Sound-bind (read_u32-Sound c1 v1) λ n c2 (h2, s2, v2).
      Sound-bind (reject-Sound _ _ c2 v2) λ _ c3 (h3, s3, v3).
        Sound-bind (read_n-Sound 3 c3 v3) λ repr c4 (h4, s4, v4).
          Sound-bind (reject-Sound _ _ c4 v4) λ _ c5 (h5, s5, v5).
            Sound-bind (reject-Sound _ _ c5 v5) λ _ c6 (h6, s6, v6).
              Sound-bind (read_u8-Sound c6 v6) λ window c7 (h7, s7, v7).
                Sound-bind (read_u32-Sound c7 v7) λ offset c8 (h8, s8, v8).
                  Sound-bind (read_u32-Sound c8 v8) λ len c9 (h9, s9, v9).
                    Sound-bind (reject-Sound _ _ c9 v9) λ _ c10 (h10, s10, v10).
                      Sound-bind (read_u8-Sound c10 v10) λ dict c11 (h11, s11, v11).
                        Sound-bind (read_u8-Sound c11 v11) λ flags c12 (h12, s12, v12). Sound-ok (
                          record {
                            id = h1;
                            word = h2;
                            short = ltb→le _ _ h3;
                            sealed = allowed _ _ h5;
                            coded = allowed _ _ h6;
                            offset = h8;
                            len = h9;
                            range = ground (arith, h10);
                          },
                          rw (representation_bytes repr h4) (
                              follow s1 (
                                follow s2 (
                                  follow s3 (
                                    follow s4 (
                                      follow s5 (
                                        follow s6 (
                                          follow s7 (
                                            follow s8
                                              (follow s9 (follow s10 (follow s11 s12))))))))))),
                          v12,
                        )

pub parse-Runs :
    (slab : SlabHeader) (m : ℕ) (r : DropRecord) (c : Cursor) (rest : List ℕ)
    → IsWellFormed slab m r
    → At c (encode r ++ rest)
    → Runs r (Reads c (encode r) rest) (parse_drop_record_with_ceiling slab m c)
unfolding parse_drop_record_with_ceiling encode representation_to_bytes representation_from_bytes
parse-Runs slab m r c rest w a =
    let a' = simp append_assoc at a in
    Runs-bind _ (read_n-Runs 32 c r.drop_id _ w.id a') λ c1 (s1, a1).
      Runs-bind _ (read_u32-Runs c1 r.plaintext_len _ w.word a1) λ c2 (s2, a2).
        Runs-bind _ (reject-Runs _ _ c2 _ (le→ltb _ _ w.short) a2) λ c3 (s3, a3).
          Runs-bind _ (read_n-Runs 3 c3 (representation_to_bytes r.representation) _ refl a3)
            λ c4 (s4, a4).
              Runs-bind _ (reject-Runs _ _ c4 _ (passes _ _ w.sealed) a4) λ c5 (s5, a5).
                Runs-bind _ (reject-Runs _ _ c5 _ (passes _ _ w.coded) a5) λ c6 (s6, a6).
                  Runs-bind _ (read_u8-Runs c6 r.solid_window_index _ a6) λ c7 (s7, a7).
                    Runs-bind _ (read_u32-Runs c7 r.offset_in_window _ w.offset a7) λ c8 (s8, a8).
                      Runs-bind _ (read_u32-Runs c8 r.len_in_window _ w.len a8) λ c9 (s9, a9).
                        Runs-bind _ (reject-Runs _ _ c9 _ (ground (arith, w.range)) a9)
                          λ c10 (s10, a10).
                            Runs-bind _ (read_u8-Runs c10 r.dict_id _ a10) λ c11 (s11, a11).
                              Runs-bind _ (read_u8-Runs c11 r.flags rest a11) λ c12 (s12, a12). (
                                c12,
                                refl,
                                (
                                  follow s1 (
                                      follow s2 (
                                        follow s3 (
                                          follow s4 (
                                            follow s5 (
                                              follow s6 (
                                                follow s7 (
                                                  follow s8 (
                                                    follow s9 (follow s10 (follow s11 s12)))))))))),
                                  a12,
                                ),
                              )

-- A well-formed drop record of a slab, laid out in its 50 bytes, parses to itself under the ceiling
-- on the plaintext, with anything behind it left unread, on any valid cursor before those bytes.
pub parse_drop_record_with_ceiling-encode :
    (slab : SlabHeader) (m : ℕ) (r : DropRecord) (c : Cursor) (rest : List ℕ)
    → IsWellFormed slab m r
    → IsValid c
    → remaining c ≡ encode r ++ rest
    → (c' : Cursor) × (parse_drop_record_with_ceiling slab m c ≡ ok (r, c'))
      × Steps c (encode r) c'
      × (remaining c' ≡ rest)
parse_drop_record_with_ceiling-encode slab m r c rest w v e =
    let (c', r, (s, a)) = parse-Runs slab m r c rest w (record { valid = v; unread = e }) in
    (c', r, s, a.unread)

-- Whatever the parser accepts on a valid cursor is well formed: the plaintext within the ceiling, an
-- AEAD only in a sealed slab, erasure coding only in a coded one, and a window range whose end is a
-- u32; what it read is the layout of its result.
pub parse_drop_record_with_ceiling_canonical :
    (slab : SlabHeader) (m : ℕ) (c : Cursor) (r : DropRecord) (c' : Cursor)
    → IsValid c
    → parse_drop_record_with_ceiling slab m c ≡ ok (r, c')
    → IsWellFormed slab m r × Steps c (encode r) c'
parse_drop_record_with_ceiling_canonical slab m c r c' v e =
    let (w, s, _) = sound_use (parse-Sound slab m c v) e in (w, s)
