-- ===== src/Manifest/EcParams/RoundTrip.antt =====
-- limnifs-core/src/ec_params.rs: the parser against the section's layout.
use limnifs.Prelude.{
  ℕ, ◌+◌, ◌*◌, ◌^◌, ◌≤◌, ◌<◌, ◌≡◌, refl, ◌≢◌, List, [], ◌∷◌, ◌++◌, append_assoc, arith, ok,
  eq_of_not_ne, le→ltb, length, All, length-append,
}
use limnifs.Prelude.Bytes.{to_le_bytes, length-to_le_bytes}
use limnifs.Cursor.{Cursor, remaining}
use limnifs.Cursor.Steps.{IsValid, Steps, follow, after}
use limnifs.Cursor.Rules.{
  Sound, Sound-ok, Sound-bind, Sound-weaken, sound_use, Runs, Runs-bind, Runs-weaken, At, Reads,
  Took,
}
use limnifs.Cursor.Reads.{
  read_n-Runs, read_n-Sound, read_u8-Runs, read_u8-Sound, read_u16-Runs, read_u16-Sound,
  read_u32-Runs, read_u32-Sound, read_u64-Runs, read_u64-Sound,
}
use limnifs.Cursor.Guards.{
  Checked, reject-Sound, reject-Runs, ensure-Sound, ensure-Runs, checked_mul-Sound,
  checked_mul-Runs,
}
use limnifs.Cursor.Loops.{encode_list, parse_list-Sound, parse_list-Runs}
use limnifs.Cursor.Unique.{Unique, New, Goods-Unique}
use limnifs.Format.{slab_id_eq}
use limnifs.Format.Ids.{slab_id_eq_iff}
use limnifs.Manifest.EcParams.{
  EcOverride, EcParams, section_version, default_ec_polynomial, max_shards, override_entry_len,
  validate_shard_counts, parse_override, parse_ec_params,
}

-- An override: the 40-byte slab id, then the two counts, a byte each.
unfoldable pub encode_override : EcOverride → List ℕ
encode_override o = to_le_bytes 8 o.slab_id.ordinal ++ (o.slab_id.hash ++ (o.k ∷ o.m ∷ []))

-- The section: version, k, m, the polynomial as a u16, the count as a u32, the overrides.
unfoldable pub encode : EcParams → List ℕ
encode p =
    section_version
    ∷ p.k
    ∷ p.m
    ∷ (to_le_bytes 2 p.polynomial
        ++ (to_le_bytes 4 (length p.overrides) ++ encode_list encode_override p.overrides))

-- At least one data and one parity shard, and at most 255 together.
pub record IsShardCount (k m : ℕ) : Type 0 where
  pub some_data : k ≢ 0
  pub some_parity : m ≢ 0
  pub within : k + m ≤ max_shards

pub record IsOverride (o : EcOverride) : Type 0 where
  pub ordinal : o.slab_id.ordinal < 2 ^ 64
  pub hash : length o.slab_id.hash ≡ 32
  pub shards : IsShardCount o.k o.m

-- Usable counts everywhere, the one polynomial, and no slab overridden twice.
pub record IsWellFormed (p : EcParams) : Type 0 where
  pub shards : IsShardCount p.k p.m
  pub field : p.polynomial ≡ default_ec_polynomial
  pub counted : length p.overrides < 2 ^ 32
  pub unique : Unique (λ o. o.slab_id) p.overrides
  pub overrides : All IsOverride p.overrides

abbrev Good : List EcOverride → EcOverride → Type 0
Good = New (λ o. o.slab_id) slab_id_eq slab_id_eq_iff IsOverride

validate-Sound :
    (k m : ℕ) (c : Cursor)
    → IsValid c
    → Sound (Checked (λ _. IsShardCount k m) c) (validate_shard_counts k m c)
unfolding validate_shard_counts
validate-Sound k m c v = Sound-bind (reject-Sound _ _ c v) λ _ c1 (h1, s1, v1).
    Sound-bind (reject-Sound _ _ c1 v1) λ _ c2 (h2, s2, v2).
      Sound-weaken (reject-Sound _ _ c2 v2)
        λ _ c3 (h3, s3, v3). (ground (arith, h1, h2, h3), follow s1 (follow s2 s3), v3)

validate-Runs :
    (k m : ℕ) (c : Cursor) (xs : List ℕ)
    → IsShardCount k m
    → At c xs
    → Runs tt (Reads c [] xs) (validate_shard_counts k m c)
unfolding validate_shard_counts
validate-Runs k m c xs w a =
    Runs-bind _ (reject-Runs _ _ c xs (ground (arith, w.some_data)) a) λ c1 (s1, a1).
      Runs-bind _ (reject-Runs _ _ c1 xs (ground (arith, w.some_parity)) a1) λ c2 (s2, a2).
        Runs-weaken (reject-Runs _ _ c2 xs (le→ltb _ _ w.within) a2) refl
          λ c3 (s3, a3). (follow s1 (follow s2 s3), a3)

override-Sound :
    (seen : List EcOverride) (c : Cursor)
    → IsValid c
    → Sound (Took (Good seen) encode_override c) (parse_override seen c)
unfolding parse_override encode_override
override-Sound seen c v = Sound-bind (read_u64-Sound c v) λ ordinal c1 (h1, s1, v1).
    Sound-bind (read_n-Sound 32 c1 v1) λ hash c2 (h2, s2, v2).
      Sound-bind (read_u8-Sound c2 v2) λ k c3 (h3, s3, v3).
        Sound-bind (read_u8-Sound c3 v3) λ m c4 (h4, s4, v4).
          Sound-bind (validate-Sound k m c4 v4) λ _ c5 (h5, s5, v5).
            Sound-bind (reject-Sound _ _ c5 v5) λ _ c6 (h6, s6, v6). Sound-ok (
              (record { ordinal = h1; hash = h2; shards = h5 }, h6),
              follow s1 (follow s2 (follow s3 (after (after s4 s5) s6))),
              v6,
            )

override-Runs :
    (seen : List EcOverride) (o : EcOverride) (c : Cursor) (rest : List ℕ)
    → Good seen o
    → At c (encode_override o ++ rest)
    → Runs o (Reads c (encode_override o) rest) (parse_override seen c)
unfolding parse_override encode_override
override-Runs seen o c rest (w, new) a =
    let a' = simp append_assoc at a in
    Runs-bind _ (read_u64-Runs c o.slab_id.ordinal _ w.ordinal a') λ c1 (s1, a1).
      Runs-bind _ (read_n-Runs 32 c1 o.slab_id.hash _ w.hash a1) λ c2 (s2, a2).
        Runs-bind _ (read_u8-Runs c2 o.k _ a2) λ c3 (s3, a3).
          Runs-bind _ (read_u8-Runs c3 o.m rest a3) λ c4 (s4, a4).
            Runs-bind _ (validate-Runs o.k o.m c4 rest w.shards a4) λ c5 (s5, a5).
              Runs-bind _ (reject-Runs _ _ c5 rest new a5) λ c6 (s6, a6).
                (c6, refl, (follow s1 (follow s2 (follow s3 (after (after s4 s5) s6))), a6))

width :
    (os : List EcOverride)
    → All IsOverride os
    → length os * override_entry_len ≤ length (encode_list encode_override os)
unfolding encode_override
width [] h = omega arith
width (o ∷ os) (w, h) =
    let n = to_le_bytes 8 o.slab_id.ordinal in
    let tail : List ℕ = o.k ∷ o.m ∷ [] in
    omega (
      arith,
      width os h,
      w.hash,
      length-append (n ++ (o.slab_id.hash ++ tail)) (encode_list encode_override os),
      length-append n (o.slab_id.hash ++ tail),
      length-append o.slab_id.hash tail,
      length-to_le_bytes 8 o.slab_id.ordinal,
    )

parse-Sound : (c : Cursor) → IsValid c → Sound (Took IsWellFormed encode c) (parse_ec_params c)
unfolding parse_ec_params encode
parse-Sound c v = Sound-bind (read_u8-Sound c v) λ version c1 (h1, s1, v1).
    Sound-bind (reject-Sound _ _ c1 v1) λ _ c2 (h2, s2, v2).
      Sound-bind (read_u8-Sound c2 v2) λ k c3 (h3, s3, v3).
        Sound-bind (read_u8-Sound c3 v3) λ m c4 (h4, s4, v4).
          Sound-bind (validate-Sound k m c4 v4) λ _ c5 (h5, s5, v5).
            Sound-bind (read_u16-Sound c5 v5) λ p c6 (h6, s6, v6).
              Sound-bind (reject-Sound _ _ c6 v6) λ _ c7 (h7, s7, v7).
                Sound-bind (read_u32-Sound c7 v7) λ n c8 (h8, s8, v8).
                  Sound-bind (checked_mul-Sound _ _ _ c8 v8) λ size c9 (h9, s9, v9).
                    Sound-bind (ensure-Sound _ c9 v9) λ _ c10 (h10, s10, v10).
                      Sound-bind
                        (parse_list-Sound parse_override encode_override Good override-Sound n c10
                          v10)
                        λ os c11 ((l, g), s11, v11).
                          let (u, w) =
                            (Goods-Unique (λ o. o.slab_id) slab_id_eq slab_id_eq_iff IsOverride
                                os).0
                              g in
                          let s1' = rw (eq_of_not_ne version section_version h2) at s1 in
                          Sound-ok (
                            record {
                              shards = h5;
                              field = eq_of_not_ne p default_ec_polynomial h7;
                              counted = omega arith;
                              unique = u;
                              overrides = w;
                            },
                            rw l (
                                follow s1' (
                                  follow s2 (
                                    follow s3 (
                                      follow s4 (
                                        follow s5 (
                                          follow s6 (
                                            follow s7
                                              (follow s8 (follow s9 (follow s10 s11)))))))))),
                            v11,
                          )

parse-Runs :
    (p : EcParams) (c : Cursor) (rest : List ℕ)
    → IsWellFormed p
    → At c (encode p ++ rest)
    → Runs p (Reads c (encode p) rest) (parse_ec_params c)
unfolding parse_ec_params encode
parse-Runs p c rest w a =
    let a' = simp append_assoc at a in
    let os = p.overrides in
    let g =
      (Goods-Unique (λ o. o.slab_id) slab_id_eq slab_id_eq_iff IsOverride os).1
        (w.unique, w.overrides) in
    let long = width os w.overrides in
    let body = length-append (encode_list encode_override os) rest in
    Runs-bind _ (read_u8-Runs c section_version _ a') λ c1 (s1, a1).
      Runs-bind _ (reject-Runs _ _ c1 _ refl a1) λ c2 (s2, a2).
        Runs-bind _ (read_u8-Runs c2 p.k _ a2) λ c3 (s3, a3).
          Runs-bind _ (read_u8-Runs c3 p.m _ a3) λ c4 (s4, a4).
            Runs-bind _ (validate-Runs p.k p.m c4 _ w.shards a4) λ c5 (s5, a5).
              Runs-bind _ (read_u16-Runs c5 p.polynomial _ (omega (arith, w.field)) a5)
                λ c6 (s6, a6).
                  Runs-bind _ (reject-Runs _ _ c6 _ (ground (arith, w.field)) a6) λ c7 (s7, a7).
                    Runs-bind _ (read_u32-Runs c7 (length os) _ w.counted a7) λ c8 (s8, a8).
                      Runs-bind _ (checked_mul-Runs _ _ _ c8 _ (omega (arith, w.counted)) a8)
                        λ c9 (s9, a9).
                          Runs-bind _ (ensure-Runs _ c9 _ (omega (arith, long, body)) a9)
                            λ c10 (s10, a10).
                              Runs-bind _
                                (parse_list-Runs parse_override encode_override Good override-Runs
                                  os (length os) c10 rest refl g a10)
                                λ c11 (s11, a11). (
                                  c11,
                                  refl,
                                  (
                                    follow s1 (
                                        follow s2 (
                                          follow s3 (
                                            follow s4 (
                                              follow s5 (
                                                follow s6 (
                                                  follow s7
                                                    (follow s8 (follow s9 (follow s10 s11))))))))),
                                    a11,
                                  ),
                                )

-- Well-formed erasure-coding parameters, laid out as the wire format says, parse to themselves, with
-- anything behind them left unread, on any valid cursor before those bytes.
pub parse_ec_params-encode :
    (p : EcParams) (c : Cursor) (rest : List ℕ)
    → IsWellFormed p
    → IsValid c
    → remaining c ≡ encode p ++ rest
    → (c' : Cursor) × (parse_ec_params c ≡ ok (p, c'))
      × Steps c (encode p) c'
      × (remaining c' ≡ rest)
parse_ec_params-encode p c rest w v e =
    let (c', r, (s, a)) = parse-Runs p c rest w (record { valid = v; unread = e }) in
    (c', r, s, a.unread)

-- Whatever the parser accepts on a valid cursor is well formed (every k and m at least 1 and together
-- at most 255, the one supported polynomial, no slab overridden twice), and what it read is the layout
-- of its result.
pub parse_ec_params_canonical :
    (c : Cursor) (p : EcParams) (c' : Cursor)
    → IsValid c
    → parse_ec_params c ≡ ok (p, c')
    → IsWellFormed p × Steps c (encode p) c'
parse_ec_params_canonical c p c' v e = let (w, s, _) = sound_use (parse-Sound c v) e in (w, s)
