-- ===== src/Manifest/DmsPolicy/RoundTrip.antt =====
-- limnifs-core/src/dms_policy.rs: the parser against the section's layout.
use limnifs.Prelude.{
  ℕ, ◌^◌, ◌≤◌, ◌<◌, ◌≡◌, refl, ap, ◌∙◌, ◌≢◌, ◌↔◌, true, false, not, Option, none, some, List, [],
  ◌∷◌, ◌++◌, append_assoc, arith, ok, eq_of_not_ne, ltb→le, le→ltb, bytes_eq, bytes_eq_refl,
  bytes_eq→eq, length, All,
}
use limnifs.Prelude.Bytes.{to_le_bytes}
use limnifs.Cursor.{Cursor, read_n_owned, remaining}
use limnifs.Cursor.Steps.{IsValid, Steps, follow, after}
use limnifs.Cursor.Rules.{
  Sound, Sound-ok, Sound-bind, Sound-weaken, sound_use, Runs, Runs-bind, Runs-weaken, At, Reads,
  Took,
}
use limnifs.Cursor.Reads.{
  read_n-Runs, read_n-Sound, read_u8-Runs, read_u8-Sound, read_u32-Runs, read_u32-Sound,
}
use limnifs.Cursor.Guards.{
  Checked, reject-Sound, reject-Runs, branch-Sound, branch-true, branch-false,
}
use limnifs.Cursor.Loops.{encode_list, parse_list-Sound, parse_list-Runs}
use limnifs.Cursor.Unique.{Unique, New, Goods-Unique}
use limnifs.Prelude.Utf8.{is_utf8}
use limnifs.Manifest.DmsPolicy.{
  ShareRecord, DmsPolicy, section_version, scheme_shamir, as_u16, is_empty, validate_shamir_params,
  read_string_with_ceiling, parse_share_record, parse_share, parse_hint_bytes,
  parse_reconstruction_hint, parse_dms_policy_with_ceilings,
}

-- A share: the counted custodian id, the counted data.
unfoldable pub encode_share : ShareRecord → List ℕ
encode_share s =
    to_le_bytes 4 (length s.custodian_id)
    ++ (s.custodian_id ++ (to_le_bytes 4 (length s.share_data) ++ s.share_data))

-- The hint: counted, and of length 0 if there is none.
unfoldable pub encode_hint : Option (List ℕ) → List ℕ
encode_hint none = to_le_bytes 4 0
encode_hint (some h) = to_le_bytes 4 (length h) ++ h

-- The section: version, scheme, k, n, the count as a u32, the shares, the hint.
unfoldable pub encode : DmsPolicy → List ℕ
encode p =
    section_version
    ∷ scheme_shamir
    ∷ p.k
    ∷ p.n
    ∷ (to_le_bytes 4 (length p.shares)
        ++ (encode_list encode_share p.shares ++ encode_hint p.reconstruction_hint))

pub record IsShare (max_share_data_bytes max_hint_bytes : ℕ) (s : ShareRecord) : Type 0 where
  pub id_counted : length s.custodian_id < 2 ^ 32
  pub id_nonempty : length s.custodian_id ≢ 0
  pub id_short : length s.custodian_id ≤ max_hint_bytes
  pub id_utf8 : is_utf8 s.custodian_id ≡ true
  pub data_counted : length s.share_data < 2 ^ 32
  pub data_nonempty : length s.share_data ≢ 0
  pub data_short : length s.share_data ≤ max_share_data_bytes

abbrev pub IsHint : ℕ → Option (List ℕ) → Type 0
IsHint max_hint_bytes none = Unit
IsHint max_hint_bytes (some h) =
    (length h < 2 ^ 32) × (length h ≢ 0) × (length h ≤ max_hint_bytes) × (is_utf8 h ≡ true)

-- 1 ≤ k ≤ n ≤ 255, exactly n shares, each within the ceilings, of n different custodians.
pub record IsWellFormed (max_share_data_bytes max_hint_bytes : ℕ) (p : DmsPolicy) : Type 0 where
  pub threshold : p.k ≢ 0
  pub within : p.k ≤ p.n
  pub byte : p.n < 256
  pub counted : length p.shares ≡ p.n
  pub unique : Unique (λ s. s.custodian_id) p.shares
  pub shares : All (IsShare max_share_data_bytes max_hint_bytes) p.shares
  pub hint : IsHint max_hint_bytes p.reconstruction_hint

bytes_eq_iff : (xs ys : List ℕ) → (bytes_eq xs ys ≡ true) ↔ (xs ≡ ys)
bytes_eq_iff xs ys = (bytes_eq→eq xs ys, (λ p. rw p (bytes_eq_refl ys)))

empty_iff : (s : List ℕ) → (is_empty s ≡ false) ↔ (length s ≢ 0)
unfolding is_empty
empty_iff [] = ((λ h. cc), (λ h. absurd (h refl)))
empty_iff (b ∷ bs) = ((λ h. omega arith), (λ h. refl))

abbrev Good : ℕ → ℕ → List ShareRecord → ShareRecord → Type 0
Good d h = New (λ s. s.custodian_id) bytes_eq bytes_eq_iff (IsShare d h)

record-Sound :
    (d h : ℕ) (c : Cursor)
    → IsValid c
    → Sound (Took (IsShare d h) encode_share c) (parse_share_record h d c)
unfolding parse_share_record encode_share read_string_with_ceiling read_n_owned
record-Sound d h c v = Sound-bind (read_u32-Sound c v) λ n c1 (h1, s1, v1).
    Sound-bind (string_sound n h c1 v1) λ id c2 ((h2, h3, h4), s2, v2).
      Sound-bind (reject-Sound _ _ c2 v2) λ _ c3 (h5, s3, v3).
        Sound-bind (read_u32-Sound c3 v3) λ m c4 (h6, s4, v4).
          Sound-bind (reject-Sound _ _ c4 v4) λ _ c5 (h7, s5, v5).
            Sound-bind (reject-Sound _ _ c5 v5) λ _ c6 (h8, s6, v6).
              Sound-bind (read_n-Sound m c6 v6) λ share c7 (h9, s7, v7). Sound-ok (
                record {
                  id_counted = omega arith;
                  id_nonempty = (empty_iff id).0 h5;
                  id_short = h3;
                  id_utf8 = h4;
                  data_counted = omega arith;
                  data_nonempty = ground (arith, h9);
                  data_short = omega (arith, ltb→le _ _ h8);
                },
                rw (h2, h9)
                    (follow s1 (follow s2 (follow s3 (follow s4 (follow s5 (follow s6 s7)))))),
                v7,
              )
  where
    string_sound :
        (n m : ℕ) (c : Cursor)
        → IsValid c
        → Sound
            (Took (λ s. (length s ≡ n) × (length s ≤ m) × (is_utf8 s ≡ true)) (λ s. s) c)
            (read_string_with_ceiling n m c)
    string_sound n m c v = Sound-bind (reject-Sound _ _ c v) λ _ c1 (h1, s1, v1).
        Sound-bind (read_n-Sound n c1 v1) λ s c2 (h2, s2, v2).
          Sound-bind (reject-Sound _ _ c2 v2) λ _ c3 (h3, s3, v3).
            Sound-ok ((h2, omega (arith, ltb→le _ _ h1), ground arith), follow s1 (after s2 s3), v3)

share-Sound :
    (d h : ℕ) (seen : List ShareRecord) (c : Cursor)
    → IsValid c
    → Sound (Took (Good d h seen) encode_share c) (parse_share h d seen c)
unfolding parse_share
share-Sound d h seen c v = Sound-bind (record-Sound d h c v) λ s c1 (h1, s1, v1).
    Sound-bind (reject-Sound _ _ c1 v1) λ _ c2 (h2, s2, v2). Sound-ok ((h1, h2), after s1 s2, v2)

IsHint-Sound :
    (m : ℕ) (c : Cursor)
    → IsValid c
    → Sound (Took (IsHint m) encode_hint c) (parse_reconstruction_hint m c)
unfolding parse_reconstruction_hint parse_hint_bytes encode_hint
IsHint-Sound m c v = Sound-bind (read_u32-Sound c v) λ n c1 (h1, s1, v1).
    branch-Sound _ _ _ c1 (λ t. let e : n ≡ 0 = ground arith in Sound-ok (tt, (rw e at s1), v1))
      (λ t. Sound-bind (reject-Sound _ _ c1 v1) λ _ c2 (h2, s2, v2).
        Sound-bind (read_n-Sound n c2 v2) λ s c3 (h3, s3, v3).
          Sound-bind (reject-Sound _ _ c3 v3) λ _ c4 (h4, s4, v4). Sound-ok (
            (omega arith, ground (arith, h3), omega (arith, ltb→le _ _ h2), ground arith),
            rw h3 (follow s1 (follow s2 (after s3 s4))),
            v4,
          ))

parse-Sound :
    (d h : ℕ) (c : Cursor)
    → IsValid c
    → Sound (Took (IsWellFormed d h) encode c) (parse_dms_policy_with_ceilings d h c)
unfolding parse_dms_policy_with_ceilings encode validate_shamir_params as_u16
parse-Sound d h c v = Sound-bind (read_u8-Sound c v) λ version c1 (h1, s1, v1).
    Sound-bind (reject-Sound _ _ c1 v1) λ _ c2 (h2, s2, v2).
      Sound-bind (read_u8-Sound c2 v2) λ scheme c3 (h3, s3, v3).
        Sound-bind (reject-Sound _ _ c3 v3) λ _ c4 (h4, s4, v4).
          Sound-bind (reject-Sound _ _ c4 v4) λ _ c5 (h5, s5, v5).
            Sound-bind (read_u8-Sound c5 v5) λ k c6 (h6, s6, v6).
              Sound-bind (read_u8-Sound c6 v6) λ n c7 (h7, s7, v7).
                Sound-bind (validate-Sound k n c7 v7) λ _ c8 ((h8, h9), s8, v8).
                  Sound-bind (read_u32-Sound c8 v8) λ count c9 (h10, s9, v9).
                    Sound-bind (reject-Sound _ _ c9 v9) λ _ c10 (h11, s10, v10).
                      Sound-bind
                        (parse_list-Sound (parse_share h d) encode_share (Good d h)
                          (share-Sound d h) count c10 v10)
                        λ shares c11 ((l, g), s11, v11).
                          Sound-bind (IsHint-Sound h c11 v11) λ hint c12 (h12, s12, v12).
                            let (u, w) =
                              (Goods-Unique (λ s. s.custodian_id) bytes_eq bytes_eq_iff
                                  (IsShare d h) shares).0
                                g in
                            let s1' = rw (eq_of_not_ne version section_version h2) at s1 in
                            let s3' = rw (eq_of_not_ne scheme scheme_shamir h5) at s3 in
                            let same : count ≡ n = ground (arith, h8, h9, h11) in
                            Sound-ok (
                              record {
                                threshold = h8;
                                within = h9;
                                byte = h7;
                                counted = l ∙ same;
                                unique = u;
                                shares = w;
                                hint = h12;
                              },
                              rw l (
                                  follow s1' (
                                    follow s2 (
                                      follow s3' (
                                        follow s4 (
                                          follow s5 (
                                            follow s6 (
                                              follow s7 (
                                                follow s8
                                                  (follow s9 (follow s10 (follow s11 s12))))))))))),
                              v12,
                            )
  where
    validate-Sound :
        (k n : ℕ) (c : Cursor)
        → IsValid c
        → Sound (Checked (λ _. (k ≢ 0) × (k ≤ n)) c) (validate_shamir_params k n c)
    validate-Sound k n c v = Sound-bind (reject-Sound _ _ c v) λ _ c1 (h1, s1, v1).
        Sound-bind (reject-Sound _ _ c1 v1) λ _ c2 (h2, s2, v2).
          Sound-weaken (reject-Sound _ _ c2 v2)
            λ _ c3 (h3, s3, v3). (ground (arith, h1, h3), follow s1 (follow s2 s3), v3)

record-Runs :
    (d h : ℕ) (s : ShareRecord) (c : Cursor) (rest : List ℕ)
    → IsShare d h s
    → At c (encode_share s ++ rest)
    → Runs s (Reads c (encode_share s) rest) (parse_share_record h d c)
unfolding parse_share_record encode_share read_string_with_ceiling read_n_owned
record-Runs d h s c rest w a =
    let a' = simp append_assoc at a in
    Runs-bind _ (read_u32-Runs c (length s.custodian_id) _ w.id_counted a') λ c1 (s1, a1).
      Runs-bind _ (string_runs c1 _ a1) λ c2 (s2, a2).
        Runs-bind _ (reject-Runs _ _ c2 _ ((empty_iff s.custodian_id).1 w.id_nonempty) a2)
          λ c3 (s3, a3).
            Runs-bind _ (read_u32-Runs c3 (length s.share_data) _ w.data_counted a3) λ c4 (s4, a4).
              Runs-bind _ (reject-Runs _ _ c4 _ (ground (arith, w.data_nonempty)) a4) λ c5 (s5, a5).
                Runs-bind _ (reject-Runs _ _ c5 _ (le→ltb _ _ w.data_short) a5) λ c6 (s6, a6).
                  Runs-bind _ (read_n-Runs (length s.share_data) c6 s.share_data rest refl a6)
                    λ c7 (s7, a7). (
                      c7,
                      refl,
                      (
                        follow s1 (follow s2 (follow s3 (follow s4 (follow s5 (follow s6 s7))))),
                        a7,
                      ),
                    )
  where
    string_runs :
        (c : Cursor) (rest : List ℕ)
        → At c (s.custodian_id ++ rest)
        → Runs s.custodian_id
            (Reads c s.custodian_id rest)
            (read_string_with_ceiling (length s.custodian_id) h c)
    string_runs c rest a =
        Runs-bind _ (reject-Runs _ _ c _ (le→ltb _ _ w.id_short) a) λ c1 (s1, a1).
          Runs-bind _ (read_n-Runs _ c1 s.custodian_id rest refl a1) λ c2 (s2, a2).
            Runs-bind _ (reject-Runs _ _ c2 rest (ap not w.id_utf8) a2)
              λ c3 (s3, a3). (c3, refl, (follow s1 (after s2 s3), a3))

share-Runs :
    (d h : ℕ) (seen : List ShareRecord) (s : ShareRecord) (c : Cursor) (rest : List ℕ)
    → Good d h seen s
    → At c (encode_share s ++ rest)
    → Runs s (Reads c (encode_share s) rest) (parse_share h d seen c)
unfolding parse_share
share-Runs d h seen s c rest (w, new) a = Runs-bind _ (record-Runs d h s c rest w a) λ c1 (s1, a1).
    Runs-bind _ (reject-Runs _ _ c1 rest new a1) λ c2 (s2, a2). (c2, refl, (after s1 s2, a2))

hint-Runs :
    (m : ℕ) (o : Option (List ℕ)) (c : Cursor) (rest : List ℕ)
    → IsHint m o
    → At c (encode_hint o ++ rest)
    → Runs o (Reads c (encode_hint o) rest) (parse_reconstruction_hint m c)
unfolding parse_reconstruction_hint parse_hint_bytes encode_hint
hint-Runs m none c rest w a =
    Runs-bind _ (read_u32-Runs c 0 rest (omega arith) a)
      λ c1 (s1, a1). branch-true _ _ _ c1 refl (c1, refl, (s1, a1))
hint-Runs m (some s) c rest (w, nz, short, utf8) a =
    let a' = simp append_assoc at a in
    Runs-bind _ (read_u32-Runs c (length s) _ w a') λ c1 (s1, a1).
      branch-false _ _ _ c1 (ground (arith, nz)) (
        Runs-bind _ (reject-Runs _ _ c1 _ (le→ltb _ _ short) a1) λ c2 (s2, a2).
          Runs-bind _ (read_n-Runs _ c2 s rest refl a2) λ c3 (s3, a3).
            Runs-bind _ (reject-Runs _ _ c3 rest (ap not utf8) a3)
              λ c4 (s4, a4). (c4, refl, (follow s1 (follow s2 (after s3 s4)), a4)))

parse-Runs :
    (d h : ℕ) (p : DmsPolicy) (c : Cursor) (rest : List ℕ)
    → IsWellFormed d h p
    → At c (encode p ++ rest)
    → Runs p (Reads c (encode p) rest) (parse_dms_policy_with_ceilings d h c)
unfolding parse_dms_policy_with_ceilings encode validate_shamir_params as_u16
parse-Runs d h p c rest w a =
    let a' = simp append_assoc at a in
    let ss = p.shares in
    let g =
      (Goods-Unique (λ s. s.custodian_id) bytes_eq bytes_eq_iff (IsShare d h) ss).1
        (w.unique, w.shares) in
    let count : length ss < 256 = omega (arith, w.counted, w.byte) in
    Runs-bind _ (read_u8-Runs c section_version _ a') λ c1 (s1, a1).
      Runs-bind _ (reject-Runs _ _ c1 _ refl a1) λ c2 (s2, a2).
        Runs-bind _ (read_u8-Runs c2 scheme_shamir _ a2) λ c3 (s3, a3).
          Runs-bind _ (reject-Runs _ _ c3 _ refl a3) λ c4 (s4, a4).
            Runs-bind _ (reject-Runs _ _ c4 _ refl a4) λ c5 (s5, a5).
              Runs-bind _ (read_u8-Runs c5 p.k _ a5) λ c6 (s6, a6).
                Runs-bind _ (read_u8-Runs c6 p.n _ a6) λ c7 (s7, a7).
                  Runs-bind _ (validate-Runs c7 _ a7) λ c8 (s8, a8).
                    Runs-bind _ (read_u32-Runs c8 (length ss) _ (omega arith) a8) λ c9 (s9, a9).
                      Runs-bind _ (reject-Runs _ _ c9 _ (ground (arith, w.counted, count)) a9)
                        λ c10 (s10, a10).
                          Runs-bind _
                            (parse_list-Runs (parse_share h d) encode_share (Good d h)
                              (share-Runs d h) ss (length ss) c10 _ refl g a10)
                            λ c11 (s11, a11).
                              Runs-bind _ (hint-Runs h p.reconstruction_hint c11 rest w.hint a11)
                                λ c12 (s12, a12). (
                                  c12,
                                  refl,
                                  (
                                    follow s1 (
                                        follow s2 (
                                          follow s3 (
                                            follow s4 (
                                              follow s5 (
                                                follow s6 (
                                                  follow s7 (
                                                    follow s8 (
                                                      follow s9
                                                        (follow s10 (follow s11 s12)))))))))),
                                    a12,
                                  ),
                                )
  where
    validate-Runs :
        (c : Cursor) (xs : List ℕ)
        → At c xs
        → Runs tt (Reads c [] xs) (validate_shamir_params p.k p.n c)
    validate-Runs c xs a =
        Runs-bind _ (reject-Runs _ _ c xs (ground (arith, w.threshold)) a) λ c1 (s1, a1).
          Runs-bind _ (reject-Runs _ _ c1 xs (ground (arith, w.threshold, w.within)) a1)
            λ c2 (s2, a2).
              Runs-weaken (reject-Runs _ _ c2 xs (le→ltb _ _ w.within) a2) refl
                λ c3 (s3, a3). (follow s1 (follow s2 s3), a3)

-- A well-formed share policy, laid out as the wire format says, parses to itself under the ceilings on
-- share data and on strings, with anything behind it left unread, on any valid cursor before it.
pub parse_dms_policy_with_ceilings-encode :
    (d h : ℕ) (p : DmsPolicy) (c : Cursor) (rest : List ℕ)
    → IsWellFormed d h p
    → IsValid c
    → remaining c ≡ encode p ++ rest
    → (c' : Cursor) × (parse_dms_policy_with_ceilings d h c ≡ ok (p, c'))
      × Steps c (encode p) c'
      × (remaining c' ≡ rest)
parse_dms_policy_with_ceilings-encode d h p c rest w v e =
    let (c', r, (s, a)) = parse-Runs d h p c rest w (record { valid = v; unread = e }) in
    (c', r, s, a.unread)

-- Whatever the parser accepts on a valid cursor is well formed: 1 ≤ k ≤ n ≤ 255, exactly n shares of n
-- different custodians, ids and data nonempty and within the ceilings, ids and hint in UTF-8; what it
-- read is the layout of its result.
pub parse_dms_policy_with_ceilings_canonical :
    (d h : ℕ) (c : Cursor) (p : DmsPolicy) (c' : Cursor)
    → IsValid c
    → parse_dms_policy_with_ceilings d h c ≡ ok (p, c')
    → IsWellFormed d h p × Steps c (encode p) c'
parse_dms_policy_with_ceilings_canonical d h c p c' v e =
    let (w, s, _) = sound_use (parse-Sound d h c v) e in (w, s)
