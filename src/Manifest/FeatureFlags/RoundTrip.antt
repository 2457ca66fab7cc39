-- ===== src/Manifest/FeatureFlags/RoundTrip.antt =====
-- limnifs-core/src/feature_flags.rs: the parser against the section's layout.
use limnifs.Prelude.{
  ℕ, ◌^◌, ◌≤◌, ◌<◌, ◌≡◌, refl, ◌≢◌, Bool, true, false, some, List, [], ◌∷◌, ◌++◌, append_assoc,
  arith, ok, ◌==◌, if◌then◌else◌, ==_iff, eq_of_not_ne, length, All, length-append,
}
use limnifs.Prelude.Bytes.{to_le_bytes, length-to_le_bytes}
use limnifs.Cursor.{Cursor, remaining}
use limnifs.Cursor.Steps.{IsValid, Steps, follow, after}
use limnifs.Cursor.Rules.{Sound, Sound-ok, Sound-bind, sound_use, Runs, Runs-bind, At, Reads, Took}
use limnifs.Cursor.Reads.{
  read_u8-Runs, read_u8-Sound, read_u16-Runs, read_u16-Sound, read_u32-Runs, read_u32-Sound,
}
use limnifs.Cursor.Guards.{
  reject-Sound, reject-Runs, ensure-Sound, ensure-Runs, checked_mul-Sound, checked_mul-Runs,
  or_fail-Sound, or_fail-Runs,
}
use limnifs.Cursor.Loops.{encode_list, length-encode_list, parse_list-Sound, parse_list-Runs}
use limnifs.Cursor.Unique.{Unique, New, Goods-Unique}
use limnifs.Manifest.FeatureFlags.{
  FeatureFlag, FeatureFlags, section_version, entry_len, required_of, parse_entry,
  parse_feature_flags_section,
}

-- An entry: the id as a u16, then one byte, 1 if the flag is required.
unfoldable pub encode_entry : FeatureFlag → List ℕ
encode_entry f = to_le_bytes 2 f.flag_id ++ ((if f.required then 1 else 0) ∷ [])

-- The section: the version byte, the count as a u32, the entries.
unfoldable pub encode : FeatureFlags → List ℕ
encode flags =
    section_version
    ∷ (to_le_bytes 4 (length flags.entries) ++ encode_list encode_entry flags.entries)

abbrev pub IsFlag : FeatureFlag → Type 0
IsFlag f = (f.flag_id ≢ 0) × (f.flag_id < 2 ^ 16)

-- The ids are nonzero u16 values, no two entries have the same, and the count is a u32.
pub record IsWellFormed (flags : FeatureFlags) : Type 0 where
  pub counted : length flags.entries < 2 ^ 32
  pub unique : Unique (λ f. f.flag_id) flags.entries
  pub ids : All IsFlag flags.entries

abbrev Good : List FeatureFlag → FeatureFlag → Type 0
Good = New (λ f. f.flag_id) ◌==◌ ==_iff IsFlag

length-encode_entry : (f : FeatureFlag) → entry_len ≤ length (encode_entry f)
unfolding encode_entry
length-encode_entry f = omega (
  arith,
  length-append (to_le_bytes 2 f.flag_id) ((if f.required then 1 else 0) ∷ []),
  length-to_le_bytes 2 f.flag_id,
)

required_of_byte : (b : ℕ) (r : Bool) → required_of b ≡ some r → b ≡ (if r then 1 else 0)
unfolding required_of
required_of_byte b r h = ground arith

byte-required_of : (r : Bool) → required_of (if r then 1 else 0) ≡ some r
unfolding required_of
byte-required_of true = refl
byte-required_of false = refl

IsEntry-Sound :
    (seen : List FeatureFlag) (c : Cursor)
    → IsValid c
    → Sound (Took (Good seen) encode_entry c) (parse_entry seen c)
unfolding parse_entry encode_entry
IsEntry-Sound seen c v = Sound-bind (read_u16-Sound c v) λ n c1 (h1, s1, v1).
    Sound-bind (reject-Sound _ _ c1 v1) λ _ c2 (h2, s2, v2).
      Sound-bind (read_u8-Sound c2 v2) λ b c3 (h3, s3, v3).
        Sound-bind (or_fail-Sound _ _ c3 v3) λ r c4 (h4, s4, v4).
          Sound-bind (reject-Sound _ _ c4 v4) λ _ c5 (h5, s5, v5).
            let s3' = rw (required_of_byte b r h4) at s3 in
            Sound-ok (((ground arith, h1), h5), follow s1 (follow s2 (after (after s3' s4) s5)), v5)

entry-Runs :
    (seen : List FeatureFlag) (f : FeatureFlag) (c : Cursor) (rest : List ℕ)
    → Good seen f
    → At c (encode_entry f ++ rest)
    → Runs f (Reads c (encode_entry f) rest) (parse_entry seen c)
unfolding parse_entry encode_entry
entry-Runs seen f c rest ((nz, w), new) a =
    let a' = simp append_assoc at a in
    Runs-bind _ (read_u16-Runs c f.flag_id _ w a') λ c1 (s1, a1).
      Runs-bind _ (reject-Runs _ _ c1 _ (ground arith) a1) λ c2 (s2, a2).
        Runs-bind _ (read_u8-Runs c2 _ rest a2) λ c3 (s3, a3).
          Runs-bind _ (or_fail-Runs _ _ c3 f.required rest (byte-required_of f.required) a3)
            λ c4 (s4, a4).
              Runs-bind _ (reject-Runs _ _ c4 _ new a4)
                λ c5 (s5, a5). (c5, refl, (follow s1 (follow s2 (after (after s3 s4) s5)), a5))

parse-Sound :
    (c : Cursor) → IsValid c → Sound (Took IsWellFormed encode c) (parse_feature_flags_section c)
unfolding parse_feature_flags_section encode
parse-Sound c v = Sound-bind (read_u8-Sound c v) λ version c1 (h1, s1, v1).
    Sound-bind (reject-Sound _ _ c1 v1) λ _ c2 (h2, s2, v2).
      Sound-bind (read_u32-Sound c2 v2) λ n c3 (h3, s3, v3).
        Sound-bind (checked_mul-Sound _ _ _ c3 v3) λ size c4 (h4, s4, v4).
          Sound-bind (ensure-Sound _ c4 v4) λ _ c5 (h5, s5, v5).
            Sound-bind (parse_list-Sound parse_entry encode_entry Good IsEntry-Sound n c5 v5)
              λ fs c6 ((l, g), s6, v6).
                let (u, p) = (Goods-Unique (λ f. f.flag_id) ◌==◌ ==_iff IsFlag fs).0 g in
                let s1' = rw (eq_of_not_ne version section_version h2) at s1 in
                Sound-ok (
                  record { counted = omega arith; unique = u; ids = p },
                  rw l (follow s1' (follow s2 (follow s3 (follow s4 (follow s5 s6))))),
                  v6,
                )

parse-Runs :
    (flags : FeatureFlags) (c : Cursor) (rest : List ℕ)
    → IsWellFormed flags
    → At c (encode flags ++ rest)
    → Runs flags (Reads c (encode flags) rest) (parse_feature_flags_section c)
unfolding parse_feature_flags_section encode
parse-Runs flags c rest w a =
    let a' = simp append_assoc at a in
    let fs = flags.entries in
    let g = (Goods-Unique (λ f. f.flag_id) ◌==◌ ==_iff IsFlag fs).1 (w.unique, w.ids) in
    let long = length-encode_list encode_entry entry_len fs length-encode_entry in
    let body = length-append (encode_list encode_entry fs) rest in
    Runs-bind _ (read_u8-Runs c section_version _ a') λ c1 (s1, a1).
      Runs-bind _ (reject-Runs _ _ c1 _ refl a1) λ c2 (s2, a2).
        Runs-bind _ (read_u32-Runs c2 (length fs) _ w.counted a2) λ c3 (s3, a3).
          Runs-bind _ (checked_mul-Runs _ _ _ c3 _ (omega (arith, w.counted)) a3) λ c4 (s4, a4).
            Runs-bind _ (ensure-Runs _ c4 _ (omega (arith, long, body)) a4) λ c5 (s5, a5).
              Runs-bind _
                (parse_list-Runs parse_entry encode_entry Good entry-Runs fs (length fs) c5 rest
                  refl g a5)
                λ c6 (s6, a6).
                  (c6, refl, (follow s1 (follow s2 (follow s3 (follow s4 (follow s5 s6)))), a6))

-- A well-formed list of flags, laid out as the wire format says, parses to itself, with anything
-- behind it left unread, on any valid cursor before those bytes.
pub parse_feature_flags_section-encode :
    (flags : FeatureFlags) (c : Cursor) (rest : List ℕ)
    → IsWellFormed flags
    → IsValid c
    → remaining c ≡ encode flags ++ rest
    → (c' : Cursor) × (parse_feature_flags_section c ≡ ok (flags, c'))
      × Steps c (encode flags) c'
      × (remaining c' ≡ rest)
parse_feature_flags_section-encode flags c rest w v e =
    let (c', r, (s, a)) = parse-Runs flags c rest w (record { valid = v; unread = e }) in
    (c', r, s, a.unread)

-- Whatever the parser accepts on a valid cursor is well formed (nonzero u16 ids, no id twice), and
-- the bytes it read are exactly the layout of the flags that it returns.
pub parse_feature_flags_section_canonical :
    (c : Cursor) (flags : FeatureFlags) (c' : Cursor)
    → IsValid c
    → parse_feature_flags_section c ≡ ok (flags, c')
    → IsWellFormed flags × Steps c (encode flags) c'
parse_feature_flags_section_canonical c flags c' v e =
    let (w, s, _) = sound_use (parse-Sound c v) e in (w, s)
