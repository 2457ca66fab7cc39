-- ===== src/Manifest/SlabIndex/RoundTrip.antt =====
-- limnifs-core/src/slab_index.rs: the parser against the section's layout.
use limnifs.Prelude.{
  ℕ, ◌*◌, ◌^◌, ◌≤◌, ◌<◌, ◌≡◌, refl, ◌≢◌, List, [], ◌∷◌, ◌++◌, append_assoc, arith, ok, eq_of_not_ne,
  length, All, length-append,
}
use limnifs.Prelude.Bytes.{to_le_bytes, length-to_le_bytes}
use limnifs.Cursor.{Cursor, remaining}
use limnifs.Cursor.Steps.{IsValid, Steps, follow}
use limnifs.Cursor.Rules.{Sound, Sound-ok, Sound-bind, sound_use, Runs, Runs-bind, At, Reads, Took}
use limnifs.Cursor.Reads.{
  read_n-Runs, read_n-Sound, read_u8-Runs, read_u8-Sound, read_u32-Runs, read_u32-Sound,
  read_u64-Runs, read_u64-Sound,
}
use limnifs.Cursor.Guards.{
  reject-Sound, reject-Runs, ensure-Sound, ensure-Runs, checked_mul-Sound, checked_mul-Runs,
}
use limnifs.Cursor.Loops.{encode_list, parse_list-Sound, parse_list-Runs}
use limnifs.Cursor.Unique.{Unique, New, Goods-Unique}
use limnifs.Format.{slab_id_eq}
use limnifs.Format.Ids.{slab_id_eq_iff}
use limnifs.Manifest.Locator.RoundTrip.{IsLocator, encode_entries, entries-Sound, entries-Runs}
use limnifs.Manifest.SlabIndex.{
  SlabIndexEntry, SlabIndex, section_version, entry_fixed_len, parse_entry,
  parse_slab_index_with_ceiling,
}

-- An entry: the 40-byte slab id, the number of locators as a u32, the locators.
unfoldable pub encode_entry : SlabIndexEntry → List ℕ
encode_entry e =
    to_le_bytes 8 e.slab_id.ordinal
    ++ (e.slab_id.hash ++ (to_le_bytes 4 (length e.locators) ++ encode_entries e.locators))

-- The section: the version byte, the count as a u32, the entries.
unfoldable pub encode : SlabIndex → List ℕ
encode index =
    section_version
    ∷ (to_le_bytes 4 (length index.entries) ++ encode_list encode_entry index.entries)

-- A slab can be reached: it has a locator, and each is one within the ceiling.
pub record IsEntry (max_uri_bytes : ℕ) (e : SlabIndexEntry) : Type 0 where
  pub ordinal : e.slab_id.ordinal < 2 ^ 64
  pub hash : length e.slab_id.hash ≡ 32
  pub reachable : length e.locators ≢ 0
  pub counted : length e.locators < 2 ^ 32
  pub located : All (IsLocator max_uri_bytes) e.locators

-- No two entries have one slab id, each entry is well formed, and the count is a u32.
pub record IsWellFormed (max_uri_bytes : ℕ) (index : SlabIndex) : Type 0 where
  pub counted : length index.entries < 2 ^ 32
  pub unique : Unique (λ e. e.slab_id) index.entries
  pub entries : All (IsEntry max_uri_bytes) index.entries

abbrev Good : ℕ → List SlabIndexEntry → SlabIndexEntry → Type 0
Good m = New (λ e. e.slab_id) slab_id_eq slab_id_eq_iff (IsEntry m)

IsEntry-Sound :
    (m : ℕ) (seen : List SlabIndexEntry) (c : Cursor)
    → IsValid c
    → Sound (Took (Good m seen) encode_entry c) (parse_entry m seen c)
unfolding parse_entry encode_entry
IsEntry-Sound m seen c v = Sound-bind (read_u64-Sound c v) λ ordinal c1 (h1, s1, v1).
    Sound-bind (read_n-Sound 32 c1 v1) λ hash c2 (h2, s2, v2).
      Sound-bind (reject-Sound _ _ c2 v2) λ _ c3 (h3, s3, v3).
        Sound-bind (read_u32-Sound c3 v3) λ n c4 (h4, s4, v4).
          Sound-bind (reject-Sound _ _ c4 v4) λ _ c5 (h5, s5, v5).
            Sound-bind (entries-Sound m n c5 v5) λ ls c6 ((l, w), s6, v6). Sound-ok (
              (
                record {
                  ordinal = h1;
                  hash = h2;
                  reachable = ground (arith, l);
                  counted = omega arith;
                  located = w;
                },
                h3,
              ),
              rw l (follow s1 (follow s2 (follow s3 (follow s4 (follow s5 s6))))),
              v6,
            )

entry-Runs :
    (m : ℕ) (seen : List SlabIndexEntry) (e : SlabIndexEntry) (c : Cursor) (rest : List ℕ)
    → Good m seen e
    → At c (encode_entry e ++ rest)
    → Runs e (Reads c (encode_entry e) rest) (parse_entry m seen c)
unfolding parse_entry encode_entry
entry-Runs m seen e c rest (w, new) a =
    let a' = simp append_assoc at a in
    Runs-bind _ (read_u64-Runs c e.slab_id.ordinal _ w.ordinal a') λ c1 (s1, a1).
      Runs-bind _ (read_n-Runs 32 c1 e.slab_id.hash _ w.hash a1) λ c2 (s2, a2).
        Runs-bind _ (reject-Runs _ _ c2 _ new a2) λ c3 (s3, a3).
          Runs-bind _ (read_u32-Runs c3 (length e.locators) _ w.counted a3) λ c4 (s4, a4).
            Runs-bind _ (reject-Runs _ _ c4 _ (ground (arith, w.reachable)) a4) λ c5 (s5, a5).
              Runs-bind _
                (entries-Runs m (length e.locators) e.locators c5 rest refl w.counted w.located a5)
                λ c6 (s6, a6).
                  (c6, refl, (follow s1 (follow s2 (follow s3 (follow s4 (follow s5 s6)))), a6))

width :
    (m : ℕ) (es : List SlabIndexEntry)
    → All (IsEntry m) es
    → length es * entry_fixed_len ≤ length (encode_list encode_entry es)
unfolding encode_entry
width m [] h = omega arith
width m (e ∷ es) (w, h) =
    let a = to_le_bytes 8 e.slab_id.ordinal in
    let b = to_le_bytes 4 (length e.locators) in
    let ls = encode_entries e.locators in
    omega (
      arith,
      width m es h,
      w.hash,
      length-append (a ++ (e.slab_id.hash ++ (b ++ ls))) (encode_list encode_entry es),
      length-append a (e.slab_id.hash ++ (b ++ ls)),
      length-append e.slab_id.hash (b ++ ls),
      length-append b ls,
      length-to_le_bytes 8 e.slab_id.ordinal,
      length-to_le_bytes 4 (length e.locators),
    )

parse-Sound :
    (m : ℕ) (c : Cursor)
    → IsValid c
    → Sound (Took (IsWellFormed m) encode c) (parse_slab_index_with_ceiling m c)
unfolding parse_slab_index_with_ceiling encode
parse-Sound m c v = Sound-bind (read_u8-Sound c v) λ version c1 (h1, s1, v1).
    Sound-bind (reject-Sound _ _ c1 v1) λ _ c2 (h2, s2, v2).
      Sound-bind (read_u32-Sound c2 v2) λ n c3 (h3, s3, v3).
        Sound-bind (checked_mul-Sound _ _ _ c3 v3) λ size c4 (h4, s4, v4).
          Sound-bind (ensure-Sound _ c4 v4) λ _ c5 (h5, s5, v5).
            Sound-bind
              (parse_list-Sound (parse_entry m) encode_entry (Good m) (IsEntry-Sound m) n c5 v5)
              λ es c6 ((l, g), s6, v6).
                let (u, p) =
                  (Goods-Unique (λ e. e.slab_id) slab_id_eq slab_id_eq_iff (IsEntry m) es).0 g in
                let s1' = rw (eq_of_not_ne version section_version h2) at s1 in
                Sound-ok (
                  record { counted = omega arith; unique = u; entries = p },
                  rw l (follow s1' (follow s2 (follow s3 (follow s4 (follow s5 s6))))),
                  v6,
                )

parse-Runs :
    (m : ℕ) (index : SlabIndex) (c : Cursor) (rest : List ℕ)
    → IsWellFormed m index
    → At c (encode index ++ rest)
    → Runs index (Reads c (encode index) rest) (parse_slab_index_with_ceiling m c)
unfolding parse_slab_index_with_ceiling encode
parse-Runs m index c rest w a =
    let a' = simp append_assoc at a in
    let es = index.entries in
    let g =
      (Goods-Unique (λ e. e.slab_id) slab_id_eq slab_id_eq_iff (IsEntry m) es).1
        (w.unique, w.entries) in
    let long = width m es w.entries in
    let body = length-append (encode_list encode_entry es) rest in
    Runs-bind _ (read_u8-Runs c section_version _ a') λ c1 (s1, a1).
      Runs-bind _ (reject-Runs _ _ c1 _ refl a1) λ c2 (s2, a2).
        Runs-bind _ (read_u32-Runs c2 (length es) _ w.counted a2) λ c3 (s3, a3).
          Runs-bind _ (checked_mul-Runs _ _ _ c3 _ (omega (arith, w.counted)) a3) λ c4 (s4, a4).
            Runs-bind _ (ensure-Runs _ c4 _ (omega (arith, long, body)) a4) λ c5 (s5, a5).
              Runs-bind _
                (parse_list-Runs (parse_entry m) encode_entry (Good m) (entry-Runs m) es (length es)
                  c5 rest refl g a5)
                λ c6 (s6, a6).
                  (c6, refl, (follow s1 (follow s2 (follow s3 (follow s4 (follow s5 s6)))), a6))

-- A well-formed slab index, one without entries included, laid out as the wire format says, parses to
-- itself under the ceiling on URIs, with anything behind it left unread, on any valid cursor before
-- those bytes.
pub parse_slab_index_with_ceiling-encode :
    (m : ℕ) (index : SlabIndex) (c : Cursor) (rest : List ℕ)
    → IsWellFormed m index
    → IsValid c
    → remaining c ≡ encode index ++ rest
    → (c' : Cursor) × (parse_slab_index_with_ceiling m c ≡ ok (index, c'))
      × Steps c (encode index) c'
      × (remaining c' ≡ rest)
parse_slab_index_with_ceiling-encode m index c rest w v e =
    let (c', r, (s, a)) = parse-Runs m index c rest w (record { valid = v; unread = e }) in
    (c', r, s, a.unread)

-- Whatever the parser accepts on a valid cursor is well formed (no slab id twice, every slab with at
-- least one locator of the grammar within the ceiling), and what it read is the layout of its result.
pub parse_slab_index_with_ceiling_canonical :
    (m : ℕ) (c : Cursor) (index : SlabIndex) (c' : Cursor)
    → IsValid c
    → parse_slab_index_with_ceiling m c ≡ ok (index, c')
    → IsWellFormed m index × Steps c (encode index) c'
parse_slab_index_with_ceiling_canonical m c index c' v e =
    let (w, s, _) = sound_use (parse-Sound m c v) e in (w, s)
