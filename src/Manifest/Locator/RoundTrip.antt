-- ===== src/Manifest/Locator/RoundTrip.antt =====
-- limnifs-core/src/locator.rs: the parsers against the entries' layout.
use limnifs.Prelude.{
  ℕ, ◌*◌, ◌^◌, ◌≤◌, ◌<◌, ◌≡◌, refl, ap, ◌≢◌, true, false, not, some, List, [], ◌∷◌, ◌++◌,
  append_assoc, arith, ltb→le, le→ltb, length, All, length-append,
}
use limnifs.Prelude.Bytes.{to_le_bytes, length-to_le_bytes}
use limnifs.Cursor.{Cursor}
use limnifs.Cursor.Steps.{IsValid, follow, after}
use limnifs.Cursor.Rules.{
  Sound, Sound-ok, Sound-bind, Sound-weaken, Runs, Runs-bind, Runs-weaken, At, Reads, Took,
}
use limnifs.Cursor.Reads.{read_n-Runs, read_n-Sound, read_u32-Runs, read_u32-Sound}
use limnifs.Cursor.Guards.{
  reject-Sound, reject-Runs, ensure-Sound, ensure-Runs, checked_mul-Sound, checked_mul-Runs,
  or_fail-Sound, or_fail-Runs,
}
use limnifs.Cursor.Loops.{encode_list, parse_list-Sound, parse_list-Runs}
use limnifs.Cursor.Unique.{Goods-All}
use limnifs.Prelude.Utf8.{is_utf8, split_once}
use limnifs.Manifest.Locator.{
  LocatorEntry, min_uri_bytes, colon, is_nil, is_valid_scheme, parse_locator_entry_with_ceiling,
  parse_locator_entries_with_ceiling,
}
use limnifs.Manifest.Locator.Grammar.{
  IsUri, is_valid_scheme_iff, split_once-append, IsUri-split_once,
}

-- An entry: the URI's length as a u32, then the URI.
unfoldable pub encode_entry : LocatorEntry → List ℕ
encode_entry l = to_le_bytes 4 (length l.uri) ++ l.uri

-- A URI of the grammar in UTF-8, whose length is a u32 of 4 or more within the ceiling.
pub record IsLocator (max_uri_bytes : ℕ) (l : LocatorEntry) : Type 0 where
  pub counted : length l.uri < 2 ^ 32
  pub long : min_uri_bytes ≤ length l.uri
  pub short : length l.uri ≤ max_uri_bytes
  pub utf8 : is_utf8 l.uri ≡ true
  pub grammar : IsUri l.uri

not_nil : (s : List ℕ) → is_nil s ≡ false → s ≢ []
unfolding is_nil
not_nil s h e = ground (arith, ap is_nil e)

IsUri-of_parts :
    (uri front back : List ℕ)
    → split_once colon uri ≡ some (front, back)
    → not (is_valid_scheme front) ≡ false
    → is_nil back ≡ false
    → IsUri uri
IsUri-of_parts uri front back h g n = record {
  front = front;
  back = back;
  whole = split_once-append colon uri front back h;
  grammar = (is_valid_scheme_iff front).0 (ground arith);
  some_part = not_nil back n;
}

pub IsEntry-Sound :
    (m : ℕ) (c : Cursor)
    → IsValid c
    → Sound (Took (IsLocator m) encode_entry c) (parse_locator_entry_with_ceiling m c)
unfolding parse_locator_entry_with_ceiling encode_entry
IsEntry-Sound m c v = Sound-bind (read_u32-Sound c v) λ n c1 (h1, s1, v1).
    Sound-bind (reject-Sound _ _ c1 v1) λ _ c2 (h2, s2, v2).
      Sound-bind (reject-Sound _ _ c2 v2) λ _ c3 (h3, s3, v3).
        Sound-bind (read_n-Sound n c3 v3) λ uri c4 (h4, s4, v4).
          Sound-bind (reject-Sound _ _ c4 v4) λ _ c5 (h5, s5, v5).
            Sound-bind (or_fail-Sound _ _ c5 v5) λ parts c6 (h6, s6, v6).
              Sound-bind (reject-Sound _ _ c6 v6) λ _ c7 (h7, s7, v7).
                Sound-bind (reject-Sound _ _ c7 v7) λ _ c8 (h8, s8, v8).
                  Sound-bind (reject-Sound _ _ c8 v8) λ _ c9 (h9, s9, v9).
                    let tail = after (after (after (after (after s4 s5) s6) s7) s8) s9 in
                    Sound-ok (
                      record {
                        counted = omega arith;
                        long = omega (arith, ltb→le _ _ h2);
                        short = omega (arith, ltb→le _ _ h3);
                        utf8 = ground arith;
                        grammar = IsUri-of_parts uri parts.0 parts.1 h6 h8 h9;
                      },
                      rw h4 (follow s1 (follow s2 (follow s3 tail))),
                      v9,
                    )

pub entry-Runs :
    (m : ℕ) (l : LocatorEntry) (c : Cursor) (rest : List ℕ)
    → IsLocator m l
    → At c (encode_entry l ++ rest)
    → Runs l (Reads c (encode_entry l) rest) (parse_locator_entry_with_ceiling m c)
unfolding parse_locator_entry_with_ceiling encode_entry
entry-Runs m l c rest w a =
    let a' = simp append_assoc at a in
    let (cut, front, scheme, back) = IsUri-split_once w.grammar in
    Runs-bind _ (read_u32-Runs c (length l.uri) _ w.counted a') λ c1 (s1, a1).
      Runs-bind _ (reject-Runs _ _ c1 _ (le→ltb _ _ w.long) a1) λ c2 (s2, a2).
        Runs-bind _ (reject-Runs _ _ c2 _ (le→ltb _ _ w.short) a2) λ c3 (s3, a3).
          Runs-bind _ (read_n-Runs (length l.uri) c3 l.uri rest refl a3) λ c4 (s4, a4).
            Runs-bind _ (reject-Runs _ _ c4 _ (ap not w.utf8) a4) λ c5 (s5, a5).
              Runs-bind _ (or_fail-Runs _ _ c5 (w.grammar.front, w.grammar.back) rest cut a5)
                λ c6 (s6, a6). Runs-bind _ (reject-Runs _ _ c6 _ front a6) λ c7 (s7, a7).
                  Runs-bind _ (reject-Runs _ _ c7 _ (ap not scheme) a7) λ c8 (s8, a8).
                    Runs-bind _ (reject-Runs _ _ c8 _ back a8) λ c9 (s9, a9).
                      let tail = after (after (after (after (after s4 s5) s6) s7) s8) s9 in
                      (c9, refl, (follow s1 (follow s2 (follow s3 tail)), a9))

length-encode_entry : (l : LocatorEntry) → 4 ≤ length (encode_entry l)
unfolding encode_entry
length-encode_entry l =
    omega (
      arith,
      length-append (to_le_bytes 4 (length l.uri)) l.uri,
      length-to_le_bytes 4 (length l.uri),
    )

-- The entries as they stand behind a count.
abbrev pub encode_entries : List LocatorEntry → List ℕ
encode_entries = encode_list encode_entry

width :
    (m : ℕ) (ls : List LocatorEntry)
    → All (IsLocator m) ls
    → length ls * 8 ≤ length (encode_entries ls)
unfolding encode_entry
width m [] h = omega arith
width m (l ∷ ls) (w, h) = omega (
  arith,
  width m ls h,
  w.long,
  length-append (to_le_bytes 4 (length l.uri) ++ l.uri) (encode_entries ls),
  length-append (to_le_bytes 4 (length l.uri)) l.uri,
  length-to_le_bytes 4 (length l.uri),
)

pub entries-Sound :
    (m n : ℕ) (c : Cursor)
    → IsValid c
    → Sound
        (Took (λ ls. (length ls ≡ n) × All (IsLocator m) ls) encode_entries c)
        (parse_locator_entries_with_ceiling n m c)
unfolding parse_locator_entries_with_ceiling
entries-Sound m n c v = Sound-bind (checked_mul-Sound _ _ _ c v) λ size c1 (h1, s1, v1).
    Sound-bind (ensure-Sound _ c1 v1) λ _ c2 (h2, s2, v2).
      Sound-weaken
        (parse_list-Sound (λ _. parse_locator_entry_with_ceiling m) encode_entry (λ _. IsLocator m)
          (λ _. IsEntry-Sound m) n c2 v2)
        λ ls c3 ((l, g), s3, v3).
          ((l, (Goods-All (IsLocator m) [] ls).0 g), follow s1 (follow s2 s3), v3)

pub entries-Runs :
    (m n : ℕ) (ls : List LocatorEntry) (c : Cursor) (rest : List ℕ)
    → length ls ≡ n
    → n < 2 ^ 32
    → All (IsLocator m) ls
    → At c (encode_entries ls ++ rest)
    → Runs ls (Reads c (encode_entries ls) rest) (parse_locator_entries_with_ceiling n m c)
unfolding parse_locator_entries_with_ceiling
entries-Runs m n ls c rest e h w a =
    let enough = width m ls w in
    let body = length-append (encode_entries ls) rest in
    Runs-bind _ (checked_mul-Runs _ _ _ c _ (omega arith) a) λ c1 (s1, a1).
      Runs-bind _ (ensure-Runs _ c1 _ (omega arith) a1) λ c2 (s2, a2).
        Runs-weaken
          (parse_list-Runs (λ _. parse_locator_entry_with_ceiling m) encode_entry (λ _. IsLocator m)
            (λ _. entry-Runs m) ls n c2 rest e ((Goods-All (IsLocator m) [] ls).1 w) a2)
          refl λ c3 (s3, a3). (follow s1 (follow s2 s3), a3)
