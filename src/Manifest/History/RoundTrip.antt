-- ===== src/Manifest/History/RoundTrip.antt =====
-- limnifs-core/src/history.rs: the parser against the section's layout.
use limnifs.Prelude.{
  ℕ, ◌+◌, ◌*◌, ◌^◌, ◌≤◌, ◌<◌, ◌≡◌, refl, ◌∙◌, ◌≢◌, false, some, List, [], ◌∷◌, ◌++◌, append_assoc,
  arith, ok, ◌==◌, eq_of_not_ne, ltb→le, le→ltb, length, All, length-append,
}
use limnifs.Prelude.Bytes.{to_le_bytes, length-to_le_bytes}
use limnifs.Cursor.{Cursor, read_n_owned, remaining}
use limnifs.Cursor.Steps.{IsValid, Steps, follow}
use limnifs.Cursor.Rules.{Sound, Sound-ok, Sound-bind, sound_use, Runs, Runs-bind, At, Reads, Took}
use limnifs.Cursor.Reads.{
  read_n-Runs, read_n-Sound, read_u8-Runs, read_u8-Sound, read_u32-Runs, read_u32-Sound,
  read_u64-Runs, read_u64-Sound,
}
use limnifs.Cursor.Guards.{
  reject-Sound, reject-Runs, ensure-Sound, ensure-Runs, checked_mul-Sound, checked_mul-Runs,
  or_fail-Sound, or_fail-Runs,
}
use limnifs.Cursor.Loops.{encode_list, length-encode_list, parse_list-Sound, parse_list-Runs}
use limnifs.Cursor.Unique.{Goods-All}
use limnifs.Manifest.History.{
  HistoryOp, build, delta, flatten, turnover, deepen, from_byte, to_byte, HistoryEntry, History,
  section_version, op_extended, entry_fixed_len, parse_history_entry_with_ceiling,
  parse_history_with_ceiling,
}
use limnifs.Manifest.History.Chunks.{
  concat, IsRoot, length-concat, chunks_exact-concat, concat-chunks_exact,
}

-- An entry: the operation, the time, the counted input roots, the counted parameters.
unfoldable pub encode_entry : HistoryEntry → List ℕ
encode_entry e =
    to_byte e.op
    ∷ (to_le_bytes 8 e.timestamp_ns
        ++ (to_le_bytes 4 (length e.inputs)
            ++ (concat e.inputs ++ (to_le_bytes 4 (length e.params) ++ e.params))))

-- The section: the version byte, the count as a u32, the entries.
unfoldable pub encode : History → List ℕ
encode h =
    section_version ∷ (to_le_bytes 4 (length h.entries) ++ encode_list encode_entry h.entries)

-- The numbers fit their words, the roots have 32 bytes, the parameters keep to the ceiling.
pub record IsEntry (max_params_bytes : ℕ) (e : HistoryEntry) : Type 0 where
  pub time : e.timestamp_ns < 2 ^ 64
  pub counted : length e.inputs < 2 ^ 32
  pub roots : All IsRoot e.inputs
  pub params_counted : length e.params < 2 ^ 32
  pub params_short : length e.params ≤ max_params_bytes

-- There is at least one entry, and each is well formed.
pub record IsWellFormed (max_params_bytes : ℕ) (h : History) : Type 0 where
  pub counted : length h.entries < 2 ^ 32
  pub nonempty : length h.entries ≢ 0
  pub entries : All (IsEntry max_params_bytes) h.entries

byte-from_byte : (b : ℕ) (op : HistoryOp) → from_byte b ≡ some op → b ≡ to_byte op
unfolding from_byte to_byte
byte-from_byte b op h = ground arith

from_byte-to_byte : (op : HistoryOp) → from_byte (to_byte op) ≡ some op
unfolding from_byte to_byte
from_byte-to_byte build = refl
from_byte-to_byte delta = refl
from_byte-to_byte flatten = refl
from_byte-to_byte turnover = refl
from_byte-to_byte deepen = refl

to_byte-ne-extended : (op : HistoryOp) → (to_byte op == op_extended) ≡ false
unfolding to_byte
to_byte-ne-extended build = refl
to_byte-ne-extended delta = refl
to_byte-ne-extended flatten = refl
to_byte-ne-extended turnover = refl
to_byte-ne-extended deepen = refl

IsEntry-Sound :
    (m : ℕ) (c : Cursor)
    → IsValid c
    → Sound (Took (IsEntry m) encode_entry c) (parse_history_entry_with_ceiling m c)
unfolding parse_history_entry_with_ceiling encode_entry read_n_owned
IsEntry-Sound m c v = Sound-bind (read_u8-Sound c v) λ b c1 (h1, s1, v1).
    Sound-bind (reject-Sound _ _ c1 v1) λ _ c2 (h2, s2, v2).
      Sound-bind (or_fail-Sound _ _ c2 v2) λ op c3 (h3, s3, v3).
        Sound-bind (read_u64-Sound c3 v3) λ t c4 (h4, s4, v4).
          Sound-bind (read_u32-Sound c4 v4) λ n c5 (h5, s5, v5).
            Sound-bind (checked_mul-Sound _ _ _ c5 v5) λ size c6 (h6, s6, v6).
              Sound-bind (read_n-Sound size c6 v6) λ bytes c7 (h7, s7, v7).
                Sound-bind (read_u32-Sound c7 v7) λ p c8 (h8, s8, v8).
                  Sound-bind (reject-Sound _ _ c8 v8) λ _ c9 (h9, s9, v9).
                    Sound-bind (read_n-Sound p c9 v9) λ params c10 (h10, s10, v10).
                      let (whole, count, roots) = concat-chunks_exact n bytes (h7 ∙ h6) in
                      let s1' = rw (byte-from_byte b op h3) at s1 in
                      Sound-ok (
                        record {
                          time = h4;
                          counted = omega arith;
                          roots = roots;
                          params_counted = omega arith;
                          params_short = omega (arith, ltb→le _ _ h9);
                        },
                        rw (whole, count, h10)
                            (follow s1' (
                              follow s2 (
                                follow s3 (
                                  follow s4 (
                                    follow s5
                                      (follow s6 (follow s7 (follow s8 (follow s9 s10))))))))),
                        v10,
                      )

entry-Runs :
    (m : ℕ) (e : HistoryEntry) (c : Cursor) (rest : List ℕ)
    → IsEntry m e
    → At c (encode_entry e ++ rest)
    → Runs e (Reads c (encode_entry e) rest) (parse_history_entry_with_ceiling m c)
unfolding parse_history_entry_with_ceiling encode_entry read_n_owned
entry-Runs m e c rest w a =
    let a' = simp append_assoc at a in
    let cut = chunks_exact-concat e.inputs w.roots in
    Runs-bind _ (read_u8-Runs c (to_byte e.op) _ a') λ c1 (s1, a1).
      Runs-bind _ (reject-Runs _ _ c1 _ (to_byte-ne-extended e.op) a1) λ c2 (s2, a2).
        Runs-bind _ (or_fail-Runs _ _ c2 e.op _ (from_byte-to_byte e.op) a2) λ c3 (s3, a3).
          Runs-bind _ (read_u64-Runs c3 e.timestamp_ns _ w.time a3) λ c4 (s4, a4).
            Runs-bind _ (read_u32-Runs c4 (length e.inputs) _ w.counted a4) λ c5 (s5, a5).
              Runs-bind _ (checked_mul-Runs _ _ _ c5 _ (omega (arith, w.counted)) a5) λ c6 (s6, a6).
                Runs-bind _
                  (read_n-Runs (length e.inputs * 32) c6 (concat e.inputs) _
                    (length-concat e.inputs w.roots) a6)
                  λ c7 (s7, a7).
                    Runs-bind _ (read_u32-Runs c7 (length e.params) _ w.params_counted a7)
                      λ c8 (s8, a8).
                        Runs-bind _ (reject-Runs _ _ c8 _ (le→ltb _ _ w.params_short) a8)
                          λ c9 (s9, a9).
                            Runs-bind _ (read_n-Runs (length e.params) c9 e.params rest refl a9)
                              λ c10 (s10, a10). (
                                c10,
                                rw cut,
                                (
                                  follow s1 (
                                      follow s2 (
                                        follow s3 (
                                          follow s4 (
                                            follow s5 (
                                              follow s6
                                                (follow s7 (follow s8 (follow s9 s10)))))))),
                                  a10,
                                ),
                              )

length-encode_entry : (e : HistoryEntry) → entry_fixed_len + 4 ≤ length (encode_entry e)
unfolding encode_entry
length-encode_entry e =
    let t = to_le_bytes 8 e.timestamp_ns in
    let i = to_le_bytes 4 (length e.inputs) in
    let p = to_le_bytes 4 (length e.params) in
    omega (
      arith,
      length-append t (i ++ (concat e.inputs ++ (p ++ e.params))),
      length-append i (concat e.inputs ++ (p ++ e.params)),
      length-append (concat e.inputs) (p ++ e.params),
      length-append p e.params,
      length-to_le_bytes 8 e.timestamp_ns,
      length-to_le_bytes 4 (length e.inputs),
      length-to_le_bytes 4 (length e.params),
    )

parse-Sound :
    (m : ℕ) (c : Cursor)
    → IsValid c
    → Sound (Took (IsWellFormed m) encode c) (parse_history_with_ceiling m c)
unfolding parse_history_with_ceiling encode
parse-Sound m c v = Sound-bind (read_u8-Sound c v) λ version c1 (h1, s1, v1).
    Sound-bind (reject-Sound _ _ c1 v1) λ _ c2 (h2, s2, v2).
      Sound-bind (read_u32-Sound c2 v2) λ n c3 (h3, s3, v3).
        Sound-bind (reject-Sound _ _ c3 v3) λ _ c4 (h4, s4, v4).
          Sound-bind (checked_mul-Sound _ _ _ c4 v4) λ size c5 (h5, s5, v5).
            Sound-bind (ensure-Sound _ c5 v5) λ _ c6 (h6, s6, v6).
              Sound-bind
                (parse_list-Sound (λ _. parse_history_entry_with_ceiling m) encode_entry
                  (λ _. IsEntry m) (λ _. IsEntry-Sound m) n c6 v6)
                λ es c7 ((l, g), s7, v7).
                  let s1' = rw (eq_of_not_ne version section_version h2) at s1 in
                  Sound-ok (
                    record {
                      counted = omega arith;
                      nonempty = ground (arith, l);
                      entries = (Goods-All (IsEntry m) [] es).0 g;
                    },
                    rw l
                        (follow s1' (follow s2 (follow s3 (follow s4 (follow s5 (follow s6 s7)))))),
                    v7,
                  )

parse-Runs :
    (m : ℕ) (h : History) (c : Cursor) (rest : List ℕ)
    → IsWellFormed m h
    → At c (encode h ++ rest)
    → Runs h (Reads c (encode h) rest) (parse_history_with_ceiling m c)
unfolding parse_history_with_ceiling encode
parse-Runs m h c rest w a =
    let a' = simp append_assoc at a in
    let es = h.entries in
    let long = length-encode_list encode_entry (entry_fixed_len + 4) es length-encode_entry in
    let body = length-append (encode_list encode_entry es) rest in
    Runs-bind _ (read_u8-Runs c section_version _ a') λ c1 (s1, a1).
      Runs-bind _ (reject-Runs _ _ c1 _ refl a1) λ c2 (s2, a2).
        Runs-bind _ (read_u32-Runs c2 (length es) _ w.counted a2) λ c3 (s3, a3).
          Runs-bind _ (reject-Runs _ _ c3 _ (ground (arith, w.nonempty)) a3) λ c4 (s4, a4).
            Runs-bind _ (checked_mul-Runs _ _ _ c4 _ (omega (arith, w.counted)) a4) λ c5 (s5, a5).
              Runs-bind _ (ensure-Runs _ c5 _ (omega (arith, long, body)) a5) λ c6 (s6, a6).
                Runs-bind _
                  (parse_list-Runs (λ _. parse_history_entry_with_ceiling m) encode_entry
                    (λ _. IsEntry m) (λ _. entry-Runs m) es (length es) c6 rest refl
                    ((Goods-All (IsEntry m) [] es).1 w.entries) a6)
                  λ c7 (s7, a7). (
                    c7,
                    refl,
                    (follow s1 (follow s2 (follow s3 (follow s4 (follow s5 (follow s6 s7))))), a7),
                  )

-- A well-formed history, laid out as the wire format says, parses to itself under the ceiling on
-- parameters, with anything behind it left unread, on any valid cursor before those bytes.
pub parse_history_with_ceiling-encode :
    (m : ℕ) (h : History) (c : Cursor) (rest : List ℕ)
    → IsWellFormed m h
    → IsValid c
    → remaining c ≡ encode h ++ rest
    → (c' : Cursor) × (parse_history_with_ceiling m c ≡ ok (h, c'))
      × Steps c (encode h) c'
      × (remaining c' ≡ rest)
parse_history_with_ceiling-encode m h c rest w v e =
    let (c', r, (s, a)) = parse-Runs m h c rest w (record { valid = v; unread = e }) in
    (c', r, s, a.unread)

-- Whatever the parser accepts on a valid cursor is well formed (at least one entry, 32-byte roots,
-- parameters within the ceiling), and what it read is the layout of its result.
pub parse_history_with_ceiling_canonical :
    (m : ℕ) (c : Cursor) (h : History) (c' : Cursor)
    → IsValid c
    → parse_history_with_ceiling m c ≡ ok (h, c')
    → IsWellFormed m h × Steps c (encode h) c'
parse_history_with_ceiling_canonical m c h c' v e =
    let (w, s, _) = sound_use (parse-Sound m c v) e in (w, s)
