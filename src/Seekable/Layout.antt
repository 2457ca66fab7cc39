-- ===== src/Seekable/Layout.antt =====
-- limnifs-core/src/seekable.rs: the footer's parser on any container and on one that was laid out.
use limnifs.Prelude.{
  ℕ, ◌+◌, ◌-◌, ◌*◌, ◌^◌, ◌≤◌, ◌<◌, ◌≡◌, refl, sym, ap, subst, ◌∙◌, false, not, ◌&&◌, List, [], ◌∷◌,
  ◌++◌, append_assoc, ok, else_ok, ok_injective, arith, ltb, ◌==◌, ==_refl, bytes_eq, length, take,
  drop, All, length-append, sum, slice, slice-append, drop-append_right,
}
use limnifs.Prelude.Bytes.{
  from_le_bytes, to_le_bytes, length-to_le_bytes, from_le_bytes-to_le_bytes,
}
use limnifs.Seekable.{
  SeekFooter, seekable_magic, seekable_version, footer_tail_len, encode_lens, encode_table,
  encode_tail, total_comp, read_u32_at, read_table, uncomp_of, comp_of, footer_of, any_zero,
  check_footer, parse_table, parse_footer,
}

-- A parsed footer is the one of the table's entries.
pub parse_footer-footer_of :
    (container : List ℕ) (f : SeekFooter)
    → parse_footer container ≡ ok f
    → (fs : List (ℕ × ℕ)) × (f ≡ footer_of fs)
unfolding parse_footer parse_table check_footer
parse_footer-footer_of container f e =
    let tail = drop (length container - footer_tail_len) container in
    let n = from_le_bytes (slice 6 4 tail) in
    let body = length container - footer_tail_len - n * 8 in
    let (_, e1) = else_ok _ (ltb (length container) (8 + footer_tail_len)) e in
    let (_, e2) = else_ok _ (not (bytes_eq (take 4 tail) seekable_magic)) e1 in
    let (_, e3) = else_ok _ (not (from_le_bytes (slice 4 2 tail) == seekable_version)) e2 in
    let (_, e4) = else_ok _ (ltb (length container - footer_tail_len) (n * 8)) e3 in
    let fs = read_table container body n in
    let (_, e5) = else_ok _ (not (total_comp (footer_of fs) == body)) e4 in
    let (_, e6) = else_ok _ _ e5 in (fs, sym (ok_injective e6))

-- Two lengths that fit a u32.
abbrev pub IsLens : ℕ × ℕ → Type 0
IsLens (u, c) = (u < 2 ^ 32) × (c < 2 ^ 32)

length-encode_table : (fs : List (ℕ × ℕ)) → length (encode_table fs) ≡ length fs * 8
unfolding encode_table encode_lens
length-encode_table [] = omega arith
length-encode_table ((u, c) ∷ fs) = omega (
  arith,
  length-encode_table fs,
  length-append (to_le_bytes 4 u ++ to_le_bytes 4 c) (encode_table fs),
  length-append (to_le_bytes 4 u) (to_le_bytes 4 c),
  length-to_le_bytes 4 u,
  length-to_le_bytes 4 c,
)

-- A u32 at a known place.
read_u32-encode :
    (e n : ℕ) (before after : List ℕ)
    → e ≡ length before
    → n < 2 ^ 32
    → read_u32_at (before ++ (to_le_bytes 4 n ++ after)) e ≡ n
unfolding read_u32_at
read_u32-encode e n before after at small =
    ap from_le_bytes
      (slice-append e 4 before (to_le_bytes 4 n) after at (sym (length-to_le_bytes 4 n)))
    ∙ from_le_bytes-to_le_bytes 4 n small

-- The table that was written is read back.
read_table-encode :
    (e : ℕ) (fs : List (ℕ × ℕ)) (before after : List ℕ)
    → e ≡ length before
    → All IsLens fs
    → read_table (before ++ (encode_table fs ++ after)) e (length fs) ≡ fs
unfolding read_table encode_table encode_lens
read_table-encode e [] before after at w = refl
read_table-encode e ((u, c) ∷ fs) before after at ((hu, hc), w) =
    let first = to_le_bytes 4 u in
    let second = to_le_bytes 4 c in
    let rest = encode_table fs ++ after in
    let all = before ++ (((first ++ second) ++ encode_table fs) ++ after) in
    let shape1 : before ++ (first ++ (second ++ rest)) ≡ all = simp append_assoc refl in
    let shape2 : (before ++ first) ++ (second ++ rest) ≡ all = simp append_assoc refl in
    let shape3 : (before ++ (first ++ second)) ++ (encode_table fs ++ after) ≡ all =
      simp append_assoc refl in
    let n1 = length-to_le_bytes 4 u in
    let n2 = length-to_le_bytes 4 c in
    let l1 = length-append before first in
    let l2 = length-append before (first ++ second) in
    let l3 = length-append first second in
    let r1 : read_u32_at all e ≡ u =
      subst (λ x. read_u32_at x e ≡ u) shape1 (read_u32-encode e u before (second ++ rest) at hu) in
    let r2 : read_u32_at all (e + 4) ≡ c =
      subst (λ x. read_u32_at x (e + 4) ≡ c) shape2
        (read_u32-encode (e + 4) c (before ++ first) rest (omega (arith, at, n1, l1)) hc) in
    let r3 : read_table all (e + 8) (length fs) ≡ fs =
      subst (λ x. read_table x (e + 8) (length fs) ≡ fs) shape3
        (read_table-encode (e + 8) fs (before ++ (first ++ second)) after
          (omega (arith, at, n1, n2, l2, l3)) w) in
    simp (r1, r2, r3) refl

-- The last ten bytes of a container.
tail_lem :
    (n : ℕ)
    → n < 2 ^ 32
    → (take 4 (encode_tail n) ≡ seekable_magic)
      × (from_le_bytes (slice 4 2 (encode_tail n)) ≡ seekable_version)
      × (from_le_bytes (slice 6 4 (encode_tail n)) ≡ n)
      × (length (encode_tail n) ≡ footer_tail_len)
unfolding encode_tail to_le_bytes from_le_bytes
tail_lem n h = (refl, refl, from_le_bytes-to_le_bytes 4 n h, refl)

-- What a container's table must satisfy: lengths that fit, bytes that add up, and no empty frame among
-- several.
pub record IsTable (body : List ℕ) (fs : List (ℕ × ℕ)) : Type 0 where
  pub counted : length fs < 2 ^ 32
  pub some : 1 ≤ length fs
  pub lens : All IsLens fs
  pub adds_up : sum (comp_of fs) ≡ length body
  pub nonzero : (any_zero (uncomp_of fs) && ltb 1 (length (uncomp_of fs))) ≡ false

pub parse_footer-encode :
    (body : List ℕ) (fs : List (ℕ × ℕ))
    → IsTable body fs
    → parse_footer (body ++ (encode_table fs ++ encode_tail (length fs))) ≡ ok (footer_of fs)
unfolding parse_footer parse_table check_footer footer_of total_comp bytes_eq
parse_footer-encode body fs w =
    let n = length fs in
    let table = encode_table fs in
    let all = body ++ (table ++ encode_tail n) in
    let (magic, version, count, ten) = tail_lem n w.counted in
    let width = length-encode_table fs in
    let front = length-append body table in
    let whole : length all ≡ length body + (n * 8 + 10) = omega (
      arith,
      length-append body (table ++ encode_tail n),
      length-append table (encode_tail n),
      width,
      ten,
    ) in
    let rest : length all - footer_tail_len ≡ length body + n * 8 = omega (arith, whole) in
    let tail : drop (length body + n * 8) all ≡ encode_tail n =
      ap (drop (length body + n * 8)) (sym (append_assoc body table (encode_tail n)))
      ∙ drop-append_right (length body + n * 8) 0 (body ++ table) (encode_tail n)
          (omega (arith, front, width)) in
    let long : ltb (length all) (8 + footer_tail_len) ≡ false = ground (arith, whole, w.some) in
    let at : length body + n * 8 - n * 8 ≡ length body = omega arith in
    let table_back : read_table all (length body) n ≡ fs =
      read_table-encode (length body) fs body (encode_tail n) refl w.lens in
    let fits : ltb (length body + n * 8) (n * 8) ≡ false = ground arith in
    simp
      (
        parse_footer,
        parse_table,
        long,
        rest,
        tail,
        magic,
        version,
        count,
        fits,
        at,
        table_back,
        check_footer,
        w.adds_up,
        ==_refl (length body),
        w.nonzero,
      )
      refl
