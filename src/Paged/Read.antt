-- ===== src/Paged/Read.antt =====
-- limnifs-core/src/paged_slab.rs: a read through the page cache against the file.
use limnifs.Prelude.{
  ℕ, ◌+◌, ◌-◌, ◌*◌, ◌/◌, ◌^◌, ◌≤◌, ◌<◌, ◌≡◌, refl, sym, ap, subst, ◌∙◌, inl, inr, false, Bool-cases,
  Option, none, some, List, Result, ok, arith, leb, ◌==◌, ==_iff, length, slice,
}
use limnifs.Error.{CoreError}
use limnifs.Paged.{Page, PagedBytes, paged_page_size, clip, look_up, assemble, read_pages, read_at}
use limnifs.Paged.Cache.{look_up_lem}
use limnifs.Paged.Assemble.{range, assemble_lem, range_empty}
use limnifs.Paged.Run.{IsPage, IsCoherent, IsKnown, clipped}
use limnifs.Paged.Fill.{Span, fill_lem}

abbrev first_page : ℕ → ℕ
first_page offset = offset / paged_page_size

abbrev page_count : ℕ → ℕ → ℕ
page_count offset end = (end - 1) / paged_page_size - offset / paged_page_size + 1

-- The pages of a range that is not empty.
module _ (offset end : ℕ) (h : offset < end) where
  range_begin : first_page offset * paged_page_size ≤ offset
  range_begin = omega arith

  range_first : offset < (first_page offset + 1) * paged_page_size
  range_first = omega arith

  range_end : end ≤ (first_page offset + page_count offset end) * paged_page_size
  range_end = omega (arith, h)

  range_last : (first_page offset + page_count offset end) * paged_page_size < end + paged_page_size
  range_last = omega (arith, h)

  range_page :
      (i : ℕ) → i < first_page offset + page_count offset end → i * paged_page_size ≤ end - 1
  range_page i k = omega (arith, h, k)

-- The known length of an object does not end before `end`.
abbrev Reaches : ℕ → Option ℕ → Type 0
Reaches end none = Unit
Reaches end (some m) = end ≤ m

-- The step gives `bytes`, and a state that is coherent again.
abbrev pub Gives : List ℕ → Result CoreError (List ℕ) × PagedBytes → List ℕ → PagedBytes → Type 0
Gives file step bytes s =
    (s1 : PagedBytes) × (step ≡ (ok bytes, s1)) × IsCoherent file s1 × (s1.capacity ≡ s.capacity)

module _ (file : List ℕ) (reader : ℕ → ℕ → Result CoreError (List ℕ))
    (pread : (offset len : ℕ) → reader offset len ≡ ok (slice offset len file)) where
  Reaches-Span :
      (offset end : ℕ) (pages : List (Option Page)) (o : Option ℕ)
      → offset < end
      → length pages ≡ page_count offset end
      → Reaches end o
      → Span file reader pread o (first_page offset) pages
  Reaches-Span offset end pages none h l r i _ _ = tt
  Reaches-Span offset end pages (some m) h l r i _ k =
      let page = range_page offset end h i (omega (arith, k, l)) in omega (arith, page, r, h)

  read_pages_lem :
      (offset end : ℕ) (s : PagedBytes)
      → offset < end
      → IsCoherent file s
      → Reaches end s.len
      → end ≤ 2 ^ 64 - paged_page_size
      → Gives file (read_pages reader offset end s) (range offset end file) s
  unfolding read_pages
  read_pages_lem offset end s h c reaches word =
      let first = first_page offset in
      let count = page_count offset end in
      let entries = (look_up first count s.cache).1 in
      let pages = (look_up first count s.cache).0 in
      let s0 : PagedBytes = record s { cache = entries } in
      let (slots, cached, l) = look_up_lem (IsPage file s.len) first count s.cache c.pages in
      let behind = range_last offset end h in
      let (filled, s1, run, f) =
        fill_lem file reader pread count first pages s0 (omega (arith, l)) slots
          (Reaches-Span offset end pages s.len h l reaches)
          (record { known = c.known; pages = cached }) (omega (arith, l, behind, word)) in
      let stop : end ≤ (first + length filled) * paged_page_size =
        subst (λ n. end ≤ (first + n) * paged_page_size) (sym (f.count ∙ l))
          (range_end offset end h) in
      let begin = range_begin offset end h in
      let bytes : assemble offset end first filled ≡ range offset end file =
        assemble_lem file offset end first filled f.pages_of (range_first offset end h) stop
          (omega (arith, f.count, l, behind)) (omega (arith, f.count, l, behind, word))
        ∙ ap (λ a. range a end file) (omega (arith, begin)) in
      (s1, simp (read_pages, run, bytes) refl, f.coherent, f.capacity)

  slice-clip :
      (offset n : ℕ) (o : Option ℕ)
      → IsKnown file o
      → range offset (clip (offset + n) o) file ≡ slice offset n file
  unfolding clip
  slice-clip offset n none k =
      let same : offset + n - offset ≡ n = omega arith in ap (λ m. slice offset m file) same
  slice-clip offset n (some m) k = clipped file offset n m k

  Reaches-clip : (end : ℕ) (o : Option ℕ) → Reaches (clip end o) o
  unfolding clip
  Reaches-clip end none = tt
  Reaches-clip end (some m) = omega arith

  clip_le : (end : ℕ) (o : Option ℕ) (most : ℕ) → end ≤ most → clip end o ≤ most
  unfolding clip
  clip_le end none most h = h
  clip_le end (some m) most h = omega (arith, h)

  -- Reading through the page cache refines reading the file: at every offset and length, if the
  -- last page of the range ends within 64 bits, on a coherent cache, with a transport that is `pread` on the file, `read_at`
  -- gives the file's bytes there, leaves a coherent cache again and keeps its capacity.
  pub read_at-slice :
      (offset n : ℕ) (s : PagedBytes)
      → offset + n ≤ 2 ^ 64 - paged_page_size
      → IsCoherent file s
      → Gives file (read_at reader offset n s) (slice offset n file) s
  unfolding read_at
  read_at-slice offset n s small c =
      let fits : leb (2 ^ 64) (offset + n) ≡ false = ground (arith, small) in
      let whole = slice-clip offset n s.len c.known in
      elim (Bool-cases (offset + n == offset)) [
        | inl t ↦
            let nothing : n ≡ 0 = omega (arith, (==_iff (offset + n) offset).0 t) in
            (
              s,
              simp (read_at, fits, t) (ap (λ k. (ok (slice offset k file), s)) (sym nothing)),
              c,
              refl,
            )
        | inr f ↦ elim (Bool-cases (leb (clip (offset + n) s.len) offset)) [
          | inl t ↦
              let before : clip (offset + n) s.len ≤ offset = ground (arith, t) in
              let nothing =
                sym (range_empty offset (clip (offset + n) s.len) file before) ∙ whole in
              (s, simp (read_at, fits, f, t) (ap (λ xs. (ok xs, s)) nothing), c, refl)
          | inr g ↦
              let last : clip (offset + n) s.len ≤ 2 ^ 64 - paged_page_size =
                clip_le (offset + n) s.len (2 ^ 64 - paged_page_size) small in
              let after : offset < clip (offset + n) s.len = ground (arith, g) in
              let (s1, run, c1, same) =
                read_pages_lem offset (clip (offset + n) s.len) s after c
                  (Reaches-clip (offset + n) s.len) last in
              (s1, simp (read_at, fits, f, g) (run ∙ ap (λ xs. (ok xs, s1)) whole), c1, same)
        ]
      ]
