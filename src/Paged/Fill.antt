-- ===== src/Paged/Fill.antt =====
-- limnifs-core/src/paged_slab.rs: the loop that fetches the missing pages of a read.
use limnifs.Prelude.{
  ℕ, zero, suc, ◌+◌, ◌*◌, ◌^◌, ◌≤◌, ◌<◌, ◌≡◌, refl, sym, ap, subst, ◌∙◌, ◌⊎◌, inl, inr, Option,
  none, some, List, [], ◌∷◌, ◌++◌, Result, ok, arith, length, drop, length-append, length-drop,
  slice,
}
use limnifs.Error.{CoreError}
use limnifs.Paged.{Page, PagedBytes, paged_page_size, run_length, join_pages, fill}
use limnifs.Paged.Cache.{Slots}
use limnifs.Paged.Assemble.{Filled}
use limnifs.Paged.Run.{page_of, length-page_of, IsPage, IsCoherent, Room, Fetched, fetch_run_lem}

module _ (file : List ℕ) (reader : ℕ → ℕ → Result CoreError (List ℕ))
    (pread : (offset len : ℕ) → reader offset len ≡ ok (slice offset len file)) where
  Slots-drop :
      (o : Option ℕ) (n index : ℕ) (pages : List (Option Page))
      → Slots (IsPage file o) index pages
      → Slots (IsPage file o) (index + n) (drop n pages)
  Slots-drop o zero index pages w = subst (λ i. Slots (IsPage file o) i pages) (omega arith) w
  Slots-drop o (suc n) index [] w = tt
  Slots-drop o (suc n) index (p ∷ pages) (_, w) =
      subst (λ i. Slots (IsPage file o) i (drop n pages)) (omega arith)
        (Slots-drop o n (index + 1) pages w)

  -- Behind a run stands a page that the cache had, or nothing.
  run_length-le : (pages : List (Option Page)) → run_length pages ≤ length pages
  unfolding run_length
  run_length-le [] = omega arith
  run_length-le (none ∷ pages) = omega (arith, run_length-le pages)
  run_length-le (some p ∷ pages) = omega arith

  behind_run :
      (pages : List (Option Page))
      → (drop (run_length pages) pages ≡ [])
        ⊎ ((p : Page) × (rest : List (Option Page)) × (drop (run_length pages) pages
              ≡ some p ∷ rest))
  unfolding run_length
  behind_run [] = inl refl
  behind_run (none ∷ pages) = behind_run pages
  behind_run (some p ∷ pages) = inr (p, pages, refl)

  -- The pages up to the last one that a read needs begin within a known length.
  abbrev pub Span : Option ℕ → ℕ → List (Option Page) → Type 0
  Span o index pages = (i : ℕ) → index ≤ i → i < index + length pages → Room file o i

  -- What the loop gives.
  pub record FilledBy (index : ℕ) (pages : List (Option Page)) (s : PagedBytes)
      (filled : List (Option Page)) (s1 : PagedBytes) : Type 0 where
    pub pages_of : Filled file index filled
    pub count : length filled ≡ length pages
    pub coherent : IsCoherent file s1
    pub capacity : s1.capacity ≡ s.capacity

  Filled-append :
      (index n : ℕ) (xs ys : List (Option Page))
      → length xs ≡ n
      → Filled file index xs
      → Filled file (index + n) ys
      → Filled file index (xs ++ ys)
  Filled-append index n [] ys l a b = subst (λ i. Filled file i ys) (omega (arith, l)) b
  Filled-append index n (x ∷ xs) ys l (a, more) b = (
    a,
    Filled-append (index + 1) (length xs) xs ys refl more
        (subst (λ i. Filled file i ys) (omega (arith, l)) b),
  )

  -- The rest of the pages fits the state behind a run.
  rest_lem :
      (index n : ℕ) (pages run : List (Option Page)) (s s1 : PagedBytes)
      → Fetched file index n s run s1
      → (pages ≡ []) ⊎ ((p : Page) × (rest : List (Option Page)) × (pages ≡ some p ∷ rest))
      → Slots (IsPage file s.len) (index + n) pages
      → Span s.len (index + n) pages
      → Slots (IsPage file s1.len) (index + n) pages × Span s1.len (index + n) pages
  rest_lem index n pages run s s1 f behind slots span = elim f.change [
    | inl same ↦ (
      subst (λ o. Slots (IsPage file o) (index + n) pages) (sym same) slots,
      (λ i h k. subst (λ o. Room file o i) (sym same) (span i h k)),
    )
    | inr (unknown, (m, learned), ends) ↦ elim behind [
      | inl nothing ↦ (
        subst (Slots (IsPage file s1.len) (index + n)) (sym nothing) tt,
        (λ i h k. absurd (omega (arith, h, k, ap length nothing))),
      )
      | inr (p, rest, e) ↦
          let (page, whole) =
            (subst (λ o. Slots (IsPage file o) (index + n) (some p ∷ rest)) unknown
              (subst (Slots (IsPage file s.len) (index + n)) e slots)).0 in
          absurd (omega (arith, ends, whole, ap length page, length-page_of file (index + n)))
    ]
  ]

  pub fill_lem :
      (fuel index : ℕ) (pages : List (Option Page)) (s : PagedBytes)
      → length pages ≤ fuel
      → Slots (IsPage file s.len) index pages
      → Span s.len index pages
      → IsCoherent file s
      → (index + length pages) * paged_page_size < 2 ^ 64
      → (filled : List (Option Page)) × (s1 : PagedBytes) × (fill reader fuel index pages s
          ≡ (ok filled, s1))
        × FilledBy index pages s filled s1
  unfolding fill run_length join_pages
  fill_lem zero index [] s l slots span c word =
      ([], s, refl, record { pages_of = tt; count = refl; coherent = c; capacity = refl })
  fill_lem zero index (p ∷ pages) s l slots span c word = absurd (omega (arith, l))
  fill_lem (suc fuel) index [] s l slots span c word =
      ([], s, refl, record { pages_of = tt; count = refl; coherent = c; capacity = refl })
  fill_lem (suc fuel) index (some p ∷ pages) s l (slot, slots) span c word =
      let (filled, s1, run, f) =
        fill_lem fuel (index + 1) pages s (omega (arith, l)) slots
          (λ i h k. span i (omega (arith, h)) (omega (arith, k))) c (omega (arith, word)) in
      (
        some p ∷ filled,
        s1,
        simp (fill, run, join_pages) refl,
        record {
          pages_of = (page_eq index p s.len slot, f.pages_of);
          count = ap suc f.count;
          coherent = f.coherent;
          capacity = f.capacity;
        },
      )
    where
      page_eq : (i : ℕ) (q : Page) (o : Option ℕ) → IsPage file o i q → q ≡ page_of file i
      page_eq i q none (e, _) = e
      page_eq i q (some m) e = e
  fill_lem (suc fuel) index (none ∷ pages) s l slots span c word =
      let n = suc (run_length pages) in
      let rest = drop (run_length pages) pages in
      let short = run_length-le pages in
      let left = length-drop (run_length pages) pages in
      let (fetched, s1, first, got) =
        fetch_run_lem file reader pread index n s (omega arith) c
          (span index (omega arith) (omega arith)) (omega (arith, word, short)) in
      let (slots1, span1) =
        rest_lem index n rest fetched s s1 got (behind_run pages)
          (Slots-drop s.len n index (none ∷ pages) slots)
          (λ i h k. span i (omega (arith, h)) (omega (arith, k, left, short))) in
      let (filled, s2, others, f) =
        fill_lem fuel (index + n) rest s1 (omega (arith, l, left, short)) slots1 span1 got.coherent
          (omega (arith, word, left, short)) in
      (
        fetched ++ filled,
        s2,
        simp (fill, first, others, join_pages) refl,
        record {
          pages_of = Filled-append index n fetched filled got.count got.filled f.pages_of;
          count = omega (arith, length-append fetched filled, got.count, f.count, left, short);
          coherent = f.coherent;
          capacity = f.capacity ∙ got.capacity;
        },
      )
