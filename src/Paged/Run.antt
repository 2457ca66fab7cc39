-- ===== src/Paged/Run.antt =====
-- limnifs-core/src/paged_slab.rs: the fetch of one run of missing pages.
use limnifs.Prelude.{
  ℕ, zero, suc, ◌+◌, ◌-◌, ◌*◌, ◌≤◌, ◌<◌, min, ◌≡◌, refl, sym, ap, subst, ◌∙◌, ◌⊎◌, inl, inr, false,
  Bool-cases, option_cases, Option, none, some, List, [], ◌∷◌, Result, ok, arith, ltb, length, take,
  drop, replicate, length-take, length-drop, slice, take_all, take-take, drop-take, drop-drop, ◌^◌,
  wrap_add, wrap_sub, wrap_mul_lem, wrap_sub_lem, wrap_add_lem,
}
use limnifs.Error.{CoreError}
use limnifs.Paged.{
  Page, PageCache, PagedBytes, paged_page_size, learn_len, clip, store_run, accept_run, fetch_run,
}
use limnifs.Paged.Cache.{Pages, insert_page-Pages}
use limnifs.Paged.Assemble.{Filled}

module _ (file : List ℕ) where
  abbrev pub page_of : ℕ → Page
  page_of index = slice (index * paged_page_size) paged_page_size file

  -- A cached page; while the file's length is not known, every cached page is a whole one.
  abbrev pub IsPage : Option ℕ → ℕ → Page → Type 0
  IsPage none index p = (p ≡ page_of index) × (length p ≡ paged_page_size)
  IsPage (some n) index p = p ≡ page_of index

  -- A length that was learned or pinned is not below the file's. (A read that begins behind the end
  -- learns its own offset.)
  abbrev pub IsKnown : Option ℕ → Type 0
  IsKnown none = Unit
  IsKnown (some n) = length file ≤ n

  -- The cache holds pages of the file.
  pub record IsCoherent (s : PagedBytes) : Type 0 where
    pub known : IsKnown s.len
    pub pages : Pages (IsPage s.len) s.cache

  pub length-page_of :
      (index : ℕ)
      → length (page_of index) ≡ min paged_page_size (length file - index * paged_page_size)
  length-page_of index =
      length-take paged_page_size (drop (index * paged_page_size) file)
      ∙ ap (min paged_page_size) (length-drop (index * paged_page_size) file)

  missing_Filled :
      (n index : ℕ)
      → length file ≤ index * paged_page_size
      → Filled file index (replicate n none) × (length {A = Option Page} (replicate n none) ≡ n)
  missing_Filled zero index h = (tt, refl)
  missing_Filled (suc n) index h =
      let (w, l) = missing_Filled n (index + 1) (omega (arith, h)) in ((h, w), ap suc l)

  -- The bytes behind the first page of a run.
  next_bytes :
      (index n : ℕ) (bytes : List ℕ)
      → bytes ≡ slice (index * paged_page_size) (suc n * paged_page_size) file
      → drop paged_page_size bytes
        ≡ slice ((index + 1) * paged_page_size) (n * paged_page_size) file
  next_bytes index n bytes e =
      ap (drop paged_page_size) e
      ∙ (drop-take paged_page_size (suc n * paged_page_size) (n * paged_page_size)
            (drop (index * paged_page_size) file) (omega arith)
          ∙ ap (take (n * paged_page_size)) (
              drop-drop (index * paged_page_size) paged_page_size ((index + 1) * paged_page_size)
                file (omega arith)))

  first_page :
      (index n : ℕ) (bytes : List ℕ)
      → bytes ≡ slice (index * paged_page_size) (suc n * paged_page_size) file
      → take paged_page_size bytes ≡ page_of index
  first_page index n bytes e =
      ap (take paged_page_size) e
      ∙ take-take paged_page_size (suc n * paged_page_size) (drop (index * paged_page_size) file)
          (omega arith)

  -- What a run leaves, where the pages that it stores have `R`.
  store_run_lem :
      (R : ℕ → Page → Type 0) (capacity index n : ℕ) (bytes : List ℕ) (entries : PageCache)
      → ((i : ℕ) → i < index + n → R i (page_of i))
      → bytes ≡ slice (index * paged_page_size) (n * paged_page_size) file
      → Pages R entries
      → Filled file index (store_run capacity index n bytes entries).0
        × (length (store_run capacity index n bytes entries).0 ≡ n)
        × Pages R (store_run capacity index n bytes entries).1
  unfolding store_run
  store_run_lem R capacity index zero bytes entries r e w = (tt, refl, w)
  store_run_lem R capacity index (suc n) [] entries r e w =
      let nothing = ap length e in
      let behind : length file ≤ index * paged_page_size = omega (
        arith,
        nothing,
        length-take (suc n * paged_page_size) (drop (index * paged_page_size) file),
        length-drop (index * paged_page_size) file,
      ) in
      let (f, l) = missing_Filled (suc n) index behind in (f, l, w)
  store_run_lem R capacity index (suc n) (b ∷ bytes) entries r e w =
      let page = first_page index n (b ∷ bytes) e in
      let stored : R index (take paged_page_size (b ∷ bytes)) =
        subst (R index) (sym page) (r index (omega arith)) in
      let (f, l, w') =
        store_run_lem R capacity (index + 1) n (drop paged_page_size (b ∷ bytes)) _
          (λ i h. r i (omega (arith, h))) (next_bytes index n (b ∷ bytes) e)
          (insert_page-Pages R capacity index _ entries stored w) in
      ((page, f), ap suc l, w')

  -- A request clipped at a known length gives the same bytes.
  pub clipped : (a k m : ℕ) → length file ≤ m → slice a (min (a + k) m - a) file ≡ slice a k file
  clipped a k m h = elim (Bool-cases (ltb m (a + k))) [
    | inr f ↦ let same : min (a + k) m - a ≡ k = ground (arith, f) in ap (λ n. slice a n file) same
    | inl t ↦
        let long : length (drop a file) ≤ min (a + k) m - a =
          ground (arith, t, h, length-drop a file) in
        let long' : length (drop a file) ≤ k = ground (arith, t, h, length-drop a file) in
        take_all _ (drop a file) long ∙ sym (take_all k (drop a file) long')
  ]

  -- Where a run may begin.
  abbrev pub Room : Option ℕ → ℕ → Type 0
  Room none index = Unit
  Room (some m) index = index * paged_page_size ≤ m

  -- What a run gives; a length that it learned shows that the file ends before the run does.
  pub record Fetched (index n : ℕ) (s : PagedBytes) (run : List (Option Page)) (s1 : PagedBytes)
      : Type 0 where
    pub filled : Filled file index run
    pub count : length run ≡ n
    pub coherent : IsCoherent s1
    pub capacity : s1.capacity ≡ s.capacity
    pub change :
        (s1.len ≡ s.len)
        ⊎ ((s.len ≡ none)
            × ((m : ℕ) × (s1.len ≡ some m))
            × (length file < (index + n) * paged_page_size))

  any-IsPage : (m n : ℕ) (i : ℕ) → i < n → IsPage (some m) i (page_of i)
  any-IsPage m n i h = refl

  whole-IsPage :
      (n : ℕ) → n * paged_page_size ≤ length file → (i : ℕ) → i < n → IsPage none i (page_of i)
  whole-IsPage n long i h = (refl, omega (arith, length-page_of i, h, long))

  pub forget-Pages :
      (m : ℕ) (entries : PageCache) → Pages (IsPage none) entries → Pages (IsPage (some m)) entries
  forget-Pages m [] w = tt
  forget-Pages m (e ∷ entries) ((p, l), w) = (p, forget-Pages m entries w)

  -- The reader is `pread` on the file.
  module _ (reader : ℕ → ℕ → Result CoreError (List ℕ))
      (pread : (offset len : ℕ) → reader offset len ≡ ok (slice offset len file)) where
    abbrev Runs : ℕ → ℕ → PagedBytes → Type 0
    Runs index n s =
        (run : List (Option Page)) × (s1 : PagedBytes) × (fetch_run reader index n s ≡ (ok run, s1))
        × Fetched index n s run s1

    times :
        (index n : ℕ)
        → (index + n) * paged_page_size ≡ index * paged_page_size + n * paged_page_size
    times index n = omega arith

    fetch_known :
        (index n m : ℕ) (s : PagedBytes)
        → s.len ≡ some m
        → IsCoherent s
        → index * paged_page_size ≤ m
        → (index + n) * paged_page_size < 2 ^ 64
        → Runs index n s
    unfolding fetch_run accept_run clip learn_len
    fetch_known index n m s e c room word =
        let start = index * paged_page_size in
        let expected = min ((index + n) * paged_page_size) m - start in
        let bytes = slice start expected file in
        let known : length file ≤ m = subst IsKnown e c.known in
        let same : bytes ≡ slice start (n * paged_page_size) file =
          ap (λ x. slice start (min x m - start) file) (times index n)
          ∙ clipped start (n * paged_page_size) m known in
        let stop = wrap_mul_lem (index + n) paged_page_size word in
        let size : wrap_sub (min ((index + n) * paged_page_size) m) start ≡ expected =
          wrap_sub_lem _ start (omega (arith, room)) (omega (arith, word)) in
        let fits : ltb expected (length bytes) ≡ false =
          ground (arith, length-take expected (drop start file)) in
        let within : ltb (n * paged_page_size) (length bytes) ≡ false =
          ground (arith, length-take expected (drop start file)) in
        let pages : Pages (IsPage (some m)) s.cache =
          subst (λ o. Pages (IsPage o) s.cache) e c.pages in
        let (f, l, w) =
          store_run_lem (IsPage (some m)) s.capacity index n bytes s.cache
            (any-IsPage m (index + n)) same pages in
        (
          (store_run s.capacity index n bytes s.cache).0,
          record s { len = some m; cache = (store_run s.capacity index n bytes s.cache).1 },
          elim (Bool-cases (ltb (length bytes) expected)) [
            | inl t ↦
                simp
                  (
                    fetch_run,
                    stop,
                    clip,
                    e,
                    size,
                    pread start expected,
                    accept_run,
                    fits,
                    within,
                    t,
                    learn_len,
                  )
                  refl
            | inr t ↦
                simp
                  (
                    fetch_run,
                    stop,
                    clip,
                    e,
                    size,
                    pread start expected,
                    accept_run,
                    fits,
                    within,
                    t,
                  )
                  refl
          ],
          record {
            filled = f;
            count = l;
            coherent = record { known = known; pages = w };
            capacity = refl;
            change = inl (sym e);
          },
        )

    fetch_unknown :
        (index n : ℕ) (s : PagedBytes)
        → 1 ≤ n
        → s.len ≡ none
        → IsCoherent s
        → (index + n) * paged_page_size < 2 ^ 64
        → Runs index n s
    unfolding fetch_run accept_run clip learn_len
    fetch_unknown index n s one e c word =
        let start = index * paged_page_size in
        let expected = (index + n) * paged_page_size - start in
        let bytes = slice start expected file in
        let size : expected ≡ n * paged_page_size = omega arith in
        let same : bytes ≡ slice start (n * paged_page_size) file =
          ap (λ k. slice start k file) size in
        let stop = wrap_mul_lem (index + n) paged_page_size word in
        let request : wrap_sub ((index + n) * paged_page_size) start ≡ expected =
          wrap_sub_lem _ start (omega arith) word in
        let count = length-take expected (drop start file) in
        let left = length-drop start file in
        let fits : ltb expected (length bytes) ≡ false = ground (arith, count) in
        let within : ltb (n * paged_page_size) (length bytes) ≡ false =
          ground (arith, count, size) in
        let pages : Pages (IsPage none) s.cache = subst (λ o. Pages (IsPage o) s.cache) e c.pages in
        elim (Bool-cases (ltb (length bytes) expected)) [
          | inl t ↦
              let m = start + length bytes in
              let short : length bytes < expected = ground (arith, t) in
              let learned : wrap_add start (length bytes) ≡ m =
                wrap_add_lem start (length bytes) (omega (arith, short, word)) in
              let (f, l, w) =
                store_run_lem (IsPage (some m)) s.capacity index n bytes s.cache
                  (any-IsPage m (index + n)) same (forget-Pages m s.cache pages) in
              (
                (store_run s.capacity index n bytes s.cache).0,
                record s { len = some m; cache = (store_run s.capacity index n bytes s.cache).1 },
                simp
                    (
                      fetch_run,
                      stop,
                      clip,
                      e,
                      request,
                      learned,
                      pread start expected,
                      accept_run,
                      fits,
                      within,
                      t,
                      learn_len,
                    )
                    refl,
                record {
                  filled = f;
                  count = l;
                  coherent = record { known = omega (arith, short, count, left); pages = w };
                  capacity = refl;
                  change = inr (e, (m, refl), omega (arith, short, count, left));
                },
              )
          | inr t ↦
              let long : (index + n) * paged_page_size ≤ length file =
                let full : expected ≤ length bytes = ground (arith, t) in
                omega (arith, full, count, left, size, one) in
              let (f, l, w) =
                store_run_lem (IsPage none) s.capacity index n bytes s.cache
                  (whole-IsPage (index + n) long) same pages in
              (
                (store_run s.capacity index n bytes s.cache).0,
                record s { len = none; cache = (store_run s.capacity index n bytes s.cache).1 },
                simp
                    (
                      fetch_run,
                      stop,
                      clip,
                      e,
                      request,
                      pread start expected,
                      accept_run,
                      fits,
                      within,
                      t,
                    )
                    refl,
                record {
                  filled = f;
                  count = l;
                  coherent = record { known = tt; pages = w };
                  capacity = refl;
                  change = inl (sym e);
                },
              )
        ]

    pub fetch_run_lem :
        (index n : ℕ) (s : PagedBytes)
        → 1 ≤ n
        → IsCoherent s
        → Room s.len index
        → (index + n) * paged_page_size < 2 ^ 64
        → Runs index n s
    fetch_run_lem index n s one c room word = elim (option_cases s.len) [
      | inl e ↦ fetch_unknown index n s one e c word
      | inr (m, e) ↦ fetch_known index n m s e c (subst (λ o. Room o index) e room) word
    ]
