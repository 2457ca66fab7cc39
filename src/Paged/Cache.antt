-- ===== src/Paged/Cache.antt =====
-- limnifs-core/src/paged_slab.rs: the page cache's operations on what its pages are.
use limnifs.Prelude.{
  ℕ, zero, suc, ◌+◌, ◌≤◌, ◌≡◌, refl, subst, inl, inr, Bool-cases, option_cases, Option, none, some,
  List, [], ◌∷◌, arith, ltb, ◌==◌, ==_iff, length, All, All-append,
}
use limnifs.Paged.{
  Page, PageCache, find_page, remove_page, get_page, evict_pages, insert_page, look_up,
}

-- Pages of which `P` holds at their index.
abbrev pub Pages : (ℕ → Page → Type 0) → PageCache → Type 0
Pages P entries = All (λ e. P e.0 e.1) entries

-- The page in a slot, if there is one.
abbrev pub IsSlot : (ℕ → Page → Type 0) → ℕ → Option Page → Type 0
IsSlot P index none = Unit
IsSlot P index (some p) = P index p

-- The slots from `index` on.
abbrev pub Slots : (ℕ → Page → Type 0) → ℕ → List (Option Page) → Type 0
Slots P index [] = Unit
Slots P index (o ∷ slots) = IsSlot P index o × Slots P (index + 1) slots

module _ (P : ℕ → Page → Type 0) where
  find_page-IsSlot :
      (index : ℕ) (entries : PageCache) → Pages P entries → IsSlot P index (find_page index entries)
  unfolding find_page
  find_page-IsSlot index [] w = tt
  find_page-IsSlot index ((i, bytes) ∷ entries) (p, w) = elim (Bool-cases (i == index)) [
    | inl t ↦ rw t (subst (λ j. P j bytes) ((==_iff i index).0 t) p)
    | inr f ↦ rw f (find_page-IsSlot index entries w)
  ]

  remove_page-Pages :
      (index : ℕ) (entries : PageCache) → Pages P entries → Pages P (remove_page index entries)
  unfolding remove_page
  remove_page-Pages index [] w = tt
  remove_page-Pages index ((i, bytes) ∷ entries) (p, w) = elim (Bool-cases (i == index)) [
    | inl t ↦ rw t w
    | inr f ↦ rw f (p, remove_page-Pages index entries w)
  ]

  evict_pages-Pages :
      (n : ℕ) (entries : PageCache) → Pages P entries → Pages P (evict_pages n entries)
  unfolding evict_pages
  evict_pages-Pages n [] w = tt
  evict_pages-Pages n (e ∷ entries) (p, w) = elim (Bool-cases (ltb n (length (e ∷ entries)))) [
    | inl t ↦ rw t (evict_pages-Pages n entries w)
    | inr f ↦ rw f (p, w)
  ]

  pub insert_page-Pages :
      (capacity index : ℕ) (bytes : Page) (entries : PageCache)
      → P index bytes
      → Pages P entries
      → Pages P (insert_page capacity index bytes entries)
  unfolding insert_page
  insert_page-Pages capacity index bytes entries p w =
      evict_pages-Pages capacity _
        (All-append (λ e. P e.0 e.1) _ _ (remove_page-Pages index entries w) (p, tt))

  get_page_lem :
      (index : ℕ) (entries : PageCache)
      → Pages P entries
      → IsSlot P index (get_page index entries).0 × Pages P (get_page index entries).1
  unfolding get_page
  get_page_lem index entries w = elim (option_cases (find_page index entries)) [
    | inl e ↦ simp (get_page, e) (tt, w)
    | inr (bytes, e) ↦
        let p : P index bytes = subst (IsSlot P index) e (find_page-IsSlot index entries w) in
        simp (get_page, e)
          (p, All-append (λ e. P e.0 e.1) _ _ (remove_page-Pages index entries w) (p, tt))
  ]

  -- What the first loop finds has `P`, and so does the cache it leaves.
  pub look_up_lem :
      (index n : ℕ) (entries : PageCache)
      → Pages P entries
      → Slots P index (look_up index n entries).0
        × Pages P (look_up index n entries).1
        × (length (look_up index n entries).0 ≡ n)
  unfolding look_up
  look_up_lem index zero entries w = (tt, w, refl)
  look_up_lem index (suc n) entries w =
      let (slot, w1) = get_page_lem index entries w in
      let (slots, w2, l) = look_up_lem (index + 1) n (get_page index entries).1 w1 in
      ((slot, slots), w2, omega (arith, l))

-- The cache never holds more pages than its capacity after an insertion.
pub length-evict_pages : (n : ℕ) (entries : PageCache) → length (evict_pages n entries) ≤ n
unfolding evict_pages
length-evict_pages n [] = omega arith
length-evict_pages n (e ∷ entries) = elim (Bool-cases (ltb n (length (e ∷ entries)))) [
  | inl t ↦ rw t (length-evict_pages n entries)
  | inr f ↦ rw f (ground (arith, f))
]
