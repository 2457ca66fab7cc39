-- ===== src/Paged.antt =====
-- limnifs-core/src/paged_slab.rs: reads of a remote slab through a cache of pages. `reader` is the
-- transport's `PositionedReader::read_at`. The sentinel of an unknown length is `none`.
pub mod Cache
pub mod Assemble
pub mod Run
pub mod Fill
pub mod Read
pub mod Slab
use limnifs.Prelude.{
  ℕ, zero, suc, ◌+◌, ◌-◌, ◌*◌, ◌/◌, ◌^◌, min, max, Bool, true, false, Option, none, some, List, [],
  ◌∷◌, ◌++◌, Result, ok, err, ltb, leb, ◌==◌, if◌then◌else◌, length, take, drop, replicate, slice,
  wrap_add, wrap_sub, wrap_mul,
}
use limnifs.Error.{CoreError, corrupt, Section, Fault}

abbrev pub Page : Type 0
Page = List ℕ

abbrev pub paged_page_size : ℕ
paged_page_size = 262144

abbrev pub paged_cache_pages : ℕ
paged_cache_pages = 16

-- `entries`, the least recently used in front.
abbrev pub PageCache : Type 0
PageCache = List (ℕ × Page)

unfoldable pub find_page : ℕ → PageCache → Option Page
find_page index [] = none
find_page index ((i, bytes) ∷ entries) = if i == index then some bytes else find_page index entries

unfoldable pub remove_page : ℕ → PageCache → PageCache
remove_page index [] = []
remove_page index ((i, bytes) ∷ entries) =
    if i == index then entries else (i, bytes) ∷ remove_page index entries

-- `PageCache::get`: a hit goes to the back.
unfoldable pub get_page : ℕ → PageCache → Option Page × PageCache
get_page index entries = elim (find_page index entries) [
  | none ↦ (none, entries)
  | some bytes ↦ (some bytes, remove_page index entries ++ ((index, bytes) ∷ []))
]

-- `while entries.len() > capacity { entries.remove(0) }`
unfoldable pub evict_pages : ℕ → PageCache → PageCache
evict_pages capacity [] = []
evict_pages capacity (e ∷ entries) =
    if ltb capacity (length (e ∷ entries)) then evict_pages capacity entries else e ∷ entries

-- `PageCache::insert`
unfoldable pub insert_page : ℕ → ℕ → Page → PageCache → PageCache
unfolding evict_pages remove_page
insert_page capacity index bytes entries =
    evict_pages capacity (remove_page index entries ++ ((index, bytes) ∷ []))

pub record PagedBytes : Type 0 where
  pub len : Option ℕ
  pub cache : PageCache
  pub capacity : ℕ

unfoldable pub with_cache_pages : ℕ → PagedBytes
with_cache_pages cache_pages = record { len = none; cache = []; capacity = cache_pages }

unfoldable pub set_len : ℕ → PagedBytes → PagedBytes
set_len n s = record s { len = some n }

-- Only the first observation counts.
unfoldable pub learn_len : ℕ → Option ℕ → Option ℕ
learn_len n none = some n
learn_len n (some known) = some known

-- `match self.len() { Some(known) => end.min(known), None => end }`
unfoldable pub clip : ℕ → Option ℕ → ℕ
clip end none = end
clip end (some known) = min end known

-- The first loop: the pages that the cache has, from `index` on.
unfoldable pub look_up : ℕ → ℕ → PageCache → List (Option Page) × PageCache
unfolding get_page
look_up index zero entries = ([], entries)
look_up index (suc n) entries =
    let (page, entries1) = get_page index entries in
    let (pages, entries2) = look_up (index + 1) n entries1 in (page ∷ pages, entries2)

-- How many pages in front are missing.
unfoldable pub run_length : List (Option Page) → ℕ
run_length [] = 0
run_length (none ∷ pages) = suc (run_length pages)
run_length (some p ∷ pages) = 0

-- The chunks of fetched bytes as the pages of a run, each put into the cache.
unfoldable pub store_run : ℕ → ℕ → ℕ → List ℕ → PageCache → List (Option Page) × PageCache
unfolding insert_page
store_run capacity index zero bytes entries = ([], entries)
store_run capacity index (suc n) [] entries = (replicate (suc n) none, entries)
store_run capacity index (suc n) (b ∷ bytes) entries =
    let page = take paged_page_size (b ∷ bytes) in
    let (pages, entries1) =
      store_run capacity (index + 1) n (drop paged_page_size (b ∷ bytes))
        (insert_page capacity index page entries) in
    (some page ∷ pages, entries1)

-- What a step gives, and the state it leaves; an error leaves a state too.
abbrev pub Step : Type 0 → Type 0
Step A = Result CoreError A × PagedBytes

-- What follows the reader's answer to a request of `expected` bytes. Bytes of more pages than the run
-- has, which only a wrapped `expected` lets by, are an index out of bounds.
unfoldable pub accept_run :
    ℕ → ℕ → ℕ → PagedBytes → Result CoreError (List ℕ) → Step (List (Option Page))
unfolding store_run learn_len wrap_add
accept_run index n expected s (err e) = (err e, s)
accept_run index n expected s (ok bytes) =
    if ltb expected (length bytes)
    then (err (corrupt Section.paged Fault.overrun), s)
    else if ltb (n * paged_page_size) (length bytes)
    then (err (corrupt Section.paged Fault.panic), s)
    else let len =
        if ltb (length bytes) expected
        then learn_len (wrap_add (index * paged_page_size) (length bytes)) s.len
        else s.len in
      let (pages, entries) = store_run s.capacity index n bytes s.cache in
      (ok pages, record s { len = len; cache = entries })

-- Pages in front of those that the rest of the loop leaves.
unfoldable pub join_pages :
    List (Option Page) → Step (List (Option Page)) → Step (List (Option Page))
join_pages pages (err e, s) = (err e, s)
join_pages pages (ok filled, s) = (ok (pages ++ filled), s)

-- The third loop: the bytes of the range, up to the first page that is missing or short.
unfoldable pub assemble : ℕ → ℕ → ℕ → List (Option Page) → List ℕ
unfolding wrap_add wrap_sub
assemble offset end index [] = []
assemble offset end index (none ∷ pages) = []
assemble offset end index (some p ∷ pages) =
    let page_start = index * paged_page_size in
    let from = max offset page_start - page_start in
    let to = wrap_sub (min end (wrap_add page_start paged_page_size)) page_start in
    let available = min (length p) to in
    let rest = assemble offset end (index + 1) pages in
    if leb available from
    then []
    else slice from (available - from) p ++ (if ltb available to then [] else rest)

module _ (reader : ℕ → ℕ → Result CoreError (List ℕ)) where
  -- One run of missing pages. Its first page begins inside the range, so its offset fits 64 bits.
  unfoldable pub fetch_run : ℕ → ℕ → PagedBytes → Step (List (Option Page))
  unfolding clip accept_run wrap_mul wrap_sub
  fetch_run index n s =
      let fetch_offset = index * paged_page_size in
      let fetch_end = clip (wrap_mul (index + n) paged_page_size) s.len in
      let expected = wrap_sub fetch_end fetch_offset in
      accept_run index n expected s (reader fetch_offset expected)

  -- The second loop, with fuel: the pages from `index` on, missing ones fetched run by run.
  unfoldable pub fill : ℕ → ℕ → List (Option Page) → PagedBytes → Step (List (Option Page))
  unfolding fetch_run run_length join_pages
  fill zero index pages s = (ok pages, s)
  fill (suc fuel) index [] s = (ok [], s)
  fill (suc fuel) index (some p ∷ pages) s =
      join_pages (some p ∷ []) (fill fuel (index + 1) pages s)
  fill (suc fuel) index (none ∷ pages) s =
      let n = suc (run_length pages) in
      let (run, s1) = fetch_run index n s in
      elim run [
        | err e ↦ (err e, s1)
        | ok fetched ↦ join_pages fetched (fill fuel (index + n) (drop n (none ∷ pages)) s1)
      ]

  -- The three loops over the pages of a range that is not empty.
  unfoldable pub read_pages : ℕ → ℕ → PagedBytes → Step (List ℕ)
  unfolding look_up fill assemble
  read_pages offset end s =
      let first = offset / paged_page_size in
      let count = (end - 1) / paged_page_size - first + 1 in
      let (pages, entries) = look_up first count s.cache in
      let (filled, s1) = fill count first pages (record s { cache = entries }) in
      elim filled [ err e ↦ (err e, s1) | ok full ↦ (ok (assemble offset end first full), s1) ]

  unfoldable pub read_at : ℕ → ℕ → PagedBytes → Step (List ℕ)
  unfolding read_pages clip
  read_at offset len s =
      if leb (2 ^ 64) (offset + len)
      then (err (corrupt Section.paged Fault.overflow), s)
      else if offset + len == offset
      then (ok [], s)
      else if leb (clip (offset + len) s.len) offset
      then (ok [], s)
      else read_pages offset (clip (offset + len) s.len) s
