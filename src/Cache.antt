-- ===== src/Cache.antt =====
-- limnifs-core/src/slab_cache.rs: the bounded cache of decoded drops and frames, and its hand. A
-- hash map is an association list whose order nothing observes; a key is its 32 bytes, a value its
-- bytes (`Arc` shares them unchanged).
pub mod Table
pub mod Evict
pub mod Invariant
pub mod Coherence
use limnifs.Error.{CoreError}
use limnifs.Prelude.{
  Result, ok, err, ℕ, zero, suc, ◌+◌, ◌-◌, ◌*◌, max, Bool, true, false, not, ◌||◌, Option, none,
  some, List, [], ◌∷◌, ◌++◌, ltb, if◌then◌else◌, length,
}
use Table.{Key, same, lookup, put, remove}

pub record SieveCache : Type 0 where
  pub entries : List (Key × List ℕ)
  pub order : List (Key × Bool)
  pub entry_capacity : ℕ
  pub byte_budget : ℕ
  pub bytes : ℕ
  pub hits : ℕ
  pub misses : ℕ
  pub evictions : ℕ
  pub bypassed : ℕ

unfoldable pub new : ℕ → ℕ → SieveCache
new entry_capacity byte_budget = record {
  entries = [];
  order = [];
  entry_capacity = max entry_capacity 1;
  byte_budget = byte_budget;
  bytes = 0;
  hits = 0;
  misses = 0;
  evictions = 0;
  bypassed = 0;
}

-- The scan from the newest slot that sets the visited bit of `key` and stops; whether it did.
unfoldable pub mark : Key → List (Key × Bool) → List (Key × Bool) × Bool
mark key [] = ([], false)
mark key ((k, visited) ∷ slots) =
    let (slots', done) = mark key slots in
    if done
    then ((k, visited) ∷ slots', true)
    else if same k key
    then ((k, true) ∷ slots, true)
    else ((k, visited) ∷ slots, false)

unfoldable pub get : Key → SieveCache → Option (List ℕ) × SieveCache
unfolding mark
get key s = elim (lookup key s.entries) [
  | some v ↦ (some v, record s { hits = s.hits + 1; order = (mark key s.order).0 })
  | none ↦ (none, record s { misses = s.misses + 1 })
]

-- The condition of the eviction loop.
unfoldable pub over : SieveCache → Bool
over s = ltb s.byte_budget s.bytes || ltb s.entry_capacity (length s.entries)

-- One round: the oldest slot is rotated if it was visited, and evicted if not.
unfoldable pub evict_slot : SieveCache → Key → Bool → List (Key × Bool) → SieveCache
evict_slot s key true rest = record s { order = rest ++ ((key, false) ∷ []) }
evict_slot s key false rest = elim (lookup key s.entries) [
  | none ↦ record s { order = rest }
  | some v ↦ record s {
    order = rest;
    entries = remove key s.entries;
    bytes = s.bytes - length v;
    evictions = s.evictions + 1;
  }
]

-- The loop, with fuel; it also stops where no slot is left.
unfoldable pub evict : ℕ → SieveCache → SieveCache
unfolding over evict_slot
evict zero s = s
evict (suc fuel) s = elim (over s) [
  | false ↦ s
  | true ↦ elim s.order [
    | [] ↦ s
    | (key, visited) ∷ rest ↦ evict fuel (evict_slot s key visited rest)
  ]
]

-- Each round evicts a slot or clears a bit, so twice the slots are rounds enough.
unfoldable pub evict_until_fits : SieveCache → SieveCache
unfolding evict
evict_until_fits s = evict (2 * length s.order + 1) s

-- `HashMap::insert` and, for a key that was there, the visited bit; the value that was replaced.
unfoldable pub insert_entry : Key → List ℕ → SieveCache → Option (List ℕ) × SieveCache
unfolding mark
insert_entry key value s = elim (lookup key s.entries) [
  | some old ↦
      (some old, record s { entries = put key value s.entries; order = (mark key s.order).0 })
  | none ↦ (none, record s { entries = put key value s.entries })
]

-- The bookkeeping behind `insert_entry`.
unfoldable pub account : Key → List ℕ → Option (List ℕ) × SieveCache → SieveCache
account key value (some old, s) = record s { bytes = s.bytes - length old + length value }
account key value (none, s) = record s {
  order = s.order ++ ((key, false) ∷ []);
  bytes = s.bytes + length value;
}

unfoldable pub insert : Key → List ℕ → SieveCache → Bool × SieveCache
unfolding insert_entry account evict_until_fits
insert key value s =
    if ltb s.byte_budget (length value)
    then (false, record s { bypassed = s.bypassed + 1 })
    else (true, evict_until_fits (account key value (insert_entry key value s)))

unfoldable pub len : SieveCache → ℕ
len s = length s.entries

pub record CacheStats : Type 0 where
  pub hits : ℕ
  pub misses : ℕ
  pub evictions : ℕ
  pub bypassed : ℕ
  pub entries : ℕ
  pub bytes : ℕ
  pub byte_budget : ℕ
  pub entry_capacity : ℕ

unfoldable pub stats : SieveCache → CacheStats
stats s = record {
  hits = s.hits;
  misses = s.misses;
  evictions = s.evictions;
  bypassed = s.bypassed;
  entries = length s.entries;
  bytes = s.bytes;
  byte_budget = s.byte_budget;
  entry_capacity = s.entry_capacity;
}

-- `CachedSlabStore::decoded` over the drop cache: `fetch` is `SlabStore::plaintext_for`, on a store
-- that no read changes.
module _ (fetch : Key → Option (Result CoreError (List ℕ))) where
  unfoldable pub decoded_fetch_insert :
      Key → SieveCache → Option (Result CoreError (List ℕ)) × SieveCache
  decoded_fetch_insert key s = elim (fetch key) [
    | none ↦ (none, s)
    | some r ↦ elim r [
      | err e ↦ (some (err e), s)
      | ok bytes ↦ (some (ok bytes), (insert key bytes s).1)
    ]
  ]

  unfoldable pub decoded : Key → SieveCache → Option (Result CoreError (List ℕ)) × SieveCache
  decoded key s =
      let (hit, s') = get key s in
      elim hit [ some v ↦ (some (ok v), s') | none ↦ decoded_fetch_insert key s' ]
