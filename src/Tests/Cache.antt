-- ===== src/Tests/Cache.antt =====
-- The theorems on the cache (limnifs-core/src/slab_cache.rs) at a small cache.
use limnifs.Prelude.{
  ℕ, ◌+◌, ◌≤◌, ◌<◌, max, ◌≡◌, refl, ◌⊎◌, bytes_eq, true, false, Option, none, some, List, [], ◌∷◌,
  Result, ok, if◌then◌else◌, length,
}
use limnifs.Error.{CoreError}
use limnifs.Cache.{SieveCache, new, get, insert, decoded}
use limnifs.Cache.Table.{Key, same, has, lookup, total}
use limnifs.Cache.Invariant.{IsWellFormed, Updates, insert_lem}
use limnifs.Cache.Coherence.{
  Reachable, created, looked_up, inserted, Reachable-IsWellFormed, Reachable-bounded, Coherent,
  insert-Coherent, decoded_lem,
}

abbrev first : Key
first = 1 ∷ []

abbrev second : Key
second = 2 ∷ []

abbrev empty : SieveCache
empty = new 2 8

abbrev one : SieveCache
one = (insert first (5 ∷ 6 ∷ []) empty).1

abbrev read_once : SieveCache
read_once = (get first one).1

one-Reachable : Reachable 2 8 one
one-Reachable = inserted first (5 ∷ 6 ∷ []) empty created

read_once-Reachable : Reachable 2 8 read_once
read_once-Reachable = looked_up first one one-Reachable

Reachable-bounded_example :
    (read_once.bytes ≡ total read_once.entries)
    × (total read_once.entries ≤ 8)
    × (length read_once.entries ≤ max 2 1)
    × ((key : Key) → has key read_once.order ≡ has key read_once.entries)
Reachable-bounded_example = Reachable-bounded 2 8 read_once read_once-Reachable

read_once_well : IsWellFormed read_once
read_once_well = (Reachable-IsWellFormed 2 8 read_once read_once-Reachable).0

abbrev wide : List ℕ
wide = 1 ∷ 2 ∷ 3 ∷ 4 ∷ 5 ∷ 6 ∷ 7 ∷ []

insert_lem_example :
    ((read_once.byte_budget < length wide)
      × (insert second wide read_once
          ≡ (false, record read_once { bypassed = read_once.bypassed + 1 })))
    ⊎ ((length wide ≤ read_once.byte_budget)
        × ((insert second wide read_once).0 ≡ true)
        × IsWellFormed (insert second wide read_once).1
        × Updates second wide read_once (insert second wide read_once).1)
insert_lem_example = insert_lem second wide read_once read_once_well

abbrev fetch : Key → Option (Result CoreError (List ℕ))
fetch key = if same key first then some (ok (5 ∷ 6 ∷ [])) else none

empty-Coherent : Coherent fetch empty
unfolding new lookup
empty-Coherent key v e = cc

one-Coherent : Coherent fetch one
unfolding bytes_eq
one-Coherent =
    insert-Coherent fetch first (5 ∷ 6 ∷ []) empty (Reachable-IsWellFormed 2 8 empty created).0 refl
      empty-Coherent

decoded_lem_example :
    ((decoded fetch first one).0 ≡ fetch first)
    × IsWellFormed (decoded fetch first one).1
    × Coherent fetch (decoded fetch first one).1
decoded_lem_example =
    decoded_lem fetch first one (Reachable-IsWellFormed 2 8 one one-Reachable).0 one-Coherent
