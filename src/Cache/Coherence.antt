-- ===== src/Cache/Coherence.antt =====
-- limnifs-core/src/slab_cache.rs: the cache over the life of a store, and the reads through it.
use limnifs.Prelude.{
  ℕ, ◌≤◌, max, ◌≡◌, refl, sym, subst, ◌∙◌, inl, inr, Option, some, List, arith, Result, ok, err,
  length,
}
use limnifs.Error.{CoreError}
use limnifs.Cache.{SieveCache, new, get, insert, decoded, decoded_fetch_insert}
use limnifs.Cache.Table.{Key, lookup, has, total}
use limnifs.Cache.Evict.{lookup-cases, option-cases}
use limnifs.Cache.Invariant.{IsWellFormed, insert_lem, get_lem, bypassed_IsWellFormed}

-- The caches that calls of `get` and `insert` lead to from a new one, in any order.
pub data Reachable (n b : ℕ) : SieveCache → Type 0 where
  created : Reachable n b (new n b)
  looked_up : (key : Key) (s : SieveCache) → Reachable n b s → Reachable n b (get key s).1
  inserted :
      (key : Key) (v : List ℕ) (s : SieveCache) → Reachable n b s → Reachable n b (insert key v s).1

new-IsWellFormed : (n b : ℕ) → IsWellFormed (new n b)
unfolding new total has
new-IsWellFormed n b = record {
  consistent = record { counted = refl; keys = tt; slots = tt; queued = λ key. refl };
  in_budget = omega arith;
  in_capacity = omega arith;
}

updated_IsWellFormed :
    (key : Key) (v : List ℕ) (s : SieveCache)
    → IsWellFormed s
    → IsWellFormed (insert key v s).1
      × ((insert key v s).1.byte_budget ≡ s.byte_budget)
      × ((insert key v s).1.entry_capacity ≡ s.entry_capacity)
updated_IsWellFormed key v s w = elim (insert_lem key v s w) [
  | inl (_, e) ↦ rw e (bypassed_IsWellFormed s _ w, refl, refl)
  | inr (_, _, w', k) ↦ (w', k.budget, k.capacity)
]

-- The invariant, and the bounds of the first cache.
pub Reachable-IsWellFormed :
    (n b : ℕ) (s : SieveCache)
    → Reachable n b s
    → IsWellFormed s × (s.byte_budget ≡ b) × (s.entry_capacity ≡ max n 1)
unfolding new
Reachable-IsWellFormed n b _ created = (new-IsWellFormed n b, refl, refl)
Reachable-IsWellFormed n b _ (looked_up key s r) =
    let (w, budget, capacity) = Reachable-IsWellFormed n b s r in
    let (w', _, sameb, samec, _) = get_lem key s w in (w', sameb ∙ budget, samec ∙ capacity)
Reachable-IsWellFormed n b _ (inserted key v s r) =
    let (w, budget, capacity) = Reachable-IsWellFormed n b s r in
    let (w', sameb, samec) = updated_IsWellFormed key v s w in
    (w', sameb ∙ budget, samec ∙ capacity)

-- In every cache that lookups and insertions lead to from a new one, the counted bytes are the sum of
-- the values' lengths and within the budget, the entries are within the capacity (at least one), and a
-- key has a slot in the queue exactly when it has a value.
pub Reachable-bounded :
    (entry_capacity byte_budget : ℕ) (s : SieveCache)
    → Reachable entry_capacity byte_budget s
    → (s.bytes ≡ total s.entries)
      × (total s.entries ≤ byte_budget)
      × (length s.entries ≤ max entry_capacity 1)
      × ((key : Key) → has key s.order ≡ has key s.entries)
Reachable-bounded n b s r =
    let (w, budget, capacity) = Reachable-IsWellFormed n b s r in
    let counted = w.consistent.counted in
    (
      counted,
      omega (arith, counted, budget, w.in_budget),
      subst (λ x. length s.entries ≤ x) capacity w.in_capacity,
      w.consistent.queued,
    )

-- Every value in the cache is what `fetch` gives for its key.
abbrev pub Coherent : (Key → Option (Result CoreError (List ℕ))) → SieveCache → Type 0
Coherent fetch s =
    (key : Key) (v : List ℕ) → lookup key s.entries ≡ some v → fetch key ≡ some (ok v)

-- An accepted value of the store keeps the coherence.
pub insert-Coherent :
    (fetch : Key → Option (Result CoreError (List ℕ))) (key : Key) (v : List ℕ) (s : SieveCache)
    → IsWellFormed s
    → fetch key ≡ some (ok v)
    → Coherent fetch s
    → Coherent fetch (insert key v s).1
insert-Coherent fetch key v s w e c = elim (insert_lem key v s w) [
  | inl (_, same) ↦ λ j u f. c j u (rw same at f)
  | inr (_, _, _, k) ↦
      λ j u f. elim (k.values j u f) [ inl (j_key, u_v) ↦ rw (j_key, u_v) e | inr old ↦ c j u old ]
]

fetched_lem :
    (fetch : Key → Option (Result CoreError (List ℕ))) (key : Key) (s : SieveCache)
    → IsWellFormed s
    → Coherent fetch s
    → ((decoded_fetch_insert fetch key s).0 ≡ fetch key)
      × IsWellFormed (decoded_fetch_insert fetch key s).1
      × Coherent fetch (decoded_fetch_insert fetch key s).1
unfolding decoded_fetch_insert
fetched_lem fetch key s w c = elim (option-cases (fetch key)) [
  | inl gone ↦ simp (decoded_fetch_insert, gone) (refl, w, c)
  | inr (ok v, found) ↦
      simp (decoded_fetch_insert, found)
        (refl, (updated_IsWellFormed key v s w).0, insert-Coherent fetch key v s w found c)
  | inr (err e, found) ↦ simp (decoded_fetch_insert, found) (refl, w, c)
]

-- A read through a well-formed cache whose values are those of the store gives what the store gives,
-- an absent drop and an error included, and leaves such a cache.
pub decoded_lem :
    (fetch : Key → Option (Result CoreError (List ℕ))) (key : Key) (s : SieveCache)
    → IsWellFormed s
    → Coherent fetch s
    → ((decoded fetch key s).0 ≡ fetch key)
      × IsWellFormed (decoded fetch key s).1
      × Coherent fetch (decoded fetch key s).1
unfolding decoded
decoded_lem fetch key s w c =
    let (w', entries, _, _, answer) = get_lem key s w in
    let c' : Coherent fetch (get key s).1 =
      λ j v e. c j v (subst (λ es. lookup j es ≡ some v) entries e) in
    elim (lookup-cases key s.entries) [
      | inl gone ↦
          let miss = answer ∙ gone in
          simp (decoded, miss) (fetched_lem fetch key (get key s).1 w' c')
      | inr (v, found) ↦
          let hit = answer ∙ found in simp (decoded, hit) (sym (c key v found), w', c')
    ]
