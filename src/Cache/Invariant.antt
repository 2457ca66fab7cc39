-- ===== src/Cache/Invariant.antt =====
-- limnifs-core/src/slab_cache.rs: the invariant of the cache under its operations.
use limnifs.Prelude.{
  ℕ, ◌+◌, ◌-◌, ◌*◌, ◌≤◌, ◌<◌, ◌≡◌, refl, sym, subst, ◌∙◌, ◌⊎◌, inl, inr, Bool, true, false, ◌||◌,
  none, some, List, [], ◌∷◌, ◌++◌, arith, ltb, ltb→lt, Bool-cases, length,
}
use limnifs.Cache.{
  SieveCache, mark, get, over, evict, evict_until_fits, insert_entry, account, insert,
}
use limnifs.Cache.Table.{
  Key, same, same_iff, lookup, put, has, Distinct, total, size, total-put, total-remove,
  Distinct-rotate, Distinct-put, has-put, has-append, lookup-has, lookup-put, has_of_lookup,
}
use limnifs.Cache.Evict.{Consistent, Shrinks, rounds, rounds-le, evict_lem, lookup-cases}

-- The queue holds the keys of the map, the counted bytes are the bytes of its values, and neither
-- bound is exceeded.
pub record IsWellFormed (s : SieveCache) : Type 0 where
  pub consistent : Consistent s
  pub in_budget : s.bytes ≤ s.byte_budget
  pub in_capacity : length s.entries ≤ s.entry_capacity

pub has-mark : (key j : Key) (slots : List (Key × Bool)) → has j (mark key slots).0 ≡ has j slots
unfolding mark has
has-mark key j [] = refl
has-mark key j ((k, b) ∷ slots) = elim (Bool-cases (mark key slots).1) [
  | inl t ↦ rw (t, has-mark key j slots) refl
  | inr f ↦ rw f (elim (Bool-cases (same k key)) [ inl t ↦ rw t refl | inr g ↦ rw g refl ])
]

Distinct-mark :
    (key : Key) (slots : List (Key × Bool)) → Distinct slots → Distinct (mark key slots).0
unfolding mark
Distinct-mark key [] d = tt
Distinct-mark key ((k, b) ∷ slots) (n, d) = elim (Bool-cases (mark key slots).1) [
  | inl t ↦ rw t (has-mark key k slots ∙ n, Distinct-mark key slots d)
  | inr f ↦ rw f (elim (Bool-cases (same k key)) [ inl t ↦ rw t (n, d) | inr g ↦ rw g (n, d) ])
]

-- Only the bounds matter for `over`.
fits :
    (s : SieveCache)
    → over s ≡ false
    → (s.bytes ≤ s.byte_budget) × (length s.entries ≤ s.entry_capacity)
unfolding over
fits s h = (ground arith, ground arith)

until_fits_lem :
    (s : SieveCache)
    → Consistent s
    → IsWellFormed (evict_until_fits s) × Shrinks s (evict_until_fits s)
unfolding evict_until_fits
until_fits_lem s c =
    let fuel = 2 * length s.order + 1 in
    let enough : rounds s.order < fuel = omega (arith, rounds-le s.order) in
    let (c', f, k) = evict_lem fuel s enough c in
    let (b, n) = fits (evict fuel s) f in
    (record { consistent = c'; in_budget = b; in_capacity = n }, k)

replaced_bytes :
    (key : Key) (v old : List ℕ) (es : List (Key × List ℕ)) (n : ℕ)
    → n ≡ total es
    → lookup key es ≡ some old
    → n - length old + length v ≡ total (put key v es)
replaced_bytes key v old es n e found =
    let change : length v + total es ≡ total (put key v es) + length old =
      subst (λ o. length v + total es ≡ total (put key v es) + size o) found (total-put key v es) in
    omega (arith, e, total-remove key old es found)

added_bytes :
    (key : Key) (v : List ℕ) (es : List (Key × List ℕ)) (n : ℕ)
    → n ≡ total es
    → lookup key es ≡ none
    → n + length v ≡ total (put key v es)
added_bytes key v es n e gone =
    let change : length v + total es ≡ total (put key v es) + 0 =
      subst (λ o. length v + total es ≡ total (put key v es) + size o) gone (total-put key v es) in
    omega (arith, e)

seen_key :
    (key j : Key) (es : List (Key × List ℕ))
    → has key es ≡ true
    → (same key j || has j es) ≡ has j es
seen_key key j es h = ground (arith, same_iff key j)

not_there : (key : Key) (es : List (Key × List ℕ)) → lookup key es ≡ none → has key es ≡ false
not_there key es e = elim (Bool-cases (has key es)) [
  | inl t ↦ let (v, found) = lookup-has key es t in cc
  | inr f ↦ f
]

-- A new key gets a value and a slot.
fresh_Consistent :
    (key : Key) (v : List ℕ) (s : SieveCache)
    → Consistent s
    → lookup key s.entries ≡ none
    → Consistent (record s {
      entries = put key v s.entries;
      order = s.order ++ ((key, false) ∷ []);
      bytes = s.bytes + length v;
    })
unfolding has
fresh_Consistent key v s c gone =
    let absent = not_there key s.entries gone in
    record {
      counted = added_bytes key v s.entries s.bytes c.counted gone;
      keys = Distinct-put key v s.entries c.keys;
      slots = Distinct-rotate key false s.order (c.queued key ∙ absent) c.slots;
      queued = λ j.
          ground (
            arith,
            has-append j s.order ((key, false) ∷ []),
            has-put key j v s.entries,
            c.queued j,
          );
    }

-- The new value in place: for a key of the map, and for a new key with its slot.
inserted_Consistent :
    (key : Key) (v : List ℕ) (s : SieveCache)
    → Consistent s
    → Consistent (account key v (insert_entry key v s))
unfolding account insert_entry
inserted_Consistent key v s c = elim (lookup-cases key s.entries) [
  | inl gone ↦ rw (insert_entry, gone) (fresh_Consistent key v s c gone)
  | inr (old, found) ↦
      let there = has_of_lookup key s.entries old found in
      simp (insert_entry, account, found)
        (record {
          counted = replaced_bytes key v old s.entries s.bytes c.counted found;
          keys = Distinct-put key v s.entries c.keys;
          slots = Distinct-mark key s.order c.slots;
          queued = λ j.
              has-mark key j s.order
              ∙ c.queued j
              ∙ sym (has-put key j v s.entries ∙ seen_key key j s.entries there);
        })
]

-- The lookups of the map after the insertion and before the eviction.
inserted_entries :
    (key : Key) (v : List ℕ) (s : SieveCache)
    → ((account key v (insert_entry key v s)).entries ≡ put key v s.entries)
      × ((account key v (insert_entry key v s)).byte_budget ≡ s.byte_budget)
      × ((account key v (insert_entry key v s)).entry_capacity ≡ s.entry_capacity)
unfolding account insert_entry
inserted_entries key v s = elim (lookup-cases key s.entries) [
  | inl gone ↦ simp (insert_entry, account, gone) (refl, refl, refl)
  | inr (old, found) ↦ simp (insert_entry, account, found) (refl, refl, refl)
]

-- What an insertion may change: no bound, and of the values only the one of its key.
pub record Updates (key : Key) (v : List ℕ) (s t : SieveCache) : Type 0 where
  pub values :
      (j : Key) (w : List ℕ)
      → lookup j t.entries ≡ some w
      → ((j ≡ key) × (w ≡ v)) ⊎ (lookup j s.entries ≡ some w)
  pub budget : t.byte_budget ≡ s.byte_budget
  pub capacity : t.entry_capacity ≡ s.entry_capacity

some_eq : {V : Type 0} → {v w : V} → some v ≡ some w → v ≡ w
some_eq e = cc

put_values :
    (key j : Key) (v w : List ℕ) (es : List (Key × List ℕ))
    → lookup j (put key v es) ≡ some w
    → ((j ≡ key) × (w ≡ v)) ⊎ (lookup j es ≡ some w)
put_values key j v w es e =
    let e' = lookup-put key j v es in
    elim (Bool-cases (same key j)) [
      | inl t ↦ inl (sym ((same_iff key j).0 t), some_eq (sym e ∙ (e' ∙ rw t refl)))
      | inr f ↦ inr (ground arith)
    ]

-- A value above the budget is turned down, with the cache as it was but for the count of such values;
-- any other is accepted, after which the cache is well formed, its bounds are as they were, and every
-- value in it is the new one under its key or one that was there.
pub insert_lem :
    (key : Key) (v : List ℕ) (s : SieveCache)
    → IsWellFormed s
    → ((s.byte_budget < length v)
        × (insert key v s ≡ (false, record s { bypassed = s.bypassed + 1 })))
      ⊎ ((length v ≤ s.byte_budget)
          × ((insert key v s).0 ≡ true)
          × IsWellFormed (insert key v s).1
          × Updates key v s (insert key v s).1)
unfolding insert
insert_lem key v s w = elim (Bool-cases (ltb s.byte_budget (length v))) [
  | inl t ↦ inl (ltb→lt _ _ t, rw t refl)
  | inr f ↦
      let next = account key v (insert_entry key v s) in
      let (entries, budget, capacity) = inserted_entries key v s in
      let (w', k) = until_fits_lem next (inserted_Consistent key v s w.consistent) in
      inr (
        ground arith,
        rw f refl,
        rw f w',
        rw f (record {
          values = λ j u e.
              put_values key j v u s.entries
                (subst (λ es. lookup j es ≡ some u) entries (k.values j u e));
          budget = k.budget ∙ budget;
          capacity = k.capacity ∙ capacity;
        }),
      )
]

-- A miss.
renew : (s : SieveCache) (n : ℕ) → IsWellFormed s → IsWellFormed (record s { misses = n })
renew s n w = record {
  consistent = record {
    counted = w.consistent.counted;
    keys = w.consistent.keys;
    slots = w.consistent.slots;
    queued = w.consistent.queued;
  };
  in_budget = w.in_budget;
  in_capacity = w.in_capacity;
}

-- A value that was turned down.
pub bypassed_IsWellFormed :
    (s : SieveCache) (n : ℕ) → IsWellFormed s → IsWellFormed (record s { bypassed = n })
bypassed_IsWellFormed s n w = record {
  consistent = record {
    counted = w.consistent.counted;
    keys = w.consistent.keys;
    slots = w.consistent.slots;
    queued = w.consistent.queued;
  };
  in_budget = w.in_budget;
  in_capacity = w.in_capacity;
}

-- A hit.
marked :
    (key : Key) (s : SieveCache) (n : ℕ)
    → IsWellFormed s
    → IsWellFormed (record s { hits = n; order = (mark key s.order).0 })
marked key s n w = record {
  consistent = record {
    counted = w.consistent.counted;
    keys = w.consistent.keys;
    slots = Distinct-mark key s.order w.consistent.slots;
    queued = λ j. has-mark key j s.order ∙ w.consistent.queued j;
  };
  in_budget = w.in_budget;
  in_capacity = w.in_capacity;
}

-- A lookup changes only the visited bits and the counts.
pub get_lem :
    (key : Key) (s : SieveCache)
    → IsWellFormed s
    → IsWellFormed (get key s).1
      × ((get key s).1.entries ≡ s.entries)
      × ((get key s).1.byte_budget ≡ s.byte_budget)
      × ((get key s).1.entry_capacity ≡ s.entry_capacity)
      × ((get key s).0 ≡ lookup key s.entries)
unfolding get
get_lem key s w = elim (lookup-cases key s.entries) [
  | inl gone ↦ simp (get, gone) (renew s _ w, refl, refl, refl, refl)
  | inr (v, found) ↦ simp (get, found) (marked key s _ w, refl, refl, refl, refl)
]
