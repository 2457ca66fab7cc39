-- ===== src/Cache/Evict.antt =====
-- limnifs-core/src/slab_cache.rs, `evict_until_fits`: what a round keeps, and that the loop ends.
use limnifs.Prelude.{
  ℕ, zero, suc, ◌+◌, ◌*◌, ◌≤◌, ◌<◌, ◌≡◌, refl, sym, ap, subst, ◌∙◌, ◌⊎◌, inl, inr, Bool, true,
  false, ◌||◌, Option, none, some, List, [], ◌∷◌, ◌++◌, arith, Bool-cases, length,
}
use limnifs.Cache.{SieveCache, over, evict_slot, evict}
use limnifs.Cache.Table.{
  Key, same, same_iff, lookup, has, Distinct, total, total-remove, Distinct-rotate, Distinct-remove,
  has-remove, has-append, lookup-has, lookup-remove,
}

-- The sum of the bytes is kept, and the queue holds the keys of the map, each once.
pub record Consistent (s : SieveCache) : Type 0 where
  pub counted : s.bytes ≡ total s.entries
  pub keys : Distinct s.entries
  pub slots : Distinct s.order
  pub queued : (key : Key) → has key s.order ≡ has key s.entries

-- What an eviction may do: it drops values, and changes no value and no bound.
pub record Shrinks (s t : SieveCache) : Type 0 where
  pub values :
      (key : Key) (v : List ℕ) → lookup key t.entries ≡ some v → lookup key s.entries ≡ some v
  pub budget : t.byte_budget ≡ s.byte_budget
  pub capacity : t.entry_capacity ≡ s.entry_capacity

Shrinks-refl : (s : SieveCache) → Shrinks s s
Shrinks-refl s = record { values = λ key v e. e; budget = refl; capacity = refl }

Shrinks-trans : (s t u : SieveCache) → Shrinks s t → Shrinks t u → Shrinks s u
Shrinks-trans s t u a b = record {
  values = λ key v e. a.values key v (b.values key v e);
  budget = b.budget ∙ a.budget;
  capacity = b.capacity ∙ a.capacity;
}

-- The rounds a queue can take: one for a slot and one more for its visited bit.
abbrev pub rounds : List (Key × Bool) → ℕ
rounds [] = 0
rounds ((k, true) ∷ slots) = 2 + rounds slots
rounds ((k, false) ∷ slots) = 1 + rounds slots

rounds-rotate :
    (key : Key) (slots : List (Key × Bool))
    → rounds (slots ++ ((key, false) ∷ [])) ≡ suc (rounds slots)
rounds-rotate key [] = refl
rounds-rotate key ((k, true) ∷ slots) = omega (arith, rounds-rotate key slots)
rounds-rotate key ((k, false) ∷ slots) = omega (arith, rounds-rotate key slots)

pub rounds-le : (slots : List (Key × Bool)) → rounds slots ≤ 2 * length slots
rounds-le [] = omega arith
rounds-le ((k, true) ∷ slots) = omega (arith, rounds-le slots)
rounds-le ((k, false) ∷ slots) = omega (arith, rounds-le slots)

queued_cons :
    (s : SieveCache) (key j : Key) (b : Bool) (rest : List (Key × Bool))
    → s.order ≡ (key, b) ∷ rest
    → Consistent s
    → (same key j || has j rest) ≡ has j s.entries
unfolding has
queued_cons s key j b rest e c = sym (ap (has j) e) ∙ c.queued j

pub option-cases : {V : Type 0} → (o : Option V) → (o ≡ none) ⊎ ((v : V) × (o ≡ some v))
option-cases none = inl refl
option-cases (some v) = inr (v, refl)

pub lookup-cases :
    {V : Type 0}
    → (key : Key) (es : List (Key × V))
    → (lookup key es ≡ none) ⊎ ((v : V) × (lookup key es ≡ some v))
lookup-cases key es = option-cases (lookup key es)

no_keys : {V : Type 0} → (es : List (Key × V)) → ((key : Key) → has key es ≡ false) → es ≡ []
unfolding has
no_keys [] h = refl
no_keys ((k, v) ∷ es) h = absurd (ground (arith, h k, same_iff k k))

order-cases :
    (slots : List (Key × Bool))
    → (slots ≡ [])
      ⊎ ((key : Key) × (visited : Bool) × (rest : List (Key × Bool)) × (slots
            ≡ (key, visited) ∷ rest))
order-cases [] = inl refl
order-cases ((key, visited) ∷ rest) = inr (key, visited, rest, refl)

-- A visited slot goes to the back.
rotate_Consistent :
    (s : SieveCache) (key : Key) (rest : List (Key × Bool))
    → s.order ≡ (key, true) ∷ rest
    → Consistent s
    → Consistent (evict_slot s key true rest)
unfolding evict_slot has
rotate_Consistent s key rest e c =
    let (fresh, d) = subst Distinct e c.slots in
    record {
      counted = c.counted;
      keys = c.keys;
      slots = Distinct-rotate key false rest fresh d;
      queued = λ j.
          ground (arith, has-append j rest ((key, false) ∷ []), queued_cons s key j true rest e c);
    }

-- A slot that was not visited leaves the queue, and its key the map.
drop_Consistent :
    (s : SieveCache) (key : Key) (rest : List (Key × Bool))
    → s.order ≡ (key, false) ∷ rest
    → Consistent s
    → Consistent (evict_slot s key false rest)
unfolding evict_slot
drop_Consistent s key rest e c =
    let (fresh, d) = subst Distinct e c.slots in
    let there : has key s.entries ≡ true =
      ground (arith, queued_cons s key key false rest e c, same_iff key key) in
    let (v, found) = lookup-has key s.entries there in
    rw (evict_slot, found)
      (record {
        counted = omega (arith, c.counted, total-remove key v s.entries found);
        keys = Distinct-remove key s.entries c.keys;
        slots = d;
        queued = λ j. ground (
          arith,
          has-remove key j s.entries c.keys,
          queued_cons s key j false rest e c,
          same_iff key j,
        );
      })

slot_Shrinks :
    (s : SieveCache) (key : Key) (visited : Bool) (rest : List (Key × Bool))
    → Consistent s
    → Shrinks s (evict_slot s key visited rest)
unfolding evict_slot
slot_Shrinks s key true rest c = record { values = λ j v e. e; budget = refl; capacity = refl }
slot_Shrinks s key false rest c = elim (lookup-cases key s.entries) [
  | inl gone ↦
      rw (evict_slot, gone) (record { values = λ j v e. e; budget = refl; capacity = refl })
  | inr (w, found) ↦
      rw (evict_slot, found)
        (record {
          values = λ j v e. lookup-remove key j v s.entries c.keys e;
          budget = refl;
          capacity = refl;
        })
]

slot_Consistent :
    (s : SieveCache) (key : Key) (visited : Bool) (rest : List (Key × Bool))
    → s.order ≡ (key, visited) ∷ rest
    → Consistent s
    → Consistent (evict_slot s key visited rest)
slot_Consistent s key true rest e c = rotate_Consistent s key rest e c
slot_Consistent s key false rest e c = drop_Consistent s key rest e c

slot_order :
    (s : SieveCache) (key : Key) (visited : Bool) (rest : List (Key × Bool))
    → suc (rounds (evict_slot s key visited rest).order) ≡ rounds ((key, visited) ∷ rest)
unfolding evict_slot
slot_order s key true rest = omega (arith, rounds-rotate key rest)
slot_order s key false rest = elim (lookup-cases key s.entries) [
  | inl gone ↦ rw (evict_slot, gone) (omega arith)
  | inr (w, found) ↦ rw (evict_slot, found) (omega arith)
]

rounds-next :
    (s : SieveCache) (key : Key) (visited : Bool) (rest : List (Key × Bool)) (fuel : ℕ)
    → s.order ≡ (key, visited) ∷ rest
    → rounds s.order < suc fuel
    → rounds (evict_slot s key visited rest).order < fuel
rounds-next s key visited rest fuel e l = omega (arith, slot_order s key visited rest, ap rounds e)

-- With an empty queue the map is empty, and an empty map is not over.
drained : (s : SieveCache) → s.order ≡ [] → Consistent s → over s ≡ false
unfolding over has total
drained s e c =
    let none_there : s.entries ≡ [] =
      no_keys s.entries (λ key. sym (c.queued key) ∙ ap (has key) e) in
    let empty : s.bytes ≡ 0 = c.counted ∙ ap total none_there in
    rw (none_there, empty) (ground arith)

evict-step :
    (fuel : ℕ) (s : SieveCache) (key : Key) (visited : Bool) (rest : List (Key × Bool))
    → over s ≡ true
    → s.order ≡ (key, visited) ∷ rest
    → evict (suc fuel) s ≡ evict fuel (evict_slot s key visited rest)
unfolding evict
evict-step fuel s key visited rest t e = simp (evict, t, e) refl

-- With fuel for the rounds the loop ends below both bounds, and it is consistent.
pub evict_lem :
    (fuel : ℕ) (s : SieveCache)
    → rounds s.order < fuel
    → Consistent s
    → Consistent (evict fuel s) × (over (evict fuel s) ≡ false) × Shrinks s (evict fuel s)
unfolding evict
evict_lem zero s l c = absurd (omega arith)
evict_lem (suc fuel) s l c = elim (Bool-cases (over s)) [
  | inr fits ↦ rw (evict, fits) (c, fits, Shrinks-refl s)
  | inl t ↦ elim (order-cases s.order) [
    | inl e ↦ absurd (ground (arith, drained s e c))
    | inr (key, visited, rest, e) ↦
        let next = evict_slot s key visited rest in
        let (c', fits, k) =
          evict_lem fuel next (rounds-next s key visited rest fuel e l)
            (slot_Consistent s key visited rest e c) in
        subst (λ u. Consistent u × (over u ≡ false) × Shrinks s u)
          (sym (evict-step fuel s key visited rest t e))
          (c', fits, Shrinks-trans s next _ (slot_Shrinks s key visited rest c) k)
  ]
]
