-- ===== src/Slab/Store/Index.antt =====
-- limnifs-core/src/slab_store.rs: the index of a store against the records of its slabs.
use limnifs.Prelude.{
  ℕ, zero, suc, ◌+◌, ◌≡◌, refl, sym, ap, subst, ◌∙◌, ◌⊎◌, inl, inr, true, false, Bool-cases,
  Result-cases, none, some, List, [], ◌∷◌, ◌++◌, append-nil, append_assoc, ok, arith, bytes_eq,
  bytes_eq→eq, length, length-append, ok_injective,
}
use limnifs.Slab.Record.{DropRecord}
use limnifs.Slab.Reader.{SlabView, parse_slab, find_record}
use limnifs.Slab.Store.{
  ParsedSlab, DropIndex, lookup, remove, insert, extend, entries_of, parsed_of, index_slab,
  SlabStore, index_slabs, from_bytes, get, window_of, locate_window,
}

lookup-remove :
    (k key : List ℕ) (index : DropIndex)
    → bytes_eq k key ≡ false
    → lookup key (remove k index) ≡ lookup key index
unfolding lookup remove
lookup-remove k key [] h = refl
lookup-remove k key ((k', v) ∷ index) h = elim (Bool-cases (bytes_eq k' k)) [
  | inl t ↦
      let other : bytes_eq k' key ≡ false = ap (λ x. bytes_eq x key) (bytes_eq→eq k' k t) ∙ h in
      simp (lookup, remove, t, other) (lookup-remove k key index h)
  | inr f ↦ elim (Bool-cases (bytes_eq k' key)) [
    | inl t ↦ simp (lookup, remove, f, t) refl
    | inr g ↦ simp (lookup, remove, f, g) (lookup-remove k key index h)
  ]
]

lookup-insert_same :
    (k key : List ℕ) (v : ℕ × ℕ) (index : DropIndex)
    → bytes_eq k key ≡ true
    → lookup key (insert k v index) ≡ some v
unfolding lookup insert
lookup-insert_same k key v index h = simp (lookup, insert, h) refl

lookup-insert_other :
    (k key : List ℕ) (v : ℕ × ℕ) (index : DropIndex)
    → bytes_eq k key ≡ false
    → lookup key (insert k v index) ≡ lookup key index
unfolding lookup insert
lookup-insert_other k key v index h = simp (lookup, insert, h) (lookup-remove k key index h)

-- What the records of one slab add to the index.
extend_lem :
    (key : List ℕ) (o i : ℕ) (rs : List DropRecord) (index : DropIndex)
    → ((lookup key (extend index (entries_of o i rs)) ≡ lookup key index)
        × (find_record key rs ≡ none))
      ⊎ ((j : ℕ) × (r : DropRecord) × (lookup key (extend index (entries_of o i rs))
            ≡ some (o, i + j))
          × (get rs j ≡ some r)
          × (bytes_eq r.drop_id key ≡ true))
unfolding extend entries_of find_record get
extend_lem key o i [] index = inl (refl, refl)
extend_lem key o i (r ∷ rs) index =
    elim (extend_lem key o (i + 1) rs (insert r.drop_id (o, i) index)) [
      | inr (j, r', at, here, same) ↦
          inr (suc j, r', at ∙ ap (λ n. some (o, n)) (omega arith), here, same)
      | inl (at, others) ↦ elim (Bool-cases (bytes_eq r.drop_id key)) [
        | inl t ↦ inr (
          0,
          r,
          at
              ∙ (lookup-insert_same r.drop_id key (o, i) index t
                  ∙ ap (λ n. some (o, n)) (omega arith)),
          refl,
          t,
        )
        | inr f ↦ inl (at ∙ lookup-insert_other r.drop_id key (o, i) index f, rw f others)
      ]
    ]

get-append_left :
    {A : Type 0} (xs ys : List A) (i : ℕ) (a : A) → get xs i ≡ some a → get (xs ++ ys) i ≡ some a
unfolding get
get-append_left [] ys i a e = cc
get-append_left (x ∷ xs) ys zero a e = e
get-append_left (x ∷ xs) ys (suc i) a e = get-append_left xs ys i a e

get-append_last : {A : Type 0} (xs : List A) (a : A) → get (xs ++ (a ∷ [])) (length xs) ≡ some a
unfolding get
get-append_last [] a = refl
get-append_last (x ∷ xs) a = get-append_last xs a

get-append_cases :
    {A : Type 0} (xs : List A) (b : A) (i : ℕ) (a : A)
    → get (xs ++ (b ∷ [])) i ≡ some a
    → (get xs i ≡ some a) ⊎ (b ≡ a)
unfolding get
get-append_cases [] b zero a e = inr (cc)
get-append_cases [] b (suc i) a e = cc
get-append_cases (x ∷ xs) b zero a e = inl e
get-append_cases (x ∷ xs) b (suc i) a e = get-append_cases xs b i a e

-- No slab has a record of the drop.
abbrev pub Absent : List (List ℕ) → List ℕ → Type 0
Absent slabs key =
    (o : ℕ) (bytes : List ℕ) (view : SlabView)
    → get slabs o ≡ some bytes
    → parse_slab bytes ≡ ok view
    → find_record key view.drop_records ≡ none

-- Slab `o` has the drop's record at `i`.
pub record Holds (slabs : List (List ℕ)) (parsed : List ParsedSlab) (key : List ℕ) (o i : ℕ)
    : Type 0 where
  pub bytes : List ℕ
  pub view : SlabView
  pub r : DropRecord
  pub slab : get slabs o ≡ some bytes
  pub parses : parse_slab bytes ≡ ok view
  pub kept : get parsed o ≡ some (parsed_of view)
  pub has : get view.drop_records i ≡ some r
  pub same : bytes_eq r.drop_id key ≡ true

abbrev Indexed : List (List ℕ) → List ParsedSlab → DropIndex → Type 0
Indexed slabs parsed index =
    (key : List ℕ)
    → ((lookup key index ≡ none) × Absent slabs key)
      ⊎ ((o : ℕ) × (i : ℕ) × (lookup key index ≡ some (o, i)) × Holds slabs parsed key o i)

Absent-append :
    (slabs : List (List ℕ)) (bytes key : List ℕ) (view : SlabView)
    → Absent slabs key
    → parse_slab bytes ≡ ok view
    → find_record key view.drop_records ≡ none
    → Absent (slabs ++ (bytes ∷ [])) key
Absent-append slabs bytes key view absent p none' o bytes' view' at p' =
    elim (get-append_cases slabs bytes o bytes' at) [
      | inl before ↦ absent o bytes' view' before p'
      | inr same ↦
          let views = ok_injective (sym p ∙ (ap parse_slab same ∙ p')) in
          subst (λ v. find_record key v.drop_records ≡ none) views none'
    ]

Holds-append :
    (slabs more : List (List ℕ)) (parsed more' : List ParsedSlab) (key : List ℕ) (o i : ℕ)
    → Holds slabs parsed key o i
    → Holds (slabs ++ more) (parsed ++ more') key o i
Holds-append slabs more parsed more' key o i h = record {
  bytes = h.bytes;
  view = h.view;
  r = h.r;
  slab = get-append_left slabs more o h.bytes h.slab;
  parses = h.parses;
  kept = get-append_left parsed more' o (parsed_of h.view) h.kept;
  has = h.has;
  same = h.same;
}

-- One more slab.
Indexed-slab :
    (slabs : List (List ℕ)) (parsed : List ParsedSlab) (index : DropIndex) (bytes : List ℕ)
    (view : SlabView)
    → length parsed ≡ length slabs
    → Indexed slabs parsed index
    → parse_slab bytes ≡ ok view
    → Indexed
        (slabs ++ (bytes ∷ []))
        (parsed ++ (parsed_of view ∷ []))
        (extend index (entries_of (length slabs) 0 view.drop_records))
Indexed-slab slabs parsed index bytes view l w p key =
    elim (extend_lem key (length slabs) 0 view.drop_records index) [
      | inr (j, r, at, has, same) ↦ inr (
        length slabs,
        j,
        at ∙ ap (λ n. some (length slabs, n)) (omega arith),
        record {
          bytes = bytes;
          view = view;
          r = r;
          slab = get-append_last slabs bytes;
          parses = p;
          kept =
              subst (λ n. get (parsed ++ (parsed_of view ∷ [])) n ≡ some (parsed_of view)) l
                (get-append_last parsed (parsed_of view));
          has = has;
          same = same;
        },
      )
      | inl (at, nothing) ↦ elim (w key) [
        | inl (e, absent) ↦ inl (at ∙ e, Absent-append slabs bytes key view absent p nothing)
        | inr (o, i, e, h) ↦
            inr
              (o, i, at ∙ e, Holds-append slabs (bytes ∷ []) parsed (parsed_of view ∷ []) key o i h)
      ]
    ]

index_slabs_lem :
    (more slabs : List (List ℕ)) (parsed out : List ParsedSlab) (index index' : DropIndex)
    → length parsed ≡ length slabs
    → Indexed slabs parsed index
    → index_slabs (length slabs) more parsed index ≡ ok (out, index')
    → Indexed (slabs ++ more) out index'
unfolding index_slabs index_slab
index_slabs_lem [] slabs parsed out index index' l w e =
    let same = ok_injective e in
    subst (λ x. Indexed (slabs ++ []) x.0 x.1) same (rw (append-nil slabs) w)
index_slabs_lem (bytes ∷ more) slabs parsed out index index' l w e =
    elim (Result-cases (parse_slab bytes)) [
      | inr (x, p) ↦ let e' = simp (index_slabs, index_slab, p) at e in cc
      | inl (view, p) ↦
          let e1 = simp (index_slabs, index_slab, p) at e in
          let count : length slabs + 1 ≡ length (slabs ++ (bytes ∷ [])) =
            omega (arith, length-append slabs (bytes ∷ [])) in
          let slabs1 = slabs ++ (bytes ∷ []) in
          let parsed1 = parsed ++ (parsed_of view ∷ []) in
          let index1 = extend index (entries_of (length slabs) 0 view.drop_records) in
          let e2 : index_slabs (length slabs1) more parsed1 index1 ≡ ok (out, index') =
            subst (λ n. index_slabs n more parsed1 index1 ≡ ok (out, index')) count e1 in
          subst (λ xs. Indexed xs out index') (append_assoc slabs (bytes ∷ []) more)
            (index_slabs_lem more slabs1 parsed1 out index1 index'
              (omega (
                arith,
                l,
                length-append slabs (bytes ∷ []),
                length-append parsed (parsed_of view ∷ []),
              ))
              (Indexed-slab slabs parsed index bytes view l w p) e2)
    ]

nothing_Indexed : Indexed [] [] []
unfolding lookup get
nothing_Indexed key = inl (refl, λ o bytes view at p. cc)

-- In a store that `from_bytes` makes of slabs: if no slab has a record of the drop, then the drop
-- is located nowhere; else there is a slab with a record of its id, as `parse_slab` reads that
-- slab, and the drop is located at that record's range in the window of that slab (nowhere, if the
-- range leaves the slab).
pub locate_window-from_bytes :
    (slabs : List (List ℕ)) (store : SlabStore) (drop_id : List ℕ)
    → from_bytes slabs ≡ ok store
    → ((locate_window store drop_id ≡ none) × Absent slabs drop_id)
      ⊎ ((o : ℕ) × (i : ℕ) × (h : Holds slabs store.parsed drop_id o i) × (locate_window store
              drop_id
            ≡ window_of h.bytes h.view.solid_window_start h.r))
unfolding from_bytes locate_window parsed_of
locate_window-from_bytes slabs store drop_id e = elim (Result-cases (index_slabs 0 slabs [] [])) [
  | inr (x, run) ↦ let e' = simp (from_bytes, run) at e in cc
  | inl ((parsed, index), run) ↦
      let e1 = ok_injective (simp (from_bytes, run) at e) in
      let w : Indexed slabs parsed index =
        index_slabs_lem slabs [] [] parsed [] index refl nothing_Indexed run in
      subst
        (λ s.
          ((locate_window s drop_id ≡ none) × Absent slabs drop_id)
          ⊎ ((o : ℕ) × (i : ℕ) × (h : Holds slabs s.parsed drop_id o i) × (locate_window s drop_id
                ≡ window_of h.bytes h.view.solid_window_start h.r)))
        e1
        (elim (w drop_id) [
          | inl (nowhere, absent) ↦ inl (simp (locate_window, nowhere) refl, absent)
          | inr (o, i, at, h) ↦ inr (o, i, h, simp (locate_window, at, h.slab, h.kept, h.has) refl)
        ])
]
