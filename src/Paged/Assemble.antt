-- ===== src/Paged/Assemble.antt =====
-- limnifs-core/src/paged_slab.rs: the last loop of a read, on pages that are pages of one file.
use limnifs.Prelude.{
  ℕ, ◌+◌, ◌-◌, ◌*◌, ◌^◌, ◌≤◌, ◌<◌, min, max, ◌≡◌, refl, sym, ap, ◌∙◌, inl, inr, true, false,
  Bool-cases, Option, none, some, List, [], ◌∷◌, ◌++◌, append-nil, arith, ltb, leb, length, take,
  drop, length-take, length-drop, slice, drop_all, take_all, take-plus, take-take, drop-take,
  drop-drop, wrap_add, wrap_sub, wrap_add_lem, wrap_sub_lem,
}
use limnifs.Paged.{Page, paged_page_size, assemble}

-- The bytes of a file from `a` up to `end`.
abbrev pub range : ℕ → ℕ → List ℕ → List ℕ
range a end file = slice a (end - a) file

-- A page of the file, or none behind the file's end.
abbrev pub IsFilled : List ℕ → ℕ → Option Page → Type 0
IsFilled file index none = length file ≤ index * paged_page_size
IsFilled file index (some p) = p ≡ slice (index * paged_page_size) paged_page_size file

abbrev pub Filled : List ℕ → ℕ → List (Option Page) → Type 0
Filled file index [] = Unit
Filled file index (o ∷ pages) = IsFilled file index o × Filled file (index + 1) pages

pub range_empty : (a end : ℕ) (file : List ℕ) → end ≤ a → range a end file ≡ []
range_empty a end file h =
    let nothing : end - a ≡ 0 = omega (arith, h) in ap (λ n. take n (drop a file)) nothing

range_behind : (a end : ℕ) (file : List ℕ) → length file ≤ a → range a end file ≡ []
range_behind a end file h =
    take_all (end - a) (drop a file) (omega (arith, h, length-drop a file)) ∙ drop_all a file h

-- The bytes of a page from `from` up to `available`, as bytes of the file.
page_part :
    (start size from available : ℕ) (file : List ℕ)
    → from ≤ available
    → available ≤ size
    → slice from (available - from) (slice start size file)
      ≡ range (start + from) (start + available) file
page_part start size from available file h k =
    ap (take (available - from)) (
      drop-take from size (size - from) (drop start file) (omega (arith, h, k))
      ∙ ap (take (size - from)) (drop-drop start from (start + from) file refl))
    ∙ (take-take (available - from) (size - from) (drop (start + from) file) (omega (arith, h, k))
        ∙ ap (λ n. take n (drop (start + from) file)) (omega (arith, h)))

-- A range in two parts.
range_split :
    (a m end : ℕ) (file : List ℕ)
    → a ≤ m
    → m ≤ end
    → range a m file ++ range m end file ≡ range a end file
range_split a m end file h k =
    ap (λ xs. range a m file ++ take (end - m) xs)
      (sym (drop-drop a (m - a) m file (omega (arith, h))))
    ∙ sym (take-plus (m - a) (end - m) (end - a) (drop a file) (omega (arith, h, k)))

-- The rest of a range behind the end of the file adds nothing.
range_cut :
    (a m end : ℕ) (file : List ℕ) → length file ≤ m → m ≤ end → range a m file ≡ range a end file
range_cut a m end file h k =
    take_all (m - a) (drop a file) (omega (arith, h, length-drop a file))
    ∙ sym (take_all (end - a) (drop a file) (omega (arith, h, k, length-drop a file)))

leb_le : (a b : ℕ) → leb a b ≡ true → a ≤ b
leb_le a b h = ground arith

leb_lt : (a b : ℕ) → leb a b ≡ false → b < a
leb_lt a b h = ground arith

lt_of : (a b : ℕ) → ltb a b ≡ true → a < b
lt_of a b h = ground arith

le_of : (a b : ℕ) → ltb a b ≡ false → b ≤ a
le_of a b h = ground arith

-- A page of a file of `total` bytes, from `start`: `n` bytes, of which `available` lie in the range.
record Cut (start a end total n available : ℕ) : Type 0 where
  begins : start ≤ a
  inside : a < start + paged_page_size
  length : n ≡ min paged_page_size (total - start)
  cut : available ≡ min n (min end (start + paged_page_size) - start)

module _ {start a end total n available : ℕ} (c : Cut start a end total n available) where
  cut_stop : available ≤ a - start → a < end → total ≤ a
  cut_stop h k = omega (arith, c.begins, c.inside, c.length, c.cut, h, k)

  cut_size : available ≤ paged_page_size
  cut_size = omega (arith, c.cut, c.length)

  cut_short :
      available < min end (start + paged_page_size) - start
      → (total ≤ start + available) × (start + available ≤ end)
  cut_short h = (omega (arith, c.begins, c.length, c.cut, h), omega (arith, c.begins, c.cut, h))

  cut_last :
      a - start < available
      → min end (start + paged_page_size) - start ≤ available
      → end ≤ start + paged_page_size
      → start + available ≡ end
  cut_last h k l = omega (arith, c.begins, c.cut, h, k, l)

  cut_full :
      a - start < available
      → min end (start + paged_page_size) - start ≤ available
      → start + paged_page_size < end
      → start + available ≡ start + paged_page_size
  cut_full h k l = omega (arith, c.begins, c.cut, h, k, l)

module _ (file : List ℕ) (offset end : ℕ) where
  abbrev pub from_of : ℕ → ℕ
  from_of index = max offset (index * paged_page_size)

  -- The first page holds the offset, or is behind it, and the pages reach the end, each from before it
  -- and within 64 bits.
  pub assemble_lem :
      (index : ℕ) (pages : List (Option Page))
      → Filled file index pages
      → offset < (index + 1) * paged_page_size
      → end ≤ (index + length pages) * paged_page_size
      → (index + length pages) * paged_page_size < end + paged_page_size
      → (index + length pages) * paged_page_size < 2 ^ 64
      → assemble offset end index pages ≡ range (from_of index) end file
  unfolding assemble
  assemble_lem index [] w low high before word =
      sym (range_empty (from_of index) end file (omega (arith, high)))
  assemble_lem index (none ∷ pages) (w, ws) low high before word =
      sym (range_behind (from_of index) end file (omega (arith, w)))
  assemble_lem index (some p ∷ pages) (w, ws) low high before word =
      let start = index * paged_page_size in
      let a = from_of index in
      let from = a - start in
      let to = min end (start + paged_page_size) - start in
      let available = min (length p) to in
      let n : length p ≡ min paged_page_size (length file - start) =
        ap length w
        ∙ (length-take paged_page_size (drop start file)
            ∙ ap (min paged_page_size) (length-drop start file)) in
      let next : assemble offset end (index + 1) pages ≡ range (from_of (index + 1)) end file =
        assemble_lem (index + 1) pages ws (omega (arith, low)) (omega (arith, high))
          (omega (arith, before)) (omega (arith, word)) in
      let c : Cut start a end (length file) (length p) available = record {
        begins = omega arith;
        inside = omega (arith, low);
        length = n;
        cut = refl;
      } in
      let most = cut_size c in
      let stop : wrap_add start paged_page_size ≡ start + paged_page_size =
        wrap_add_lem start paged_page_size (omega (arith, word)) in
      let size : wrap_sub (min end (start + paged_page_size)) start ≡ to =
        wrap_sub_lem _ start (omega (arith, before)) (omega (arith, word)) in
      rw (stop, size)
        (elim (Bool-cases (leb available from)) [
          | inl t ↦ rw t (elim (Bool-cases (leb end a)) [
            | inl e ↦ sym (range_empty a end file (leb_le end a e))
            | inr e ↦
                sym
                  (range_behind a end file (cut_stop c (leb_le available from t) (leb_lt end a e)))
          ])
          | inr f ↦
              let inside : from < available = leb_lt available from f in
              let part : slice from (available - from) p ≡ range a (start + available) file =
                ap (slice from (available - from)) w
                ∙ (page_part start paged_page_size from available file (omega (arith, inside)) most
                    ∙ ap (λ x. range x (start + available) file) (back start a c.begins)) in
              rw (f, part)
                (elim (Bool-cases (ltb available to)) [
                  | inl t ↦
                      let (over, low') = cut_short c (lt_of available to t) in
                      rw t (append-nil _ ∙ range_cut a (start + available) end file over low')
                  | inr g ↦
                      rw (g, next) (joined index a available low c inside (le_of available to g))
                ])
        ])
    where
      back : (start a : ℕ) → start ≤ a → start + (a - start) ≡ a
      back start a h = omega (arith, h)

      joined :
          (index a available : ℕ) {n : ℕ}
          → offset < (index + 1) * paged_page_size
          → Cut (index * paged_page_size) a end (length file) n available
          → a - index * paged_page_size < available
          → min end (index * paged_page_size + paged_page_size) - index * paged_page_size
            ≤ available
          → range a (index * paged_page_size + available) file
              ++ range (from_of (index + 1)) end file
            ≡ range a end file
      joined index a available low c h k =
          let start = index * paged_page_size in
          elim (Bool-cases (leb end (start + paged_page_size))) [
            | inl t ↦
                let last = cut_last c h k (leb_le end (start + paged_page_size) t) in
                ap (λ xs. range a (start + available) file ++ xs)
                  (range_empty (from_of (index + 1)) end file
                    (omega (arith, leb_le end (start + paged_page_size) t)))
                ∙ (append-nil _ ∙ ap (λ m. range a m file) last)
            | inr f ↦
                let beyond = leb_lt end (start + paged_page_size) f in
                let full = cut_full c h k beyond in
                let next : from_of (index + 1) ≡ start + available = omega (arith, low, full) in
                ap (λ m. range a (start + available) file ++ range m end file) next
                ∙ range_split a (start + available) end file (omega (arith, c.inside, full))
                    (omega (arith, full, beyond))
          ]
