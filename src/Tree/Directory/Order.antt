-- ===== src/Tree/Directory/Order.antt =====
-- limnifs-core/src/directory_node.rs: comparing each name with the one before sorts the whole node.
use limnifs.Prelude.{
  ℕ, ◌≡◌, refl, sym, ap, subst, ◌↔◌, true, false, not, Option, none, some, List, [], ◌∷◌, ◌++◌,
  arith, All,
}
use limnifs.Cursor.Loops.{Goods}
use limnifs.Tree.Directory.{DirEntry, name_lt, prev_name, out_of_order}

name_lt_trans :
    (xs ys zs : List ℕ) → name_lt xs ys ≡ true → name_lt ys zs ≡ true → name_lt xs zs ≡ true
unfolding name_lt
name_lt_trans [] [] zs h k = cc
name_lt_trans [] (b ∷ ys) [] h k = cc
name_lt_trans [] (b ∷ ys) (c ∷ zs) h k = refl
name_lt_trans (a ∷ xs) [] zs h k = cc
name_lt_trans (a ∷ xs) (b ∷ ys) [] h k = cc
name_lt_trans (a ∷ xs) (b ∷ ys) (c ∷ zs) h k = ground (arith, name_lt_trans xs ys zs)

pub name_lt_irrefl : (xs : List ℕ) → name_lt xs xs ≡ false
unfolding name_lt
name_lt_irrefl [] = refl
name_lt_irrefl (a ∷ xs) = ground (arith, name_lt_irrefl xs)

-- Every name is below every later one; so no name occurs twice.
abbrev pub Ascending : List DirEntry → Type 0
Ascending [] = Unit
Ascending (e ∷ es) = All (λ f. name_lt e.name f.name ≡ true) es × Ascending es

-- The test of the loop against the entry before.
abbrev pub InOrder : (DirEntry → Type 0) → List DirEntry → DirEntry → Type 0
InOrder P seen e = P e × (out_of_order (prev_name seen) e.name ≡ false)

prev_name-append :
    (seen : List DirEntry) (e : DirEntry) → prev_name (seen ++ (e ∷ [])) ≡ some e.name
unfolding prev_name
prev_name-append [] e = refl
prev_name-append (f ∷ []) e = refl
prev_name-append (f ∷ g ∷ seen) e = prev_name-append (g ∷ seen) e

above-All :
    (n : List ℕ) (e : DirEntry) (es : List DirEntry)
    → name_lt n e.name ≡ true
    → All (λ f. name_lt e.name f.name ≡ true) es
    → All (λ f. name_lt n f.name ≡ true) es
above-All n e [] h k = tt
above-All n e (f ∷ es) h (p, k) = (name_lt_trans n e.name f.name h p, above-All n e es h k)

-- The name before the entries, if there is one, is below all of them.
abbrev Before : Option (List ℕ) → List DirEntry → Type 0
Before none es = Unit
Before (some n) es = All (λ f. name_lt n f.name ≡ true) es

Before-cons :
    (o : Option (List ℕ)) (e : DirEntry) (es : List DirEntry)
    → out_of_order o e.name ≡ false
    → All (λ f. name_lt e.name f.name ≡ true) es
    → Before o (e ∷ es)
unfolding out_of_order
Before-cons none e es h k = tt
Before-cons (some n) e es h k =
    let below : name_lt n e.name ≡ true = ground arith in (below, above-All n e es below k)

Before-head :
    (o : Option (List ℕ)) (e : DirEntry) (es : List DirEntry)
    → Before o (e ∷ es)
    → out_of_order o e.name ≡ false
unfolding out_of_order
Before-head none e es h = refl
Before-head (some n) e es (p, h) = ap not p

module _ (P : DirEntry → Type 0) where
  to_order :
      (seen es : List DirEntry)
      → Goods (InOrder P) seen es
      → Before (prev_name seen) es × Ascending es × All P es
  to_order seen [] g = (nothing (prev_name seen), tt, tt)
    where
      nothing : (o : Option (List ℕ)) → Before o []
      nothing none = tt
      nothing (some n) = tt
  to_order seen (e ∷ es) ((p, t), g) =
      let (b, a, ps) = to_order (seen ++ (e ∷ [])) es g in
      let b' = subst (λ o. Before o es) (prev_name-append seen e) b in
      (Before-cons (prev_name seen) e es t b', (b', a), (p, ps))

  of_order :
      (seen es : List DirEntry)
      → Before (prev_name seen) es
      → Ascending es
      → All P es
      → Goods (InOrder P) seen es
  of_order seen [] b a ps = tt
  of_order seen (e ∷ es) b (n, a) (p, ps) = (
    (p, Before-head (prev_name seen) e es b),
    of_order (seen ++ (e ∷ [])) es (subst (λ o. Before o es) (sym (prev_name-append seen e)) n) a
        ps,
  )

  -- The tests of the loop come to: all entries have `P`, and the names ascend.
  pub Goods-Ascending : (es : List DirEntry) → Goods (InOrder P) [] es ↔ (Ascending es × All P es)
  unfolding prev_name
  Goods-Ascending es =
      ((λ g. let (_, a, ps) = to_order [] es g in (a, ps)), (λ h. of_order [] es tt h.0 h.1))
