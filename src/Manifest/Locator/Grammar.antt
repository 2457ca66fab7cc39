-- ===== src/Manifest/Locator/Grammar.antt =====
-- limnifs-core/src/locator.rs: the URIs that the entry's checks accept, as a grammar.
use limnifs.Prelude.{
  ℕ, ◌≡◌, refl, ◌≢◌, ◌↔◌, true, false, Option, none, some, List, [], ◌∷◌, ◌++◌, arith, ◌==◌,
  ==_refl, All,
}
use limnifs.Prelude.Utf8.{split_once}
use limnifs.Manifest.Locator.{
  colon, is_nil, is_ascii_alphabetic, is_scheme_char, all_scheme_chars, is_valid_scheme,
}

-- A scheme begins with a letter and goes on with letters, digits, `+`, `-` and `.`.
abbrev pub IsScheme : List ℕ → Type 0
IsScheme [] = ⊥
IsScheme (c ∷ cs) = (is_ascii_alphabetic c ≡ true) × All (λ d. is_scheme_char d ≡ true) cs

-- A scheme, a colon, and something behind it.
pub record IsUri (uri : List ℕ) : Type 0 where
  pub front : List ℕ
  pub back : List ℕ
  pub whole : uri ≡ front ++ (colon ∷ back)
  pub grammar : IsScheme front
  pub some_part : back ≢ []

All-scheme_chars :
    (cs : List ℕ) → (all_scheme_chars cs ≡ true) ↔ All (λ d. is_scheme_char d ≡ true) cs
unfolding all_scheme_chars
All-scheme_chars [] = ((λ _. tt), (λ _. refl))
All-scheme_chars (c ∷ cs) =
    let (f, g) = All-scheme_chars cs in
    ((λ h. (ground arith, f (ground arith))), (λ h. let e = g h.1 in rw (h.0, e)))

pub is_valid_scheme_iff : (s : List ℕ) → (is_valid_scheme s ≡ true) ↔ IsScheme s
unfolding is_valid_scheme
is_valid_scheme_iff [] = ((λ h. cc), (λ h. absurd h))
is_valid_scheme_iff (c ∷ cs) =
    let (f, g) = All-scheme_chars cs in
    ((λ h. (ground arith, f (ground arith))), (λ h. rw (h.0) (g h.1)))

split_once_step :
    (b x : ℕ) (xs before behind : List ℕ) (o : Option (List ℕ × List ℕ))
    → split_once b xs ≡ o
    → ((p q : List ℕ) → o ≡ some (p, q) → xs ≡ p ++ (b ∷ q))
    → split_once b (x ∷ xs) ≡ some (before, behind)
    → x ∷ xs ≡ before ++ (b ∷ behind)
unfolding split_once
split_once_step b x xs before behind none e ih h = ground (arith, e)
split_once_step b x xs before behind (some (p, q)) e ih h = ground (arith, e, ih p q refl)

-- `split_once` at the separator cuts where it says.
pub split_once-append :
    (b : ℕ) (uri before behind : List ℕ)
    → split_once b uri ≡ some (before, behind)
    → uri ≡ before ++ (b ∷ behind)
unfolding split_once
split_once-append b [] before behind h = cc
split_once-append b (x ∷ xs) before behind h =
    split_once_step b x xs before behind (split_once b xs) refl (λ p q. split_once-append b xs p q)
      h

-- It cuts at the first separator: none stands before the cut.
pub split_once-first :
    (b : ℕ) (before behind : List ℕ)
    → All (λ x. (x == b) ≡ false) before
    → split_once b (before ++ (b ∷ behind)) ≡ some (before, behind)
unfolding split_once
split_once-first b [] behind h = rw (==_refl b)
split_once-first b (x ∷ xs) behind (n, h) = rw n (rw (split_once-first b xs behind h))

scheme_char-ne-colon : (c : ℕ) → is_scheme_char c ≡ true → (c == colon) ≡ false
unfolding is_scheme_char is_ascii_alphabetic
scheme_char-ne-colon c h = ground arith

alphabetic-ne-colon : (c : ℕ) → is_ascii_alphabetic c ≡ true → (c == colon) ≡ false
unfolding is_ascii_alphabetic
alphabetic-ne-colon c h = ground arith

chars-ne-colon :
    (cs : List ℕ) → All (λ d. is_scheme_char d ≡ true) cs → All (λ x. (x == colon) ≡ false) cs
chars-ne-colon [] h = tt
chars-ne-colon (c ∷ cs) (p, h) = (scheme_char-ne-colon c p, chars-ne-colon cs h)

scheme-ne-colon : (s : List ℕ) → IsScheme s → All (λ x. (x == colon) ≡ false) s
scheme-ne-colon [] h = absurd h
scheme-ne-colon (c ∷ cs) (p, h) = (alphabetic-ne-colon c p, chars-ne-colon cs h)

-- The parts of a URI of the grammar are found, and pass the three tests on them.
pub IsUri-split_once :
    {uri : List ℕ} (u : IsUri uri)
    → (split_once colon uri ≡ some (u.front, u.back))
      × (is_nil u.front ≡ false)
      × (is_valid_scheme u.front ≡ true)
      × (is_nil u.back ≡ false)
IsUri-split_once {uri} u = (
  rw u.whole (split_once-first colon u.front u.back (scheme-ne-colon u.front u.grammar)),
  front u.front u.grammar,
  (is_valid_scheme_iff u.front).1 u.grammar,
  back u.back u.some_part,
)
  where
    front : (s : List ℕ) → IsScheme s → is_nil s ≡ false
    front [] h = absurd h
    front (c ∷ cs) h = unfold is_nil in refl

    back : (s : List ℕ) → s ≢ [] → is_nil s ≡ false
    back [] h = absurd (h refl)
    back (c ∷ cs) h = unfold is_nil in refl
