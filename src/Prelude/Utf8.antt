-- ===== src/Prelude/Utf8.antt =====
-- What Rust's `std::str::from_utf8` accepts, and the byte searches of its strings. A string is the
-- list of its UTF-8 bytes.
use Prim.Native.Nat.{ℕ, zero, suc}
use mathlib.Core.Bool.{Bool, true, false, ◌&&◌, ◌||◌}
use mathlib.Core.Option.{Option, none, some}
use mathlib.Core.List.{List, [], ◌∷◌}
use limnifs.Prelude.Tests.{ltb, leb, ◌==◌, if◌then◌else◌}

-- After the lead byte `b`: how many bytes follow, and the range of the first of them.
unfoldable pub utf8_lead : ℕ → Option (ℕ × ℕ × ℕ)
utf8_lead b =
    if ltb b 0x80
    then some (0, 0x80, 0xbf)
    else if ltb b 0xc2
    then none
    else if ltb b 0xe0
    then some (1, 0x80, 0xbf)
    else if b == 0xe0
    then some (2, 0xa0, 0xbf)
    else if b == 0xed
    then some (2, 0x80, 0x9f)
    else if ltb b 0xf0
    then some (2, 0x80, 0xbf)
    else if b == 0xf0
    then some (3, 0x90, 0xbf)
    else if ltb b 0xf4
    then some (3, 0x80, 0xbf)
    else if b == 0xf4
    then some (3, 0x80, 0x8f)
    else none

-- `n` more bytes of the present character, the next of them between `lo` and `hi`.
unfoldable pub utf8_rest : ℕ → ℕ → ℕ → List ℕ → Bool
unfolding utf8_lead
utf8_rest zero lo hi [] = true
utf8_rest zero lo hi (b ∷ bs) = elim (utf8_lead b) [
  | none ↦ false
  | some (n, l, h) ↦ utf8_rest n l h bs
]
utf8_rest (suc n) lo hi [] = false
utf8_rest (suc n) lo hi (b ∷ bs) = leb lo b && leb b hi && utf8_rest n 0x80 0xbf bs

unfoldable pub is_utf8 : List ℕ → Bool
unfolding utf8_rest
is_utf8 s = utf8_rest 0 0x80 0xbf s

-- `contains` of one ASCII character, and of "//".
unfoldable pub contains : ℕ → List ℕ → Bool
contains b [] = false
contains b (x ∷ xs) = (x == b) || contains b xs

unfoldable pub contains_pair : ℕ → List ℕ → Bool
contains_pair b [] = false
contains_pair b (x ∷ []) = false
contains_pair b (x ∷ y ∷ xs) = ((x == b) && (y == b)) || contains_pair b (y ∷ xs)

-- `split_once` at an ASCII character: the parts before and after its first occurrence.
unfoldable pub split_once : ℕ → List ℕ → Option (List ℕ × List ℕ)
split_once b [] = none
split_once b (x ∷ xs) =
    let later = split_once b xs in
    if x == b
    then some ([], xs)
    else elim later [ none ↦ none | some (before, behind) ↦ some (x ∷ before, behind) ]
