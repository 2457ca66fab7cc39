-- ===== src/Seekable/Starts.antt =====
-- limnifs-core/src/seekable.rs: the frame that an offset falls into, by the starts of the footer.
use limnifs.Prelude.{
  ℕ, zero, suc, ◌+◌, ◌-◌, ◌≤◌, ◌<◌, min, ◌≡◌, refl, ap, ◌∙◌, inl, inr, ◌⊎◌, Bool-cases, List, [],
  ◌∷◌, arith, leb, length, take, get_or, sum,
}
use limnifs.Seekable.{
  partition_point, starts_from, frame_containing, uncomp_offset, footer_of, uncomp_of,
}

length-starts_from : (acc : ℕ) (ls : List ℕ) → length (starts_from acc ls) ≡ suc (length ls)
unfolding starts_from
length-starts_from acc [] = refl
length-starts_from acc (l ∷ ls) = ap suc (length-starts_from (acc + l) ls)

get_or-starts_from :
    (acc i : ℕ) (ls : List ℕ)
    → i ≤ length ls
    → get_or (starts_from acc ls) i 0 ≡ acc + sum (take i ls)
unfolding starts_from
get_or-starts_from acc zero [] h = omega arith
get_or-starts_from acc (suc i) [] h = absurd (omega (arith, h))
get_or-starts_from acc zero (l ∷ ls) h = omega arith
get_or-starts_from acc (suc i) (l ∷ ls) h =
    omega (arith, get_or-starts_from (acc + l) i ls (omega (arith, h)))

-- The frame `i` that `partition_point` gives: `off` is not before its start, and before the next one's.
pub record IsFrame (acc off : ℕ) (ls : List ℕ) (i : ℕ) : Type 0 where
  pub index : i ≤ length ls
  pub from : acc + sum (take i ls) ≤ off
  pub to : (i ≡ length ls) ⊎ (off < acc + sum (take (suc i) ls))

partition_below :
    (acc off : ℕ) (ls : List ℕ) → off < acc → partition_point off (starts_from acc ls) ≡ 0
unfolding starts_from partition_point
partition_below acc off [] h = ground (arith, h)
partition_below acc off (l ∷ ls) h = ground (arith, h)

partition_lem :
    (acc off : ℕ) (ls : List ℕ)
    → acc ≤ off
    → (i : ℕ) × (partition_point off (starts_from acc ls) ≡ suc i) × IsFrame acc off ls i
unfolding starts_from partition_point
partition_lem acc off [] h =
    (0, ground (arith, h), record { index = omega arith; from = omega (arith, h); to = inl refl })
partition_lem acc off (l ∷ ls) h = elim (Bool-cases (leb (acc + l) off)) [
  | inl t ↦
      let (i, e, f) = partition_lem (acc + l) off ls (ground (arith, t)) in
      (
        suc i,
        ground (arith, h, e),
        record {
          index = omega (arith, f.index);
          from = omega (arith, f.from);
          to = elim f.to [ inl e ↦ inl (ap suc e) | inr b ↦ inr (omega (arith, b)) ];
        },
      )
  | inr b ↦
      let past : off < acc + l = ground (arith, b) in
      (
        0,
        ground (arith, h, partition_below (acc + l) off ls past),
        record { index = omega arith; from = omega (arith, h); to = inr (omega (arith, past)) },
      )
]

-- The frame that the footer of `ls` gives for `off`, and its offset in the plaintext.
pub frame_containing_lem :
    (fs : List (ℕ × ℕ)) (off : ℕ)
    → (i : ℕ) × (frame_containing (footer_of fs) off ≡ i)
      × IsFrame 0 off (uncomp_of fs) i
      × (uncomp_offset (footer_of fs) i ≡ sum (take i (uncomp_of fs)))
unfolding frame_containing footer_of uncomp_offset
frame_containing_lem fs off =
    let us = uncomp_of fs in
    let (i, e, f) = partition_lem 0 off us (omega arith) in
    let n = length-starts_from 0 us in
    let at : min i (length (starts_from 0 us) - 1) ≡ i = omega (arith, n, f.index) in
    (
      i,
      omega (arith, e),
      f,
      ap (λ k. get_or (starts_from 0 us) k 0) at
          ∙ (get_or-starts_from 0 i us f.index ∙ omega arith),
    )
