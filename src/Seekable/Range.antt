-- ===== src/Seekable/Range.antt =====
-- limnifs-core/src/seekable.rs: a range decoded frame by frame against the whole drop decoded.
use limnifs.Prelude.{
  ℕ, zero, suc, ◌+◌, ◌-◌, ◌^◌, ◌≤◌, ◌<◌, min, ◌≡◌, refl, sym, ap, subst, ◌∙◌, inl, inr, true, false,
  Bool-cases, List, [], ◌∷◌, ◌++◌, ok, err, Result-cases, ok_injective, if◌then◌else◌, ◌||◌, arith,
  ltb, leb, length, take, drop, length-append, length-drop, sum, slice, take_all, take-append_left,
  take-append_right, drop-append_left, drop-append_right, drop-drop, wrap_add_lem, wrap_sub_lem,
}
use native.Mathlib.Nat.{zero-add}
use limnifs.Error.{corrupt, Section, Fault}
use limnifs.Codec.{Codec, IsLossless}
use limnifs.Seekable.{
  footer_of, uncomp_of, comp_of, compressed_offset_of, prepend, decode_frames, frame_part,
  range_frames, range_of,
}
use limnifs.Seekable.Starts.{IsFrame, frame_containing_lem}

module _ (codec : Codec) (laws : IsLossless codec) (id : ℕ) (container : List ℕ) where
  -- A loop that succeeds decoded its first frame, and its rest.
  pub record Decoded (pos c u : ℕ) (cs us : List ℕ) (xs : List ℕ) : Type 0 where
    pub frame : List ℕ
    pub rest : List ℕ
    pub first : codec.decompress id (slice pos c container) u ≡ ok frame
    pub others : decode_frames codec id container (pos + c) cs us ≡ ok rest
    pub joined : xs ≡ frame ++ rest

  split_ok :
      (pos c u : ℕ) (cs us xs : List ℕ)
      → decode_frames codec id container pos (c ∷ cs) (u ∷ us) ≡ ok xs
      → Decoded pos c u cs us xs
  unfolding decode_frames prepend
  split_ok pos c u cs us xs e =
      elim (Result-cases (codec.decompress id (slice pos c container) u)) [
        | inr (x, p) ↦ let e' = simp (decode_frames, p) at e in cc
        | inl (frame, p) ↦ elim (Result-cases (decode_frames codec id container (pos + c) cs us)) [
          | inr (x, q) ↦ let e' = simp (decode_frames, p, prepend, q) at e in cc
          | inl (rest, q) ↦
              let e' = simp (decode_frames, p, prepend, q) at e in
              record {
                frame = frame;
                rest = rest;
                first = p;
                others = q;
                joined = sym (ok_injective e');
              }
        ]
      ]

  -- A successful loop gives each frame its length.
  pub length-decode_frames :
      (fs : List (ℕ × ℕ)) (pos : ℕ) (xs : List ℕ)
      → decode_frames codec id container pos (comp_of fs) (uncomp_of fs) ≡ ok xs
      → length xs ≡ sum (uncomp_of fs)
  unfolding decode_frames comp_of uncomp_of
  length-decode_frames [] pos xs e = ap length (sym (ok_injective e))
  length-decode_frames ((u, c) ∷ fs) pos xs e =
      let d = split_ok pos c u (comp_of fs) (uncomp_of fs) xs e in
      let head = laws.sized id (slice pos c container) u d.frame d.first in
      let tail = length-decode_frames fs (pos + c) d.rest d.others in
      omega (arith, ap length d.joined, length-append d.frame d.rest, head, tail)

  -- It can start behind any number of frames.
  skip_frames :
      (i : ℕ) (fs : List (ℕ × ℕ)) (pos : ℕ) (xs : List ℕ)
      → decode_frames codec id container pos (comp_of fs) (uncomp_of fs) ≡ ok xs
      → decode_frames codec id container
          (pos + sum (take i (comp_of fs)))
          (comp_of (drop i fs))
          (uncomp_of (drop i fs))
        ≡ ok (drop (sum (take i (uncomp_of fs))) xs)
  unfolding comp_of uncomp_of decode_frames
  skip_frames zero fs pos xs e =
      ap (λ p. decode_frames codec id container p (comp_of fs) (uncomp_of fs)) (omega arith) ∙ e
  skip_frames (suc i) [] pos xs e = e
  skip_frames (suc i) ((u, c) ∷ fs) pos xs e =
      let d = split_ok pos c u (comp_of fs) (uncomp_of fs) xs e in
      let head = laws.sized id (slice pos c container) u d.frame d.first in
      let tail = skip_frames i fs (pos + c) d.rest d.others in
      let back =
        drop-append_right (u + sum (take i (uncomp_of fs))) (sum (take i (uncomp_of fs))) d.frame
          d.rest (omega (arith, head)) in
      ap (λ p. decode_frames codec id container p (comp_of (drop i fs)) (uncomp_of (drop i fs)))
        (omega arith)
      ∙ (tail ∙ ap ok (sym back ∙ ap (drop (u + sum (take i (uncomp_of fs)))) (sym d.joined)))

  -- The first frame of the loop ends behind `off`, or at it.
  abbrev Reaches : ℕ → ℕ → List (ℕ × ℕ) → Type 0
  Reaches off cum [] = Unit
  Reaches off cum ((u, c) ∷ fs) = off ≤ cum + u

  -- The part of the whole that the loop is to give from plaintext offset `cum` on.
  abbrev part : ℕ → ℕ → ℕ → List ℕ → List ℕ
  part off len cum xs = slice (off - cum) (off + len - cum - (off - cum)) xs

  -- The bytes that one frame adds.
  abbrev piece : ℕ → ℕ → ℕ → ℕ → List ℕ → List ℕ
  piece off len cum u frame = slice (off - cum) (min (off + len - cum) u - (off - cum)) frame

  frame_part_lem :
      (off len cum u : ℕ) (frame : List ℕ)
      → off + len < 2 ^ 64
      → length frame ≡ u
      → off ≤ cum + u
      → cum ≤ off + len
      → frame_part off (off + len) cum u frame ≡ ok (piece off len cum u frame)
  unfolding frame_part
  frame_part_lem off len cum u frame word h reach low =
      let width = wrap_sub_lem (off + len) cum low word in
      let fits : (ltb (min (off + len - cum) u) (off - cum)
            || ltb (length frame) (min (off + len - cum) u))
          ≡ false =
        ground (arith, h, reach, low) in
      simp (frame_part, width, fits) refl

  last_part :
      (off len cum u : ℕ) (frame rest : List ℕ)
      → length frame ≡ u
      → off ≤ cum + u
      → cum ≤ off + len
      → off + len ≤ cum + u
      → piece off len cum u frame ≡ part off len cum (frame ++ rest)
  last_part off len cum u frame rest h reach low high =
      let cut : min (off + len - cum) u ≡ off + len - cum = omega (arith, high) in
      ap (λ n. slice (off - cum) (n - (off - cum)) frame) cut
      ∙ sym (
          ap (take (off + len - cum - (off - cum)))
            (drop-append_left (off - cum) frame rest (omega (arith, h, reach)))
          ∙ take-append_left (off + len - cum - (off - cum)) (drop (off - cum) frame) rest
              (omega (arith, h, length-drop (off - cum) frame)))

  inner_part :
      (off len cum u : ℕ) (frame rest : List ℕ)
      → length frame ≡ u
      → off ≤ cum + u
      → cum + u < off + len
      → piece off len cum u frame ++ part off len (cum + u) rest ≡ part off len cum (frame ++ rest)
  inner_part off len cum u frame rest h reach high =
      let cut : min (off + len - cum) u ≡ u = omega (arith, high) in
      let whole : slice (off - cum) (min (off + len - cum) u - (off - cum)) frame
          ≡ drop (off - cum) frame =
        ap (λ n. slice (off - cum) (n - (off - cum)) frame) cut
        ∙ take_all _ (drop (off - cum) frame) (omega (arith, h, length-drop (off - cum) frame)) in
      let start : off - (cum + u) ≡ 0 = omega (arith, reach) in
      let later : part off len (cum + u) rest ≡ take (off + len - (cum + u)) rest =
        ap (λ n. slice n (off + len - (cum + u) - n) rest) start
        ∙ ap (λ n. take n rest) (omega arith) in
      ap (λ xs. xs ++ part off len (cum + u) rest) whole
      ∙ ap (λ xs. drop (off - cum) frame ++ xs) later
      ∙ sym (
          ap (take (off + len - cum - (off - cum)))
            (drop-append_left (off - cum) frame rest (omega (arith, h, reach)))
          ∙ take-append_right (off + len - cum - (off - cum)) (off + len - (cum + u))
              (drop (off - cum) frame) rest
              (omega (arith, h, reach, high, length-drop (off - cum) frame)))

  range_lem :
      (fs : List (ℕ × ℕ)) (off len pos cum : ℕ) (xs : List ℕ)
      → off + len < 2 ^ 64
      → decode_frames codec id container pos (comp_of fs) (uncomp_of fs) ≡ ok xs
      → Reaches off cum fs
      → cum ≤ off + len
      → off + len ≤ cum + length xs
      → range_frames codec id container off (off + len) pos cum (comp_of fs) (uncomp_of fs)
        ≡ ok (part off len cum xs)
  unfolding range_frames comp_of uncomp_of decode_frames
  range_lem [] off len pos cum xs word e reach low high =
      let none_left : xs ≡ [] = sym (ok_injective e) in
      let high' : off + len ≤ cum + 0 = rw none_left at high in
      let nothing : off + len - cum - (off - cum) ≡ 0 = omega (arith, high') in
      ap ok (sym (ap (λ n. take n (drop (off - cum) xs)) nothing))
  range_lem ((u, c) ∷ fs) off len pos cum xs word e reach low high =
      let d = split_ok pos c u (comp_of fs) (uncomp_of fs) xs e in
      let head = laws.sized id (slice pos c container) u d.frame d.first in
      let long = length-append d.frame d.rest in
      let joined = ap length d.joined in
      let added = frame_part_lem off len cum u d.frame word head reach low in
      elim (Bool-cases (leb (off + len) (cum + u))) [
        | inl t ↦
            simp (range_frames, d.first, added, t)
              (ap ok (
                last_part off len cum u d.frame d.rest head reach low (ground (arith, t))
                ∙ ap (part off len cum) (sym d.joined)))
        | inr f ↦
            let beyond : cum + u < off + len = ground (arith, f) in
            let rest =
              range_lem fs off len (pos + c) (cum + u) d.rest word d.others
                (later fs off (cum + u) reach) (omega (arith, beyond))
                (omega (arith, high, joined, long, head)) in
            simp (range_frames, d.first, added, f, rest, prepend)
              (ap ok (
                inner_part off len cum u d.frame d.rest head reach beyond
                ∙ ap (part off len cum) (sym d.joined)))
      ]
    where
      later : (fs : List (ℕ × ℕ)) (off cum : ℕ) → off ≤ cum → Reaches off cum fs
      later [] off cum h = tt
      later ((u, c) ∷ fs) off cum h = omega (arith, h)

  drop-uncomp_of : (i : ℕ) (fs : List (ℕ × ℕ)) → drop i (uncomp_of fs) ≡ uncomp_of (drop i fs)
  unfolding uncomp_of
  drop-uncomp_of zero fs = refl
  drop-uncomp_of (suc i) [] = refl
  drop-uncomp_of (suc i) ((u, c) ∷ fs) = drop-uncomp_of i fs

  drop-comp_of : (i : ℕ) (fs : List (ℕ × ℕ)) → drop i (comp_of fs) ≡ comp_of (drop i fs)
  unfolding comp_of
  drop-comp_of zero fs = refl
  drop-comp_of (suc i) [] = refl
  drop-comp_of (suc i) ((u, c) ∷ fs) = drop-comp_of i fs

  -- The frame that the offset falls into reaches it.
  frame_Reaches :
      (fs : List (ℕ × ℕ)) (off i acc : ℕ)
      → IsFrame acc off (uncomp_of fs) i
      → Reaches off (acc + sum (take i (uncomp_of fs))) (drop i fs)
  unfolding uncomp_of
  frame_Reaches [] off zero acc f = tt
  frame_Reaches [] off (suc i) acc f = tt
  frame_Reaches ((u, c) ∷ fs) off zero acc f = elim f.to [
    | inl e ↦ absurd (omega (arith, e))
    | inr b ↦ omega (arith, b)
  ]
  frame_Reaches ((u, c) ∷ fs) off (suc i) acc f =
      subst (λ n. Reaches off n (drop i fs)) (omega arith)
        (frame_Reaches fs off i (acc + u) (record {
          index = omega (arith, f.index);
          from = omega (arith, f.from);
          to = elim f.to [ inl e ↦ inl (omega (arith, e)) | inr b ↦ inr (omega (arith, b)) ];
        }))

  pub range_of_lem :
      (fs : List (ℕ × ℕ)) (off len : ℕ) (xs : List ℕ)
      → off + len < 2 ^ 64
      → decode_frames codec id container 0 (comp_of fs) (uncomp_of fs) ≡ ok xs
      → range_of codec id container off len (footer_of fs) ≡ (
          if leb (off + len) (length xs)
          then ok (slice off len xs)
          else err (corrupt Section.seekable Fault.outside))
  unfolding range_of footer_of compressed_offset_of
  range_of_lem fs off len xs word e =
      let end = wrap_add_lem off len word in
      let us = uncomp_of fs in
      let cs = comp_of fs in
      let footer = footer_of fs in
      let n : length xs ≡ sum us = length-decode_frames fs 0 xs e in
      elim (Bool-cases (leb (off + len) (length xs))) [
        | inr f ↦
            let over : (ltb (sum us) off || ltb (sum us) (off + len)) ≡ true =
              ground (arith, f, n) in
            simp (range_of, end, over, f) refl
        | inl t ↦
            let inside : (ltb (sum us) off || ltb (sum us) (off + len)) ≡ false =
              ground (arith, t, n) in
            let (i, at, frame, start) = frame_containing_lem fs off in
            let cum = sum (take i us) in
            let low : cum ≤ off = omega (arith, frame.from) in
            let high : off + len ≤ cum + length (drop cum xs) =
              ground (arith, t, length-drop cum xs) in
            let run =
              range_lem (drop i fs) off len (sum (take i cs)) cum (drop cum xs) word
                (rw zero-add at (skip_frames i fs 0 xs e))
                (rw zero-add at (frame_Reaches fs off i 0 frame)) (omega (arith, low)) high in
            let goal : range_of codec id container off len footer ≡ ok (slice off len xs) =
              simp (range_of, end, inside, at, start, drop-comp_of i fs, drop-uncomp_of i fs, run)
                (ap ok (whole off len cum xs low)) in
            rw t goal
      ]
    where
      whole :
          (off len cum : ℕ) (xs : List ℕ)
          → cum ≤ off
          → part off len cum (drop cum xs) ≡ slice off len xs
      whole off len cum xs low =
          ap (λ k. take k (drop (off - cum) (drop cum xs))) (omega (arith, low))
          ∙ ap (take len) (drop-drop cum (off - cum) off xs (omega (arith, low)))
