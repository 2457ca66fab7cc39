-- ===== src/Seekable/RoundTrip.antt =====
-- limnifs-core/src/seekable.rs: what the encoder lays out, decoded in whole and in part.
use limnifs.Prelude.{
  ℕ, zero, suc, ◌+◌, ◌^◌, ◌≤◌, ◌<◌, max, ◌≡◌, refl, sym, ap, subst, ◌∙◌, inl, inr, false, ◌&&◌,
  List, [], ◌∷◌, ◌++◌, append_assoc, ok, err, Result-cases, ok_injective, else_ok, if◌then◌else◌,
  arith, ltb, leb, ==_refl, length, take, drop, All, length-append, length-take, length-drop,
  take-append-drop, sum, concat, slice, slice-append,
}
use limnifs.Error.{corrupt, Section, Fault}
use limnifs.Codec.{Codec, IsLossless}
use limnifs.Seekable.{
  seekable_frame_size, chunks_from, chunks, Packed, pack_frame, pack, encode_table, encode_tail,
  encode_seekable, uncomp_of, comp_of, footer_of, any_zero, prepend, decode_frames, decode_seekable,
  decode_seekable_range, parse_footer,
}
use limnifs.Seekable.Layout.{IsLens, parse_footer-encode, parse_footer-footer_of}
use limnifs.Seekable.Range.{range_of_lem}

-- Chunks are not empty, not above the frame size, and make up the plaintext.
record AreChunks (n : ℕ) (xs : List ℕ) (frames : List (List ℕ)) : Type 0 where
  joined : concat frames ≡ xs
  sizes : All (λ f. (1 ≤ length f) × (length f ≤ n)) frames
  few : length frames ≤ length xs

chunks_from_lem :
    (fuel n : ℕ) (xs : List ℕ) → 1 ≤ n → length xs ≤ fuel → AreChunks n xs (chunks_from fuel n xs)
unfolding chunks_from
chunks_from_lem zero n [] p h = record { joined = refl; sizes = tt; few = omega arith }
chunks_from_lem zero n (x ∷ xs) p h = absurd (omega (arith, h))
chunks_from_lem (suc fuel) n [] p h = record { joined = refl; sizes = tt; few = omega arith }
chunks_from_lem (suc fuel) n (x ∷ xs) p h =
    let l1 = length-take n (x ∷ xs) in
    let l2 = length-drop n (x ∷ xs) in
    let rest = chunks_from_lem fuel n (drop n (x ∷ xs)) p (omega (arith, h, l2, p)) in
    record {
      joined = ap (λ ys. take n (x ∷ xs) ++ ys) rest.joined ∙ take-append-drop n (x ∷ xs);
      sizes = ((omega (arith, l1, p), omega (arith, l1)), rest.sizes);
      few = omega (arith, rest.few, l2, p);
    }

lens_of : List (List ℕ) → List ℕ
lens_of [] = []
lens_of (f ∷ fs) = length f ∷ lens_of fs

-- A frame in front of a packing that succeeded.
record Framed (codec : Codec) (id : ℕ) (frame : List ℕ) (frames : List (List ℕ)) (p : Packed)
    : Type 0 where
  compressed : List ℕ
  rest : Packed
  packed : codec.compress id frame ≡ ok compressed
  small : length compressed < 2 ^ 32
  others : pack codec id frames ≡ ok rest
  body : p.body ≡ compressed ++ rest.body
  lens : p.lens ≡ (length frame, length compressed) ∷ rest.lens

pack_ok :
    (codec : Codec) (id : ℕ) (frame : List ℕ) (frames : List (List ℕ)) (p : Packed)
    → pack codec id (frame ∷ frames) ≡ ok p
    → Framed codec id frame frames p
unfolding pack pack_frame
pack_ok codec id frame frames p e = elim (Result-cases (codec.compress id frame)) [
  | inr (x, c) ↦ let e' = simp (pack, c, pack_frame) at e in cc
  | inl (compressed, c) ↦
      let e1 = simp (pack, c, pack_frame) at e in
      let (t, e2) = else_ok _ (leb (2 ^ 32) (length compressed)) e1 in
      elim (Result-cases (pack codec id frames)) [
        | inr (x, r) ↦ let e3 = simp r at e2 in cc
        | inl (rest, r) ↦
            let e3 = ok_injective (simp r at e2) in
            record {
              compressed = compressed;
              rest = rest;
              packed = c;
              small = ground (arith, t);
              others = r;
              body = sym (ap (λ q. q.body) e3);
              lens = sym (ap (λ q. q.lens) e3);
            }
      ]
]

-- The lengths of the table are those of the frames, and the bytes decode to the frames in a row.
record IsPacked (codec : Codec) (id : ℕ) (frames : List (List ℕ)) (p : Packed) : Type 0 where
  lens : All IsLens p.lens
  count : length p.lens ≡ length frames
  uncomp : uncomp_of p.lens ≡ lens_of frames
  comp : sum (comp_of p.lens) ≡ length p.body
  decodes :
      (before after : List ℕ) (pos : ℕ)
      → pos ≡ length before
      → decode_frames codec id (before ++ (p.body ++ after)) pos (comp_of p.lens) (uncomp_of p.lens)
        ≡ ok (concat frames)

pack_lem :
    (codec : Codec) (id : ℕ) (frames : List (List ℕ)) (p : Packed)
    → IsLossless codec
    → All (λ f. length f ≤ seekable_frame_size) frames
    → pack codec id frames ≡ ok p
    → IsPacked codec id frames p
unfolding pack lens_of uncomp_of comp_of decode_frames
pack_lem codec id [] p laws w e =
    let e' = ok_injective e in
    subst (IsPacked codec id []) e' (record {
      lens = tt;
      count = refl;
      uncomp = refl;
      comp = refl;
      decodes = λ before after pos at. refl;
    })
pack_lem codec id (frame ∷ frames) p laws (fits, w) e =
    let f = pack_ok codec id frame frames p e in
    let ih = pack_lem codec id frames f.rest laws w f.others in
    let lens' = sym f.lens in
    record {
      lens = subst (All IsLens) lens' ((omega (arith, fits), f.small), ih.lens);
      count = ap length f.lens ∙ ap suc ih.count;
      uncomp = ap uncomp_of f.lens ∙ ap (λ us. length frame ∷ us) ih.uncomp;
      comp =
          ap (λ l. sum (comp_of l)) f.lens
          ∙ omega (arith, ih.comp, ap length f.body, length-append f.compressed f.rest.body);
      decodes = λ before after pos at.
          let all = before ++ (p.body ++ after) in
          let shape1 : before ++ (f.compressed ++ (f.rest.body ++ after)) ≡ all =
            ap (λ b. before ++ b)
              (sym (append_assoc f.compressed f.rest.body after)
                ∙ ap (λ b. b ++ after) (sym f.body)) in
          let shape2 : (before ++ f.compressed) ++ (f.rest.body ++ after) ≡ all =
            append_assoc before f.compressed (f.rest.body ++ after) ∙ shape1 in
          let bytes : slice pos (length f.compressed) all ≡ f.compressed =
            subst (λ x. slice pos (length f.compressed) x ≡ f.compressed) shape1
              (slice-append pos (length f.compressed) before f.compressed (f.rest.body ++ after) at
                refl) in
          let first = laws.lossless id frame f.compressed f.packed in
          let others =
            subst
              (λ x.
                decode_frames codec id x (pos + length f.compressed) (comp_of f.rest.lens)
                  (uncomp_of f.rest.lens)
                ≡ ok (concat frames))
              shape2
              (ih.decodes (before ++ f.compressed) after (pos + length f.compressed)
                (omega (arith, at, length-append before f.compressed))) in
          subst
            (λ l.
              decode_frames codec id all pos (comp_of l) (uncomp_of l)
              ≡ ok (concat (frame ∷ frames)))
            lens' (simp (decode_frames, bytes, first, others, prepend) refl);
    }

small_chunks :
    (n : ℕ) (frames : List (List ℕ))
    → All (λ f. (1 ≤ length f) × (length f ≤ n)) frames
    → All (λ f. length f ≤ n) frames × (any_zero (lens_of frames) ≡ false)
unfolding lens_of any_zero
small_chunks n [] w = (tt, refl)
small_chunks n (f ∷ fs) ((one, fits), w) =
    let (fit, nonzero) = small_chunks n fs w in ((fits, fit), ground (arith, one, nonzero))

-- The frames of a plaintext: in a row they are the plaintext, none is above the size, and none is empty
-- but the one of the empty plaintext.
record AreFrames (xs : List ℕ) (frames : List (List ℕ)) : Type 0 where
  joined : concat frames ≡ xs
  fit : All (λ f. length f ≤ seekable_frame_size) frames
  some : 1 ≤ length frames
  few : length frames ≤ max 1 (length xs)
  nonzero : (any_zero (lens_of frames) && ltb 1 (length (lens_of frames))) ≡ false

chunks_lem : (xs : List ℕ) → AreFrames xs (chunks seekable_frame_size xs)
unfolding chunks lens_of chunks_from any_zero
chunks_lem [] = record {
  joined = refl;
  fit = (omega arith, tt);
  some = omega arith;
  few = omega arith;
  nonzero = refl;
}
chunks_lem (x ∷ xs) =
    let frames = chunks_from (length (x ∷ xs)) seekable_frame_size (x ∷ xs) in
    let c =
      chunks_from_lem (length (x ∷ xs)) seekable_frame_size (x ∷ xs) (omega arith) (omega arith) in
    let (fit, nonzero) = small_chunks seekable_frame_size frames c.sizes in
    record {
      joined = c.joined;
      fit = fit;
      some = omega arith;
      few = omega (arith, c.few);
      nonzero = rw nonzero refl;
    }

sum-lens_of : (frames : List (List ℕ)) → sum (lens_of frames) ≡ length (concat frames)
unfolding lens_of
sum-lens_of [] = refl
sum-lens_of (f ∷ fs) = omega (arith, sum-lens_of fs, length-append f (concat fs))

length-uncomp_of : (fs : List (ℕ × ℕ)) → length (uncomp_of fs) ≡ length fs
unfolding uncomp_of
length-uncomp_of [] = refl
length-uncomp_of ((u, c) ∷ fs) = ap suc (length-uncomp_of fs)

encode_ok :
    (codec : Codec) (id : ℕ) (xs out : List ℕ)
    → encode_seekable codec id xs ≡ ok out
    → (p : Packed) × (pack codec id (chunks seekable_frame_size xs) ≡ ok p)
      × (out ≡ p.body ++ (encode_table p.lens ++ encode_tail (length p.lens)))
unfolding encode_seekable
encode_ok codec id xs out e = elim (Result-cases (pack codec id (chunks seekable_frame_size xs))) [
  | inr (x, r) ↦ let e' = simp (encode_seekable, r) at e in cc
  | inl (p, r) ↦ let e' = simp (encode_seekable, r) at e in (p, r, sym (ok_injective e'))
]

-- Every plaintext of a u32 length that the encoder packs, with a codec that is lossless, decodes from
-- its container to itself: the footer parses, and the frames in a row are the plaintext.
pub decode_seekable-encode_seekable :
    (codec : Codec) (id : ℕ) (plaintext container : List ℕ)
    → IsLossless codec
    → length plaintext < 2 ^ 32
    → encode_seekable codec id plaintext ≡ ok container
    → decode_seekable codec id container (length plaintext) ≡ ok plaintext
unfolding decode_seekable footer_of
decode_seekable-encode_seekable codec id xs out laws short e =
    let (p, r, shape) = encode_ok codec id xs out e in
    let frames = chunks seekable_frame_size xs in
    let w = chunks_lem xs in
    let i = pack_lem codec id frames p laws w.fit r in
    let n = length-uncomp_of p.lens in
    let parsed : parse_footer out ≡ ok (footer_of p.lens) =
      ap parse_footer shape
      ∙ parse_footer-encode p.body p.lens (record {
        counted = omega (arith, i.count, w.few, short);
        some = omega (arith, i.count, w.some);
        lens = i.lens;
        adds_up = i.comp;
        nonzero = rw i.uncomp w.nonzero;
      }) in
    let total : sum (uncomp_of p.lens) ≡ length xs =
      ap sum i.uncomp ∙ (sum-lens_of frames ∙ ap length w.joined) in
    let run : decode_frames codec id out 0 (comp_of p.lens) (uncomp_of p.lens) ≡ ok xs =
      ap (λ o. decode_frames codec id o 0 (comp_of p.lens) (uncomp_of p.lens)) shape
      ∙ (i.decodes [] (encode_table p.lens ++ encode_tail (length p.lens)) 0 refl
          ∙ ap ok w.joined) in
    simp (decode_seekable, parsed, total, ==_refl (length xs), run) refl

-- With a codec whose decompression gives the declared lengths: if a container decodes to a plaintext,
-- then every range whose end fits 64 bits decodes to that range of the plaintext, and is refused if it
-- ends behind it.
pub decode_seekable_range-decode_seekable :
    (codec : Codec) (id : ℕ) (container : List ℕ) (n off len : ℕ) (plaintext : List ℕ)
    → IsLossless codec
    → off + len < 2 ^ 64
    → decode_seekable codec id container n ≡ ok plaintext
    → decode_seekable_range codec id container off len ≡ (
        if leb (off + len) (length plaintext)
        then ok (slice off len plaintext)
        else err (corrupt Section.seekable Fault.outside))
unfolding decode_seekable decode_seekable_range footer_of
decode_seekable_range-decode_seekable codec id container n off len xs laws word e =
    elim (Result-cases (parse_footer container)) [
      | inr (x, r) ↦ let e' = simp (decode_seekable, r) at e in cc
      | inl (f, r) ↦
          let (fs, shape) = parse_footer-footer_of container f r in
          let parsed = r ∙ ap ok shape in
          let e1 = simp (decode_seekable, parsed) at e in
          let (_, run) = else_ok _ _ e1 in
          simp (decode_seekable_range, parsed)
            (range_of_lem codec laws id container fs off len xs word run)
    ]
