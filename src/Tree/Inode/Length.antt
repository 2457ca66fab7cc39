-- ===== src/Tree/Inode/Length.antt =====
-- limnifs-core/src/inode.rs, `file_len`: the length of a file against the slices that hold its bytes.
use limnifs.Prelude.{
  ℕ, ◌+◌, ◌≤◌, ◌≡◌, refl, inl, inr, ◌&&◌, some, List, [], ◌∷◌, arith, ok, ltb, leb, if◌then◌else◌,
  All,
}
use limnifs.Cursor.{Cursor}
use limnifs.Cursor.Steps.{IsValid}
use limnifs.Tree.Inode.{
  SliceRef, Inode, slice_map, last_end, first_start, slices_len, file_len, parse_inode_with_ceiling,
}
use limnifs.Tree.Inode.Content.{IsContent, Contiguous, IsSlice}
use limnifs.Tree.Inode.RoundTrip.{parse_inode_with_ceiling_canonical}

-- How many slices hold the byte at `p`.
unfoldable pub holders : ℕ → List SliceRef → ℕ
holders p [] = 0
holders p (s ∷ ss) =
    (if leb s.file_byte_start p && ltb p s.file_byte_end then 1 else 0) + holders p ss

-- Where slices that begin at `start` end.
end_of : ℕ → List SliceRef → ℕ
end_of start [] = start
end_of start (s ∷ ss) = end_of s.file_byte_end ss

end_of-le :
    (start : ℕ) (ss : List SliceRef)
    → Contiguous start ss
    → All IsSlice ss
    → start ≤ end_of start ss
unfolding end_of
end_of-le start [] c a = omega arith
end_of-le start (s ∷ ss) (e, c) (w, a) =
    omega (arith, e, w.nonempty, end_of-le s.file_byte_end ss c a)

held_once :
    (p start : ℕ) (ss : List SliceRef)
    → Contiguous start ss
    → All IsSlice ss
    → holders p ss ≡ (if leb start p && ltb p (end_of start ss) then 1 else 0)
unfolding holders end_of
held_once p start [] c a = ground arith
held_once p start (s ∷ ss) (e, c) (w, a) =
    ground
      (arith, e, w.nonempty, held_once p s.file_byte_end ss c a, end_of-le s.file_byte_end ss c a)

last_end-end_of :
    (s : SliceRef) (ss : List SliceRef) → last_end (s ∷ ss) ≡ some (end_of s.file_byte_end ss)
unfolding last_end end_of
last_end-end_of s [] = refl
last_end-end_of s (t ∷ ss) = last_end-end_of t ss

slices_len_lem : (ss : List SliceRef) → Contiguous 0 ss → slices_len ss ≡ end_of 0 ss
unfolding slices_len first_start end_of last_end
slices_len_lem [] c = refl
slices_len_lem (s ∷ ss) (e, c) = rw (slices_len, last_end-end_of s ss) (omega (arith, e))

content_slices :
    (m mode flags : ℕ) (ss : List SliceRef)
    → IsContent m mode flags (slice_map ss)
    → Contiguous 0 ss × All IsSlice ss
content_slices m mode flags ss (inl (_, (_, _, _, c, a))) = (c, a)
content_slices m mode flags ss (inr (_, w)) = absurd w

-- In every inode with slices that the parser accepts on a valid cursor, exactly one slice holds each
-- byte below `file_len`, and none holds a byte from there on.
pub file_len-holders :
    (m : ℕ) (c : Cursor) (i : Inode) (c' : Cursor) (slices : List SliceRef) (p : ℕ)
    → IsValid c
    → parse_inode_with_ceiling m c ≡ ok (i, c')
    → i.content_handle ≡ slice_map slices
    → holders p slices ≡ (if ltb p (file_len i.content_handle) then 1 else 0)
unfolding file_len
file_len-holders m c i c' slices p v e h =
    let (flags, w, _) = parse_inode_with_ceiling_canonical m c i c' v e in
    let content : IsContent m i.mode flags (slice_map slices) = rw h at w.content in
    let (contiguous, all) = content_slices m i.mode flags slices content in
    let once = held_once p 0 slices contiguous all in
    rw h (ground (arith, once, slices_len_lem slices contiguous))
