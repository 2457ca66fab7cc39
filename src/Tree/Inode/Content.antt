-- ===== src/Tree/Inode/Content.antt =====
-- limnifs-core/src/inode.rs: the parser of content handles against their layout.
use limnifs.Prelude.{
  ℕ, ◌^◌, ◌≤◌, ◌<◌, ◌≡◌, refl, ap, ◌≢◌, ◌↔◌, ◌⊎◌, inl, inr, true, false, not, List, [], ◌∷◌, ◌++◌,
  append_assoc, arith, ◌==◌, ==_iff, le→ltb, length, All,
}
use limnifs.Prelude.Bytes.{to_le_bytes}
use limnifs.Prelude.{
  ℕ, ◌^◌, ◌≤◌, ◌<◌, ◌≡◌, refl, ap, ◌≢◌, ◌↔◌, ◌⊎◌, inl, inr, true, false, not, List, [], ◌∷◌, ◌++◌,
  append_assoc, arith, ◌==◌, ==_iff, le→ltb, length, All,
}
use limnifs.Prelude.Bytes.{to_le_bytes}
use limnifs.Cursor.{Cursor, read_n_owned}
use limnifs.Cursor.Steps.{IsValid, follow, after}
use limnifs.Cursor.Rules.{
  Sound, Sound-ok, Sound-err, Sound-bind, Sound-weaken, Runs, Runs-bind, At, Reads, Took,
}
use limnifs.Cursor.Reads.{
  read_n-Runs, read_n-Sound, read_u32-Runs, read_u32-Sound, read_u64-Runs, read_u64-Sound,
}
use limnifs.Cursor.Guards.{reject-Sound, reject-Runs, branch-Sound, branch-true, branch-false}
use limnifs.Cursor.Loops.{encode_list, parse_list-Sound, parse_list-Runs}
use limnifs.Cursor.Unique.{Goods-All}
use limnifs.Prelude.Utf8.{is_utf8}
use limnifs.Tree.Inode.{
  SliceRef, ContentHandle, inline_data, shared_inline, slice_map, directory, symlink, device, pipe,
  s_ifreg, s_ifdir, s_iflnk, is_device, is_pipe, has_flag, flag_inline_data, flag_shared_inline,
  file_type_of, parse_slice, is_contiguous, parse_shared, parse_inline, parse_slices,
  parse_directory, parse_symlink, parse_device, parse_pipe, parse_regular, parse_special,
  parse_content_handle,
}

-- A slice: its range of the file, its drop, its range of the drop.
unfoldable pub encode_slice : SliceRef → List ℕ
encode_slice s =
    to_le_bytes 8 s.file_byte_start
    ++ (to_le_bytes 8 s.file_byte_end
        ++ (s.drop_id ++ (to_le_bytes 4 s.drop_byte_start ++ to_le_bytes 4 s.drop_byte_len)))

unfoldable pub encode_content : ContentHandle → List ℕ
encode_content (inline_data bytes) = to_le_bytes 4 (length bytes) ++ bytes
encode_content (shared_inline index) = to_le_bytes 4 index
encode_content (slice_map slices) = to_le_bytes 4 (length slices) ++ encode_list encode_slice slices
encode_content (directory hash) = hash
encode_content (symlink target) = to_le_bytes 4 (length target) ++ target
encode_content (device dev) = to_le_bytes 8 dev
encode_content (pipe id) = to_le_bytes 8 id

-- A nonempty range of the file.
pub record IsSlice (s : SliceRef) : Type 0 where
  pub start : s.file_byte_start < 2 ^ 64
  pub end : s.file_byte_end < 2 ^ 64
  pub nonempty : s.file_byte_start < s.file_byte_end
  pub id : length s.drop_id ≡ 32
  pub drop_start : s.drop_byte_start < 2 ^ 32
  pub drop_len : s.drop_byte_len < 2 ^ 32

-- The slices cover the file from `start` without a gap.
abbrev pub Contiguous : ℕ → List SliceRef → Type 0
Contiguous start [] = Unit
Contiguous start (s ∷ ss) = (s.file_byte_start ≡ start) × Contiguous s.file_byte_end ss

-- The handles of a regular file under its flags.
abbrev pub IsRegularContent : ℕ → ℕ → ContentHandle → Type 0
IsRegularContent max_inline_bytes flags (inline_data bytes) =
    (has_flag flag_shared_inline flags ≡ false)
    × (has_flag flag_inline_data flags ≡ true)
    × (length bytes < 2 ^ 32)
    × (length bytes ≤ max_inline_bytes)
IsRegularContent max_inline_bytes flags (shared_inline index) =
    (has_flag flag_shared_inline flags ≡ true) × (index < 2 ^ 32)
IsRegularContent max_inline_bytes flags (slice_map slices) =
    (has_flag flag_shared_inline flags ≡ false)
    × (has_flag flag_inline_data flags ≡ false)
    × (length slices < 2 ^ 32)
    × Contiguous 0 slices
    × All IsSlice slices
IsRegularContent max_inline_bytes flags (directory hash) = ⊥
IsRegularContent max_inline_bytes flags (symlink target) = ⊥
IsRegularContent max_inline_bytes flags (device dev) = ⊥
IsRegularContent max_inline_bytes flags (pipe id) = ⊥

-- The handles of the other file types.
abbrev pub IsSpecialContent : ℕ → ContentHandle → Type 0
IsSpecialContent t (inline_data bytes) = ⊥
IsSpecialContent t (shared_inline index) = ⊥
IsSpecialContent t (slice_map slices) = ⊥
IsSpecialContent t (directory hash) = (t ≡ s_ifdir) × (length hash ≡ 32)
IsSpecialContent t (symlink target) =
    (t ≡ s_iflnk) × (length target < 2 ^ 32) × (is_utf8 target ≡ true)
IsSpecialContent t (device dev) = (is_device t ≡ true) × (dev < 2 ^ 64)
IsSpecialContent t (pipe id) = (is_pipe t ≡ true) × (id < 2 ^ 64)

-- The handle that a mode and the flags call for.
abbrev pub IsContent : ℕ → ℕ → ℕ → ContentHandle → Type 0
IsContent max_inline_bytes mode flags h =
    ((file_type_of mode ≡ s_ifreg) × IsRegularContent max_inline_bytes flags h)
    ⊎ ((file_type_of mode ≢ s_ifreg) × IsSpecialContent (file_type_of mode) h)

Contiguous-iff :
    (start : ℕ) (ss : List SliceRef) → (is_contiguous start ss ≡ true) ↔ Contiguous start ss
unfolding is_contiguous
Contiguous-iff start [] = ((λ h. tt), (λ h. refl))
Contiguous-iff start (s ∷ ss) =
    let (to, from) = Contiguous-iff s.file_byte_end ss in
    ((λ h. (ground arith, to (ground arith))), (λ (e, c). let rest = from c in ground arith))

IsSlice-Sound : (c : Cursor) → IsValid c → Sound (Took IsSlice encode_slice c) (parse_slice c)
unfolding parse_slice encode_slice
IsSlice-Sound c v = Sound-bind (read_u64-Sound c v) λ a c1 (h1, s1, v1).
    Sound-bind (read_u64-Sound c1 v1) λ b c2 (h2, s2, v2).
      Sound-bind (reject-Sound _ _ c2 v2) λ _ c3 (h3, s3, v3).
        Sound-bind (read_n-Sound 32 c3 v3) λ id c4 (h4, s4, v4).
          Sound-bind (read_u32-Sound c4 v4) λ d c5 (h5, s5, v5).
            Sound-bind (read_u32-Sound c5 v5) λ l c6 (h6, s6, v6). Sound-ok (
              record {
                start = h1;
                end = h2;
                nonempty = ground arith;
                id = h4;
                drop_start = h5;
                drop_len = h6;
              },
              follow s1 (follow s2 (follow s3 (follow s4 (follow s5 s6)))),
              v6,
            )

slice-Runs :
    (s : SliceRef) (c : Cursor) (rest : List ℕ)
    → IsSlice s
    → At c (encode_slice s ++ rest)
    → Runs s (Reads c (encode_slice s) rest) (parse_slice c)
unfolding parse_slice encode_slice
slice-Runs s c rest w a =
    let a' = simp append_assoc at a in
    Runs-bind _ (read_u64-Runs c s.file_byte_start _ w.start a') λ c1 (s1, a1).
      Runs-bind _ (read_u64-Runs c1 s.file_byte_end _ w.end a1) λ c2 (s2, a2).
        Runs-bind _ (reject-Runs _ _ c2 _ (ground (arith, w.nonempty)) a2) λ c3 (s3, a3).
          Runs-bind _ (read_n-Runs 32 c3 s.drop_id _ w.id a3) λ c4 (s4, a4).
            Runs-bind _ (read_u32-Runs c4 s.drop_byte_start _ w.drop_start a4) λ c5 (s5, a5).
              Runs-bind _ (read_u32-Runs c5 s.drop_byte_len rest w.drop_len a5) λ c6 (s6, a6).
                (c6, refl, (follow s1 (follow s2 (follow s3 (follow s4 (follow s5 s6)))), a6))

regular-Sound :
    (m flags : ℕ) (c : Cursor)
    → IsValid c
    → Sound (Took (IsRegularContent m flags) encode_content c) (parse_regular flags m c)
unfolding parse_regular parse_shared parse_inline parse_slices encode_content read_n_owned
regular-Sound m flags c v =
    branch-Sound _ _ _ c
      (λ shared.
        Sound-bind (read_u32-Sound c v) λ n c1 (h1, s1, v1). Sound-ok ((shared, h1), s1, v1))
      (λ plain.
        branch-Sound _ _ _ c
          (λ inline. Sound-bind (read_u32-Sound c v) λ n c1 (h1, s1, v1).
            Sound-bind (reject-Sound _ _ c1 v1) λ _ c2 (h2, s2, v2).
              Sound-bind (read_n-Sound n c2 v2) λ bytes c3 (h3, s3, v3).
                Sound-ok (
                  (plain, inline, omega arith, ground arith),
                  rw h3 (follow s1 (follow s2 s3)),
                  v3,
                ))
          (λ sliced. Sound-bind (read_u32-Sound c v) λ n c1 (h1, s1, v1).
            Sound-bind
              (parse_list-Sound (λ _. parse_slice) encode_slice (λ _. IsSlice) (λ _. IsSlice-Sound)
                n c1 v1)
              λ ss c2 ((l, g), s2, v2). Sound-bind (reject-Sound _ _ c2 v2) λ _ c3 (h3, s3, v3).
                Sound-ok (
                  (
                    plain,
                    sliced,
                    omega arith,
                    (Contiguous-iff 0 ss).0 (ground arith),
                    (Goods-All IsSlice [] ss).0 g,
                  ),
                  rw l (follow s1 (after s2 s3)),
                  v3,
                )))

special-Sound :
    (t : ℕ) (c : Cursor)
    → IsValid c
    → Sound (Took (IsSpecialContent t) encode_content c) (parse_special t c)
unfolding parse_special parse_directory parse_symlink parse_device parse_pipe encode_content
special-Sound t c v =
    branch-Sound _ _ _ c
      (λ e.
        Sound-bind (read_n-Sound 32 c v)
          λ h c1 (h1, s1, v1). Sound-ok (((==_iff _ _).0 e, h1), s1, v1))
      (λ _.
        branch-Sound _ _ _ c
          (λ e. Sound-bind (read_u32-Sound c v) λ n c1 (h1, s1, v1).
            Sound-bind (read_n-Sound n c1 v1) λ target c2 (h2, s2, v2).
              Sound-bind (reject-Sound _ _ c2 v2) λ _ c3 (h3, s3, v3). Sound-ok (
                ((==_iff _ _).0 e, omega arith, ground arith),
                rw h2 (follow s1 (after s2 s3)),
                v3,
              ))
          (λ _.
            branch-Sound _ _ _ c
              (λ e. Sound-bind (read_u64-Sound c v) λ n c1 (h1, s1, v1). Sound-ok ((e, h1), s1, v1))
              (λ _.
                branch-Sound _ _ _ c
                  (λ e.
                    Sound-bind (read_u64-Sound c v) λ n c1 (h1, s1, v1). Sound-ok ((e, h1), s1, v1))
                  (λ _. Sound-err))))

pub IsContent-Sound :
    (m mode flags : ℕ) (c : Cursor)
    → IsValid c
    → Sound (Took (IsContent m mode flags) encode_content c) (parse_content_handle mode flags m c)
unfolding parse_content_handle
IsContent-Sound m mode flags c v =
    branch-Sound _ _ _ c
      (λ e.
        Sound-weaken (regular-Sound m flags c v)
          λ h c' (w, s, v'). (inl ((==_iff _ _).0 e, w), s, v'))
      (λ e.
        Sound-weaken (special-Sound (file_type_of mode) c v)
          λ h c' (w, s, v'). (inr ((λ p. ground (arith, p, e)), w), s, v'))

regular-Runs :
    (m flags : ℕ) (h : ContentHandle) (c : Cursor) (rest : List ℕ)
    → IsRegularContent m flags h
    → At c (encode_content h ++ rest)
    → Runs h (Reads c (encode_content h) rest) (parse_regular flags m c)
unfolding parse_regular parse_shared parse_inline parse_slices encode_content read_n_owned
regular-Runs m flags (inline_data bytes) c rest (plain, inline, n, short) a =
    let a' = simp append_assoc at a in
    branch-false _ _ _ c plain (
      branch-true _ _ _ c inline (
        Runs-bind _ (read_u32-Runs c (length bytes) _ n a') λ c1 (s1, a1).
          Runs-bind _ (reject-Runs _ _ c1 _ (le→ltb _ _ short) a1) λ c2 (s2, a2).
            Runs-bind _ (read_n-Runs _ c2 bytes rest refl a2)
              λ c3 (s3, a3). (c3, refl, (follow s1 (follow s2 s3), a3))))
regular-Runs m flags (shared_inline index) c rest (shared, h) a =
    branch-true _ _ _ c shared
      (Runs-bind _ (read_u32-Runs c index rest h a) λ c1 (s1, a1). (c1, refl, (s1, a1)))
regular-Runs m flags (slice_map ss) c rest (plain, sliced, n, contiguous, all) a =
    let a' = simp append_assoc at a in
    branch-false _ _ _ c plain (
      branch-false _ _ _ c sliced (
        Runs-bind _ (read_u32-Runs c (length ss) _ n a') λ c1 (s1, a1).
          Runs-bind _
            (parse_list-Runs (λ _. parse_slice) encode_slice (λ _. IsSlice) (λ _. slice-Runs) ss
              (length ss) c1 rest refl ((Goods-All IsSlice [] ss).1 all) a1)
            λ c2 (s2, a2).
              Runs-bind _ (reject-Runs _ _ c2 rest (ap not ((Contiguous-iff 0 ss).1 contiguous)) a2)
                λ c3 (s3, a3). (c3, refl, (follow s1 (after s2 s3), a3))))
regular-Runs m flags (directory hash) c rest w a = absurd w
regular-Runs m flags (symlink target) c rest w a = absurd w
regular-Runs m flags (device dev) c rest w a = absurd w
regular-Runs m flags (pipe id) c rest w a = absurd w

-- The tests of the arms before a device's and a pipe's.
device_tests : (t : ℕ) → is_device t ≡ true → ((t == s_ifdir) ≡ false) × ((t == s_iflnk) ≡ false)
unfolding is_device
device_tests t h = (ground arith, ground arith)

pipe_tests :
    (t : ℕ)
    → is_pipe t ≡ true
    → ((t == s_ifdir) ≡ false) × ((t == s_iflnk) ≡ false) × (is_device t ≡ false)
unfolding is_device is_pipe
pipe_tests t h = (ground arith, ground arith, ground arith)

special-Runs :
    (t : ℕ) (h : ContentHandle) (c : Cursor) (rest : List ℕ)
    → IsSpecialContent t h
    → At c (encode_content h ++ rest)
    → Runs h (Reads c (encode_content h) rest) (parse_special t c)
unfolding parse_special parse_directory parse_symlink parse_device parse_pipe encode_content
special-Runs t (inline_data bytes) c rest w a = absurd w
special-Runs t (shared_inline index) c rest w a = absurd w
special-Runs t (slice_map ss) c rest w a = absurd w
special-Runs t (directory hash) c rest (e, n) a =
    branch-true _ _ _ c ((==_iff _ _).1 e)
      (Runs-bind _ (read_n-Runs 32 c hash rest n a) λ c1 (s1, a1). (c1, refl, (s1, a1)))
special-Runs t (symlink target) c rest (e, n, utf8) a =
    let a' = simp append_assoc at a in
    branch-false _ _ _ c (rw e refl) (
      branch-true _ _ _ c ((==_iff _ _).1 e) (
        Runs-bind _ (read_u32-Runs c (length target) _ n a') λ c1 (s1, a1).
          Runs-bind _ (read_n-Runs _ c1 target rest refl a1) λ c2 (s2, a2).
            Runs-bind _ (reject-Runs _ _ c2 rest (ap not utf8) a2)
              λ c3 (s3, a3). (c3, refl, (follow s1 (after s2 s3), a3))))
special-Runs t (device dev) c rest (d, n) a =
    let (dir, link) = device_tests t d in
    branch-false _ _ _ c dir (
      branch-false _ _ _ c link (
        branch-true _ _ _ c d
          (Runs-bind _ (read_u64-Runs c dev rest n a) λ c1 (s1, a1). (c1, refl, (s1, a1)))))
special-Runs t (pipe id) c rest (p, n) a =
    let (dir, link, dev) = pipe_tests t p in
    branch-false _ _ _ c dir (
      branch-false _ _ _ c link (
        branch-false _ _ _ c dev (
          branch-true _ _ _ c p
            (Runs-bind _ (read_u64-Runs c id rest n a) λ c1 (s1, a1). (c1, refl, (s1, a1))))))

pub content-Runs :
    (m mode flags : ℕ) (h : ContentHandle) (c : Cursor) (rest : List ℕ)
    → IsContent m mode flags h
    → At c (encode_content h ++ rest)
    → Runs h (Reads c (encode_content h) rest) (parse_content_handle mode flags m c)
unfolding parse_content_handle
content-Runs m mode flags h c rest (inl (e, w)) a =
    branch-true _ _ _ c ((==_iff _ _).1 e) (regular-Runs m flags h c rest w a)
content-Runs m mode flags h c rest (inr (e, w)) a =
    branch-false _ _ _ c (ground (arith, e)) (special-Runs (file_type_of mode) h c rest w a)
