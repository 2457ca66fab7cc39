-- ===== src/Cursor/Steps.antt =====
-- What a read does to the cursor of limnifs-core/src/cursor.rs: it splits the unread bytes.
use limnifs.Prelude.{
  ℕ, ◌+◌, ◌-◌, ◌^◌, ◌≤◌, ◌<◌, ◌≡◌, refl, sym, ap, ◌∙◌, List, [], ◌++◌, arith, append_assoc,
  append-nil, length, length-append, length-drop, drop, drop-drop, drop-length-append, All,
  All-drop, All-append_left,
}
use limnifs.Prelude.Bytes.{IsByte}
use limnifs.Cursor.{Cursor, remaining, remaining_len}

-- Bytes are bytes, a slice is shorter than `isize::MAX`, and the position lies inside it.
pub record IsValid (c : Cursor) : Type 0 where
  pub fits : length c.bytes < 2 ^ 63
  pub inside : c.pos ≤ length c.bytes
  pub are_bytes : All IsByte c.bytes

-- `c'` is `c` moved over exactly the bytes `xs`.
pub record Steps (c : Cursor) (xs : List ℕ) (c' : Cursor) : Type 0 where
  pub same : c'.bytes ≡ c.bytes
  pub moved : c'.pos ≡ c.pos + length xs
  pub split : remaining c ≡ xs ++ remaining c'

pub stay : (c : Cursor) → Steps c [] c
stay c = record { same = refl; moved = omega arith; split = refl }

-- Two reads in a row read the two byte strings in a row.
pub follow :
    {c c1 c2 : Cursor} {xs ys : List ℕ} → Steps c xs c1 → Steps c1 ys c2 → Steps c (xs ++ ys) c2
follow {xs} {ys} s t = record {
  same = t.same ∙ s.same;
  moved = omega (arith, s.moved, t.moved, length-append xs ys);
  split = s.split ∙ ap (◌++◌ xs) t.split ∙ sym (append_assoc xs ys _);
}

-- A check behind a read adds nothing.
pub after : {c c1 c2 : Cursor} {xs : List ℕ} → Steps c xs c1 → Steps c1 [] c2 → Steps c xs c2
after {xs} s t = rw append-nil at (follow s t)

pub remaining_len-remaining : (c : Cursor) → remaining_len c ≡ length (remaining c)
unfolding remaining_len remaining
remaining_len-remaining c = ground (arith, length-drop c.pos c.bytes)

pub Steps-inside : {c c' : Cursor} {xs : List ℕ} → IsValid c → Steps c xs c' → IsValid c'
Steps-inside {c} {c'} {xs} v s = record {
  fits = omega (arith, ap length s.same, v.fits);
  inside = omega (
    arith,
    ap length s.same,
    s.moved,
    v.inside,
    ap length s.split,
    length-append xs (remaining c'),
    room,
  );
  are_bytes = rw s.same v.are_bytes;
}
  where
    room : length (remaining c) ≡ length c.bytes - c.pos
    room = unfold remaining in length-drop c.pos c.bytes

pub remaining-IsByte : {c : Cursor} → IsValid c → All IsByte (remaining c)
unfolding remaining
remaining-IsByte {c} v = All-drop IsByte c.pos c.bytes v.are_bytes

pub Steps-IsByte : {c c' : Cursor} {xs : List ℕ} → IsValid c → Steps c xs c' → All IsByte xs
Steps-IsByte {xs} v s = All-append_left IsByte xs _ (rw s.split at (remaining-IsByte v))

-- A move over a front part of the unread bytes.
pub Steps-advance :
    (c : Cursor) (xs rest : List ℕ)
    → remaining c ≡ xs ++ rest
    → let c' = record c { pos = c.pos + length xs } in Steps c xs c' × (remaining c' ≡ rest)
unfolding remaining
Steps-advance c xs rest h =
    (record { same = refl; moved = refl; split = h ∙ ap (◌++◌ xs) (sym left) }, left)
  where
    left : drop (c.pos + length xs) c.bytes ≡ rest
    left =
        sym (drop-drop c.pos (length xs) (c.pos + length xs) c.bytes refl)
        ∙ ap (drop (length xs)) h
        ∙ drop-length-append xs rest
