-- ===== src/Cursor.antt =====
-- limnifs-core/src/cursor.rs: a byte slice with a position. A parser takes the cursor and returns
-- its value with the moved cursor. `usize` has 64 bits.
pub mod Steps
pub mod Rules
pub mod Reads
pub mod Guards
pub mod Loops
pub mod Unique
use limnifs.Prelude.{
  ℕ, zero, suc, ◌+◌, ◌-◌, ◌*◌, ◌^◌, List, [], ◌∷◌, ◌++◌, Bool, Result, ok, err, ltb, leb,
  if◌then◌else◌, take, drop, length, get_or, Option, none, some,
}
use limnifs.Prelude.Bytes.{from_le_bytes}
use limnifs.Error.{CoreError, too_short, corrupt, Section, Fault}

pub record Cursor : Type 0 where
  pub bytes : List ℕ
  pub pos : ℕ

abbrev pub usize_mod : ℕ
usize_mod = 2 ^ 64

abbrev pub Outcome {ℓ} : Type ℓ → Type ℓ
Outcome A = Result CoreError (A × Cursor)

abbrev pub Parser {ℓ} : Type ℓ → Type ℓ
Parser A = Cursor → Outcome A

-- The rest of a parser, after its first part: Rust's `?` returns an error at once.
abbrev pub continue {ℓ κ} : {A : Type ℓ} {B : Type κ} → Outcome A → (A → Parser B) → Outcome B
continue (ok (a, c)) f = f a c
continue (err e) f = err e

infixl 5 ◌>>=◌ ◌>>◌
abbrev pub ◌>>=◌ {ℓ κ} : {A : Type ℓ} {B : Type κ} → Parser A → (A → Parser B) → Parser B
◌>>=◌ m f c = continue (m c) f

abbrev pub ◌>>◌ {ℓ} : {B : Type ℓ} → Parser (Unit {0}) → Parser B → Parser B
m >> k = m >>= λ _. k

abbrev pub return {ℓ} : {A : Type ℓ} → A → Parser A
return a c = ok (a, c)

abbrev pub fail {ℓ} : {A : Type ℓ} → CoreError → Parser A
fail e c = err e

-- `if test { return Err(e); }`
unfoldable pub reject : Bool → CoreError → Parser (Unit {0})
reject test e c = if test then err e else ok (tt, c)

unfoldable pub new : List ℕ → Cursor
new bytes = record { bytes = bytes; pos = 0 }

unfoldable pub at_start : List ℕ → ℕ → Result CoreError Cursor
at_start bytes start =
    if ltb (length bytes) start
    then err (too_short (length bytes) start)
    else ok (record { bytes = bytes; pos = start })

unfoldable pub position : Cursor → ℕ
position c = c.pos

unfoldable pub remaining_len : Cursor → ℕ
remaining_len c = if leb (length c.bytes) c.pos then 0 else length c.bytes - c.pos

unfoldable pub remaining : Cursor → List ℕ
remaining c = drop c.pos c.bytes

-- `pos.checked_add(n)`, the bound check, then the slice `bytes[pos..end]`.
unfoldable pub read_n : ℕ → Parser (List ℕ)
unfolding remaining_len
read_n n c =
    let end = c.pos + n in
    if leb usize_mod end
    then err (corrupt Section.cursor Fault.overflow)
    else if ltb (length c.bytes) end
    then err (too_short (remaining_len c) n)
    else ok (take n (drop c.pos c.bytes), record c { pos = end })

unfoldable pub skip : ℕ → Parser (Unit {0})
unfolding read_n
skip n = do _ ← read_n n; return tt

unfoldable pub read_n_owned : ℕ → Parser (List ℕ)
read_n_owned n = read_n n

unfoldable pub read_magic : Parser (List ℕ)
read_magic = read_n 4

unfoldable pub read_u8 : Parser ℕ
unfolding read_n
read_u8 = do bytes ← read_n 1; return (get_or bytes 0 0)

unfoldable pub read_u16_le : Parser ℕ
unfolding read_n
read_u16_le = do bytes ← read_n 2; return (from_le_bytes bytes)

unfoldable pub read_u32_le : Parser ℕ
unfolding read_n
read_u32_le = do bytes ← read_n 4; return (from_le_bytes bytes)

unfoldable pub read_u64_le : Parser ℕ
unfolding read_n
read_u64_le = do bytes ← read_n 8; return (from_le_bytes bytes)

-- `a.checked_mul(b)` on `usize`, with the error of a product that does not fit.
unfoldable pub checked_mul : ℕ → ℕ → CoreError → Parser ℕ
checked_mul a b e c = if leb usize_mod (a * b) then err e else ok (a * b, c)

-- `if cursor.remaining_len() < need { return Err(TooShort { .. }); }`
unfoldable pub ensure_remaining : ℕ → Parser (Unit {0})
ensure_remaining need c =
    if ltb (remaining_len c) need then err (too_short (remaining_len c) need) else ok (tt, c)

-- `option.ok_or_else(|| e)?`
unfoldable pub or_fail {ℓ} : {A : Type ℓ} → Option A → CoreError → Parser A
or_fail none e c = err e
or_fail (some a) e c = ok (a, c)

-- `for _ in 0..count { entries.push(entry(&entries)?); }`: an entry's parser sees those before it.
unfoldable pub parse_list {ℓ} : {A : Type ℓ} → (List A → Parser A) → ℕ → List A → Parser (List A)
parse_list entry zero entries = return entries
parse_list entry (suc n) entries = entry entries >>= λ e. parse_list entry n (entries ++ (e ∷ []))

-- `if test { .. } else { .. }` over two parsers.
unfoldable pub branch {ℓ} : {A : Type ℓ} → Bool → Parser A → Parser A → Parser A
branch test p q c = if test then p c else q c
