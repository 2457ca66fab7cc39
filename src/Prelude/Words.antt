-- ===== src/Prelude/Words.antt =====
-- u64 arithmetic without a check, as a release build of the crates does it: modulo 2 ^ 64.
use Prim.Native.Nat.{ℕ, ◌+◌, ◌-◌, ◌*◌, ◌%◌, ◌^◌, ◌≤◌, ◌<◌}
use mathlib.Core.Path.{◌≡◌}
use native.Mathlib.Omega.{arith}

unfoldable pub wrap_add : ℕ → ℕ → ℕ
wrap_add a b = (a + b) % 2 ^ 64

unfoldable pub wrap_sub : ℕ → ℕ → ℕ
wrap_sub a b = (a + 2 ^ 64 - b) % 2 ^ 64

unfoldable pub wrap_mul : ℕ → ℕ → ℕ
wrap_mul a b = (a * b) % 2 ^ 64

pub wrap_add_lem : (a b : ℕ) → a + b < 2 ^ 64 → wrap_add a b ≡ a + b
unfolding wrap_add
wrap_add_lem a b h = omega (arith, h)

pub wrap_sub_lem : (a b : ℕ) → b ≤ a → a < 2 ^ 64 → wrap_sub a b ≡ a - b
unfolding wrap_sub
wrap_sub_lem a b h k = omega (arith, h, k)

pub wrap_mul_lem : (a b : ℕ) → a * b < 2 ^ 64 → wrap_mul a b ≡ a * b
unfolding wrap_mul
wrap_mul_lem a b h = omega (arith, h)
