-- ===== src/Prelude/Words.antt =====
-- Rust's arithmetic on `u64` and `usize` (64 bits).
use Prim.Native.Nat.{ℕ, ◌+◌, ◌-◌, ◌%◌, ◌^◌, ◌<◌}
use mathlib.Core.Path.{◌≡◌}
use native.Mathlib.Omega.{arith}
use egg_project.Prelude.Tests.{ltb, if◌then◌else◌}

unfoldable pub saturating_add : ℕ → ℕ → ℕ
saturating_add a b = if ltb (a + b) (2 ^ 64) then a + b else 2 ^ 64 - 1

unfoldable pub saturating_sub : ℕ → ℕ → ℕ
saturating_sub a b = a - b

unfoldable pub wrapping_add : ℕ → ℕ → ℕ
wrapping_add a b = (a + b) % 2 ^ 64

pub saturating_add_fits : (a b : ℕ) → a + b < 2 ^ 64 → saturating_add a b ≡ a + b
unfolding saturating_add
saturating_add_fits a b h = ground arith
