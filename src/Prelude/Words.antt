-- ===== src/Prelude/Words.antt =====
-- 64-bit unsigned arithmetic; `usize` has 64 bits too.
use Prim.Native.Nat.{ℕ, ◌+◌, ◌-◌, ◌%◌, ◌^◌, ◌≤◌, min}
use mathlib.Core.Path.{◌≡◌}
use native.Mathlib.Omega.{arith}

abbrev pub u64_max : ℕ
u64_max = 2 ^ 64 - 1

-- `a.saturating_add(b)`
unfoldable pub saturating_add : ℕ → ℕ → ℕ
saturating_add a b = min (a + b) u64_max

-- `a.saturating_sub(b)`: the subtraction of ℕ stops at 0 too.
abbrev pub saturating_sub : ℕ → ℕ → ℕ
saturating_sub a b = a - b

-- `a + b`, with the wrap-around of a release build
unfoldable pub wrapping_add : ℕ → ℕ → ℕ
wrapping_add a b = (a + b) % 2 ^ 64

pub saturating_add_exact : (a b : ℕ) → a + b ≤ u64_max → saturating_add a b ≡ a + b
unfolding saturating_add
saturating_add_exact a b h = omega arith

pub saturating_add_bounds :
    (a b : ℕ) → (saturating_add a b ≤ a + b) × (saturating_add a b ≤ u64_max)
unfolding saturating_add
saturating_add_bounds a b = (omega arith, omega arith)
