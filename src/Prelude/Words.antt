-- ===== src/Prelude/Words.antt =====
-- `u64` and `u32` values as numbers, with the standard library's saturating arithmetic.
use Prim.Native.Nat.{ℕ, ◌+◌, ◌*◌, ◌≤◌, min}
use native.Mathlib.Omega.{arith}

abbrev pub u64_max : ℕ
u64_max = 18446744073709551615

abbrev pub u32_max : ℕ
u32_max = 4294967295

-- `u64::saturating_add`, `u64::saturating_mul`, `u32::saturating_add`
unfoldable pub saturating_add : ℕ → ℕ → ℕ
saturating_add a b = min (a + b) u64_max

unfoldable pub saturating_mul : ℕ → ℕ → ℕ
saturating_mul a b = min (a * b) u64_max

unfoldable pub saturating_add_32 : ℕ → ℕ → ℕ
saturating_add_32 a b = min (a + b) u32_max

pub saturating_mul_mono : (a b c d : ℕ) → a ≤ c → b ≤ d → saturating_mul a b ≤ saturating_mul c d
unfolding saturating_mul
saturating_mul_mono a b c d h k = grind arith

pub saturating_add_mono : (a b c d : ℕ) → a ≤ c → b ≤ d → saturating_add a b ≤ saturating_add c d
unfolding saturating_add
saturating_add_mono a b c d h k = omega arith

pub saturating_mul-le_max : (a b : ℕ) → saturating_mul a b ≤ u64_max
unfolding saturating_mul
saturating_mul-le_max a b = omega arith

-- Signed numbers: `negsuc n` is `-(n + 1)`.
pub data ℤ : Type 0 where
  pos negsuc : ℕ → ℤ
