-- ===== src/Prelude/Word.antt =====
-- Rust's `u64` and `i64`: saturating arithmetic, and the casts between them. A value is the
-- number that it stands for.
use Prim.Native.Nat.{ℕ, ◌+◌, ◌-◌, ◌*◌, ◌^◌, ◌≤◌, ◌<◌, min}
use mathlib.Core.Path.{◌≡◌}
use native.Mathlib.Omega.{arith}

abbrev pub u64_max : ℕ
u64_max = 2 ^ 64 - 1

abbrev pub i64_max : ℕ
i64_max = 2 ^ 63 - 1

-- `u64::saturating_add`, `saturating_mul` and `saturating_sub`.
unfoldable pub saturating_add : ℕ → ℕ → ℕ
saturating_add a b = min (a + b) u64_max

unfoldable pub saturating_mul : ℕ → ℕ → ℕ
saturating_mul a b = min (a * b) u64_max

unfoldable pub saturating_sub : ℕ → ℕ → ℕ
saturating_sub a b = a - b

abbrev pub u32_max : ℕ
u32_max = 2 ^ 32 - 1

-- `u32::saturating_add`
unfoldable pub saturating_add_u32 : ℕ → ℕ → ℕ
saturating_add_u32 a b = min (a + b) u32_max

pub saturating_add-le : (a b : ℕ) → saturating_add a b ≤ a + b
unfolding saturating_add
saturating_add-le a b = omega arith

pub saturating_mul-le : (a b : ℕ) → saturating_mul a b ≤ a * b
unfolding saturating_mul
saturating_mul-le a b = omega arith

-- A result below the largest word is exact.
pub saturating_add_exact : (a b : ℕ) → saturating_add a b < u64_max → saturating_add a b ≡ a + b
unfolding saturating_add
saturating_add_exact a b h = omega arith

pub saturating_mul_exact : (a b : ℕ) → saturating_mul a b < u64_max → saturating_mul a b ≡ a * b
unfolding saturating_mul
saturating_mul_exact a b h = omega arith

pub le-saturating_add : (a b : ℕ) → a ≤ u64_max → a ≤ saturating_add a b
unfolding saturating_add
le-saturating_add a b h = omega arith

pub saturating_add_mono : (a b c d : ℕ) → a ≤ c → b ≤ d → saturating_add a b ≤ saturating_add c d
unfolding saturating_add
saturating_add_mono a b c d h k = omega arith

mul_mono : (a b c : ℕ) → b ≤ c → a * b ≤ a * c
mul_mono a b c h = grind arith

pub saturating_mul_mono : (a b c : ℕ) → b ≤ c → saturating_mul a b ≤ saturating_mul a c
unfolding saturating_mul
saturating_mul_mono a b c h = omega (arith, mul_mono a b c h)

pub saturating_mul_mono_left : (a b c : ℕ) → a ≤ b → saturating_mul a c ≤ saturating_mul b c
unfolding saturating_mul
saturating_mul_mono_left a b c h = omega (arith, mul_mono c a b h)
