-- ===== src/Base/Words.antt =====
-- Machine words as native numbers, and the bit test of the source.
use Prim.Native.Nat.{ℕ, zero, suc, ◌/◌, ◌%◌, ◌^◌, ◌<◌, ◌≤◌}
use mathlib.Core.Path.{◌≡◌}
use mathlib.Core.Bool.{Bool}
use native.Mathlib.Omega.{arith}
use native.Mathlib.Nat.{div-div-eq-div-mul, pow-suc, pow-succ'}
use zkevm_bridge_service.Base.Tests.{◌==◌}

abbrev pub u32_mod : ℕ
u32_mod = 2 ^ 32

abbrev pub u64_mod : ℕ
u64_mod = 2 ^ 64

-- `index & (1 << h) > 0`.
unfoldable pub bit : ℕ → ℕ → Bool
bit index h = (index / 2 ^ h) % 2 == 1

pub div-pow-suc : (n h : ℕ) → n / 2 ^ suc h ≡ n / 2 ^ h / 2
div-pow-suc n h = rw (div-div-eq-div-mul n (2 ^ h) 2, pow-suc 2 h)

pub one_le_pow : (n : ℕ) → 1 ≤ 2 ^ n
one_le_pow zero = omega arith
one_le_pow (suc n) = omega (arith, pow-succ' 2 n, one_le_pow n)

-- A number below `2 ^ h` has no digit at `h` or above.
pub div-pow_of_lt : (n h : ℕ) → n < 2 ^ h → n / 2 ^ h ≡ 0
div-pow_of_lt n h lt = grind arith
