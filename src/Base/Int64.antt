-- ===== src/Base/Int64.antt =====
-- Arithmetic of Go's int64: sums wrap around through the 64-bit patterns.
use Prim.Native.Nat.{ℕ, ◌+◌, ◌%◌, ◌^◌, ◌<◌}
use mathlib.Core.Path.{◌≡◌}
use mathlib.Core.Bool.{Bool, true, false}
use native.Mathlib.Omega.{arith}
use native.Mathlib.Nat.{mod-eq_of_lt}
use osfp.Base.Tests.{ltb}
use osfp.Base.Int.{ℤ, pos, negsuc, to_u64, from_u64}

-- `a < b`
abbrev pub int_lt : ℤ → ℤ → Bool
int_lt (pos a) (pos b) = ltb a b
int_lt (pos a) (negsuc b) = false
int_lt (negsuc a) (pos b) = true
int_lt (negsuc a) (negsuc b) = ltb b a

-- `a + b`, on two int64 values
unfoldable pub add_i64 : ℤ → ℤ → ℤ
unfolding to_u64 from_u64
add_i64 a b = from_u64 ((to_u64 a + to_u64 b) % 2 ^ 64)

-- A sum that fits does not wrap around.
pub add_i64-pos : (a b : ℕ) → a + b < 2 ^ 63 → add_i64 (pos a) (pos b) ≡ pos (a + b)
unfolding add_i64 to_u64 from_u64
add_i64-pos a b h = let small : a + b < 2 ^ 64 = omega arith in ground (arith, mod-eq_of_lt small)
