-- ===== src/Base/Int.antt =====
-- Go's int64 values as integers, and their 64-bit patterns.
use Prim.Native.Nat.{ℕ, ◌-◌, ◌^◌, ◌<◌}
use mathlib.Core.Path.{◌≡◌}
use mathlib.Core.Bool.{Bool, false, true}
use native.Mathlib.Omega.{arith}
use osfp.Base.Tests.{ltb, ◌==◌, if◌then◌else◌}

-- `negsuc n` is -(n + 1).
pub data ℤ : Type 0 where
  pos : ℕ → ℤ
  negsuc : ℕ → ℤ

abbrev pub int_eq : ℤ → ℤ → Bool
int_eq (pos a) (pos b) = a == b
int_eq (negsuc a) (negsuc b) = a == b
int_eq (pos a) (negsuc b) = false
int_eq (negsuc a) (pos b) = false

pub int_eq→eq : (a b : ℤ) → int_eq a b ≡ true → a ≡ b
int_eq→eq (pos a) (pos b) h = ground arith
int_eq→eq (negsuc a) (negsuc b) h = ground arith
int_eq→eq (pos a) (negsuc b) h = cc
int_eq→eq (negsuc a) (pos b) h = cc

pub int_eq_refl : (a : ℤ) → int_eq a a ≡ true
int_eq_refl (pos a) = ground arith
int_eq_refl (negsuc a) = ground arith

-- The integer lies in the range of int64.
abbrev pub IsI64 : ℤ → Type 0
IsI64 (pos n) = n < 2 ^ 63
IsI64 (negsuc n) = n < 2 ^ 63

abbrev pub IsU64 : ℕ → Type 0
IsU64 n = n < 2 ^ 64

-- uint64(x) for an int64 x
unfoldable pub to_u64 : ℤ → ℕ
to_u64 (pos n) = n
to_u64 (negsuc n) = 2 ^ 64 - 1 - n

-- int64(u) for a uint64 u
unfoldable pub from_u64 : ℕ → ℤ
from_u64 u = if ltb u (2 ^ 63) then pos u else negsuc (2 ^ 64 - 1 - u)

pub from_u64-to_u64 : (x : ℤ) → IsI64 x → from_u64 (to_u64 x) ≡ x
unfolding from_u64 to_u64
from_u64-to_u64 (pos n) h = ground arith
from_u64-to_u64 (negsuc n) h = ground arith

pub to_u64-IsU64 : (x : ℤ) → IsI64 x → IsU64 (to_u64 x)
unfolding to_u64
to_u64-IsU64 (pos n) h = omega arith
to_u64-IsU64 (negsuc n) h = omega arith

pub from_u64-IsI64 : (u : ℕ) → IsU64 u → IsI64 (from_u64 u)
unfolding from_u64
from_u64-IsI64 u h = ground arith

pub from_u64-pos : (n : ℕ) → n < 2 ^ 63 → from_u64 n ≡ pos n
unfolding from_u64
from_u64-pos n h = ground arith
