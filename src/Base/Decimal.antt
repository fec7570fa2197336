-- ===== src/Base/Decimal.antt =====
-- strconv's digits of a number, in a base from 2 to 10.
use Prim.Native.Nat.{ℕ, zero, suc, ◌+◌, ◌*◌, ◌-◌, ◌/◌, ◌%◌, ◌^◌, ◌<◌, ◌≤◌}
use native.Mathlib.Nat.{div-add-mod, div-lt_iff_lt-mul, pow-suc}
use mathlib.Core.Path.{◌≡◌, ap, ◌∙◌}
use mathlib.Core.List.{[], ◌∷◌, ◌++◌, foldl, foldl-append}
use native.Mathlib.Omega.{arith}
use mathlib.Core.Logic.{inl, inr}
use osfp.Base.Tests.{Bool-cases, ltb, if◌then◌else◌}
use osfp.Base.Text.{Bytes}
use osfp.Base.Lists.{All, All-append}
use osfp.Base.Int.{ℤ, pos, negsuc}

-- Each round takes one digit from the right.
unfoldable pub digits : ℕ → ℕ → ℕ → Bytes
digits zero base n = (b'0' + n % base) ∷ []
digits (suc fuel) base n =
    let front = digits fuel base (n / base) in
    if ltb n base then (b'0' + n) ∷ [] else front ++ (b'0' + n % base) ∷ []

-- strconv.FormatUint: 64 digits are enough for a uint64 in any base.
unfoldable pub format_uint : ℕ → ℕ → Bytes
unfolding digits
format_uint base n = digits 64 base n

-- strconv.FormatInt in base ten
unfoldable pub format_int : ℤ → Bytes
unfolding format_uint
format_int (pos n) = format_uint 10 n
format_int (negsuc n) = b'-' ∷ format_uint 10 (n + 1)

abbrev push_digit : ℕ → ℕ → ℕ → ℕ
push_digit base acc c = acc * base + (c - b'0')

-- The number that a row of digits stands for.
abbrev pub value : ℕ → Bytes → ℕ
value base ds = foldl (push_digit base) 0 ds

abbrev pub IsDigit : ℕ → Type 0
IsDigit c = (b'0' ≤ c) × (c ≤ b'9')

digits-All : (fuel base n : ℕ) → 2 ≤ base → base ≤ 10 → All IsDigit (digits fuel base n)
unfolding digits
digits-All zero base n h k = grind arith
digits-All (suc fuel) base n h k = elim (Bool-cases (ltb n base)) [
  | inl small ↦ rw small (ground arith)
  | inr large ↦ rw large (
      All-append IsDigit (digits fuel base (n / base)) _ (digits-All fuel base (n / base) h k)
        (grind arith))
]

half_lt : (base n k : ℕ) → 2 ≤ base → n < 2 ^ suc k → n / base < 2 ^ k
half_lt base n k h lt =
    (div-lt_iff_lt-mul {k = base} {x = n} {y = 2 ^ k} (omega arith)).1 (grind (arith, pow-suc 2 k))

value-snoc :
    (base c : ℕ) (ds : Bytes) → value base (ds ++ c ∷ []) ≡ value base ds * base + (c - b'0')
value-snoc base c ds = rw foldl-append

value-digits : (fuel base n : ℕ) → 2 ≤ base → n < 2 ^ suc fuel → value base (digits fuel base n) ≡ n
unfolding digits
value-digits zero base n h k = grind arith
value-digits (suc fuel) base n h k = elim (Bool-cases (ltb n base)) [
  | inl small ↦ rw small (ground arith)
  | inr large ↦ rw large (
      value-snoc base (b'0' + n % base) (digits fuel base (n / base))
      ∙ omega (
        arith,
        ap (λ (t : ℕ). t * base)
            (value-digits fuel base (n / base) h (half_lt base n (suc fuel) h k)),
        div-add-mod n base,
      ))
]

-- Reading the digits of a uint64 back gives the number.
pub value-format_uint : (base n : ℕ) → 2 ≤ base → n < 2 ^ 64 → value base (format_uint base n) ≡ n
unfolding format_uint
value-format_uint base n h k = value-digits 64 base n h (omega arith)

pub format_uint-IsDigit : (base n : ℕ) → 2 ≤ base → base ≤ 10 → All IsDigit (format_uint base n)
unfolding format_uint
format_uint-IsDigit base n h k = digits-All 64 base n h k
