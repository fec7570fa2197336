-- ===== src/Humanize.antt =====
-- internal/humanize/humanize.go: numbers for people. `Duration` is not modelled.
pub mod Digits
use osfp.Base.{
  ℕ, zero, suc, ◌+◌, ◌-◌, ◌*◌, ◌/◌, ◌%◌, ◌^◌, Bytes, codes, Bool, ◌&&◌, ◌||◌, ℤ, pos, negsuc, ltb,
  leb, ◌==◌, int_eq, if◌then◌else◌, List, [], ◌∷◌, ◌++◌, length, has_prefix, format_uint,
  format_int, drop,
}

abbrev pub comma : ℕ
comma = b','

-- The loop of `Count`: `i` is the index of the next digit, `n` the number of digits.
unfoldable pub group : ℕ → ℕ → Bytes → Bytes
group n i [] = []
group n i (c ∷ s) =
    (if ltb 0 i && (n - i) % 3 == 0 then comma ∷ c ∷ [] else c ∷ []) ++ group n (i + 1) s

-- strings.TrimPrefix for one byte
abbrev trim_prefix : ℕ → Bytes → Bytes
trim_prefix p [] = []
trim_prefix p (c ∷ s) = if c == p then s else c ∷ s

-- `Count`
unfoldable pub count : ℤ → Bytes
unfolding group format_int
count n =
    let s = format_int n in
    let digits = trim_prefix b'-' s in
    let b = group (length digits) 0 digits in if has_prefix s (codes "-") then b'-' ∷ b else b

-- The loop of `Bytes`, which stops after four rounds: the divisor and the exponent.
unfoldable pub scale : ℕ → ℕ → ℕ → ℕ → ℕ × ℕ
scale zero v div exp = (div, exp)
scale (suc rounds) v div exp =
    let more = scale rounds (v / 1024) (div * 1024) (exp + 1) in
    if leb 1024 v then more else (div, exp)

abbrev pub unit_letter : ℕ → ℕ
unit_letter exp =
    if exp == 0
    then b'K'
    else if exp == 1
    then b'M'
    else if exp == 2
    then b'G'
    else if exp == 3
    then b'T'
    else b'P'

-- `Bytes`. `ratio n div` is `fmt`'s "%.1f" of the float64 quotient, which the model leaves open.
module _ (ratio : ℕ → ℕ → Bytes) where
  unfoldable pub bytes : ℤ → Bytes
  unfolding scale format_int
  bytes (negsuc n) = format_int (negsuc n) ++ codes " B"
  bytes (pos n) =
      let (div, exp) = scale 4 (n / 1024) 1024 0 in
      if ltb n 1024
      then format_int (pos n) ++ codes " B"
      else ratio n div ++ b' ' ∷ unit_letter exp ∷ codes "iB"

-- `Mode`
unfoldable pub mode : ℕ → Bytes
unfolding format_uint
mode m = b'0' ∷ format_uint 8 m

-- `Plural`
unfoldable pub plural : ℤ → Bytes → Bytes → Bytes
plural n one many = if int_eq n (pos 1) || int_eq n (negsuc 0) then one else many
