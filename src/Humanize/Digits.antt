-- ===== src/Humanize/Digits.antt =====
-- The digits of the numbers that internal/humanize/humanize.go prints.
use osfp.Base.{
  ℕ, ◌+◌, ◌-◌, ◌%◌, ◌^◌, ◌<◌, Bytes, codes, false, ◌&&◌, [], ◌∷◌, ℤ, pos, negsuc, ltb, ◌==◌,
  if◌then◌else◌, has_prefix, length, format_uint, format_int, value, IsDigit, All, All-map, ◌≡◌,
  ◌≢◌, refl, ap, arith, Bool-cases, inl, inr,
}
use osfp.Base.Decimal.{value-format_uint, format_uint-IsDigit}
use osfp.Humanize.{comma, group, count, mode, trim_prefix}

-- The text without its commas.
abbrev pub ungroup : Bytes → Bytes
ungroup [] = []
ungroup (c ∷ s) = if c == comma then ungroup s else c ∷ ungroup s

abbrev NoComma : Bytes → Type 0
NoComma s = All (λ c. c ≢ comma) s

ungroup-group : (n i : ℕ) (s : Bytes) → NoComma s → ungroup (group n i s) ≡ s
unfolding group
ungroup-group n i [] h = refl
ungroup-group n i (c ∷ s) h = elim (Bool-cases (ltb 0 i && (n - i) % 3 == 0)) [
  | inl here ↦ rw here (ground (arith, ungroup-group n (i + 1) s h.1))
  | inr past ↦ rw past (ground (arith, ungroup-group n (i + 1) s h.1))
]

digits_free : (n : ℕ) → NoComma (format_uint 10 n)
digits_free n =
    All-map IsDigit (λ c. c ≢ comma) (format_uint 10 n) (λ c h. ground arith)
      (format_uint-IsDigit 10 n (omega arith) (omega arith))

-- A row of digits has no sign to trim.
unsigned :
    (s : Bytes) → All IsDigit s → (trim_prefix b'-' s ≡ s) × (has_prefix s (codes "-") ≡ false)
unsigned [] h = (refl, refl)
unsigned (c ∷ s) h = (ground arith, ground arith)

-- A grouped number without its commas is the number in decimal, sign included.
pub ungroup-count : (n : ℤ) → ungroup (count n) ≡ format_int n
unfolding count format_int
ungroup-count (pos n) =
    let (keeps, plain) =
      unsigned (format_uint 10 n) (format_uint-IsDigit 10 n (omega arith) (omega arith)) in
    rw (keeps, plain)
      (ungroup-group (length (format_uint 10 n)) 0 (format_uint 10 n) (digits_free n))
ungroup-count (negsuc n) =
    ap (λ s. b'-' ∷ s)
      (ungroup-group (length (format_uint 10 (n + 1))) 0 (format_uint 10 (n + 1))
        (digits_free (n + 1)))

-- The printed permission bits read back in octal give the bits.
pub value-mode : (m : ℕ) → m < 2 ^ 32 → value 8 (mode m) ≡ m
unfolding mode
value-mode m h = value-format_uint 8 m (omega arith) (omega arith)
