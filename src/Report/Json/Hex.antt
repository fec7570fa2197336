-- ===== src/Report/Json/Hex.antt =====
-- The digest of an entry in a JSON report.
use osfp.Base.{
  ℕ, ◌+◌, ◌-◌, ◌*◌, ◌/◌, ◌%◌, ◌<◌, Bytes, IsByte, [], ◌∷◌, ltb, if◌then◌else◌, length, All, ◌≡◌,
  refl, ap, ◌∙◌, arith,
}
use osfp.Report.Json.{hex_digit, hex}

-- The number that a hexadecimal digit stands for.
abbrev pub digit : ℕ → ℕ
digit c = if ltb c b'a' then c - b'0' else c - b'a' + 10

-- The bytes that pairs of hexadecimal digits stand for.
abbrev pub unhex : Bytes → Bytes
unhex [] = []
unhex (c ∷ []) = []
unhex (c ∷ d ∷ s) = (digit c * 16 + digit d) ∷ unhex s

digit-hex_digit : (d : ℕ) → d < 16 → digit (hex_digit d) ≡ d
digit-hex_digit d h = ground arith

pair : (c : ℕ) → c < 256 → digit (hex_digit (c / 16)) * 16 + digit (hex_digit (c % 16)) ≡ c
pair c h =
    omega (arith, digit-hex_digit (c / 16) (omega arith), digit-hex_digit (c % 16) (omega arith))

-- A row of bytes is printed in twice as many digits, and these are read back as the bytes.
pub unhex-hex : (b : Bytes) → All IsByte b → (unhex (hex b) ≡ b) × (length (hex b) ≡ length b * 2)
unfolding hex
unhex-hex [] h = (refl, refl)
unhex-hex (c ∷ b) h =
    let (same, long) = unhex-hex b h.1 in
    (ap (λ x. x ∷ unhex (hex b)) (pair c h.0) ∙ ap (λ r. c ∷ r) same, omega (arith, long))
