-- ===== src/Store/Varint.antt =====
-- The variable-length integers of Go's package encoding/binary.
use native.Mathlib.Nat.{div-add-mod, pow-suc}
use osfp.Base.{
  ℕ, zero, suc, ◌+◌, ◌*◌, ◌/◌, ◌%◌, ◌^◌, ◌<◌, Bytes, [], ◌∷◌, ◌++◌, Option, none, some, ltb, ◌==◌,
  ◌&&◌, if◌then◌else◌, ◌≡◌, ap, ◌∙◌, arith, ℤ, pos, negsuc, IsI64, IsU64, Bool-cases, inl, inr,
}

-- The groups of seven bits, lowest first; ten bytes are enough for a uint64.
unfoldable pub put_groups : ℕ → ℕ → Bytes
put_groups zero x = x ∷ []
put_groups (suc k) x =
    let more = put_groups k (x / 128) in if ltb x 128 then x ∷ [] else (x % 128 + 128) ∷ more

-- binary.AppendUvarint, without what it appends to
unfoldable pub put_uvarint : ℕ → Bytes
unfolding put_groups
put_uvarint x = put_groups 9 x

-- The loop of binary.Uvarint, with the rounds left, the weight of the next group and the sum so
-- far. The result is the number and what follows it; `none` is a count that is not positive.
unfoldable pub get_groups : ℕ → ℕ → ℕ → Bytes → Option (ℕ × Bytes)
get_groups zero m x bs = none
get_groups (suc k) m x [] = none
get_groups (suc k) m x (b ∷ bs) =
    let more = get_groups k (m * 128) (x + b % 128 * m) bs in
    if ltb b 128 then (if k == 0 && ltb 1 b then none else some (x + b * m, bs)) else more

-- binary.Uvarint
unfoldable pub get_uvarint : Bytes → Option (ℕ × Bytes)
unfolding get_groups
get_uvarint bs = get_groups 10 1 0 bs

-- binary.AppendVarint maps an int64 to the uint64 `x << 1`, inverted if it is negative.
unfoldable pub zigzag : ℤ → ℕ
zigzag (pos n) = 2 * n
zigzag (negsuc n) = 2 * n + 1

unfoldable pub unzigzag : ℕ → ℤ
unzigzag u = if u % 2 == 0 then pos (u / 2) else negsuc (u / 2)

pub unzigzag-zigzag : (x : ℤ) → unzigzag (zigzag x) ≡ x
unfolding unzigzag zigzag
unzigzag-zigzag (pos n) = ground arith
unzigzag-zigzag (negsuc n) = ground arith

pub zigzag-IsU64 : (x : ℤ) → IsI64 x → IsU64 (zigzag x)
unfolding zigzag
zigzag-IsU64 (pos n) h = omega arith
zigzag-IsU64 (negsuc n) h = omega arith

split_group : (x m : ℕ) → x % 128 * m + x / 128 * (m * 128) ≡ x * m
split_group x m = omega (arith, ap (λ (t : ℕ). t * m) (div-add-mod x 128))

get_groups-put_groups :
    (k x m acc : ℕ) (rest : Bytes)
    → x < 2 * 128 ^ k
    → get_groups (suc k) m acc (put_groups k x ++ rest) ≡ some (acc + x * m, rest)
unfolding get_groups put_groups
get_groups-put_groups zero x m acc rest h = ground arith
get_groups-put_groups (suc k) x m acc rest h = elim (Bool-cases (ltb x 128)) [
  | inl last ↦ rw last (ground arith)
  | inr more ↦ rw more (
      ground (
        arith,
        pow-suc 128 k,
        split_group x m,
        get_groups-put_groups k (x / 128) (m * 128) (acc + x % 128 * m) rest
            (omega (arith, pow-suc 128 k)),
      ))
]

-- Reading back a uint64 gives the number and what followed it.
pub get_uvarint-put_uvarint :
    (x : ℕ) (rest : Bytes) → IsU64 x → get_uvarint (put_uvarint x ++ rest) ≡ some (x, rest)
unfolding get_uvarint put_uvarint
get_uvarint-put_uvarint x rest h =
    get_groups-put_groups 9 x 1 0 rest (omega arith) ∙ ap (λ n. some (n, rest)) (omega arith)
