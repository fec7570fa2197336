-- ===== src/OsDetect/Folding.antt =====
-- Keys and capitals.
use osfp.Base.{
  ℕ, Bytes, Bool, false, List, [], ◌∷◌, map, ◌==◌, leb, length, if◌then◌else◌, ◌≡◌, refl, ap, arith,
  Bool-cases, inl, inr,
}
use osfp.Text.{lower, to_lower, split_on, cons_head}
use osfp.OsDetect.Key.{
  max_component, scan_byte, scan_bytes, normalize_component, add_part, parts_of, normalize_key,
}

lower-lower : (c : ℕ) → lower (lower c) ≡ lower c
lower-lower c = ground arith

lower-dash : (c : ℕ) → (lower c == b'-') ≡ (c == b'-')
lower-dash c = ground arith

scan_bytes-to_lower :
    (s : Bytes) (dash : Bool) (b : Bytes) → scan_bytes dash b (to_lower s) ≡ scan_bytes dash b s
unfolding scan_bytes to_lower
scan_bytes-to_lower [] dash b = refl
scan_bytes-to_lower (c ∷ s) dash b =
    let (dash', b') = scan_byte dash b c in
    rw (lower-lower c) (
      ap (λ rest. if leb max_component (length b') then b' else rest)
        (scan_bytes-to_lower s dash' b'))

normalize_component-to_lower :
    (s : Bytes) → normalize_component (to_lower s) ≡ normalize_component s
unfolding normalize_component
normalize_component-to_lower s = rw (scan_bytes-to_lower s false []) refl

map-cons_head :
    (c : ℕ) (fs : List Bytes)
    → cons_head (lower c) (map to_lower fs) ≡ map to_lower (cons_head c fs)
unfolding to_lower
map-cons_head c [] = refl
map-cons_head c (f ∷ fs) = refl

split_on-to_lower : (s : Bytes) → split_on b'-' (to_lower s) ≡ map to_lower (split_on b'-' s)
unfolding split_on to_lower
split_on-to_lower [] = refl
split_on-to_lower (c ∷ s) = elim (Bool-cases (c == b'-')) [
  | inl here ↦ rw (lower-dash c, here, split_on-to_lower s) refl
  | inr past ↦ rw (lower-dash c, past, split_on-to_lower s) (map-cons_head c (split_on b'-' s))
]

parts_of-to_lower : (ss : List Bytes) → parts_of (map to_lower ss) ≡ parts_of ss
unfolding parts_of add_part
parts_of-to_lower [] = refl
parts_of-to_lower (s ∷ ss) = rw (normalize_component-to_lower s, parts_of-to_lower ss) refl

-- Capitals make no difference to the key that a user gives.
pub normalize_key-to_lower : (s : Bytes) → normalize_key (to_lower s) ≡ normalize_key s
unfolding normalize_key
normalize_key-to_lower s = rw (split_on-to_lower s, parts_of-to_lower (split_on b'-' s)) refl
