-- ===== src/Canon/Order.antt =====
-- `CompareKey` of internal/canon/key.go as an order.
use Prim.Native.Nat.{Ordering}
use osfp.Base.{
  ℕ, Bytes, [], ◌∷◌, ◌++◌, ◌≡◌, ◌≢◌, ◌↔◌, refl, arith, true, false, inl, inr, Bool-cases, bytes_eq,
  bytes_eq_iff, bytes_eq→eq,
}
use osfp.Canon.{compare_key}

pub compare_key_refl : (a : Bytes) → compare_key a a ≡ Ordering.eq
unfolding compare_key
compare_key_refl [] = refl
compare_key_refl (a ∷ xs) = ground (arith, compare_key_refl xs)

pub compare_key_eq : (a b : Bytes) → compare_key a b ≡ Ordering.eq → a ≡ b
unfolding compare_key
compare_key_eq [] [] h = refl
compare_key_eq [] (b ∷ ys) h = cc
compare_key_eq (a ∷ xs) [] h = cc
compare_key_eq (a ∷ xs) (b ∷ ys) h = ground (arith, compare_key_eq xs ys)

-- The result with the arguments exchanged.
abbrev pub flip : Ordering → Ordering
flip Ordering.lt = Ordering.gt
flip Ordering.eq = Ordering.eq
flip Ordering.gt = Ordering.lt

pub compare_key-flip : (a b : Bytes) → compare_key b a ≡ flip (compare_key a b)
unfolding compare_key
compare_key-flip [] [] = refl
compare_key-flip [] (b ∷ ys) = refl
compare_key-flip (a ∷ xs) [] = refl
compare_key-flip (a ∷ xs) (b ∷ ys) = ground (arith, compare_key-flip xs ys)

infix 50 ◌≺◌
abbrev pub ◌≺◌ : Bytes → Bytes → Type 0
a ≺ b = compare_key a b ≡ Ordering.lt

-- If one path comes before a second one and that before a third, the first comes before the third.
pub ≺_trans : (a b c : Bytes) → a ≺ b → b ≺ c → a ≺ c
unfolding compare_key
≺_trans [] [] c h k = k
≺_trans [] (b ∷ ys) [] h k = cc
≺_trans [] (b ∷ ys) (c ∷ zs) h k = refl
≺_trans (a ∷ xs) [] c h k = cc
≺_trans (a ∷ xs) (b ∷ ys) [] h k = cc
≺_trans (a ∷ xs) (b ∷ ys) (c ∷ zs) h k = ground (arith, ≺_trans xs ys zs)

-- A common prefix does not change the order.
pub compare_key_prefix : (p a b : Bytes) → compare_key (p ++ a) (p ++ b) ≡ compare_key a b
unfolding compare_key
compare_key_prefix [] a b = refl
compare_key_prefix (c ∷ p) a b = ground (arith, compare_key_prefix p a b)

-- A path comes before everything that continues it.
pub ≺_extend : (a : Bytes) (c : ℕ) (r : Bytes) → a ≺ (a ++ c ∷ r)
unfolding compare_key
≺_extend [] c r = refl
≺_extend (a ∷ xs) c r = ground (arith, ≺_extend xs c r)

pub bytes_eq-of_eq : (a b : Bytes) → compare_key a b ≡ Ordering.eq → bytes_eq a b ≡ true
bytes_eq-of_eq a b h = (bytes_eq_iff a b).1 (compare_key_eq a b h)

pub bytes_eq-of_ne : (a b : Bytes) → compare_key a b ≢ Ordering.eq → bytes_eq a b ≡ false
bytes_eq-of_ne a b h = elim (Bool-cases (bytes_eq a b)) [
  | inl same ↦ absurd (h (rw (bytes_eq→eq a b same) (compare_key_refl b)))
  | inr other ↦ other
]

pub ≺_irrefl : (a : Bytes) → ¬ (a ≺ a)
≺_irrefl a h = cc (compare_key_refl a)

-- Two paths compare as equal exactly if they are the same bytes, and the exchanged comparison gives
-- the opposite answer.
pub compare_key-antisymmetric :
    (a b : Bytes)
    → ((compare_key a b ≡ Ordering.eq) ↔ (a ≡ b)) × (compare_key b a ≡ flip (compare_key a b))
compare_key-antisymmetric a b =
    ((compare_key_eq a b, λ e. rw e (compare_key_refl b)), compare_key-flip a b)
