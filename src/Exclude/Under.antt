-- ===== src/Exclude/Under.antt =====
-- `under` of internal/exclude/matcher.go: the paths that a prefix covers.
use osfp.Base.{
  ℕ, Bytes, Bool, true, false, ◌&&◌, ◌||◌, [], ◌∷◌, ◌++◌, ◌==◌, bytes_eq, bytes_eq→eq, has_prefix,
  length, drop, drop_append, ◌≡◌, ◌≢◌, ◌⊎◌, ◌↔◌, inl, inr, refl, ap, arith, Bool-cases,
}
use osfp.Canon.{slash}
use osfp.Exclude.{under, slash_next}

-- The path is the prefix itself, or lies below it.
abbrev pub Covers : Bytes → Bytes → Type 0
Covers prefix path = (path ≡ prefix) ⊎ ((r : Bytes) × (path ≡ prefix ++ slash ∷ r))

Covers-cons : (c : ℕ) (prefix path : Bytes) → Covers prefix path → Covers (c ∷ prefix) (c ∷ path)
Covers-cons c prefix path (inl e) = inl (ap (λ r. c ∷ r) e)
Covers-cons c prefix path (inr (r, e)) = inr (r, ap (λ r. c ∷ r) e)

-- `under`, behind its first test
abbrev covers : Bytes → Bytes → Bool
covers path prefix =
    has_prefix path prefix
    && (length path == length prefix || slash_next (drop (length prefix) path))

covers→Covers : (path prefix : Bytes) → covers path prefix ≡ true → Covers prefix path
covers→Covers [] [] h = inl refl
covers→Covers (c ∷ path) [] h = inr (path, ground arith)
covers→Covers [] (p ∷ prefix) h = cc
covers→Covers (c ∷ path) (p ∷ prefix) h =
    let same : c ≡ p = ground arith in
    rw same (Covers-cons p prefix path (covers→Covers path prefix (ground arith)))

has_prefix-append : (p r : Bytes) → has_prefix (p ++ r) p ≡ true
has_prefix-append [] r = refl
has_prefix-append (c ∷ p) r = ground (arith, has_prefix-append p r)

Covers→covers : (path prefix : Bytes) → Covers prefix path → covers path prefix ≡ true
Covers→covers path prefix (inl e) = rw (e, has_prefix_refl prefix) (ground arith)
  where
    has_prefix_refl : (p : Bytes) → has_prefix p p ≡ true
    has_prefix_refl [] = refl
    has_prefix_refl (c ∷ p) = ground (arith, has_prefix_refl p)
Covers→covers path prefix (inr (r, e)) = rw (e, has_prefix-append, drop_append) (ground arith)

-- A prefix other than the root covers exactly itself and what lies below it, component by
-- component: `/var` covers `/var/log` and not `/variable`.
pub under_iff :
    (path prefix : Bytes) → prefix ≢ slash ∷ [] → (under path prefix ≡ true) ↔ Covers prefix path
unfolding under
under_iff path prefix n =
    let other : bytes_eq prefix (slash ∷ []) ≡ false =
      elim (Bool-cases (bytes_eq prefix (slash ∷ []))) [
        | inl same ↦ absurd (n (bytes_eq→eq prefix (slash ∷ []) same))
        | inr other ↦ other
      ] in
    rw other (
      λ h. covers→Covers path prefix (ground arith),
      λ c. ground (arith, Covers→covers path prefix c),
    )
