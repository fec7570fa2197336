-- ===== src/Scan/Walk/Names.antt =====
-- The names that directories list, and the order of the paths that they make.
use Prim.Native.Nat.{Ordering}
use mathlib.Core.List.{append_assoc}
use osfp.Base.{
  Bytes, false, [], ◌∷◌, ◌++◌, bytes_eq, bytes_eq→eq, ◌≡◌, ◌≢◌, inl, inr, refl, ◌∙◌, arith,
  Bool-cases,
}
use osfp.Canon.{compare_key, slash}
use osfp.Canon.Order.{◌≺◌, compare_key_prefix, ≺_extend}
use osfp.Canon.Components.{compare_name, IsName}
use osfp.Filepath.{join_path, is_here}
use osfp.Scan.Tree.{
  Node, node, Listing, unreadable, listed, Children, nil, child, Found, gone, there,
}

-- The names of a listing come behind a given one.
abbrev pub Above : Bytes → Children → Type 0
Above n nil = Unit
Above n (child m found rest) = (compare_name n m ≡ Ordering.lt) × Above n rest

-- Every listing gives names of one element, none of them empty, in increasing order, as
-- `os.ReadDir` does.
unfoldable mutual
  pub IsListed : Node → Type 0
  IsListed (node s target content fs listing) = IsListedListing listing

  pub IsListedListing : Listing → Type 0
  IsListedListing (unreadable x cs) = IsListedChildren cs
  IsListedListing (listed cs) = IsListedChildren cs

  pub IsListedChildren : Children → Type 0
  IsListedChildren nil = Unit
  IsListedChildren (child n found rest) =
      IsName n × (n ≢ []) × Above n rest × IsListedFound found × IsListedChildren rest

  pub IsListedFound : Found → Type 0
  IsListedFound (gone cause) = Unit
  IsListedFound (there n) = IsListed n

-- What may follow a name in a path.
abbrev pub Tail : Bytes → Type 0
Tail [] = Unit
Tail (c ∷ s) = c ≡ slash

pub names-lt :
    (m n r s : Bytes)
    → IsName m
    → IsName n
    → Tail r
    → Tail s
    → compare_name m n ≡ Ordering.lt
    → (m ++ r) ≺ (n ++ s)
unfolding compare_key compare_name
names-lt [] [] r s hm hn hr hs h = cc
names-lt [] (b ∷ n) [] s hm hn hr hs h = refl
names-lt [] (b ∷ n) (c ∷ r) s hm hn hr hs h = ground arith
names-lt (a ∷ m) [] r s hm hn hr hs h = cc
names-lt (a ∷ m) (b ∷ n) r s hm hn hr hs h = ground (arith, names-lt m n r s hm.1 hn.1 hr hs)

-- The path lies at or below `p`.
abbrev pub Below : Bytes → Bytes → Type 0
Below p q = (s : Bytes) × Tail s × (q ≡ p ++ s)

-- The path lies in the directory `p`, at or below a name of which `P` holds.
abbrev pub Inside : Bytes → (Bytes → Type 0) → Bytes → Type 0
Inside p P q =
    (m : Bytes) × (s : Bytes) × IsName m × (m ≢ []) × P m × Tail s × (q ≡ join_path p m ++ s)

pub join_path-lt :
    (p m n r s : Bytes)
    → is_here p ≡ false
    → (m ++ r) ≺ (n ++ s)
    → (join_path p m ++ r) ≺ (join_path p n ++ s)
unfolding join_path
join_path-lt p m n r s here h = elim (Bool-cases (bytes_eq p (slash ∷ []))) [
  | inl root ↦ rw root (compare_key_prefix (slash ∷ []) (m ++ r) (n ++ s) ∙ h)
  | inr other ↦
      rw (other, here, append_assoc p (slash ∷ m) r, append_assoc p (slash ∷ n) s)
        (compare_key_prefix p (slash ∷ m ++ r) (slash ∷ n ++ s)
          ∙ compare_key_prefix (slash ∷ []) (m ++ r) (n ++ s)
          ∙ h)
]

pub parent-lt : (p m s : Bytes) → is_here p ≡ false → m ≢ [] → p ≺ (join_path p m ++ s)
unfolding join_path
parent-lt p [] s here h = absurd (h refl)
parent-lt p (c ∷ m) s here h = elim (Bool-cases (bytes_eq p (slash ∷ []))) [
  | inl root ↦ rw (root, bytes_eq→eq p (slash ∷ []) root) (≺_extend (slash ∷ []) c (m ++ s))
  | inr other ↦ rw (other, here, append_assoc p (slash ∷ c ∷ m) s) (≺_extend p slash (c ∷ m ++ s))
]

pub join_path-not_root :
    (p m : Bytes) → is_here p ≡ false → m ≢ [] → bytes_eq (join_path p m) (slash ∷ []) ≡ false
unfolding join_path
join_path-not_root p [] here h = absurd (h refl)
join_path-not_root p (c ∷ m) here h = elim (Bool-cases (bytes_eq p (slash ∷ []))) [
  | inl root ↦ rw root refl
  | inr other ↦ rw (other, here) (longer p)
]
  where
    longer : (p : Bytes) → bytes_eq (p ++ slash ∷ c ∷ m) (slash ∷ []) ≡ false
    longer [] = refl
    longer (d ∷ []) = ground arith
    longer (d ∷ b ∷ p) = ground arith

pub join_path-not_here :
    (p m : Bytes) → is_here p ≡ false → m ≢ [] → is_here (join_path p m) ≡ false
unfolding join_path
join_path-not_here p [] here h = absurd (h refl)
join_path-not_here p (c ∷ m) here h = elim (Bool-cases (bytes_eq p (slash ∷ []))) [
  | inl root ↦ rw root refl
  | inr other ↦ rw (other, here) (longer p)
]
  where
    longer : (p : Bytes) → is_here (p ++ slash ∷ c ∷ m) ≡ false
    longer [] = refl
    longer (d ∷ []) = ground arith
    longer (d ∷ b ∷ p) = ground arith

pub Inside→Below :
    (p : Bytes) (P : Bytes → Type 0) (q : Bytes)
    → is_here p ≡ false
    → bytes_eq p (slash ∷ []) ≡ false
    → Inside p P q
    → Below p q
unfolding join_path
Inside→Below p P q here h (m, s, hm, ne, hp, hs, e) =
    (slash ∷ m ++ s, refl, e ∙ rw (h, here, append_assoc p (slash ∷ m) s))
