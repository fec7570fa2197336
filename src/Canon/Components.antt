-- ===== src/Canon/Components.antt =====
-- `CompareKey` of internal/canon/key.go against the order of a depth-first walk, which compares
-- paths component by component, and components byte by byte.
use Prim.Native.Nat.{Ordering}
use osfp.Base.{Bytes, List, [], ◌∷◌, ◌++◌, ◌==◌, ltb, if◌then◌else◌, ◌≡◌, ◌≢◌, refl, All, arith}
use osfp.Canon.{compare_key, slash}

-- The order of file names in a directory listing: plain byte order, as `os.ReadDir` sorts.
unfoldable pub compare_name : Bytes → Bytes → Ordering
compare_name [] [] = Ordering.eq
compare_name [] (b ∷ ys) = Ordering.lt
compare_name (a ∷ xs) [] = Ordering.gt
compare_name (a ∷ xs) (b ∷ ys) =
    if a == b then compare_name xs ys else if ltb a b then Ordering.lt else Ordering.gt

-- The path that a list of names spells, each behind a slash.
unfoldable pub spell : List Bytes → Bytes
spell [] = []
spell (n ∷ ns) = slash ∷ n ++ spell ns

-- A walk compares the first names, and goes on to the next ones where they are equal.
unfoldable pub compare_walk : List Bytes → List Bytes → Ordering
compare_walk [] [] = Ordering.eq
compare_walk [] (n ∷ ns) = Ordering.lt
compare_walk (m ∷ ms) [] = Ordering.gt
compare_walk (m ∷ ms) (n ∷ ns) = elim (compare_name m n) [
  | Ordering.lt ↦ Ordering.lt
  | Ordering.eq ↦ compare_walk ms ns
  | Ordering.gt ↦ Ordering.gt
]

-- A file name holds no slash.
abbrev pub IsName : Bytes → Type 0
IsName n = All (λ c. c ≢ slash) n

abbrev then_by : Ordering → Ordering → Ordering
then_by Ordering.lt o = Ordering.lt
then_by Ordering.eq o = o
then_by Ordering.gt o = Ordering.gt

-- What follows a name in a path is empty or starts with a slash.
compare_key_names :
    (m n : Bytes) (ms ns : List Bytes)
    → IsName m
    → IsName n
    → compare_key (m ++ spell ms) (n ++ spell ns)
      ≡ then_by (compare_name m n) (compare_key (spell ms) (spell ns))
unfolding compare_key compare_name spell
compare_key_names [] [] ms ns hm hn = refl
compare_key_names [] (b ∷ n) [] ns hm hn = refl
compare_key_names [] (b ∷ n) (x ∷ ms) ns hm hn = ground arith
compare_key_names (a ∷ m) [] ms [] hm hn = refl
compare_key_names (a ∷ m) [] ms (y ∷ ns) hm hn = ground arith
compare_key_names (a ∷ m) (b ∷ n) ms ns hm hn =
    ground (arith, compare_key_names m n ms ns hm.1 hn.1)

-- On paths spelled from names, the canonical order is that of the walk.
pub compare_key-spell :
    (ms ns : List Bytes)
    → All IsName ms
    → All IsName ns
    → compare_key (spell ms) (spell ns) ≡ compare_walk ms ns
unfolding compare_key spell compare_walk
compare_key-spell [] [] hm hn = refl
compare_key-spell [] (n ∷ ns) hm hn = refl
compare_key-spell (m ∷ ms) [] hm hn = refl
compare_key-spell (m ∷ ms) (n ∷ ns) hm hn =
    ground (arith, compare_key_names m n ms ns hm.0 hn.0, compare_key-spell ms ns hm.1 hn.1)
