-- ===== src/Canon.antt =====
-- internal/canon/key.go: the canonical order of paths. Go's -1, 0 and +1 are `lt`, `eq` and `gt`.
pub mod Order
pub mod Components
use Prim.Native.Nat.{Ordering}
use osfp.Base.{Bytes, [], ◌∷◌, ◌==◌, ltb, if◌then◌else◌, ℕ}

abbrev pub slash : ℕ
slash = b'/'

-- The loop stops at the first byte where the paths differ; past the shorter one, the lengths
-- decide.
unfoldable pub compare_key : Bytes → Bytes → Ordering
compare_key [] [] = Ordering.eq
compare_key [] (b ∷ ys) = Ordering.lt
compare_key (a ∷ xs) [] = Ordering.gt
compare_key (a ∷ xs) (b ∷ ys) =
    if a == b
    then compare_key xs ys
    else if a == slash
    then Ordering.lt
    else if b == slash
    then Ordering.gt
    else if ltb a b
    then Ordering.lt
    else Ordering.gt
