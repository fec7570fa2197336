-- ===== src/Entry/Sorted.antt =====
-- Entries in the canonical order of their paths.
use osfp.Base.{List, [], ◌∷◌, ◌++◌, All, All-append, All-split}
use osfp.Canon.Order.{◌≺◌}
use osfp.Entry.{Entry}

-- The paths of the entries strictly increase.
abbrev pub IsSorted : List Entry → Type 0
IsSorted [] = Unit
IsSorted (e ∷ es) = All (λ (f : Entry). e.path ≺ f.path) es × IsSorted es

-- Every entry of the one list comes before every entry of the other.
abbrev pub AllBefore : List Entry → List Entry → Type 0
AllBefore es fs = All (λ (e : Entry). All (λ (f : Entry). e.path ≺ f.path) fs) es

pub IsSorted-append :
    (es fs : List Entry) → IsSorted es → IsSorted fs → AllBefore es fs → IsSorted (es ++ fs)
IsSorted-append [] fs h k b = k
IsSorted-append (e ∷ es) fs h k b =
    (All-append (λ (f : Entry). e.path ≺ f.path) es fs h.0 b.0, IsSorted-append es fs h.1 k b.1)

pub IsSorted-split : (es fs : List Entry) → IsSorted (es ++ fs) → IsSorted es × IsSorted fs
IsSorted-split [] fs h = (tt, h)
IsSorted-split (e ∷ es) fs h =
    let (a, b) = IsSorted-split es fs h.1 in
    (((All-split (λ (f : Entry). e.path ≺ f.path) es fs h.0).0, a), b)
