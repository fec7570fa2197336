-- ===== src/Text.antt =====
-- The functions of Go's package strings that the program calls, on byte strings. Case folding and
-- white space are those of ASCII.
pub mod Laws
pub mod Lines
use osfp.Base.{
  ℕ, ◌+◌, Bytes, Bool, true, false, ◌&&◌, ◌||◌, List, [], ◌∷◌, ◌++◌, Option, none, some, leb, ◌==◌,
  if◌then◌else◌, has_prefix, drop, length,
}
use mathlib.Core.List.{reverse}

abbrev pub is_space : ℕ → Bool
is_space c = c == b' ' || (leb 9 c && leb c 13)

unfoldable pub trim_left : Bytes → Bytes
trim_left [] = []
trim_left (c ∷ s) = if is_space c then trim_left s else c ∷ s

unfoldable pub trim_right : Bytes → Bytes
trim_right [] = []
trim_right (c ∷ s) = elim (trim_right s) [
  | [] ↦ if is_space c then [] else c ∷ []
  | d ∷ r ↦ c ∷ d ∷ r
]

-- strings.TrimSpace
unfoldable pub trim_space : Bytes → Bytes
unfolding trim_left trim_right
trim_space s = trim_right (trim_left s)

abbrev pub cons_head : ℕ → List Bytes → List Bytes
cons_head c [] = (c ∷ []) ∷ []
cons_head c (f ∷ fs) = (c ∷ f) ∷ fs

-- strings.Split at one byte
unfoldable pub split_on : ℕ → Bytes → List Bytes
split_on sep [] = [] ∷ []
split_on sep (c ∷ s) =
    let fields = split_on sep s in if c == sep then [] ∷ fields else cons_head c fields

-- strings.ReplaceAll of "\r\n" by "\n"
unfoldable pub replace_newlines : Bytes → Bytes
replace_newlines [] = []
replace_newlines (c ∷ []) = c ∷ []
replace_newlines (c ∷ d ∷ s) =
    let rest = replace_newlines (d ∷ s) in if c == 13 && d == 10 then rest else c ∷ rest

-- The lines of a file, as the program reads its lists of patterns and rules.
unfoldable pub lines_of : Bytes → List Bytes
lines_of s = split_on 10 (replace_newlines s)

-- strings.Join with one separator
unfoldable pub join : Bytes → List Bytes → Bytes
join sep [] = []
join sep (f ∷ []) = f
join sep (f ∷ g ∷ fs) = f ++ sep ++ join sep (g ∷ fs)

-- strings.Cut at one byte: what stands before its first occurrence, and what stands behind it
unfoldable pub cut : ℕ → Bytes → Option (Bytes × Bytes)
cut sep [] = none
cut sep (c ∷ s) =
    if c == sep
    then some ([], s)
    else elim (cut sep s) [ none ↦ none | some (front, back) ↦ some (c ∷ front, back) ]

abbrev pub lower : ℕ → ℕ
lower c = if leb b'A' c && leb c b'Z' then c + 32 else c

-- strings.EqualFold
unfoldable pub equal_fold : Bytes → Bytes → Bool
equal_fold [] [] = true
equal_fold (a ∷ s) (b ∷ t) = lower a == lower b && equal_fold s t
equal_fold _ _ = false

-- strings.ToLower
unfoldable pub to_lower : Bytes → Bytes
to_lower [] = []
to_lower (c ∷ s) = lower c ∷ to_lower s

abbrev filled : List Bytes → List Bytes
filled [] = []
filled ([] ∷ fs) = filled fs
filled ((c ∷ f) ∷ fs) = (c ∷ f) ∷ filled fs

unfoldable pub split_space : Bytes → List Bytes
split_space [] = [] ∷ []
split_space (c ∷ s) =
    let fields = split_space s in if is_space c then [] ∷ fields else cons_head c fields

-- strings.Fields
unfoldable pub fields_of : Bytes → List Bytes
fields_of s = filled (split_space s)

-- strings.Contains
unfoldable pub contains : Bytes → Bytes → Bool
contains [] needle = has_prefix [] needle
contains (c ∷ s) needle = has_prefix (c ∷ s) needle || contains s needle

abbrev behind : ℕ → Option (Bytes × Bytes) → Option (Bytes × Bytes)
behind c none = none
behind c (some (front, back)) = some (c ∷ front, back)

-- strings.Cut at a text
unfoldable pub cut_at : Bytes → Bytes → Option (Bytes × Bytes)
cut_at sep [] = if has_prefix [] sep then some ([], []) else none
cut_at sep (c ∷ s) =
    let later = behind c (cut_at sep s) in
    if has_prefix (c ∷ s) sep then some ([], drop (length sep) (c ∷ s)) else later
