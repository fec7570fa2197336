-- ===== src/OsDetect/Key.antt =====
-- internal/osdetect/osdetect.go: the description of a system and its key.
use osfp.Base.{
  ℕ, Bytes, codes, Bool, true, false, not, ◌&&◌, ◌||◌, List, [], ◌∷◌, ◌++◌, Option, none, some, leb,
  ◌==◌, if◌then◌else◌, length,
}
use osfp.Text.{lower, trim_space, split_on, join, equal_fold}

-- `Info`
pub record Info : Type 0 where
  pub os : Bytes
  pub distro : Bytes
  pub version : Bytes
  pub arch : Bytes
  pub kernel : Bytes
  pub pretty : Bytes
  pub hostname : Bytes
  pub source : Bytes

abbrev pub max_component : ℕ
max_component = 32

abbrev pub is_empty : Bytes → Bool
is_empty [] = true
is_empty (c ∷ s) = false

abbrev pub is_digit : ℕ → Bool
is_digit c = leb b'0' c && leb c b'9'

-- The bytes that a component keeps, behind the lowering of capitals.
abbrev pub is_kept : ℕ → Bool
is_kept c = (leb b'a' c && leb c b'z') || is_digit c || c == b'.'

-- The two variables of the loop: whether a dash is due, and what was written.
abbrev pub write_byte : Bool → Bytes → ℕ → Bytes
write_byte dash b c = (if dash && not (is_empty b) then b ++ b'-' ∷ [] else b) ++ c ∷ []

abbrev pub scan_byte : Bool → Bytes → ℕ → Bool × Bytes
scan_byte dash b c =
    if is_kept (lower c) then (false, write_byte dash b (lower c)) else (not (is_empty b), b)

unfoldable pub scan_bytes : Bool → Bytes → Bytes → Bytes
scan_bytes dash b [] = b
scan_bytes dash b (c ∷ s) =
    let (dash', b') = scan_byte dash b c in
    let rest = scan_bytes dash' b' s in if leb max_component (length b') then b' else rest

-- strings.Trim with the set ".-"
abbrev pub is_edge : ℕ → Bool
is_edge c = c == b'.' || c == b'-'

unfoldable pub trim_start : Bytes → Bytes
trim_start [] = []
trim_start (c ∷ s) = if is_edge c then trim_start s else c ∷ s

unfoldable pub trim_end : Bytes → Bytes
trim_end [] = []
trim_end (c ∷ s) = elim (trim_end s) [ [] ↦ if is_edge c then [] else c ∷ [] | d ∷ r ↦ c ∷ d ∷ r ]

-- `normalizeComponent`
unfoldable pub normalize_component : Bytes → Bytes
normalize_component s = trim_end (trim_start (scan_bytes false [] s))

-- `add` of `Key`, and the loop of `NormalizeKey`
unfoldable pub add_part : Bytes → List Bytes → List Bytes
add_part s parts = let c = normalize_component s in if is_empty c then parts else c ∷ parts

unfoldable pub parts_of : List Bytes → List Bytes
parts_of [] = []
parts_of (s ∷ ss) = add_part s (parts_of ss)

abbrev pub key_fields : Info → List Bytes
key_fields i =
    if equal_fold i.distro i.os
    then i.os ∷ i.version ∷ i.arch ∷ []
    else i.os ∷ i.distro ∷ i.version ∷ i.arch ∷ []

abbrev pub joined : List Bytes → Option Bytes
joined [] = none
joined (p ∷ ps) = some (join (b'-' ∷ []) (p ∷ ps))

abbrev pub or_unknown : Option Bytes → Bytes
or_unknown none = codes "unknown"
or_unknown (some k) = k

-- `Info.Key`
unfoldable pub key : Info → Bytes
key i = or_unknown (joined (parts_of (key_fields i)))

-- `Info.String`
unfoldable pub info_string : Info → Bytes
info_string i = if is_empty i.pretty then key i else i.pretty ++ codes " (" ++ key i ++ codes ")"

-- `NormalizeKey`, where `none` is the error
unfoldable pub normalize_key : Bytes → Option Bytes
normalize_key s = joined (parts_of (split_on b'-' s))

-- The first line with a byte other than space, in a list of lines.
unfoldable pub first_of : List Bytes → Bytes
first_of [] = []
first_of (line ∷ lines) =
    let rest = first_of lines in if is_empty (trim_space line) then rest else trim_space line

-- `firstLine`
unfoldable pub first_line : Bytes → Bytes
first_line b = first_of (split_on b'\n' b)

-- The loop of `isNumericVersion`
unfoldable pub numeric_from : Bool → Bytes → Bool
numeric_from digit [] = digit
numeric_from digit (c ∷ s) =
    let on_digit = numeric_from true s in
    let on_dot = numeric_from digit s in
    if is_digit c then on_digit else if c == b'.' then on_dot else false

-- `isNumericVersion`
unfoldable pub is_numeric_version : Bytes → Bool
is_numeric_version s = not (is_empty s) && numeric_from false s
