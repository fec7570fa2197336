-- ===== src/OsDetect/Release.antt =====
-- internal/osdetect/osrelease.go: the format of os-release(5).
pub mod Quote
use osfp.Base.{
  ℕ, Bytes, codes, Bool, true, false, ◌&&◌, ◌||◌, List, [], ◌∷◌, ◌++◌, Option, none, some, ◌==◌,
  bytes_eq, has_prefix, if◌then◌else◌,
}
use osfp.Text.{trim_space, split_on, cut}
use osfp.OsDetect.Key.{is_empty}

-- `map[string]string`, the last write of a key first
abbrev pub Values : Type 0
Values = List (Bytes × Bytes)

-- `kv[key]`
unfoldable pub get : Bytes → Values → Bytes
get key [] = []
get key ((k, v) ∷ kv) = let rest = get key kv in if bytes_eq k key then v else rest

-- The last byte of `c ∷ s`, and what stands before it.
abbrev pub last_byte : ℕ → Bytes → ℕ
last_byte c [] = c
last_byte c (d ∷ s) = last_byte d s

abbrev pub before_last : ℕ → Bytes → Bytes
before_last c [] = []
before_last c (d ∷ s) = c ∷ before_last d s

-- The loop of `unquote`
unfoldable pub unescape : Bytes → Bytes
unescape [] = []
unescape (c ∷ []) = c ∷ []
unescape (c ∷ d ∷ s) =
    let escaped = unescape s in
    let other = unescape (d ∷ s) in if c == b'\\' then d ∷ escaped else c ∷ other

-- `unquote`
unfoldable pub unquote : Bytes → Bytes
unquote [] = []
unquote (q ∷ []) = q ∷ []
unquote (q ∷ c ∷ s) =
    if q == b'\'' && last_byte c s == b'\''
    then before_last c s
    else if q == b'"' && last_byte c s == b'"'
    then unescape (before_last c s)
    else q ∷ c ∷ s

abbrev pub set_pair : Values → Option (Bytes × Bytes) → Values
set_pair kv none = kv
set_pair kv (some (k, v)) =
    if is_empty (trim_space k) then kv else (trim_space k, unquote (trim_space v)) ∷ kv

abbrev pub set_line : Values → Bytes → Values
set_line kv line =
    if is_empty line || has_prefix line (codes "#") then kv else set_pair kv (cut b'=' line)

unfoldable pub set_lines : Values → List Bytes → Values
set_lines kv [] = kv
set_lines kv (line ∷ lines) = set_lines (set_line kv (trim_space line)) lines

-- `parseOSRelease`
unfoldable pub parse_os_release : Bytes → Values
parse_os_release b = set_lines [] (split_on b'\n' b)
