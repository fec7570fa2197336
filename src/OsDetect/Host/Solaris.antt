-- ===== src/OsDetect/Host/Solaris.antt =====
-- internal/osdetect/solaris.go
use osfp.Base.{
  ℕ, suc, Bytes, codes, Bool, true, false, ◌&&◌, List, [], ◌∷◌, Option, none, some, ◌==◌, length,
  if◌then◌else◌,
}
use osfp.Text.{to_lower, contains, fields_of}
use osfp.OsDetect.Key.{Info, is_empty, is_digit, is_numeric_version, first_line}
use osfp.OsDetect.Release.{Values, get}
use osfp.OsDetect.Host.{Env, read_os_release, pretty_name}
use osfp.OsDetect.Host.Linux.{first_or_empty}

-- `findField`
unfoldable pub find_field : (Bytes → Bool) → List Bytes → Bytes
find_field ok [] = []
find_field ok (f ∷ fs) = let rest = find_field ok fs in if ok f then f else rest

abbrev all_digits : Bytes → Bool
all_digits [] = true
all_digits (c ∷ s) = is_digit c && all_digits s

-- `isOmniOSRevision`
unfoldable pub is_omnios_revision : Bytes → Bool
is_omnios_revision [] = false
is_omnios_revision (r ∷ []) = false
is_omnios_revision (r ∷ c ∷ s) = r == b'r' && all_digits (c ∷ s)

-- The bytes of a build stamp from a position on.
abbrev stamp_from : ℕ → Bytes → Bool
stamp_from i [] = true
stamp_from i (c ∷ s) =
    (if i == 8 then c == b'T' else if i == 15 then c == b'Z' else is_digit c)
    && stamp_from (suc i) s

-- `isSmartOSBuild`
unfoldable pub is_smartos_build : Bytes → Bool
is_smartos_build s = length s == 16 && stamp_from 0 s

-- `parseSolarisRelease`
unfoldable pub parse_solaris_release : Bytes → Bytes × Bytes
parse_solaris_release line =
    let fields = fields_of line in
    let name = to_lower line in
    if contains name (codes "omnios")
    then (codes "omnios", find_field is_omnios_revision fields)
    else if contains name (codes "smartos")
    then (codes "smartos", find_field is_smartos_build fields)
    else if contains name (codes "openindiana")
    then (codes "openindiana", find_field is_numeric_version fields)
    else if contains name (codes "solaris")
    then (codes "solaris", find_field is_numeric_version fields)
    else (to_lower (first_or_empty fields), find_field is_numeric_version fields)

abbrev line_of : Option Bytes → Bytes
line_of none = []
line_of (some b) = first_line b

abbrev or_old : Bytes → Bytes → Bytes
or_old old new = if is_empty new then old else new

-- The build that `uname -v` reports.
abbrev with_build : Info → Option Bytes → Info
with_build info none = info
with_build info (some out) =
    if is_empty out then info else record info { version = out; source = codes "uname -v" }

abbrev from_build : Env → Info → Info
from_build e info = with_build info (e.run (codes "uname") (codes "-v" ∷ []))

abbrev from_release : Env → Info → Option (Values × Bytes) → Info
from_release e info none = from_build e info
from_release e info (some (kv, path)) =
    let found = record info {
      distro = or_old info.distro (get (codes "ID") kv);
      version = or_old info.version (get (codes "VERSION_ID") kv);
      pretty = if is_empty info.pretty then pretty_name kv else info.pretty;
      source = path;
    } in
    if is_empty found.version then from_build e found else found

-- Behind /etc/release
abbrev without_banner : Env → Info → Info
without_banner e info = from_release e info (read_os_release e)

abbrev with_banner : Env → Info → Bytes → Info
with_banner e info line =
    let (distro, version) = parse_solaris_release line in
    let found = record info {
      pretty = line;
      source = codes "/etc/release";
      distro = distro;
      version = version;
    } in
    if is_empty version then without_banner e found else found

-- `detectSolaris`
unfoldable pub detect_solaris : Env → Info → Info
detect_solaris e info =
    let line = line_of (e.read_file (codes "/etc/release")) in
    if is_empty line then without_banner e info else with_banner e info line
