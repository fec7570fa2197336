-- ===== src/OsDetect/Host/Linux.antt =====
-- internal/osdetect/linux.go
use osfp.Base.{
  Bytes, codes, Bool, true, false, List, [], ◌∷◌, ◌++◌, Option, none, some, ◌==◌, if◌then◌else◌,
}
use osfp.Text.{to_lower, contains, cut_at, fields_of}
use osfp.OsDetect.Key.{Info, is_empty, is_digit, is_numeric_version, first_line}
use osfp.OsDetect.Release.{Values, get}
use osfp.OsDetect.Host.{Env, read_os_release, pretty_name}

abbrev pub families : List (Bytes × Bytes)
families =
    (codes "red hat enterprise", codes "rhel")
    ∷ (codes "centos", codes "centos")
    ∷ (codes "rocky", codes "rocky")
    ∷ (codes "almalinux", codes "almalinux")
    ∷ (codes "oracle", codes "ol")
    ∷ (codes "scientific", codes "scientific")
    ∷ (codes "fedora", codes "fedora")
    ∷ []

abbrev pub first_or_empty : List Bytes → Bytes
first_or_empty [] = []
first_or_empty (f ∷ fs) = f

unfoldable pub find_family : Bytes → List (Bytes × Bytes) → Bytes
find_family name [] = first_or_empty (fields_of name)
find_family name ((needle, id) ∷ rest) =
    let later = find_family name rest in if contains name needle then id else later

-- `redHatFamily`
unfoldable pub red_hat_family : Bytes → Bytes
red_hat_family name = find_family (to_lower name) families

abbrev numeric_or : Bytes → List Bytes → Bytes
numeric_or old [] = old
numeric_or old (f ∷ fs) = if is_numeric_version f then f else old

abbrev name_and_rest : Bytes → Option (Bytes × Bytes) → Bytes × Bytes
name_and_rest line none = (line, [])
name_and_rest line (some p) = p

-- `parseRedHatRelease`
unfoldable pub parse_red_hat_release : Bytes → Info → Info
parse_red_hat_release line info =
    let (name, rest) = name_and_rest line (cut_at (codes " release ") line) in
    record info {
      pretty = line;
      distro = red_hat_family name;
      version = numeric_or info.version (fields_of rest);
    }

-- `parseDebianVersion`
unfoldable pub parse_debian_version : Bytes → Info → Info
parse_debian_version line info = record info {
  distro = codes "debian";
  version = line;
  pretty = codes "Debian GNU/Linux " ++ line;
}

-- `parseAlpineRelease`
unfoldable pub parse_alpine_release : Bytes → Info → Info
parse_alpine_release line info = record info {
  distro = codes "alpine";
  version = line;
  pretty = codes "Alpine Linux v" ++ line;
}

-- strings.TrimSuffix with "."
abbrev pub trim_dot : Bytes → Bytes
trim_dot [] = []
trim_dot (c ∷ []) = if c == b'.' then [] else c ∷ []
trim_dot (c ∷ d ∷ s) = c ∷ trim_dot (d ∷ s)

-- The loop of `kernelSeries`, behind `front` with its dots
unfoldable pub series_from : Bool → Bytes → Bytes → Bytes
series_from dotted front [] = front
series_from dotted front (c ∷ s) =
    let further = series_from dotted (front ++ c ∷ []) s in
    let behind_dot = series_from true (front ++ c ∷ []) s in
    if is_digit c
    then further
    else if c == b'.'
    then (if dotted then front else behind_dot)
    else if is_empty front
    then []
    else trim_dot front

-- `kernelSeries`
unfoldable pub kernel_series : Bytes → Bytes
kernel_series release = series_from false [] release

abbrev pub release_files : List (Bytes × (Bytes → Info → Info))
release_files =
    (codes "/etc/redhat-release", parse_red_hat_release)
    ∷ (codes "/etc/debian_version", parse_debian_version)
    ∷ (codes "/etc/alpine-release", parse_alpine_release)
    ∷ []

-- The end of `detectLinux`
abbrev pub from_kernel : Info → Info
from_kernel info =
    let series = kernel_series info.kernel in
    if is_empty series then info else record info { version = series; source = codes "uname(2)" }

abbrev line_of : Option Bytes → Bytes
line_of none = []
line_of (some b) = first_line b

-- The loop over the files of older systems; a file that cannot be read has no first line.
unfoldable pub from_files : Env → Info → List (Bytes × (Bytes → Info → Info)) → Info
from_files e info [] = from_kernel info
from_files e info ((path, parse) ∷ files) =
    let next = from_files e info files in
    let line = line_of (e.read_file path) in
    if is_empty line then next else record (parse line info) { source = path }

abbrev pub linux_release : Env → Info → Option (Values × Bytes) → Info
linux_release e info none = from_files e info release_files
linux_release e info (some (kv, path)) =
    let named = record info {
      distro = get (codes "ID") kv;
      version = get (codes "VERSION_ID") kv;
      pretty = pretty_name kv;
      source = path;
    } in
    if is_empty named.distro then from_files e named release_files else named

-- `detectLinux`
unfoldable pub detect_linux : Env → Info → Info
detect_linux e info = linux_release e info (read_os_release e)
