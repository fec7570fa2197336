-- ===== src/OsDetect/Host/Bsd.antt =====
-- internal/osdetect/bsd.go
use osfp.Base.{Bytes, codes, List, [], ◌∷◌, ◌++◌, Option, none, some, if◌then◌else◌}
use osfp.Text.{trim_space, fields_of, cut, join}
use osfp.OsDetect.Key.{Info, is_empty, is_numeric_version, first_line}
use osfp.OsDetect.Release.{Values, get}
use osfp.OsDetect.Host.{Env, Utsname, read_os_release, pretty_name}

abbrev front_or : Bytes → Option (Bytes × Bytes) → Bytes
front_or s none = s
front_or s (some (front, back)) = front

-- `releaseBase`
unfoldable pub release_base : Bytes → Bytes
release_base release = front_or release (cut b'-' release)

unfoldable pub numeric_base : List Bytes → Bytes
numeric_base [] = []
numeric_base (f ∷ fs) =
    let rest = numeric_base fs in
    if is_numeric_version (release_base f) then release_base f else rest

-- `bsdVersionFromLine`
unfoldable pub bsd_version_from_line : Bytes → Bytes
bsd_version_from_line line = numeric_base (fields_of line)

abbrev pub helpers : List (Bytes × List Bytes)
helpers =
    (codes "freebsd-version", []) ∷ (codes "sysctl", codes "-n" ∷ codes "kern.version" ∷ []) ∷ []

abbrev text_of : Option Bytes → Bytes
text_of none = []
text_of (some out) = out

-- The loop over the helper binaries; one that fails has no output.
unfoldable pub from_helpers : Env → Info → List (Bytes × List Bytes) → Info
from_helpers e info [] = info
from_helpers e info ((name, args) ∷ rest) =
    let next = from_helpers e info rest in
    let out = text_of (e.run name args) in
    let v = bsd_version_from_line (first_line out) in
    if is_empty out then next else record info {
      pretty = first_line out;
      source = trim_space (name ++ codes " " ++ join (codes " ") args);
      version = if is_empty v then info.version else v;
    }

abbrev bsd_release : Env → Info → Option (Values × Bytes) → Info
bsd_release e info none = from_helpers e info helpers
bsd_release e info (some (kv, path)) =
    if is_empty (get (codes "VERSION_ID") kv) then from_helpers e info helpers else record info {
      version = get (codes "VERSION_ID") kv;
      pretty = pretty_name kv;
      source = path;
    }

abbrev bsd_uname : Env → Info → Option Utsname → Info
bsd_uname e info none = bsd_release e info (read_os_release e)
bsd_uname e info (some u) =
    if is_empty u.release then bsd_release e info (read_os_release e) else record info {
      version = release_base u.release;
      pretty = trim_space (u.sysname ++ codes " " ++ u.release);
      source = codes "uname(2)";
    }

-- `detectBSD`
unfoldable pub detect_bsd : Env → Info → Info
detect_bsd e info = bsd_uname e info e.uname
