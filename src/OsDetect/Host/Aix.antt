-- ===== src/OsDetect/Host/Aix.antt =====
-- internal/osdetect/aix.go
use osfp.Base.{Bytes, codes, ◌||◌, List, [], ◌∷◌, ◌++◌, Option, none, some, if◌then◌else◌}
use osfp.Text.{trim_space, split_on}
use osfp.OsDetect.Key.{Info, is_empty}
use osfp.OsDetect.Host.{Env, Utsname}

-- `oslevelVersion`
unfoldable pub oslevel_version : Bytes → Bytes
oslevel_version [] = []
oslevel_version (c ∷ []) = []
oslevel_version (c ∷ d ∷ s) = c ∷ b'.' ∷ d ∷ []

abbrev aix_uname : Info → Option Utsname → Info
aix_uname info none = info
aix_uname info (some u) =
    let version = u.version ++ codes "." ++ u.release in
    if is_empty u.version || is_empty u.release then info else record info {
      version = version;
      kernel = version;
      pretty = codes "AIX " ++ version;
      source = codes "uname(2)";
    }

-- The technology level, the second field of `oslevel -s`.
abbrev with_level : Bytes → List Bytes → Bytes
with_level version [] = version
with_level version (f ∷ fs) = if is_empty f then version else version ++ codes "-tl" ++ f

abbrev version_of : Bytes → List Bytes → Bytes
version_of version [] = version
version_of version (f ∷ fs) =
    with_level (if is_empty version then oslevel_version f else version) fs

abbrev aix_level : Info → Option Bytes → Info
aix_level info none = info
aix_level info (some out) = if is_empty out then info else record info {
  kernel = out;
  source = trim_space (info.source ++ codes " + oslevel -s");
  version = version_of info.version (split_on b'-' out);
  pretty = codes "AIX " ++ out;
}

-- `detectAIX`
unfoldable pub detect_aix : Env → Info → Info
detect_aix e info = aix_level (aix_uname info e.uname) (e.run (codes "oslevel") (codes "-s" ∷ []))
