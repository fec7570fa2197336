-- ===== src/OsDetect/Host.antt =====
-- internal/osdetect: the detectors, over what the system answers. The decoder of XML is a parameter.
pub mod Linux
pub mod Bsd
pub mod Solaris
pub mod Darwin
pub mod Aix
use osfp.Base.{
  ℕ, Bytes, codes, Bool, true, false, not, ◌&&◌, List, [], ◌∷◌, ◌++◌, Option, none, some, bytes_eq,
  if◌then◌else◌,
}
use osfp.Text.{trim_space}
use osfp.OsDetect.Key.{Info, is_empty}
use osfp.OsDetect.Release.{Values, get, parse_os_release}

-- `utsname`
pub record Utsname : Type 0 where
  pub sysname : Bytes
  pub nodename : Bytes
  pub release : Bytes
  pub version : Bytes
  pub machine : Bytes

-- The pieces of a document, as `Decoder.Token` of encoding/xml gives them.
pub data Token : Type 0 where
  start_element : Bytes → Token
  char_data : Bytes → Token
  end_element : Bytes → Token
  other_token : Token

-- `env`, where `none` is an error
pub record Env : Type 0 where
  pub goos : Bytes
  pub goarch : Bytes
  pub read_file : Bytes → Option Bytes
  pub uname : Option Utsname
  pub hostname : Option Bytes
  pub run : Bytes → List Bytes → Option Bytes
  pub tokens : Bytes → List Token

abbrev pub os_release_paths : List Bytes
os_release_paths = codes "/etc/os-release" ∷ codes "/usr/lib/os-release" ∷ []

abbrev pub parsed : Bytes → Option Bytes → Option (Values × Bytes)
parsed path none = none
parsed path (some b) = elim (parse_os_release b) [ [] ↦ none | kv ∷ kvs ↦ some (kv ∷ kvs, path) ]

abbrev pub or_else {ℓ} : {A : Type ℓ} → Option A → Option A → Option A
or_else none o = o
or_else (some a) o = some a

unfoldable pub first_release : Env → List Bytes → Option (Values × Bytes)
first_release e [] = none
first_release e (path ∷ paths) = or_else (parsed path (e.read_file path)) (first_release e paths)

-- `readOSRelease`
unfoldable pub read_os_release : Env → Option (Values × Bytes)
read_os_release e = first_release e os_release_paths

-- `prettyName`
unfoldable pub pretty_name : Values → Bytes
pretty_name kv =
    let p = get (codes "PRETTY_NAME") kv in
    if is_empty p
    then trim_space (get (codes "NAME") kv ++ codes " " ++ get (codes "VERSION") kv)
    else p
