-- ===== src/OsDetect/Host/Darwin.antt =====
-- internal/osdetect/darwin.go
use osfp.Base.{
  Bytes, codes, not, ◌&&◌, ◌||◌, List, [], ◌∷◌, ◌++◌, Option, none, some, bytes_eq, if◌then◌else◌,
}
use osfp.Text.{trim_space}
use osfp.OsDetect.Key.{Info, is_empty}
use osfp.OsDetect.Release.{Values, get}
use osfp.OsDetect.Host.{Env, Token, start_element, char_data, end_element, other_token}

-- The variables of the loop of `parsePlistDict`.
pub record Plist : Type 0 where
  pub elem : Bytes
  pub key : Bytes
  pub value : Bytes
  pub kv : Values

-- The end of an element, by its name.
abbrev close_element : Bytes → Plist → Plist
close_element name p =
    if bytes_eq name (codes "key")
    then record p { key = trim_space p.value; elem = []; value = [] }
    else if bytes_eq name (codes "string") && not (is_empty p.key)
    then record p { kv = (p.key, trim_space p.value) ∷ p.kv; key = []; elem = []; value = [] }
    else record p { elem = []; value = [] }

abbrev read_token : Token → Plist → Plist
read_token (start_element name) p = record p { elem = name; value = [] }
read_token (char_data t) p =
    if bytes_eq p.elem (codes "key") || bytes_eq p.elem (codes "string")
    then record p { value = p.value ++ t }
    else p
read_token (end_element name) p = close_element name p
read_token other_token p = p

unfoldable pub read_tokens : List Token → Plist → Values
read_tokens [] p = p.kv
read_tokens (t ∷ ts) p = read_tokens ts (read_token t p)

-- `parsePlistDict`
unfoldable pub parse_plist_dict : List Token → Values
parse_plist_dict ts = read_tokens ts (record { elem = []; key = []; value = []; kv = [] })

abbrev pub system_version_plist : Bytes
system_version_plist = codes "/System/Library/CoreServices/SystemVersion.plist"

abbrev from_sw_vers : Info → Option Bytes → Info
from_sw_vers info none = info
from_sw_vers info (some out) = if is_empty out then info else record info {
  distro = codes "macos";
  version = out;
  pretty = codes "macOS " ++ out;
  source = codes "sw_vers -productVersion";
}

abbrev run_sw_vers : Env → Info → Info
run_sw_vers e info = from_sw_vers info (e.run (codes "sw_vers") (codes "-productVersion" ∷ []))

abbrev with_plist : Env → Info → Values → Info
with_plist e info kv =
    let v = get (codes "ProductVersion") kv in
    let name = trim_space (get (codes "ProductName") kv ++ codes " " ++ v) in
    let build = get (codes "ProductBuildVersion") kv in
    if is_empty v then run_sw_vers e info else record info {
      distro = get (codes "ProductName") kv;
      version = v;
      pretty = if is_empty build then name else name ++ codes " (" ++ build ++ codes ")";
      source = system_version_plist;
    }

abbrev from_plist : Env → Info → Option Bytes → Info
from_plist e info none = run_sw_vers e info
from_plist e info (some b) = with_plist e info (parse_plist_dict (e.tokens b))

-- `detectDarwin`
unfoldable pub detect_darwin : Env → Info → Info
detect_darwin e info = from_plist e info (e.read_file system_version_plist)
