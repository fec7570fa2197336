-- ===== src/Command/Version.antt =====
-- cmd/osfp/version.go: the version that the tool reports. What the toolchain embeds is a parameter.
use osfp.Base.{
  Bytes, codes, Bool, true, false, not, ◌&&◌, ◌||◌, List, [], ◌∷◌, ◌++◌, Option, none, some,
  bytes_eq, if◌then◌else◌,
}
use osfp.OsDetect.Key.{Info, key}

-- What `debug.ReadBuildInfo` returns
pub record BuildInfo : Type 0 where
  pub main_version : Bytes
  pub settings : List (Bytes × Bytes)

abbrev pub unknown_version : Bytes
unknown_version = codes "devel"

-- The `switch` over the settings
abbrev pub apply_setting : Bytes × Bytes → Bytes → Bytes
apply_setting (k, v) rev =
    if bytes_eq k (codes "vcs.revision")
    then v
    else if bytes_eq k (codes "vcs.modified") && bytes_eq v (codes "true") && not (bytes_eq rev [])
    then rev ++ codes "-dirty"
    else rev

unfoldable pub apply_settings : List (Bytes × Bytes) → Bytes → Bytes
apply_settings [] rev = rev
apply_settings (s ∷ ss) rev = apply_settings ss (apply_setting s rev)

abbrev or_unknown : Bytes → Bytes
or_unknown v = if bytes_eq v [] || bytes_eq v (codes "(devel)") then unknown_version else v

-- `buildStamps`, on the values given at link time
unfoldable pub build_stamps : Bytes → Bytes → Option BuildInfo → Bytes × Bytes
build_stamps version commit none =
    (if bytes_eq version [] then unknown_version else version, commit)
build_stamps version commit (some info) = (
  if bytes_eq version [] then or_unknown info.main_version else version,
  if bytes_eq commit [] then apply_settings info.settings commit else commit,
)

-- `boolString`
unfoldable pub bool_string : Bool → Bytes
bool_string true = codes "enabled"
bool_string false = codes "disabled"

-- What `runVersion` is told about the program and the system; `problem` is the text of the error of
-- the detection.
pub record Build : Type 0 where
  pub stamps : Bytes × Bytes
  pub go_version : Bytes
  pub goos : Bytes
  pub goarch : Bytes
  pub cgo : Bool
  pub info : Info
  pub problem : Option Bytes

abbrev system_line : Build → Bytes
system_line b = elim b.problem [
  | some e ↦ codes "         detection incomplete: " ++ e ++ codes "\n"
  | none ↦
      if bytes_eq b.info.pretty []
      then []
      else codes "         " ++ b.info.pretty ++ codes " (from " ++ b.info.source ++ codes ")\n"
]

-- `runVersion`, behind its flags
unfoldable pub version_text : Bool → Build → Bytes
version_text true b = b.stamps.0 ++ codes "\n"
version_text false b =
    codes "osfp "
    ++ b.stamps.0
    ++ codes "\n"
    ++ (if bytes_eq b.stamps.1 [] then [] else codes "commit:  " ++ b.stamps.1 ++ codes "\n")
    ++ codes "go:      "
    ++ b.go_version
    ++ codes "\ntarget:  "
    ++ b.goos
    ++ codes "/"
    ++ b.goarch
    ++ codes "\ncgo:     "
    ++ bool_string b.cgo
    ++ codes "\nsystem:  "
    ++ key b.info
    ++ codes "\n"
    ++ system_line b
