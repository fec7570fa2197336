-- ===== src/Exclude/Defaults.antt =====
-- internal/exclude/defaults.go: the built-in exclusions and the directories of expected churn.
use osfp.Base.{Bytes, codes, List, [], ◌∷◌, ◌++◌, bytes_eq, if◌then◌else◌}

-- `commonDefaults`
abbrev pub common_defaults : List Bytes
common_defaults =
    codes "/proc"
    ∷ codes "/sys"
    ∷ codes "/dev"
    ∷ codes "/tmp"
    ∷ codes "/var/tmp"
    ∷ codes "/run"
    ∷ codes "/var/run"
    ∷ codes "/media"
    ∷ codes "/mnt"
    ∷ codes "/lost+found"
    ∷ []

-- `family`
unfoldable pub family : Bytes → Bytes
family goos =
    if bytes_eq goos (codes "illumos")
    then codes "solaris"
    else if bytes_eq goos (codes "dragonfly")
    then codes "freebsd"
    else goos

-- `osDefaults`, a missing key included
unfoldable pub os_defaults : Bytes → List Bytes
os_defaults fam =
    if bytes_eq fam (codes "linux")
    then codes "/var/lib/docker" ∷ codes "/swapfile" ∷ []
    else if bytes_eq fam (codes "solaris")
    then codes "/devices"
      ∷ codes "/system/contract"
      ∷ codes "/system/object"
      ∷ codes "/system/volatile"
      ∷ codes "/rpool"
      ∷ []
    else if bytes_eq fam (codes "freebsd")
    then codes "/compat/linux/proc" ∷ codes "/var/db/freebsd-update" ∷ []
    else if bytes_eq fam (codes "darwin")
    then codes "/Volumes"
      ∷ codes "/System/Volumes"
      ∷ codes "/private/var/vm"
      ∷ codes "/.Spotlight-V100"
      ∷ codes "/.fseventsd"
      ∷ []
    else []

-- `volatileDefaults`
abbrev pub volatile_defaults : List Bytes
volatile_defaults = codes "/var/log" ∷ codes "/var/cache" ∷ codes "/var/spool" ∷ []

-- `osVolatile`, a missing key included
unfoldable pub os_volatile : Bytes → List Bytes
os_volatile fam =
    if bytes_eq fam (codes "solaris")
    then codes "/var/adm"
      ∷ codes "/var/svc/log"
      ∷ codes "/var/audit"
      ∷ codes "/var/share/adm"
      ∷ codes "/var/share/audit"
      ∷ codes "/var/share/sstore"
      ∷ []
    else []

-- `Defaults`
unfoldable pub defaults : Bytes → List Bytes
unfolding family os_defaults
defaults goos = common_defaults ++ os_defaults (family goos)

-- `Volatile`
unfoldable pub volatile_of : Bytes → List Bytes
unfolding family os_volatile
volatile_of goos =
    if bytes_eq (family goos) (codes "darwin")
    then codes "/private/var/log" ∷ codes "/private/var/folders" ∷ []
    else volatile_defaults ++ os_volatile (family goos)
