-- ===== src/OsDetect/Detect.antt =====
-- internal/osdetect/osdetect.go: `detect`, which picks the detector.
use osfp.Base.{
  Bytes, codes, Bool, true, false, ◌||◌, [], Option, none, some, bytes_eq, if◌then◌else◌,
}
use osfp.OsDetect.Key.{Info, is_empty}
use osfp.OsDetect.Host.{Env, Utsname}
use osfp.OsDetect.Host.Linux.{detect_linux}
use osfp.OsDetect.Host.Bsd.{detect_bsd}
use osfp.OsDetect.Host.Solaris.{detect_solaris}
use osfp.OsDetect.Host.Darwin.{detect_darwin}
use osfp.OsDetect.Host.Aix.{detect_aix}

abbrev named : Option Bytes → Bytes
named none = []
named (some h) = h

abbrev with_uname : Info → Option Utsname → Info
with_uname info none = info
with_uname info (some u) = record info {
  kernel = u.release;
  arch = if is_empty info.arch then u.machine else info.arch;
}

-- What is known before a detector runs.
abbrev pub known : Env → Info
known e =
    with_uname
      (record {
        os = e.goos;
        distro = [];
        version = [];
        arch = e.goarch;
        kernel = [];
        pretty = [];
        hostname = named e.hostname;
        source = [];
      })
      e.uname

abbrev pub is_bsd : Bytes → Bool
is_bsd os =
    bytes_eq os (codes "freebsd")
    || bytes_eq os (codes "openbsd")
    || bytes_eq os (codes "netbsd")
    || bytes_eq os (codes "dragonfly")

-- `detect`, and whether it is without an error
unfoldable pub detect : Env → Info × Bool
detect e =
    if bytes_eq e.goos (codes "linux")
    then (detect_linux e (known e), true)
    else if is_bsd e.goos
    then (detect_bsd e (known e), true)
    else if bytes_eq e.goos (codes "solaris") || bytes_eq e.goos (codes "illumos")
    then (detect_solaris e (known e), true)
    else if bytes_eq e.goos (codes "darwin")
    then (detect_darwin e (known e), true)
    else if bytes_eq e.goos (codes "aix")
    then (detect_aix e (known e), true)
    else (known e, false)
