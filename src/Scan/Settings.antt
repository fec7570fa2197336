-- ===== src/Scan/Settings.antt =====
-- The options and the counts of internal/scan/walk.go, with the number of workers of hash.go.
use osfp.Base.{
  ℕ, ◌+◌, ◌%◌, ◌^◌, to_u64, Bytes, codes, Bool, ◌||◌, [], Option, none, some, ltb, ◌==◌, bytes_eq,
  if◌then◌else◌,
}
use osfp.Entry.{Entry, type_dir, type_file, type_symlink}
use osfp.Exclude
use osfp.Scan.FsType.{FsKind}

pub data MountPolicy : Type 0 where
  mount_local mount_same mount_all : MountPolicy

-- `ParseMountPolicy`; `none` is the error
unfoldable pub parse_mount_policy : Bytes → Option MountPolicy
parse_mount_policy s =
    if bytes_eq s (codes "local") || bytes_eq s []
    then some MountPolicy.mount_local
    else if bytes_eq s (codes "same")
    then some MountPolicy.mount_same
    else if bytes_eq s (codes "all")
    then some MountPolicy.mount_all
    else none

-- `MountPolicy.String`
unfoldable pub policy_string : MountPolicy → Bytes
policy_string MountPolicy.mount_same = codes "same"
policy_string MountPolicy.mount_all = codes "all"
policy_string MountPolicy.mount_local = codes "local"

pub record SkippedMount : Type 0 where
  pub path : Bytes
  pub fs_type : Bytes
  pub kind : FsKind

pub record Options : Type 0 where
  pub exclude : Option Exclude.Set
  pub mounts : MountPolicy
  pub max_depth : ℕ
  pub jobs : ℕ
  pub max_file_size : ℕ
  pub no_hash : Bool
  pub descend : Option (Entry → Bool)

abbrev pub default_max_depth : ℕ
default_max_depth = 64

abbrev pub max_jobs : ℕ
max_jobs = 8

-- `DefaultJobs`, where `cpus` is what `runtime.NumCPU` returns
abbrev pub default_jobs : ℕ → ℕ
default_jobs cpus = if ltb cpus max_jobs then cpus else max_jobs

-- `setDefaults`, for values that are not negative
unfoldable pub set_defaults : ℕ → Options → Options
set_defaults cpus o = record o {
  max_depth = if o.max_depth == 0 then default_max_depth else o.max_depth;
  jobs = if o.jobs == 0 then default_jobs cpus else o.jobs;
}

pub record Stats : Type 0 where
  pub dirs : ℕ
  pub files : ℕ
  pub symlinks : ℕ
  pub others : ℕ
  pub errors : ℕ
  pub hashed : ℕ
  pub partial : ℕ
  pub bytes : ℕ

-- `Stats.count`; the sum of the hashed sizes, an int64, is its 64-bit pattern
unfoldable pub count : Stats → Entry → Stats
count s e = record {
  dirs = if e.type == type_dir then s.dirs + 1 else s.dirs;
  files = if e.type == type_file then s.files + 1 else s.files;
  symlinks = if e.type == type_symlink then s.symlinks + 1 else s.symlinks;
  others =
      if e.type == type_dir || e.type == type_file || e.type == type_symlink
      then s.others
      else s.others + 1;
  errors = if bytes_eq e.err [] then s.errors else s.errors + 1;
  hashed = if e.hashed then s.hashed + 1 else s.hashed;
  partial = if e.partial then s.partial + 1 else s.partial;
  bytes = if e.hashed then (s.bytes + to_u64 e.size) % 2 ^ 64 else s.bytes;
}

-- `Stats.Total`
unfoldable pub total : Stats → ℕ
total s = s.dirs + s.files + s.symlinks + s.others
