-- ===== src/Command/Baseline.antt =====
-- cmd/osfp/baseline.go: a fingerprint that is taken. The times and the output of the command are left
-- out.
pub mod Spares
use osfp.Base.{
  ℕ, ◌+◌, ◌%◌, Bytes, codes, Bool, true, false, not, ◌&&◌, ◌||◌, List, [], ◌∷◌, ◌++◌, Option, none,
  some, ltb, ◌==◌, bytes_eq, if◌then◌else◌, ℤ, pos,
}
use osfp.Entry.{Entry}
use osfp.Exclude
use osfp.Filepath
use osfp.Scan.Tree.{Found}
use osfp.Scan.Walk.{root_of, walk_from}
use osfp.Scan.Settings.{default_jobs, Options, MountPolicy, parse_mount_policy, policy_string}
use osfp.Store.Meta.{Meta}
use osfp.Store.Writer.{Writer, Outcome}
use osfp.Store.Writer.Closing.{write_all}
use osfp.OsDetect.Key.{Info, key, normalize_key}
use osfp.Command.Exit.{CommandError, usage, other, require_root, is_privileged}
use osfp.Command.Compare.Run.{Attempt, go, stop, ◌>>=◌, ◌>>◌, refuse, checked, needed, given}

-- The flags of the command, as they are given; `positional` counts the arguments behind them.
pub record Flags : Type 0 where
  pub out : Bytes
  pub exclude : List Bytes
  pub exclude_from : Bytes
  pub no_defaults : Bool
  pub root : Bytes
  pub jobs : ℕ
  pub mounts : Bytes
  pub max_file_size : ℕ
  pub max_depth : ℕ
  pub allow_non_root : Bool
  pub os_id : Bytes
  pub force : Bool
  pub positional : ℕ

-- How `Commit` of an atomic file ends: with an error up to the renaming, with one of the sync of the
-- directory behind it, when the file is in its place, or without an error.
pub data Committed : Type 0 where
  uncommitted unsynced complete : Committed

-- What the system answers: `exists` is that of `os.Stat` on a path, `create` the paths that an atomic
-- file for it takes, `commits` how its commit ends, `content` what a file holds.
pub record System : Type 0 where
  pub euid : ℕ
  pub info : Info
  pub detected : Bool
  pub executable : Option Bytes
  pub resolve : Bytes → Option Bytes
  pub exists : Bytes → Bool
  pub create : Bytes → Option (List Bytes)
  pub commits : Bytes → Committed
  pub content : Bytes → Option Bytes
  pub at : Bytes → Found
  pub now : ℤ
  pub version : Bytes
  pub cpus : ℕ

-- `identify`; the key of the system, or the one that --os-id gives
unfoldable pub identify : Info → Bool → Bytes → Attempt Bytes
identify info detected override =
    if not detected && bytes_eq override []
    then stop other
    else if bytes_eq override []
    then go (key info)
    else needed (normalize_key override)

-- The name of the fingerprint
abbrev pub target_of : Bytes → Bytes → Bytes
target_of out k = if bytes_eq out [] then k ++ codes ".osfp" else out

-- `opts` of `runBaseline`
abbrev pub scan_options : Flags → System → Exclude.Set → MountPolicy → Options
scan_options flags sys set policy = record {
  exclude = some set;
  mounts = policy;
  max_depth = flags.max_depth;
  jobs = if flags.jobs == 0 then default_jobs sys.cpus else flags.jobs;
  max_file_size = flags.max_file_size;
  no_hash = false;
  descend = none;
}

-- `meta` of `runBaseline`
abbrev pub meta_for : Flags → System → Exclude.Set → MountPolicy → Bytes → Meta
meta_for flags sys set policy k = record {
  tool = codes "osfp";
  tool_version = sys.version;
  created_at = sys.now;
  key = k;
  system = sys.info;
  privileged = is_privileged sys.euid;
  euid = sys.euid;
  scan = record {
    root = Filepath.clean flags.root;
    mounts = policy_string policy;
    max_depth = flags.max_depth;
    max_file_size = flags.max_file_size;
    jobs = if flags.jobs == 0 then default_jobs sys.cpus else flags.jobs;
  };
  exclusions = set.patterns;
  entries = pos 0;
  errors = pos 0;
  blocks = pos 0;
}

abbrev pub exclusions : Flags → System → List Bytes → List Bytes → Exclude.Options
exclusions flags sys from_file auto = record {
  goos = sys.info.os;
  root = flags.root;
  no_defaults = flags.no_defaults;
  patterns = flags.exclude ++ from_file;
  auto = Exclude.self_paths sys.executable sys.resolve ++ auto;
  no_volatiles = false;
}

-- The path of the file that was committed, and its bytes.
abbrev pub Written : Type 0
Written = Bytes × Bytes

-- The error of the command, and the file that it leaves.
abbrev pub Ending : Type 0
Ending = Option CommandError × Option Written

abbrev pub committed : Committed → Written → Ending
committed uncommitted file = (some other, none)
committed unsynced file = (some other, some file)
committed complete file = (none, some file)

abbrev pub ended : Attempt Ending → Ending
ended (stop e) = (some e, none)
ended (go r) = r

abbrev pub closed : Outcome → Attempt Bytes
closed (w, none) = go w.file
closed (w, some e) = stop other

module _ (glob : Bytes → Bytes → Option Bool) (sink : Bytes → Bytes → ℕ × Option Bytes)
    (compress sha256 : Bytes → Bytes) (encode_meta : Meta → Bytes) where
  -- The steps behind the choice of the target.
  unfoldable pub record_to : Flags → System → MountPolicy → Bytes → Bytes → Attempt Ending
  record_to flags sys policy k target = do
    refuse (not flags.force && sys.exists target) other
    paths ← needed (sys.create target)
    from_file ← given [] flags.exclude_from (Exclude.load_patterns (sys.content flags.exclude_from))
    set ← needed (Exclude.new glob (exclusions flags sys from_file paths))
    walked ← needed (
        walk_from glob sys.cpus (scan_options flags sys set policy) flags.root
          (sys.at (root_of flags.root)))
    let payload = encode_meta (meta_for flags sys set policy k)
    let written = write_all sink compress sha256 payload walked.emitted
    file ← closed written
    go (committed (sys.commits target) (target, file))

  -- `runBaseline`
  unfoldable pub run_baseline : Flags → System → Ending
  run_baseline flags sys = ended do
    refuse (not (flags.positional == 0)) usage
    policy ← needed (parse_mount_policy flags.mounts)
    checked (require_root sys.euid flags.allow_non_root)
    k ← identify sys.info sys.detected flags.os_id
    record_to flags sys policy k (target_of flags.out k)
