-- ===== src/Command/Compare/Run.antt =====
-- `runCompare` of cmd/osfp/compare.go, behind the parsing of the flags: its steps up to the exit code,
-- in their order. The text of the report and the messages are left out.
use osfp.Base.{
  ℕ, Bytes, Bool, true, false, not, ◌&&◌, ◌||◌, List, [], ◌++◌, Option, none, some, ◌==◌, bytes_eq,
  if◌then◌else◌,
}
use osfp.Exclude
use osfp.Diff.Op.{OpSet, parse_ops}
use osfp.Diff.Ignore.{Ignore, load_ignore}
use osfp.Diff.Merge.{Change, DirSummary, Outcome, join_all, total}
use osfp.Scan.Tree.{Found}
use osfp.Scan.Walk.{root_of, walk_from}
use osfp.Scan.Settings.{MountPolicy, parse_mount_policy, Options}
use osfp.Store.Reader.{Reader, ReadError, Result, ok, err, new_reader}
use osfp.Store.Meta.{Meta, meta_of}
use osfp.Store.Cursor.{iterate, start, verify}
use osfp.OsDetect.Key.{Info}
use osfp.Report.{format_of}
use osfp.Command.Exit.{
  CommandError, usage, other, require_root, check_comparable, expected, compare_end,
}
use osfp.Command.Compare.{
  NewDirMode, new_dir_summary, parse_mode, load_dirs, descends, pulls, summarize_dir,
}

-- The flags of the command, as they are given; `positional` counts the arguments behind them.
pub record Flags : Type 0 where
  pub base : Bytes
  pub format : Bytes
  pub out : Bytes
  pub show : Bytes
  pub new_dirs : Bytes
  pub ignore_from : Bytes
  pub exclude : List Bytes
  pub jobs : ℕ
  pub allow_mismatch : Bool
  pub allow_non_root : Bool
  pub fail_on_diff : Bool
  pub positional : ℕ

-- What the system answers while the command runs: the bytes of a file, the paths
-- that the report file takes, what a path leads to; `is_dir` says whether `os.Stat` finds a directory,
-- `heading_taken` whether the heading of the report is written without an error, and `report_taken`
-- whether its end is and its file is committed.
pub record System : Type 0 where
  pub euid : ℕ
  pub info : Info
  pub detected : Bool
  pub executable : Option Bytes
  pub resolve : Bytes → Option Bytes
  pub content : Bytes → Option Bytes
  pub create : Bytes → Option (List Bytes)
  pub at : Bytes → Found
  pub is_dir : Bytes → Bool
  pub heading_taken : Bool
  pub report_taken : Bool

-- A value, or the error that ends the command.
pub data Attempt {ℓ} (A : Type ℓ) : Type ℓ where
  go : A → Attempt A
  stop : CommandError → Attempt A

infixl 5 ◌>>=◌
unfoldable pub ◌>>=◌ {ℓ κ} : {A : Type ℓ} {B : Type κ} → Attempt A → (A → Attempt B) → Attempt B
m >>= rest = elim m [ stop e ↦ stop e | go a ↦ rest a ]

infixl 5 ◌>>◌
unfoldable pub ◌>>◌ {ℓ} : {B : Type ℓ} → Attempt (Unit {0}) → Attempt B → Attempt B
m >> rest = elim m [ stop e ↦ stop e | go a ↦ rest ]

abbrev pub refuse : Bool → CommandError → Attempt (Unit {0})
refuse true e = stop e
refuse false e = go tt

abbrev pub checked : Option CommandError → Attempt (Unit {0})
checked none = go tt
checked (some e) = stop e

abbrev pub needed {ℓ} : {A : Type ℓ} → Option A → Attempt A
needed none = stop other
needed (some a) = go a

abbrev pub loaded {ℓ} : {A : Type ℓ} → Result A → Attempt A
loaded (err e) = stop other
loaded (ok a) = go a

-- What is only read where its flag is given.
abbrev pub given {ℓ} : {A : Type ℓ} → A → Bytes → Option A → Attempt A
given default flag value = if bytes_eq flag [] then go default else needed value

abbrev some_ops : Option OpSet → Attempt (Option OpSet)
some_ops none = stop other
some_ops (some set) = go (some set)

abbrev pub read_ops : Bytes → Attempt (Option OpSet)
read_ops list = if bytes_eq list [] then go none else (some_ops (parse_ops list))

abbrev is_summary : NewDirMode → Bool
is_summary new_dir_summary = true
is_summary _ = false

abbrev pub no_rules : Ignore
no_rules = record { rules = [] }

-- The error of the joiner ends the command, and so does one of the report.
abbrev pub finish_compare : Bool → Bool → (Bytes → Bool) → Outcome → Option CommandError
finish_compare taken fail_on_diff volatile (j, some e) = some other
finish_compare taken fail_on_diff volatile (j, none) =
    if not taken
    then some other
    else compare_end (total j.stats) (expected volatile j.emitted) fail_on_diff

-- The command's error, and the changes that its reporter was given.
abbrev pub Report : Type 0
Report = Option CommandError × List Change

abbrev pub reported : Bool → Bool → (Bytes → Bool) → Outcome → Report
reported taken fail_on_diff volatile o = (finish_compare taken fail_on_diff volatile o, o.0.emitted)

abbrev pub ended : Attempt Report → Report
ended (stop e) = (some e, [])
ended (go r) = r

module _ (glob : Bytes → Bytes → Option Bool) (ratio : ℕ → ℕ → Bytes) (sha256 : Bytes → Bytes)
    (decompress : Bytes → Option Bytes) (is_meta : Bytes → Bool) (decode_meta : Bytes → Meta)
    (message : ReadError → Bytes) (cpus : ℕ) (emit : Change → Option Bytes) where
  -- `opts` of `runCompare`
  abbrev pub scan_options :
      Flags → Meta → Exclude.Set → MountPolicy → NewDirMode → List Bytes → Options
  scan_options flags meta set policy mode dirs = record {
    exclude = some set;
    mounts = policy;
    max_depth = meta.scan.max_depth;
    jobs = flags.jobs;
    max_file_size = meta.scan.max_file_size;
    no_hash = false;
    descend = some (descends mode dirs);
  }

  -- `Summarize`
  abbrev pub summarizer : System → Options → NewDirMode → Option (Bytes → Option DirSummary)
  summarizer sys opts mode =
      if is_summary mode
      then some (λ path. summarize_dir glob cpus opts path (sys.at path))
      else none

  abbrev pub exclusions : Flags → System → Meta → List Bytes → Exclude.Options
  exclusions flags sys meta auto = record {
    goos = meta.system.os;
    root = meta.scan.root;
    no_defaults = true;
    patterns = meta.exclusions ++ flags.exclude;
    auto = Exclude.self_paths sys.executable sys.resolve ++ auto;
    no_volatiles = false;
  }

  -- The steps behind the opening of the fingerprint and the checks; `fuel` bounds the reading.
  unfoldable pub compare_with :
      ℕ → Flags → System → NewDirMode → MountPolicy → Reader → Attempt Report
  compare_with fuel flags sys mode policy reader = do
    let meta = meta_of decode_meta reader
    auto ← given [] flags.out (sys.create flags.out)
    es ← loaded (iterate decompress reader.file fuel (start reader))
    set ← needed (Exclude.new glob (exclusions flags sys meta auto))
    format ← needed (format_of flags.format)
    let opts = scan_options flags meta set policy mode (load_dirs es)
    show ← read_ops flags.show
    ignore ← given no_rules flags.ignore_from (load_ignore glob (sys.content flags.ignore_from))
    refuse (not (sys.is_dir meta.scan.root)) other
    refuse (not sys.heading_taken) other
    walked ← needed (walk_from glob cpus opts meta.scan.root (sys.at (root_of meta.scan.root)))
    go (
        reported sys.report_taken flags.fail_on_diff (Exclude.is_volatile set) (
          join_all ratio glob emit (pulls decompress reader.file message fuel (start reader))
            (record { show = show; ignore = ignore; summarize = summarizer sys opts mode })
            walked.emitted))

  -- `runCompare`
  unfoldable pub run_compare : ℕ → Flags → System → Report
  run_compare fuel flags sys = ended do
    refuse (not (flags.positional == 0) || bytes_eq flags.base []) usage
    mode ← needed (parse_mode flags.new_dirs)
    checked (require_root sys.euid flags.allow_non_root)
    file ← needed (sys.content flags.base)
    reader ← loaded (new_reader decompress is_meta file)
    whole ← loaded (verify sha256 reader)
    let meta = meta_of decode_meta reader
    policy ← needed (parse_mount_policy meta.scan.mounts)
    refuse (not sys.detected && not flags.allow_mismatch) other
    checked (check_comparable meta.key meta.privileged sys.info sys.euid flags.allow_mismatch)
    compare_with fuel flags sys mode policy reader
