-- ===== src/Report/Json.antt =====
-- internal/report/json.go: the JSON Lines report, a record for each line. The encoder of a record is a
-- parameter, as are the formats of a time and of a duration; the destination is that of the text report.
pub mod Hex
pub mod Latched
use osfp.Base.{
  ℕ, ◌+◌, ◌-◌, ◌/◌, ◌%◌, Bytes, codes, Bool, List, [], ◌∷◌, ◌++◌, map, Option, none, some, ltb, ℤ,
  pos, if◌then◌else◌, take,
}
use osfp.Entry.{Entry, type_string}
use osfp.Humanize
use osfp.Diff.Op.{Op, all_ops, op_string}
use osfp.Diff.Merge
use osfp.Diff.Merge.{Change, DirSummary}
use osfp.Scan.FsType.{kind_string}
use osfp.Scan.Settings
use osfp.Scan.Walk
use osfp.Scan.Settings.{SkippedMount}
use osfp.Report.Header.{Header, Summary}

pub record BaselineRecord : Type 0 where
  pub path : Bytes
  pub created : ℤ
  pub entries : ℤ
  pub os_key : Bytes
  pub privileged : Bool
  pub tool : Bytes

pub record SystemRecord : Type 0 where
  pub os_key : Bytes
  pub name : Bytes
  pub scanned : ℤ
  pub privileged : Bool

pub record ScopeRecord : Type 0 where
  pub root : Bytes
  pub mounts : Bytes
  pub new_dir_mode : Bytes
  pub exclusions : List Bytes
  pub extra_exclusions : List Bytes
  pub ignore_rules : List Bytes

pub record HeaderRecord : Type 0 where
  pub tool : Bytes
  pub version : Bytes
  pub baseline : BaselineRecord
  pub system : SystemRecord
  pub scope : ScopeRecord

pub record EntryRecord : Type 0 where
  pub type : Bytes
  pub mode : Bytes
  pub uid : ℕ
  pub gid : ℕ
  pub size : ℤ
  pub mtime : Bytes
  pub sha256 : Bytes
  pub link : Bytes
  pub partial : Bool
  pub error : Bytes
  pub dev : ℕ
  pub ino : ℕ
  pub nlink : ℕ

-- `changeRecord`; its contents are the summary of a directory.
pub record ChangeRecord : Type 0 where
  pub op : Bytes
  pub path : Bytes
  pub detail : Bytes
  pub old : Option EntryRecord
  pub new : Option EntryRecord
  pub summary : Option DirSummary

pub record MountRecord : Type 0 where
  pub path : Bytes
  pub fs_type : Bytes
  pub kind : Bytes

-- `statsRecord`; the map of counts is a list.
pub record StatsRecord : Type 0 where
  pub counts : List (Bytes × ℕ)
  pub total : ℕ
  pub expected : ℕ
  pub ignored : ℕ
  pub hidden : ℕ
  pub compared : ℕ
  pub scanned : ℕ
  pub errors : ℕ
  pub mounts : List MountRecord
  pub elapsed : ℤ

-- A line of the report; the constructor is its field `record`.
pub data Record : Type 0 where
  header_line : HeaderRecord → Record
  change_line : ChangeRecord → Record
  summary_line : StatsRecord → Record

unfoldable pub header_record : Header → HeaderRecord
header_record h = record {
  tool = h.tool;
  version = h.tool_version;
  baseline = record {
    path = h.baseline_path;
    created = h.baseline.created_at;
    entries = h.baseline.entries;
    os_key = h.baseline.key;
    privileged = h.baseline.privileged;
    tool = h.baseline.tool_version;
  };
  system = record {
    os_key = h.system_key;
    name = h.system_name;
    scanned = h.scanned_at;
    privileged = h.privileged;
  };
  scope = record {
    root = h.baseline.scan.root;
    mounts = h.baseline.scan.mounts;
    new_dir_mode = h.new_dir_mode;
    exclusions = h.baseline.exclusions;
    extra_exclusions = h.extra_exclusions;
    ignore_rules = h.ignore_rules;
  };
}

-- `hexDigits[d]`
abbrev pub hex_digit : ℕ → ℕ
hex_digit d = if ltb d 10 then b'0' + d else b'a' + d - 10

-- `hex`
unfoldable pub hex : Bytes → Bytes
hex [] = []
hex (c ∷ b) = hex_digit (c / 16) ∷ hex_digit (c % 16) ∷ hex b

-- `mountRecords`
abbrev pub mount_record : SkippedMount → MountRecord
mount_record m = record { path = m.path; fs_type = m.fs_type; kind = kind_string m.kind }

unfoldable pub stats_record : Summary → StatsRecord
stats_record s = record {
  counts = map (λ (op : Op). (op_string op, s.diff.counts op)) all_ops;
  total = Merge.total s.diff;
  expected = s.expected;
  ignored = s.diff.ignored;
  hidden = s.diff.hidden;
  compared = s.diff.compared;
  scanned = Settings.total s.scan;
  errors = s.scan.errors;
  mounts = map mount_record s.skipped;
  elapsed = s.elapsed;
}

-- `jsonReporter`, with what the destination holds
pub record JsonReporter : Type 0 where
  pub out : Bytes
  pub err : Option Bytes

-- `newJSONReporter`
unfoldable pub new_json_reporter : JsonReporter
new_json_reporter = record { out = []; err = none }

module _ (stamp : ℤ → Bytes) (encode : Record → Bytes)
    (sink : Bytes → Bytes → ℕ × Option Bytes) where
  -- `entryOf`
  unfoldable pub entry_of : Entry → EntryRecord
  entry_of e = record {
    type = type_string e.type;
    mode = Humanize.mode e.mode;
    uid = e.uid;
    gid = e.gid;
    size = e.size;
    mtime = stamp e.mtime;
    sha256 = if e.hashed then hex e.hash else [];
    link = e.link;
    partial = e.partial;
    error = e.err;
    dev = e.dev;
    ino = e.ino;
    nlink = e.nlink;
  }

  abbrev pub entry_of_any : Option Entry → Option EntryRecord
  entry_of_any none = none
  entry_of_any (some e) = some (entry_of e)

  unfoldable pub change_record : Change → ChangeRecord
  change_record c = record {
    op = op_string c.op;
    path = c.path;
    detail = c.detail;
    old = entry_of_any c.old;
    new = entry_of_any c.new;
    summary = c.summary;
  }

  abbrev pub took : Bytes → ℕ × Option Bytes → JsonReporter → JsonReporter
  took line (n, e) j = record { out = j.out ++ take n line; err = e }

  abbrev pub write_unless : Option Bytes → Record → JsonReporter → JsonReporter
  write_unless (some e) r j = j
  write_unless none r j = took (encode r) (sink j.out (encode r)) j

  -- `write`, to which `Encode` hands a whole line
  unfoldable pub write_record : Record → JsonReporter → JsonReporter
  write_record r j = write_unless j.err r j

  -- `Header`, `Change` and `Close` return the error that the reporter then has.
  unfoldable pub put_header : Header → JsonReporter → JsonReporter
  put_header h = write_record (header_line (header_record h))

  unfoldable pub put_change : Change → JsonReporter → JsonReporter
  put_change c = write_record (change_line (change_record c))

  unfoldable pub put_summary : Summary → JsonReporter → JsonReporter
  put_summary s = write_record (summary_line (stats_record s))

  unfoldable pub put_changes : List Change → JsonReporter → JsonReporter
  put_changes [] j = j
  put_changes (c ∷ cs) j = put_changes cs (put_change c j)

  -- A whole report.
  unfoldable pub json_report : Header → List Change → Summary → JsonReporter
  json_report h cs s = put_summary s (put_changes cs (put_header h new_json_reporter))
