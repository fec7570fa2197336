-- ===== src/Tests/Systems.antt =====
-- The theorems on the key of a system, on the text report and on the files and exit codes of the
-- commands, on small examples.
use osfp.Base.{
  All, ◌%◌, ◌==◌, Bytes, codes, Bool, true, false, [], none, some, refl, ◌≡◌, ◌↔◌, ◌≤◌, map, length,
}
use osfp.Text.{equal_fold, split_on, join}
use osfp.Entry.{Entry}
use osfp.Diff.Op.{op_changed_file}
use osfp.Diff.Merge.{Change, join_all, entry, total}
use osfp.OsDetect.Key.{
  key, normalize_key, parts_of, add_part, normalize_component, trim_end, trim_start, scan_bytes,
}
use osfp.OsDetect.Spelling.{IsKey}
use osfp.OsDetect.Keys
use osfp.Command.Atomic.{State, Answers, create_atomic, commit, wrote, Reached, begun, later, write}
use osfp.Command.Whole
use osfp.Command.Exit.{exit_code, exit_ok, compare_end, expected}
use osfp.Command.Drift
use osfp.Command.Drift.{IsNoise}
use osfp.Report
use osfp.Report.{new_text_reporter, change_all}
use osfp.Report.Sections
use osfp.Report.Sections.{picked, goes_under, is_noise}
use osfp.Command.Whole.{IsWhole}
use osfp.OsDetect.Host.{Env, Utsname}
use osfp.OsDetect.Host.Bsd.{detect_bsd}
use osfp.OsDetect.Versions
use osfp.OsDetect.Versions.{IsSeries, with_release}
use osfp.Tests.{no_glob, no_ratio, accept, olds, lives, show_all, lives-IsSorted, debian}

debian_key : key debian ≡ codes "linux-debian-12.-rc-amd64"
unfolding key equal_fold parts_of add_part normalize_component trim_end trim_start scan_bytes join
debian_key = refl

-- Given as a key by hand, it is spelled in another way.
debian_key_by_hand :
    normalize_key (codes "linux-debian-12.-rc-amd64") ≡ some (codes "linux-debian-12-rc-amd64")
unfolding normalize_key split_on parts_of add_part normalize_component trim_end trim_start
    scan_bytes join
debian_key_by_hand = refl

key-IsKey_example : IsKey (key debian) × (length (key debian) ≤ 136)
key-IsKey_example = Keys.key-IsKey debian

normalize_key-IsKey_example : IsKey (codes "linux-debian-12-rc-amd64")
normalize_key-IsKey_example =
    Keys.normalize_key-IsKey (codes "linux-debian-12.-rc-amd64") (codes "linux-debian-12-rc-amd64")
      debian_key_by_hand

abbrev bare_host : Env
bare_host = record {
  goos = codes "freebsd";
  goarch = codes "amd64";
  read_file = λ path. none;
  uname = none;
  hostname = none;
  run = λ name args. none;
  tokens = λ b. [];
}

abbrev freebsd : Utsname
freebsd = record {
  sysname = codes "FreeBSD";
  nodename = [];
  release = [];
  version = [];
  machine = codes "amd64";
}

detect_bsd-level_example :
    key (detect_bsd (with_release bare_host freebsd (codes "14.1-RELEASE-p3")) debian)
    ≡ key (detect_bsd (with_release bare_host freebsd (codes "14.1-RELEASE")) debian)
detect_bsd-level_example =
    Versions.detect_bsd-level bare_host freebsd debian (codes "14.1") (codes "RELEASE-p3")
      (codes "RELEASE") (refl, (refl, (refl, (refl, tt)))) (λ h. cc h)

abbrev half_written : State
half_written = wrote (codes "osfp") (codes "os") (codes "fp") (create_atomic none)

half_written-Reached : Reached (create_atomic none) half_written
unfolding create_atomic
half_written-Reached =
    later begun (write (create_atomic none) (codes "osfp") (codes "os") (codes "fp") refl refl refl)

Reached-IsWhole_example : IsWhole none half_written
Reached-IsWhole_example = Whole.Reached-IsWhole none half_written half_written-Reached

abbrev all_well : Answers
all_well = record {
  part = [];
  flushes = true;
  syncs = true;
  closes = true;
  renames = true;
  removes = true;
  syncs_dir = true;
}

commit_complete_example :
    (commit all_well half_written).0.final ≡ some (commit all_well half_written).0.given
unfolding create_atomic commit
commit_complete_example =
    Whole.commit_complete none half_written all_well half_written-Reached refl refl

abbrev even_length : Bytes → Bool
even_length path = length path % 2 == 0

-- Paths of an even length are volatile.
abbrev report_options : Report.Options
report_options = record { color = false; volatile = some even_length }

abbrev change_of : Entry → Change
change_of e = record {
  op = op_changed_file;
  path = e.path;
  old = some e;
  new = some e;
  detail = [];
  summary = none;
}

change_all-picked_example :
    let t = change_all (map change_of olds) (new_text_reporter report_options) in
    (t.sections op_changed_file
      ≡ picked (goes_under report_options op_changed_file) (map change_of olds))
    × (t.volatile ≡ picked (is_noise report_options) (map change_of olds))
change_all-picked_example =
    Sections.change_all-picked report_options (map change_of olds) op_changed_file

compare_end-join_all_example :
    let j = (join_all no_ratio no_glob accept (map entry olds) show_all lives).0 in
    (exit_code (compare_end (total j.stats) (expected even_length j.emitted) true) ≡ exit_ok)
    ↔ All (IsNoise even_length) j.emitted
compare_end-join_all_example =
    Drift.compare_end-join_all no_ratio no_glob accept olds lives show_all even_length (λ c. refl)
      lives-IsSorted
