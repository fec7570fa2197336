-- ===== src/Tests/Reports.antt =====
-- The theorems on reports and on the progress of a scan, on small examples.
use osfp.Base.{Bytes, codes, true, false, List, [], ◌∷◌, ◌++◌, none, some, ◌≡◌, refl, arith, ℤ, pos}
use osfp.Entry.{type_of, unix_mode}
use osfp.Diff.Op.{op_added}
use osfp.Diff.Merge.{Change}
use osfp.Scan.FsType.{fs_network, fs_pseudo}
use osfp.Scan.Tree.{nil, there}
use osfp.Scan.Settings
use osfp.Scan.Walk
use osfp.Scan.Settings.{SkippedMount, mount_local}
use osfp.Exclude.Defaults.{volatile_of}
use osfp.Command.Compare.Run.{◌>>=◌, ◌>>◌}
use osfp.Command.Exit.{require_root}
use osfp.Exclude
use osfp.Filepath
use osfp.Canon.{compare_key}
use osfp.Base.Int.{to_u64}
use osfp.Store.Writer as W
use osfp.Store.Encode.{append_entry, entry_bytes, entry_flags, flags_of, shared_prefix}
use osfp.Store.Varint.{put_groups, put_uvarint, zigzag}
use osfp.Text.{equal_fold, join}
use osfp.OsDetect.Key.{
  add_part, key, normalize_component, parts_of, scan_bytes, trim_end, trim_start,
}
use osfp.Scan.Walk.Totals.{no_stats}
use osfp.Base.{add_i64}
use osfp.Store.Reader.{read_block}
use osfp.Store.Decode.{reset}
use osfp.Store.Cursor.{Cursor, cursor_at, iterate}
use osfp.Store.Cursor.Ends
use osfp.Store.Cursor.Ends.{Iterated}
use osfp.Report.Header.{Header, Summary}
use osfp.Report.Json
use osfp.Report.Json.{
  Record, header_line, summary_line, header_record, stats_record, json_report, hex,
}
use osfp.Report.Json.Latched
use osfp.Report.Json.Latched.{change_lines}
use osfp.Command.Baseline.{Flags, System, complete, run_baseline, identify, record_to}
use osfp.Command.Baseline.Spares
use osfp.Command.Baseline.Spares.{Ends}
use osfp.Store.Meta.{Meta}
use osfp.Tests.{disk, plain, no_digest, no_glob, usr_ls, dir, tree, debian}

abbrev mounts : List SkippedMount
mounts =
    record { path = codes "/net"; fs_type = codes "nfs"; kind = fs_network }
    ∷ record { path = codes "/proc"; fs_type = codes "proc"; kind = fs_pseudo }
    ∷ record { path = codes "/home"; fs_type = []; kind = fs_network }
    ∷ []

-- A record as one letter and a newline.
abbrev letter : Record → Bytes
letter r = codes "r\n"

abbrev stamp : ℤ → Bytes
stamp t = codes "now"

abbrev meta : Meta
meta = record {
  tool = codes "osfp";
  tool_version = codes "devel";
  created_at = pos 0;
  key = codes "linux-debian-12-amd64";
  system = debian;
  privileged = true;
  euid = 0;
  scan = record {
    root = codes "/";
    mounts = codes "local";
    max_depth = 64;
    max_file_size = 0;
    jobs = 2;
  };
  exclusions = [];
  entries = pos 0;
  errors = pos 0;
  blocks = pos 0;
}

abbrev heading : Header
heading = record {
  tool = codes "osfp";
  tool_version = codes "devel";
  baseline_path = codes "base.osfp";
  baseline = meta;
  system_key = codes "linux-debian-12-amd64";
  system_name = [];
  scanned_at = pos 0;
  privileged = true;
  extra_exclusions = [];
  ignore_rules = [];
  new_dir_mode = codes "summary";
}

abbrev added : Change
added = record {
  op = op_added;
  path = codes "/new";
  old = none;
  new = some usr_ls;
  detail = [];
  summary = none;
}

abbrev summary : Summary
summary = record {
  diff = record { counts = λ op. 0; ignored = 0; hidden = 0; compared = 0 };
  scan = no_stats;
  skipped = mounts;
  elapsed = pos 0;
  expected = 0;
}

json_fine : (json_report stamp letter disk heading (added ∷ []) summary).err ≡ none
unfolding json_report Json.put_header Json.put_changes Json.put_change Json.put_summary
    Json.write_record Json.new_json_reporter
json_fine = refl

json_report-lines_example :
    (json_report stamp letter disk heading (added ∷ []) summary).out
    ≡ letter (header_line (header_record heading))
      ++ (change_lines stamp letter disk (λ f p h. refl) (added ∷ [])
          ++ letter (summary_line (stats_record summary)))
json_report-lines_example =
    Latched.json_report-lines stamp letter disk (λ f p h. refl) heading (added ∷ []) summary
      json_fine

-- A cursor at bytes that are no entry, before a block that is not in the file.
abbrev stray : Cursor
stray =
    cursor_at (record { first_key = codes "/"; offset = pos 9; size = pos 9 } ∷ [])
      (reset (codes "osfp"))

stray_light : Ends.weight some [] stray ≡ 4
unfolding reset read_block add_i64
stray_light = refl

iterate-Iterated_example : Iterated some [] stray (iterate some [] 5 stray)
iterate-Iterated_example = Ends.iterate-Iterated some [] stray 5 (omega (arith, stray_light))

abbrev flags : Flags
flags = record {
  out = [];
  exclude = [];
  exclude_from = [];
  no_defaults = true;
  root = codes "/";
  jobs = 2;
  mounts = codes "local";
  max_file_size = 0;
  max_depth = 64;
  allow_non_root = false;
  os_id = [];
  force = false;
  positional = 0;
}

abbrev system : System
system = record {
  euid = 0;
  info = debian;
  detected = true;
  executable = some (codes "/usr/bin/osfp");
  resolve = λ path. none;
  exists = λ path. false;
  create = λ path. some [];
  commits = λ path. complete;
  content = λ path. none;
  at = λ path. there tree;
  now = pos 0;
  version = codes "devel";
  cpus = 2;
}

run_baseline-Ends_example :
    Ends no_glob disk plain no_digest
      (λ m. codes "{}")
      flags
      system
      (run_baseline no_glob disk plain no_digest (λ m. codes "{}") flags system)
run_baseline-Ends_example =
    Spares.run_baseline-Ends no_glob disk plain no_digest (λ m. codes "{}") flags system

abbrev walk_options : Settings.Options
walk_options = record {
  exclude = some (record {
    root = codes "/";
    prefixes = [];
    path_globs = [];
    name_globs = [];
    volatile = volatile_of (codes "linux");
    patterns = [];
    dropped = [];
  });
  mounts = mount_local;
  max_depth = 64;
  jobs = 2;
  max_file_size = 0;
  no_hash = false;
  descend = none;
}

-- The fingerprint of an empty directory.
baseline_taken :
    (run_baseline no_glob disk plain no_digest
      (λ m. codes "{}")
      flags
      (record system { at = λ path. there (dir nil) })).0
    ≡ none
unfolding osfp.Exclude.self_paths run_baseline ◌>>◌ ◌>>=◌ Settings.parse_mount_policy require_root
    identify record_to Exclude.new Walk.walk_from type_of W.new_writer W.write W.add_all Walk.walk
    Walk.visit Walk.visit_listing Walk.visit_children Walk.visit_found Walk.fill Walk.may_descend
    Settings.set_defaults to_u64 compare_key unix_mode volatile_of Exclude.add Exclude.add_auto
    Exclude.add_one Filepath.clean Filepath.clean_all Filepath.join_path add_part key
    normalize_component parts_of scan_bytes trim_end trim_start Walk.acquire Walk.emit_error
    Walk.hash_entry append_entry entry_bytes entry_flags flags_of shared_prefix put_groups
    put_uvarint zigzag W.add W.close W.flush_block W.index_bytes W.put_all W.put_le W.write_index
    W.write_packed W.write_raw equal_fold join
baseline_taken = refl
