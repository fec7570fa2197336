-- ===== src/Tests.antt =====
-- Concrete runs: each applies a theorem to an input on which its hypotheses hold.
mod Compare
mod Reports
mod Scans
mod Stores
mod Systems
use Prim.Native.Nat.{Ordering}
use osfp.Base.{
  All, ℕ, ◌+◌, ◌%◌, ◌==◌, ◌^◌, Bytes, codes, Bool, true, false, List, [], ◌∷◌, ◌++◌, Option, none,
  some, pos, negsuc, refl, ◌≡◌, ◌↔◌, inr, arith, ◌≢◌, ◌⊎◌, ◌≤◌, replicate, value, map, length,
  format_int,
}
use osfp.Base.Int.{to_u64}
use osfp.Text.{trim_space, equal_fold, to_lower, split_on, join}
use osfp.Filepath
use osfp.Canon.{compare_key, slash}
use osfp.Canon.Order
use osfp.Canon.Order.{◌≺◌, flip}
use osfp.Canon.Components
use osfp.Canon.Components.{spell, compare_walk, compare_name}
use osfp.Entry.{Entry, type_file}
use osfp.Entry.Sorted.{IsSorted}
use osfp.Exclude
use osfp.Exclude.Under
use osfp.Exclude.Under.{Covers}
use osfp.Exclude.Root
use osfp.Humanize
use osfp.Humanize.Digits
use osfp.Humanize.Digits.{ungroup}
use osfp.Diff.Op.{all_ops, op_none, op_changed_file, op_string, parse_op, find_op}
use osfp.Diff.Op.Codes
use osfp.Diff.Classify.{classify}
use osfp.Diff.Classify.Meaning
use osfp.Diff.Classify.Meaning.{Unchanged}
use osfp.Diff.Merge.{Options, Change, join_all, entry, total, out_of_order}
use osfp.Diff.Merge.Refine.{classified}
use osfp.Diff.Merge.Pointwise.{find, changes_at, diff_at, delivered}
use osfp.Diff.Merge.Join
use osfp.Diff.Merge.Silent
use osfp.Diff.Merge.Silent.{Agree}
use osfp.Diff.Merge.Misordered
use osfp.Store.Writer as W
use osfp.Store.Writer.{◌and_then◌, put_le}
use osfp.Store.Writer.Offsets
use osfp.Store.Writer.Offsets.{Sound}
use osfp.Store.Writer.Sealed
use osfp.Store.Writer.Sizes
use osfp.Store.Writer.Closing.{write_all, index_section}
use osfp.Store.Container
use osfp.Store.Decode.{reset}
use osfp.Store.Reader.{BlockRef, ok}
use osfp.Store.Reader.Blocks.{packed, Holds-last, read_block-packed}
use osfp.Store.Cursor.{cursor_at, iterate}
use osfp.Store.Cursor.Iterate
use osfp.Store.Cursor.Iterate.{Fits-start, Stored, reads}
use osfp.Store.Container.Found.{ReadsBack}
use osfp.Store.Reader.{new_reader, err, panic}
use osfp.Store.Reader.Unpanicking
use osfp.Store.Encode.{entry_bytes}
use osfp.OsDetect.Key.{
  Info, key, normalize_key, is_numeric_version, parts_of, add_part, normalize_component, trim_end,
  trim_start, scan_bytes,
}
use osfp.OsDetect.Spelling.{IsKey}
use osfp.OsDetect.Keys
use osfp.Command.Atomic.{State, Answers, create_atomic, commit, wrote, Reached, begun, later, write}
use osfp.Command.Whole
use osfp.Command.Exit.{exit_code, exit_ok, compare_end, expected}
use osfp.Command.Drift
use osfp.Command.Drift.{IsNoise}
use osfp.Report
use osfp.Report.{new_text_reporter, change_all}
use osfp.Report.Sections
use osfp.Report.Sections.{picked, goes_under, is_noise}
use osfp.Command.Whole.{IsWhole}
use osfp.OsDetect.Folding
use osfp.OsDetect.Release.{unquote}
use osfp.OsDetect.Release.Quote
use osfp.OsDetect.Release.Quote.{escape}
use osfp.OsDetect.Host.{Env, Utsname}
use osfp.OsDetect.Host.Linux.{kernel_series}
use osfp.OsDetect.Host.Bsd.{bsd_version_from_line, detect_bsd}
use osfp.OsDetect.Versions
use osfp.OsDetect.Versions.{IsSeries, with_release}
use osfp.Store.Writer.Succeeds
use osfp.Store.Writer.Sealed.{IsSealed}
use osfp.Store.RoundTrip
use osfp.Store.RoundTrip.{decoder, decode_block, block_bytes}
use osfp.Store.RoundTrip.Steps.{IsStorable}
use osfp.Store.Decode.{next, got}
use osfp.Store.Encode.{entry_bytes, append_entry, shared_prefix}
use osfp.Store.Varint.{put_uvarint, zigzag}
use osfp.Scan.Tree.{Stat, Node, node, answer, listed, nil, child, gone, there, Children}
use osfp.Scan.Settings
use osfp.Scan.Walk
use osfp.Scan.Settings.{mount_local}
use osfp.Scan.Walk.Order as WalkOrder
use osfp.Scan.Walk.Totals
use osfp.Scan.Walk.Totals.{count_all, failures}
use osfp.Scan.Walk.Compared
use osfp.Scan.Walk.Kept
use osfp.Scan.Walk.Names.{IsListed, IsListedListing, IsListedChildren, IsListedFound}

-- No pattern matches, and no ratio is printed.
abbrev no_glob : Bytes → Bytes → Option Bool
no_glob pattern name = some false

abbrev no_ratio : ℕ → ℕ → Bytes
no_ratio a b = []

abbrev accept : Change → Option Bytes
accept c = none

abbrev file : Bytes → ℕ → Entry
file path size = record {
  path = path;
  type = type_file;
  mode = 0o644;
  uid = 0;
  gid = 0;
  size = pos size;
  mtime = pos 1700000000;
  hash = replicate 32 size;
  hashed = true;
  partial = false;
  link = [];
  dev = 0;
  ino = 0;
  nlink = 0;
  err = [];
}

abbrev usr_ls : Entry
usr_ls = file (codes "/usr/ls") 7

abbrev usr_rm : Entry
usr_rm = file (codes "/usr/rm") 9

abbrev usr_rm_new : Entry
usr_rm_new = file (codes "/usr/rm") 11

abbrev olds : List Entry
olds = usr_ls ∷ usr_rm ∷ []

abbrev lives : List Entry
lives = usr_rm_new ∷ []

abbrev show_all : Options
show_all = record { show = none; ignore = record { rules = [] }; summarize = none }

olds-IsSorted : IsSorted olds
unfolding compare_key
olds-IsSorted = ((refl, tt), (tt, tt))

lives-IsSorted : IsSorted lives
lives-IsSorted = (tt, tt)

join_all-pointwise_example :
    let out = join_all no_ratio no_glob accept (map entry olds) show_all lives in
    (out.1 ≡ none)
    × (changes_at usr_rm.path out.0.emitted
        ≡ delivered no_glob show_all
            (diff_at no_ratio (find usr_rm.path olds) (find usr_rm.path lives)))
join_all-pointwise_example =
    Join.join_all-pointwise no_ratio no_glob accept olds lives show_all usr_rm.path (λ c. refl)
      olds-IsSorted lives-IsSorted

join_all-conserves_example :
    let out = join_all no_ratio no_glob accept (map entry olds) show_all lives in
    (total out.0.stats + out.0.stats.ignored + out.0.stats.hidden
      ≡ length (classified no_ratio olds lives))
    × (length out.0.emitted ≡ total out.0.stats)
join_all-conserves_example =
    Join.join_all-conserves no_ratio no_glob accept olds lives show_all (λ c. refl) lives-IsSorted

classify-none_iff_example :
    ((classify no_ratio usr_rm usr_rm_new).0 ≡ op_none) ↔ Unchanged usr_rm usr_rm_new
classify-none_iff_example = Meaning.classify-none_iff no_ratio usr_rm usr_rm_new

classify-mtime_example :
    classify no_ratio (record usr_rm { mtime = pos 5 }) (record usr_rm_new { mtime = negsuc 3 })
    ≡ classify no_ratio usr_rm usr_rm_new
classify-mtime_example =
    Meaning.classify-mtime no_ratio usr_rm usr_rm_new (pos 5) (negsuc 3) (inr refl)

compare_key-spell_example :
    compare_key (spell (codes "etc" ∷ codes "ssl" ∷ [])) (spell (codes "etc-old" ∷ []))
    ≡ compare_walk (codes "etc" ∷ codes "ssl" ∷ []) (codes "etc-old" ∷ [])
compare_key-spell_example =
    Components.compare_key-spell (codes "etc" ∷ codes "ssl" ∷ []) (codes "etc-old" ∷ [])
      (
        (omega arith, (omega arith, (omega arith, tt))),
        ((omega arith, (omega arith, (omega arith, tt))), tt),
      )
      (
        (
          omega arith,
          (
            omega arith,
            (omega arith, (omega arith, (omega arith, (omega arith, (omega arith, tt))))),
          ),
        ),
        tt,
      )

under_iff_example :
    (Exclude.under (codes "/var/log") (codes "/var") ≡ true)
    ↔ Covers (codes "/var") (codes "/var/log")
under_iff_example = Under.under_iff (codes "/var/log") (codes "/var") (λ h. cc)

-- A scan of /var/tmp, which a built-in exclusion covers.
abbrev var_tmp : Exclude.Options
var_tmp = record {
  goos = codes "linux";
  root = codes "/tmp";
  no_defaults = true;
  patterns = codes "/tmp" ∷ codes "*.o" ∷ codes "/mnt" ∷ [];
  auto = [];
  no_volatiles = true;
}

abbrev var_tmp_set : Exclude.Set
var_tmp_set = record {
  root = codes "/tmp";
  prefixes = codes "/mnt" ∷ [];
  path_globs = [];
  name_globs = codes "*.o" ∷ [];
  volatile = [];
  patterns = codes "*.o" ∷ codes "/mnt" ∷ [];
  dropped = codes "/tmp" ∷ [];
}

new-spares_root_example :
    (var_tmp_set.root ≡ Filepath.clean var_tmp.root)
    × (Exclude.under_any (Filepath.clean var_tmp.root) var_tmp_set.prefixes ≡ false)
unfolding Exclude.new
new-spares_root_example = Root.new-spares_root no_glob var_tmp var_tmp_set (λ h. cc) refl

abbrev stat : ℕ → Stat
stat mode = record {
  mode = mode;
  size = pos 3;
  mtime = pos 0;
  uid = 0;
  gid = 0;
  dev = 1;
  ino = 0;
  nlink = 1;
}

abbrev leaf : Node
leaf = node (stat 0o644) (answer []) (answer (replicate 32 1)) (codes "ext4", true) (listed nil)

abbrev pub dir : Children → Node
dir cs = node (stat (2 ^ 31 + 0o755)) (answer []) (answer []) (codes "ext4", true) (listed cs)

-- `b/c` stands before `b-d`, and `b-d` is gone when it is stat'ed.
abbrev tree : Node
tree = dir (
    child (codes "b") (there (dir (child (codes "c") (there leaf) nil)))
      (child (codes "b-d") (gone (codes "gone")) nil))

abbrev scan_options : Settings.Options
scan_options = record {
  exclude = none;
  mounts = mount_local;
  max_depth = 64;
  jobs = 2;
  max_file_size = 0;
  no_hash = false;
  descend = none;
}

tree-IsListed : IsListed tree
unfolding IsListed IsListedListing IsListedChildren IsListedFound compare_name
tree-IsListed = (
  (omega arith, tt),
  (λ h. cc),
  (refl, tt),
  ((omega arith, tt), (λ h. cc), tt, tt, tt),
  ((omega arith, (omega arith, (omega arith, tt))), (λ h. cc), tt, tt, tt),
)

walk-IsSorted_example : IsSorted (Walk.walk no_glob scan_options (slash ∷ []) tree).emitted
walk-IsSorted_example =
    WalkOrder.walk-IsSorted no_glob scan_options (slash ∷ []) tree refl tree-IsListed

join_all-silent_iff_example :
    let s = (join_all no_ratio no_glob accept (map entry olds) show_all lives).0.stats in
    (total s + s.ignored + s.hidden ≡ 0) ↔ Agree olds lives
join_all-silent_iff_example =
    Silent.join_all-silent_iff no_ratio no_glob accept olds lives show_all (λ c. refl)
      lives-IsSorted

-- The scan gives /usr/rm and then /usr/ls.
join_all-out_of_order_example :
    (join_all no_ratio no_glob accept (map entry olds) show_all (usr_rm ∷ usr_ls ∷ [])).1
    ≡ some out_of_order
unfolding compare_key
join_all-out_of_order_example =
    Misordered.join_all-out_of_order no_ratio no_glob accept olds [] [] usr_rm usr_ls show_all
      (λ c. refl) (tt, tt) (λ h. cc)

total-count_all_example :
    (Settings.total (count_all olds) ≡ length olds) × ((count_all olds).errors ≡ failures olds)
total-count_all_example = Totals.total-count_all olds

-- A file that takes every write.
abbrev disk : Bytes → Bytes → ℕ × Option Bytes
disk held p = (length p, none)

abbrev plain : Bytes → Bytes
plain raw = raw

abbrev no_digest : Bytes → Bytes
no_digest raw = replicate 32 0

-- The set excludes /mnt.
abbrev excluding : Settings.Options
excluding = record scan_options { exclude = some var_tmp_set }

abbrev tree_mnt : Node
tree_mnt = dir (child (codes "b") (there leaf) (child (codes "mnt") (there tree) nil))

walk-Kept_example :
    All
      (λ (e : Entry). Kept.Kept no_glob excluding (slash ∷ []) e.path)
      (Walk.walk no_glob excluding (slash ∷ []) tree_mnt).emitted
walk-Kept_example = Kept.walk-Kept no_glob excluding (slash ∷ []) tree_mnt

abbrev any_meta : Bytes → Bool
any_meta p = true

abbrev written : W.Writer
written = (write_all disk plain no_digest (codes "{}") olds).0

abbrev debian : Info
debian = record {
  os = codes "linux";
  distro = codes "Debian";
  version = codes "12. rc";
  arch = codes "amd64";
  kernel = codes "6.1.0-18-amd64";
  pretty = [];
  hostname = [];
  source = [];
}
