-- ===== src/Report/Heading.antt =====
-- internal/report/text.go: the heading of the text report, its summary and the mount points that a scan
-- did not cross. The formats of a time and of a duration are parameters.
pub mod Mounts
use osfp.Base.{
  ℕ, ◌+◌, Bytes, codes, Bool, true, false, not, List, [], ◌∷◌, ◌++◌, map, Option, ltb, ◌==◌, ℤ, pos,
  bytes_eq, if◌then◌else◌, length, format_uint,
}
use osfp.Text.{join}
use osfp.Humanize.{count, plural}
use osfp.Diff.Op.{
  Op, op_none, op_added_dir, op_removed_dir, op_changed_dir, op_added, op_removed, op_changed_file,
  op_changed_meta, op_type_changed, op_retargeted, op_unreadable, op_string,
}
use osfp.Diff.Merge
use osfp.Scan.FsType.{FsKind, fs_local, fs_pseudo, fs_network, fs_unknown, kind_string}
use osfp.Scan.Settings
use osfp.Scan.Walk
use osfp.Scan.Settings.{SkippedMount}
use osfp.Report.{TextReporter, print, print_report}
use osfp.Report.Header.{Header, Summary}

-- A middle dot with a space on either side, as UTF-8.
abbrev pub spaced_dot : Bytes
spaced_dot = b' ' ∷ 194 ∷ 183 ∷ b' ' ∷ []

-- A vertical bar of a box with a space on either side, as UTF-8.
abbrev bar : Bytes
bar = b' ' ∷ 226 ∷ 148 ∷ 130 ∷ b' ' ∷ []

abbrev dash : Bytes
dash = b' ' ∷ 226 ∷ 128 ∷ 148 ∷ b' ' ∷ []

abbrev pub counted : ℤ → Bytes → Bytes → Bytes
counted n one many = count n ++ codes " " ++ plural n one many

abbrev labelled : Bytes → Bytes → Bytes
labelled label s = if bytes_eq s [] then [] else spaced_dot ++ label ++ s

-- The lines of the heading, in the order in which they are printed.
abbrev title_line : Header → Bytes
title_line h = codes "osfp " ++ h.tool_version ++ dash ++ codes "filesystem drift report\n"

abbrev scope_line : Header → Bytes
scope_line h =
    let n = length h.baseline.exclusions in
    codes "Scope    : "
    ++ h.baseline.scan.root
    ++ spaced_dot
    ++ format_uint 10 n
    ++ codes " "
    ++ plural (pos n) (codes "exclusion") (codes "exclusions")
    ++ labelled (codes "mounts=") h.baseline.scan.mounts
    ++ labelled (codes "new-dir-mode=") h.new_dir_mode
    ++ codes "\n"

abbrev privilege_lines : Header → List Bytes
privilege_lines h =
    if h.privileged
    then []
    else codes "Warning  : UNPRIVILEGED scan; parts of the filesystem could not be read\n" ∷ []

abbrev extra_lines : List Bytes → List Bytes
extra_lines [] = []
extra_lines (x ∷ xs) =
    (codes "Warning  : "
      ++ format_uint 10 (length (x ∷ xs))
      ++ codes " "
      ++ plural (pos (length (x ∷ xs))) (codes "exclusion was") (codes "exclusions were")
      ++ codes " added on the command line ("
      ++ join (codes " ") (x ∷ xs)
      ++ codes "); covered paths are reported as deleted\n")
    ∷ []

abbrev rule_lines : List Bytes → List Bytes
rule_lines [] = []
rule_lines (x ∷ xs) =
    (codes "Ignoring : "
      ++ format_uint 10 (length (x ∷ xs))
      ++ codes " "
      ++ plural (pos (length (x ∷ xs))) (codes "rule") (codes "rules")
      ++ codes "\n")
    ∷ []

-- `mountNotes`: the kinds in the order of their coming, and the labels of each.
pub record Groups : Type 0 where
  pub by_kind : FsKind → List Bytes
  pub order : List FsKind

abbrev pub label_of : SkippedMount → Bytes
label_of m =
    if bytes_eq m.fs_type [] then m.path else m.path ++ codes " (" ++ m.fs_type ++ codes ")"

abbrev pub kind_eq : FsKind → FsKind → Bool
kind_eq FsKind.fs_local FsKind.fs_local = true
kind_eq FsKind.fs_pseudo FsKind.fs_pseudo = true
kind_eq FsKind.fs_network FsKind.fs_network = true
kind_eq FsKind.fs_unknown FsKind.fs_unknown = true
kind_eq _ _ = false

abbrev pub snoc_new : List Bytes → FsKind → List FsKind → List FsKind
snoc_new [] k order = order ++ k ∷ []
snoc_new (l ∷ ls) k order = order

abbrev pub add_mount : SkippedMount → Groups → Groups
add_mount m g = record {
  by_kind = λ k. if kind_eq k m.kind then g.by_kind k ++ label_of m ∷ [] else g.by_kind k;
  order = snoc_new (g.by_kind m.kind) m.kind g.order;
}

unfoldable pub group_mounts : List SkippedMount → Groups → Groups
group_mounts [] g = g
group_mounts (m ∷ ms) g = group_mounts ms (add_mount m g)

abbrev pub no_groups : Groups
no_groups = record { by_kind = λ k. []; order = [] }

abbrev note : Groups → FsKind → Bytes
note g k =
    let n = length (g.by_kind k) in
    count (pos n)
    ++ codes " "
    ++ kind_string k
    ++ (if n == 1 then [] else codes "s")
    ++ codes " not crossed: "
    ++ join (codes " ") (g.by_kind k)

unfoldable pub mount_notes : List SkippedMount → List Bytes
mount_notes ms = let g = group_mounts ms no_groups in map (note g) g.order

abbrev of_op : Summary → Op → Bytes
of_op s op = op_string op ++ codes " " ++ count (pos (s.diff.counts op))

-- `group` of `summary`
abbrev group_of : Summary → List Op → Bytes
group_of s ops = join (codes "  ") (map (of_op s) ops)

abbrev note_if : ℕ → Bytes → List Bytes
note_if n text = if ltb 0 n then text ∷ [] else []

module _ (stamp : ℤ → Bytes) (duration : ℤ → Bytes) (ratio : ℕ → ℕ → Bytes) (characters : Bytes → ℕ)
    (sink : Bytes → Bytes → ℕ × Option Bytes) where
  abbrev print_all : List Bytes → TextReporter → TextReporter
  print_all [] t = t
  print_all (l ∷ ls) t = print_all ls (print ratio characters sink l t)

  abbrev baseline_line : Header → Bytes
  baseline_line h =
      codes "Baseline : "
      ++ h.baseline_path
      ++ codes "   (created "
      ++ stamp h.baseline.created_at
      ++ codes ", "
      ++ counted h.baseline.entries (codes "entry") (codes "entries")
      ++ codes ")\n"

  abbrev system_line : Header → Bytes
  system_line h =
      codes "System   : "
      ++ h.system_key
      ++ (if bytes_eq h.system_name [] then [] else codes "  " ++ h.system_name)
      ++ codes "   (scanned "
      ++ stamp h.scanned_at
      ++ codes ")\n"

  -- `Header`
  unfoldable pub print_header : Header → TextReporter → TextReporter
  print_header h = print_all (
      (title_line h ∷ baseline_line h ∷ system_line h ∷ scope_line h ∷ [])
      ++ privilege_lines h
      ++ extra_lines h.extra_exclusions
      ++ rule_lines h.ignore_rules)

  abbrev notes : Summary → List Bytes
  notes s =
      note_if s.expected (count (pos s.expected) ++ codes " of them expected noise")
      ++ note_if s.diff.ignored (
          counted (pos s.diff.ignored) (codes "difference") (codes "differences")
          ++ codes " hidden by ignore rules")
      ++ note_if s.diff.hidden (count (pos s.diff.hidden) ++ codes " hidden by --show")
      ++ (counted (pos (Settings.total s.scan)) (codes "entry") (codes "entries")
          ++ codes " scanned")
        ∷ (codes "elapsed " ++ duration s.elapsed)
        ∷ []

  abbrev totals_line : Summary → Bytes
  totals_line s =
      codes "\nSUMMARY  "
      ++ group_of s (op_added_dir ∷ op_removed_dir ∷ op_changed_dir ∷ [])
      ++ bar
      ++ group_of s (op_added ∷ op_removed ∷ op_changed_file ∷ op_changed_meta ∷ [])
      ++ bar
      ++ group_of s (op_type_changed ∷ op_retargeted ∷ op_unreadable ∷ [])
      ++ codes "\n"

  abbrev indented : Bytes → Bytes
  indented line = codes "         " ++ line ++ codes "\n"

  -- `summary`
  unfoldable pub print_summary : Summary → TextReporter → TextReporter
  print_summary s = print_all (
      totals_line s
      ∷ indented (join (codes " " ++ spaced_dot ++ codes " ") (notes s))
      ∷ map indented (mount_notes s.skipped))

  -- `Close`
  unfoldable pub print_end : Summary → TextReporter → TextReporter
  print_end s t = print_summary s (print_report ratio characters sink t)
