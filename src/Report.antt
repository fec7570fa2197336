-- ===== src/Report.antt =====
-- internal/report/text.go: the text report, which keeps the changes until its end. The destination
-- says how many bytes of a write it took and whether the call failed; the number of characters that
-- fmt counts in a path and the rounding of a size are parameters.
pub mod Sections
pub mod Header
pub mod Heading
pub mod Json
use osfp.Base.{
  ℕ, ◌+◌, ◌-◌, Bytes, codes, Bool, true, false, ◌&&◌, ◌||◌, List, [], ◌∷◌, ◌++◌, Option, none, some,
  ltb, leb, bytes_eq, if◌then◌else◌, length, take, replicate, pos,
}
use osfp.Diff.Op.{
  Op, op_none, op_added_dir, op_removed_dir, op_changed_dir, op_added, op_removed, op_changed_file,
  op_changed_meta, op_type_changed, op_retargeted, op_unreadable, all_ops, op_string, op_eq,
}
use osfp.Diff.Merge.{Change, DirSummary}
use osfp.Humanize
use osfp.Humanize.{count, plural}

-- An em dash with a space on either side, as UTF-8.
abbrev long_dash : Bytes
long_dash = b' ' ∷ 226 ∷ 128 ∷ 148 ∷ b' ' ∷ []

-- `strings.ToUpper(op.Description())`
unfoldable pub heading : Op → Bytes
heading op_added_dir = codes "ADDED DIRECTORIES"
heading op_removed_dir = codes "DELETED DIRECTORIES"
heading op_changed_dir = codes "MODIFIED DIRECTORIES"
heading op_added = codes "ADDED FILES"
heading op_removed = codes "DELETED FILES"
heading op_changed_file = codes "MODIFIED FILES" ++ long_dash ++ codes "CONTENT"
heading op_changed_meta = codes "MODIFIED FILES" ++ long_dash ++ codes "METADATA"
heading op_type_changed = codes "TYPE CHANGES"
heading op_retargeted = codes "RETARGETED SYMLINKS"
heading op_unreadable = codes "UNREADABLE"
heading op_none = codes "UNCHANGED"

abbrev pub volatile_heading : Bytes
volatile_heading = codes "EXPECTED NOISE" ++ long_dash ++ codes "VOLATILE DIRECTORIES"

-- The reporters of `New`
pub data Format : Type 0 where
  format_text format_json : Format

-- `New`, where `none` is the error
unfoldable pub format_of : Bytes → Option Format
format_of s =
    if bytes_eq s (codes "text") || bytes_eq s []
    then some format_text
    else if bytes_eq s (codes "json") || bytes_eq s (codes "jsonl")
    then some format_json
    else none

-- `Options`
pub record Options : Type 0 where
  pub color : Bool
  pub volatile : Option (Bytes → Bool)

-- `textReporter`, with what the destination holds
pub record TextReporter : Type 0 where
  pub out : Bytes
  pub opts : Options
  pub sections : Op → List Change
  pub volatile : List Change
  pub err : Option Bytes

-- `newTextReporter`
unfoldable pub new_text_reporter : Options → TextReporter
new_text_reporter opts = record {
  out = [];
  opts = opts;
  sections = λ op. [];
  volatile = [];
  err = none;
}

abbrev pub is_volatile : Options → Bytes → Bool
is_volatile opts path = elim opts.volatile [ none ↦ false | some f ↦ f path ]

-- `t.sections[c.Op] = append(…)`
abbrev pub file_under : Change → (Op → List Change) → Op → List Change
file_under c sections op = if op_eq op c.op then sections op ++ c ∷ [] else sections op

-- `Change`
unfoldable pub change : Change → TextReporter → TextReporter
change c t =
    if is_volatile t.opts c.path
    then record t { volatile = t.volatile ++ c ∷ [] }
    else record t { sections = file_under c t.sections }

-- A comparison hands its changes over one by one.
unfoldable pub change_all : List Change → TextReporter → TextReporter
change_all [] t = t
change_all (c ∷ cs) t = change_all cs (change c t)

abbrev pub ansi : Bytes → Bytes
ansi code = 27 ∷ b'[' ∷ (code ++ codes "m")

unfoldable pub color_of : Op → Bytes
color_of op_added_dir = ansi (codes "32")
color_of op_added = ansi (codes "32")
color_of op_removed_dir = ansi (codes "31")
color_of op_removed = ansi (codes "31")
color_of op_unreadable = ansi (codes "35")
color_of _ = ansi (codes "33")

-- `colorize`
unfoldable pub colorize : Options → Op → Bytes
colorize opts op =
    if opts.color then color_of op ++ op_string op ++ ansi (codes "0") else op_string op

abbrev pub path_column : ℕ
path_column = 38

-- The loop of `section` over the widths.
unfoldable pub width_of : ℕ → List Change → ℕ
width_of width [] = width
width_of width (c ∷ cs) =
    let n = length c.path in width_of (if ltb width n && leb n 60 then n else width) cs

module _ (ratio : ℕ → ℕ → Bytes) (characters : Bytes → ℕ)
    (sink : Bytes → Bytes → ℕ × Option Bytes) where
  abbrev summary_text : DirSummary → Bytes
  summary_text s =
      codes "("
      ++ count (pos s.files)
      ++ codes " "
      ++ plural (pos s.files) (codes "file") (codes "files")
      ++ codes ", "
      ++ count (pos s.dirs)
      ++ codes " "
      ++ plural (pos s.dirs) (codes "directory") (codes "directories")
      ++ codes ", "
      ++ Humanize.bytes ratio s.bytes
      ++ codes ")"

  -- `detailOf`
  unfoldable pub detail_of : Change → Bytes
  detail_of c = elim c.summary [ none ↦ c.detail | some s ↦ summary_text s ]

  abbrev taken : Bytes → ℕ × Option Bytes → TextReporter → TextReporter
  taken text (n, e) t = record t { out = t.out ++ take n text; err = e }

  abbrev print_unless : Option Bytes → Bytes → TextReporter → TextReporter
  print_unless (some e) text t = t
  print_unless none text t = taken text (sink t.out text) t

  -- `printf`, on the formatted text
  unfoldable pub print : Bytes → TextReporter → TextReporter
  print text t = print_unless t.err text t

  abbrev line_of : Options → ℕ → Change → Bytes
  line_of opts width c =
      let detail = detail_of c in
      let start = codes "  " ++ colorize opts c.op ++ codes " " ++ c.path in
      if bytes_eq detail []
      then start ++ b'\n' ∷ []
      else start ++ replicate (width - characters c.path) b' ' ++ codes "  " ++ detail ++ b'\n' ∷ []

  unfoldable pub print_changes : ℕ → List Change → TextReporter → TextReporter
  print_changes width [] t = t
  print_changes width (c ∷ cs) t = print_changes width cs (print (line_of t.opts width c) t)

  -- `section`
  unfoldable pub section : Bytes → List Change → TextReporter → TextReporter
  section title [] t = t
  section title (c ∷ cs) t = print_changes (width_of path_column (c ∷ cs)) (c ∷ cs) (
      print
        (b'\n' ∷ (title ++ codes " (" ++ count (pos (length (c ∷ cs))) ++ codes ")" ++ b'\n' ∷ []))
        t)

  unfoldable pub print_sections : List Op → TextReporter → TextReporter
  print_sections [] t = t
  print_sections (op ∷ ops) t = print_sections ops (section (heading op) (t.sections op) t)

  -- `Close`, in front of the summary
  unfoldable pub print_report : TextReporter → TextReporter
  print_report t =
      let printed = print_sections all_ops t in section volatile_heading printed.volatile printed
