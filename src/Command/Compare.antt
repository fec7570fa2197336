-- ===== src/Command/Compare.antt =====
-- cmd/osfp/compare.go: a scan compared with a fingerprint.
pub mod Pruned
pub mod Run
pub mod Recorded
pub mod Unchanged
pub mod Checks
pub mod Checked
use osfp.Base.{
  ℕ, zero, suc, ◌+◌, Bytes, codes, Bool, true, false, not, ◌&&◌, ◌||◌, List, [], ◌∷◌, Option, none,
  some, ◌==◌, bytes_eq, if◌then◌else◌, pos, add_i64, length,
}
use osfp.Entry.{Entry, type_dir, type_file, is_dir}
use osfp.Diff.Merge.{Change, DirSummary, Pull, entry, broken, Outcome, join_all}
use osfp.Diff.Merge
use osfp.Scan.Tree.{Node, Found}
use osfp.Scan.Walk.{Walker, walk_from, walk}
use osfp.Scan.Settings.{Options}
use osfp.Store.Reader.{Reader, ReadError, Result, ok, err, ◌>>=◌, ◌>>◌, new_reader}
use osfp.Store.Cursor.{Cursor, Step, done, failed, cursor_next, iterate, start, verify}
use osfp.Store.Cursor

-- `newDirMode`
pub data NewDirMode : Type 0 where
  new_dir_summary new_dir_deep new_dir_skip : NewDirMode

unfoldable pub mode_string : NewDirMode → Bytes
mode_string new_dir_summary = codes "summary"
mode_string new_dir_deep = codes "deep"
mode_string new_dir_skip = codes "skip"

-- The `switch` of `runCompare` over --new-dir-mode
unfoldable pub parse_mode : Bytes → Option NewDirMode
unfolding mode_string
parse_mode s =
    if bytes_eq s (mode_string new_dir_summary)
    then some new_dir_summary
    else if bytes_eq s (mode_string new_dir_deep)
    then some new_dir_deep
    else if bytes_eq s (mode_string new_dir_skip)
    then some new_dir_skip
    else none

-- `loadDirs`, on the entries that `Iterate` hands to it; the keys of the map are a list.
unfoldable pub load_dirs : List Entry → List Bytes
load_dirs [] = []
load_dirs (e ∷ es) = let rest = load_dirs es in if is_dir e then e.path ∷ rest else rest

unfoldable pub is_known : Bytes → List Bytes → Bool
is_known path [] = false
is_known path (p ∷ ps) = if bytes_eq path p then true else is_known path ps

abbrev pub is_deep : NewDirMode → Bool
is_deep new_dir_deep = true
is_deep _ = false

-- `Descend`
unfoldable pub descends : NewDirMode → List Bytes → Entry → Bool
descends mode dirs e = if is_known e.path dirs then true else is_deep mode

-- `useColor`, on whether NO_COLOR is set and whether standard output is a terminal
unfoldable pub use_color : Bytes → Bytes → Bool → Bool → Bool → Bool
use_color format out no_color no_color_set is_terminal =
    if no_color || bytes_eq format (codes "json") || not (bytes_eq out [])
    then false
    else if no_color_set
    then false
    else is_terminal

-- `privilegeWord`
unfoldable pub privilege_word : Bool → Bytes
privilege_word true = codes "as root"
privilege_word false = codes "unprivileged"

abbrev pub no_summary : DirSummary
no_summary = record { files = 0; dirs = 0; bytes = pos 0 }

-- The callback of `summarizeDir`
unfoldable pub add_to_summary : Bytes → DirSummary → Entry → DirSummary
add_to_summary path s e =
    if e.type == type_dir && not (bytes_eq e.path path)
    then record s { dirs = s.dirs + 1 }
    else if e.type == type_file
    then record s { files = s.files + 1; bytes = add_i64 s.bytes e.size }
    else s

unfoldable pub summary_of : Bytes → DirSummary → List Entry → DirSummary
summary_of path s [] = s
summary_of path s (e ∷ es) = summary_of path (add_to_summary path s e) es

abbrev summed : Bytes → Option Walker → Option DirSummary
summed path none = none
summed path (some w) = some (summary_of path no_summary w.emitted)

-- The source of the joiner: what `Cursor.Next` yields, call by call, on fuel. The text of an error is
-- a parameter.
module _ (decompress : Bytes → Option Bytes) (file : Bytes) (message : ReadError → Bytes) where
  abbrev pub pulled : (Cursor → List Pull) → Step → List Pull
  pulled rest (Cursor.entry e c) = entry e ∷ rest c
  pulled rest (done c) = []
  pulled rest (failed x) = broken (message x) ∷ []

  unfoldable pub pulls : ℕ → Cursor → List Pull
  pulls zero c = []
  pulls (suc fuel) c = pulled (pulls fuel) (cursor_next decompress file c)

module _ (glob : Bytes → Bytes → Option Bool) (cpus : ℕ) where
  -- `summarizeDir`, on what the path leads to
  unfoldable pub summarize_dir : Options → Bytes → Found → Option DirSummary
  summarize_dir base path found =
      summed path (walk_from glob cpus (record base { no_hash = true; descend = none }) path found)
