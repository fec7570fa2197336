-- ===== src/Command/Info.antt =====
-- cmd/osfp/info.go: the description of a fingerprint, and the command that verifies one. The format of
-- a time, the average size of an entry and the rounding of a size are parameters.
use osfp.Base.{
  ℕ, Bytes, codes, Bool, not, ◌||◌, List, [], ◌∷◌, ◌++◌, Option, ltb, ◌==◌, ℤ, pos, int_lt,
  bytes_eq, if◌then◌else◌, length, format_uint,
}
use osfp.Text.{join}
use osfp.Humanize
use osfp.Humanize.{count, plural}
use osfp.Store.Meta.{Meta}
use osfp.Store.Reader.{Reader, new_reader}
use osfp.Store.Cursor.{verify}
use osfp.Report.Heading.{spaced_dot, counted}
use osfp.Report.Json.{hex}
use osfp.Command.Exit.{usage}
use osfp.Command.Compare.Run.{Attempt, go, ◌>>=◌, ◌>>◌, refuse, needed, loaded}

abbrev part_if : Bytes → Bytes → List Bytes
part_if label s = if bytes_eq s [] then [] else (label ++ s) ∷ []

-- `describeHost`
unfoldable pub describe_host : Meta → Bytes
describe_host m =
    join (codes ", ") (part_if [] m.system.hostname ++ part_if (codes "kernel ") m.system.kernel)

abbrev line : Bytes → Bytes → Bytes
line label s = codes "  " ++ label ++ s ++ codes "\n"

abbrev line_if : Bytes → Bytes → Bytes
line_if label s = if bytes_eq s [] then [] else line label s

abbrev long_dash : Bytes
long_dash = b' ' ∷ 226 ∷ 128 ∷ 148 ∷ b' ' ∷ []

abbrev privilege_line : Meta → Bytes
privilege_line m =
    if m.privileged
    then line (codes "privileged   ") (codes "yes")
    else line (codes "privileged   ") (
        codes "no"
        ++ long_dash
        ++ codes "UNPRIVILEGED (effective uid "
        ++ format_uint 10 m.euid
        ++ codes "); incomplete, and not comparable with a privileged scan")

abbrev unreadable_note : ℤ → Bytes
unreadable_note n = if int_lt (pos 0) n then codes " (" ++ count n ++ codes " unreadable)" else []

abbrev exclusion_line : Bytes → Bytes
exclusion_line p = codes "                 " ++ p ++ codes "\n"

abbrev exclusion_lines : List Bytes → Bytes
exclusion_lines [] = []
exclusion_lines (p ∷ ps) = exclusion_line p ++ exclusion_lines ps

module _ (stamp : ℤ → Bytes) (average : ℕ → ℤ → Bytes) (ratio : ℕ → ℕ → Bytes) where
  abbrev scope_of : Meta → Bytes
  scope_of m = join spaced_dot (
      (m.scan.root ∷ [])
      ++ part_if (codes "mounts=") m.scan.mounts
      ++ (codes "max-depth " ++ format_uint 10 m.scan.max_depth) ∷ []
      ++ (if ltb 0 m.scan.max_file_size
          then (codes "max-file-size " ++ Humanize.bytes ratio (pos m.scan.max_file_size)) ∷ []
          else [])
      ++ (format_uint 10 m.scan.jobs
          ++ codes " "
          ++ plural (pos m.scan.jobs) (codes "job") (codes "jobs"))
        ∷ [])

  -- The text of `runInfo`, on the path of the fingerprint, its size and its digest
  unfoldable pub info_text : Bytes → ℕ → Meta → Bytes → Bytes
  info_text path size m digest =
      path
      ++ codes "\n"
      ++ line (codes "tool         ") (m.tool ++ codes " " ++ m.tool_version)
      ++ line (codes "created      ") (stamp m.created_at)
      ++ line (codes "key          ") m.key
      ++ line_if (codes "system       ") m.system.pretty
      ++ line_if (codes "host         ") (describe_host m)
      ++ privilege_line m
      ++ line (codes "scope        ") (scope_of m)
      ++ line (codes "entries      ") (
          count m.entries
          ++ unreadable_note m.errors
          ++ codes " in "
          ++ counted m.blocks (codes "block") (codes "blocks"))
      ++ line (codes "size         ") (
          Humanize.bytes ratio (pos size)
          ++ codes " ("
          ++ average size m.entries
          ++ codes " bytes per entry)")
      ++ line (codes "digest       ") (hex digest)
      ++ line (codes "exclusions   ") (format_uint 10 (length m.exclusions))
      ++ exclusion_lines m.exclusions

abbrev verify_text : Bytes → Reader → Bytes
verify_text path r =
    path
    ++ codes ": OK\n"
    ++ line (codes "sha256   ") (hex r.digest)
    ++ line (codes "entries  ") (count r.entries)

-- `runVerify`, on the arguments behind its flags and what the path leads to; the result is what it
-- prints.
unfoldable pub run_verify :
    (Bytes → Bytes)
    → (Bytes → Option Bytes)
    → (Bytes → Bool)
    → ℕ
    → Bytes
    → Bool
    → (Bytes → Option Bytes)
    → Attempt Bytes
run_verify sha256 decompress is_meta positional path quiet content = do
  refuse (not (positional == 0) || bytes_eq path []) usage
  file ← needed (content path)
  reader ← loaded (new_reader decompress is_meta file)
  whole ← loaded (verify sha256 reader)
  go (if quiet then [] else verify_text path reader)
