-- ===== src/Diff/Classify.antt =====
-- internal/diff/classify.go: what two entries of one path differ in.
pub mod Meaning
use Prim.Native.Nat.{Ordering}
use osfp.Base.{
  ℕ, ◌+◌, Bytes, codes, Bool, true, false, not, ◌&&◌, ◌||◌, List, [], ◌∷◌, ◌++◌, ◌==◌, bytes_eq,
  int_eq, if◌then◌else◌, format_uint,
}
use osfp.Text.{join}
use osfp.Entry.{Entry, is_dir, type_dir, type_file, type_symlink, type_string}
use osfp.Humanize
use osfp.Diff.Op.{
  Op, op_none, op_added_dir, op_removed_dir, op_changed_dir, op_added, op_removed, op_changed_file,
  op_changed_meta, op_type_changed, op_retargeted, op_unreadable,
}

-- " → ", in UTF-8
abbrev arrow : Bytes
arrow = b' ' ∷ 0xe2 ∷ 0x86 ∷ 0x92 ∷ b' ' ∷ []

-- A part of a detail, present if the test holds.
abbrev when : Bool → Bytes → List Bytes
when true part = part ∷ []
when false part = []

-- `compareAttributes`; the empty text is "no difference"
unfoldable pub compare_attributes : Entry → Entry → Bytes
unfolding join Humanize.mode format_uint
compare_attributes old live = join (codes ", ") (
    when (not (old.mode == live.mode))
      (codes "mode " ++ Humanize.mode old.mode ++ arrow ++ Humanize.mode live.mode)
    ++ when (not (old.uid == live.uid))
        (codes "uid " ++ format_uint 10 old.uid ++ arrow ++ format_uint 10 live.uid)
    ++ when (not (old.gid == live.gid))
        (codes "gid " ++ format_uint 10 old.gid ++ arrow ++ format_uint 10 live.gid))

-- `opForMissing`
unfoldable pub op_for_missing : Entry → Bool → Op
op_for_missing e added =
    if e.type == type_dir && added
    then op_added_dir
    else if e.type == type_dir
    then op_removed_dir
    else if added
    then op_added
    else op_removed

module _ (ratio : ℕ → ℕ → Bytes) where
  -- `compareUnhashed`
  unfoldable pub compare_unhashed : Entry → Entry → Bytes
  unfolding join Humanize.bytes
  compare_unhashed old live =
      let parts =
        when (not (int_eq old.size live.size)) (
          codes "size " ++ Humanize.bytes ratio old.size ++ arrow ++ Humanize.bytes ratio live.size)
        ++ when (not (int_eq old.mtime live.mtime)) (codes "mtime changed") in
      elim parts [
        | [] ↦ []
        | p ∷ ps ↦ join (codes ", ") (p ∷ ps) ++ codes " (not hashed, so content was not verified)"
      ]

  -- The end of `Classify`, behind the tests on content.
  abbrev classify_attributes : Entry → Entry → Op × Bytes
  classify_attributes old live =
      let d = compare_attributes old live in
      if not (bytes_eq d [])
      then (if live.type == type_dir then (op_changed_dir, d) else (op_changed_meta, d))
      else (op_none, [])

  -- `Classify`
  unfoldable pub classify : Entry → Entry → Op × Bytes
  unfolding compare_unhashed compare_attributes type_string
  classify old live =
      let unhashed = compare_unhashed old live in
      if not (bytes_eq live.err [])
      then (op_unreadable, live.err)
      else if not (bytes_eq old.err [])
      then (op_unreadable, codes "unreadable when the fingerprint was taken: " ++ old.err)
      else if not (old.type == live.type)
      then (op_type_changed, type_string old.type ++ arrow ++ type_string live.type)
      else if live.type == type_symlink && not (bytes_eq old.link live.link)
      then (op_retargeted, old.link ++ arrow ++ live.link)
      else if live.type == type_file
          && (old.hashed && live.hashed)
          && not (bytes_eq old.hash live.hash)
      then (
        op_changed_file,
        Humanize.bytes ratio old.size ++ arrow ++ Humanize.bytes ratio live.size,
      )
      else if live.type == type_file
          && not (old.hashed && live.hashed)
          && not (bytes_eq unhashed [])
      then (op_changed_meta, unhashed)
      else classify_attributes old live
