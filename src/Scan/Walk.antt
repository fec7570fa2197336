-- ===== src/Scan/Walk.antt =====
-- internal/scan/walk.go, with the cells of reorder.go and the hashing of hash.go. The walk is not
-- interrupted, and the callback does not fail.
pub mod Names
pub mod Order
pub mod Totals
pub mod Compared
pub mod Kept
pub mod Hashed
use Prim.Native.Nat.{bit_and}
use osfp.Base.{
  ℕ, zero, suc, ◌+◌, ◌*◌, ◌%◌, ◌^◌, to_u64, Bytes, codes, Bool, true, false, not, ◌&&◌, ◌||◌, List,
  [], ◌∷◌, ◌++◌, Option, none, some, ℤ, pos, negsuc, ltb, leb, ◌==◌, bytes_eq, if◌then◌else◌,
  length,
}
use osfp.Entry.{Entry, type_of, unix_mode, type_dir, type_file, type_symlink, type_error}
use osfp.Canon.{slash}
use osfp.Filepath
use osfp.Filepath.{join_path}
use osfp.Exclude
use osfp.Store.Decode.{zero_hash}
use osfp.Scan.FsType.{FsKind, fs_local, classify_fs}
use osfp.Scan.Tree.{
  Stat, Answer, answer, error, Node, node, Listing, unreadable, listed, Children, nil, child, Found,
  gone, there,
}
use osfp.Scan.Settings.{mount_local, mount_same, mount_all, SkippedMount, Options, set_defaults}

-- The walker, with the cells of the ring: `acquired` counts the cells taken so far, and `cells`
-- holds the device of the entry in each cell. Cells are committed and released in the order in
-- which they are acquired, so acquisition number `k` takes cell `k` modulo their number.
pub record Walker : Type 0 where
  pub pruned : ℕ
  pub skipped : List SkippedMount
  pub acquired : ℕ
  pub cells : ℕ → ℕ
  pub emitted : List Entry

abbrev set_cell : ℕ → ℕ → (ℕ → ℕ) → ℕ → ℕ
set_cell k v cells i = if i == k then v else cells i

-- The ring has four cells for each worker.
abbrev pub ring_size : Options → ℕ
ring_size opts = 4 * opts.jobs

-- `acquire`, and the device that the new entry has.
unfoldable pub acquire : Options → ℕ → Walker → Walker
acquire opts dev w = record w {
  acquired = w.acquired + 1;
  cells = set_cell (w.acquired % ring_size opts) dev w.cells;
}

-- `commit`: the consumer reads the cells in this order.
abbrev pub commit : Entry → Walker → Walker
commit e w = record w { emitted = w.emitted ++ e ∷ [] }

abbrev pub max_skipped_mounts : ℕ
max_skipped_mounts = 20

-- `noteMount`
unfoldable pub note_mount : Bytes → Bytes × FsKind → Walker → Walker
note_mount path (name, kind) w =
    if ltb (length w.skipped) max_skipped_mounts
    then record w {
      skipped = w.skipped ++ record { path = path; fs_type = name; kind = kind } ∷ [];
    }
    else w

abbrev is_local : FsKind → Bool
is_local FsKind.fs_local = true
is_local _ = false

-- `crossMount`, on the answer of `fsTypeName`
unfoldable pub cross_mount : Options → Bytes → Bytes × Bool → Walker → Bool × Walker
cross_mount opts path fs w = elim opts.mounts [
  | mount_all ↦ (true, w)
  | mount_local ↦
      if is_local (classify_fs fs).1 then (true, w) else (false, note_mount path (classify_fs fs) w)
  | mount_same ↦ (false, note_mount path (classify_fs fs) w)
]

abbrev pub asks : Option (Entry → Bool) → Entry → Bool
asks none e = true
asks (some f) e = f e

abbrev prune : Walker → Bool × Walker
prune w = (false, record w { pruned = w.pruned + 1 })

-- The cases of `mayDescend` behind that of the mount point.
abbrev pub within_limits : Options → Entry → ℕ → Bool × Walker → Bool × Walker
within_limits opts e depth (crossed, w) =
    if not crossed
    then prune w
    else if leb opts.max_depth depth
    then prune w
    else if not (asks opts.descend e)
    then prune w
    else (true, w)

-- `mayDescend`
unfoldable pub may_descend : Options → Entry → Bytes × Bool → ℕ → ℕ → Walker → Bool × Walker
may_descend opts e fs depth parent_dev w =
    if depth == 0
    then (true, w)
    else within_limits opts e depth
        (if e.dev == parent_dev then (true, w) else cross_mount opts e.path fs w)

-- The entry before it is hashed or listed.
unfoldable pub fill : Bytes → Stat → Answer → Entry
fill path s target =
    let e : Entry = record {
      path = path;
      type = type_of s.mode;
      mode = unix_mode s.mode;
      uid = s.uid;
      gid = s.gid;
      size = s.size;
      mtime = s.mtime;
      hash = zero_hash;
      hashed = false;
      partial = false;
      link = [];
      dev = s.dev;
      ino = s.ino;
      nlink = s.nlink;
      err = [];
    } in
    if type_of s.mode == type_symlink
    then elim target [ answer t ↦ record e { link = t } | error x ↦ record e { err = x } ]
    else e

abbrev is_larger : ℤ → ℕ → Bool
is_larger (pos n) limit = ltb limit n
is_larger (negsuc n) limit = false

-- `hashEntry`, on the answer of opening and reading the file
unfoldable pub hash_entry : ℕ → Answer → Entry → Entry
hash_entry max_size content e =
    if ltb 0 max_size && is_larger e.size max_size
    then record e { partial = true }
    else elim content [
      | answer h ↦ record e { hash = h; hashed = true }
      | error x ↦ record e { err = x }
    ]

-- The entry as it is emitted: with the error of its listing, or hashed.
abbrev pub list_error : Bool → Listing → Entry → Entry
list_error true (unreadable x cs) e = record e { err = x }
list_error true (listed cs) e = e
list_error false l e = e

abbrev pub finished : Options → Answer → Entry → Entry
finished opts content e =
    if e.type == type_file && not opts.no_hash then hash_entry opts.max_file_size content e else e

-- The entry that `emitError` commits.
abbrev pub error_entry : Bytes → Bytes → Entry
error_entry path cause = record {
  path = path;
  type = type_error;
  mode = 0;
  uid = 0;
  gid = 0;
  size = pos 0;
  mtime = pos 0;
  hash = zero_hash;
  hashed = false;
  partial = false;
  link = [];
  dev = 0;
  ino = 0;
  nlink = 0;
  err = cause;
}

-- `emitError`
unfoldable pub emit_error : Options → Bytes → Bytes → Walker → Walker
emit_error opts path cause w = commit (error_entry path cause) (acquire opts 0 w)

abbrev pub excludes : (Bytes → Bytes → Option Bool) → Option Exclude.Set → Bytes → Bool
excludes glob none path = false
excludes glob (some set) path = Exclude.match glob set path

-- Whether the directory is entered; another object is not.
abbrev pub enters : Options → Entry → Bytes × Bool → ℕ → ℕ → Walker → Bool × Walker
enters opts e fs depth parent_dev w =
    if e.type == type_dir then may_descend opts e fs depth parent_dev w else (false, w)

-- `visit`. The device that the children are given as their parent's is read from the cell of the
-- directory's own entry, number `own`, when each child is visited. The children that came with an
-- error are visited as the others are.
unfoldable mutual
  pub visit : (Bytes → Bytes → Option Bool) → Options → Bytes → Node → ℕ → ℕ → Walker → Walker
  visit glob opts path (node s target content fs listing) depth parent_dev w =
      let own = w.acquired in
      let e = fill path s target in
      let (descend, w1) = enters opts e fs depth parent_dev (acquire opts s.dev w) in
      let w2 = commit (finished opts content (list_error descend listing e)) w1 in
      visit_listing glob opts path listing descend depth own w2

  pub visit_listing :
      (Bytes → Bytes → Option Bool) → Options → Bytes → Listing → Bool → ℕ → ℕ → Walker → Walker
  visit_listing glob opts path (unreadable x cs) descend depth own w =
      let below = visit_children glob opts path cs depth own w in if descend then below else w
  visit_listing glob opts path (listed cs) descend depth own w =
      let below = visit_children glob opts path cs depth own w in if descend then below else w

  pub visit_children :
      (Bytes → Bytes → Option Bool) → Options → Bytes → Children → ℕ → ℕ → Walker → Walker
  visit_children glob opts path nil depth own w = w
  visit_children glob opts path (child name found rest) depth own w =
      let seen = visit_found glob opts (join_path path name) found depth own w in
      visit_children glob opts path rest depth own
        (if excludes glob opts.exclude (join_path path name) then w else seen)

  pub visit_found :
      (Bytes → Bytes → Option Bool) → Options → Bytes → Found → ℕ → ℕ → Walker → Walker
  visit_found glob opts path (gone cause) depth own w = emit_error opts path cause w
  visit_found glob opts path (there n) depth own w =
      visit glob opts path n (depth + 1) (w.cells (own % ring_size opts)) w

abbrev pub new_walker : Walker
new_walker = record { pruned = 0; skipped = []; acquired = 0; cells = λ k. 0; emitted = [] }

abbrev pub dev_of : Node → ℕ
dev_of (node s target content fs listing) = s.dev

-- `Walk`, from the scan root on, which is a clean path of a directory.
unfoldable pub walk : (Bytes → Bytes → Option Bool) → Options → Bytes → Node → Walker
walk glob opts root n = visit glob opts root n 0 (dev_of n) new_walker

abbrev is_directory : Node → Bool
is_directory (node s target content fs listing) = type_of s.mode == type_dir

-- The root that a walk starts from.
abbrev pub root_of : Bytes → Bytes
root_of root = Filepath.clean (if bytes_eq root [] then slash ∷ [] else root)

-- `Walk` with its defaults and its tests on the root, where `none` is an error of the root.
unfoldable pub walk_from :
    (Bytes → Bytes → Option Bool) → ℕ → Options → Bytes → Found → Option Walker
walk_from glob cpus opts root (gone cause) = none
walk_from glob cpus opts root (there n) =
    if is_directory n then some (walk glob (set_defaults cpus opts) (root_of root) n) else none
