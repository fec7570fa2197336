-- ===== src/Tests/Scans.antt =====
-- The theorems on the goroutines of a scan, on runs over a small tree.
use osfp.Base.{
  ℕ, ◌%◌, ℕ, ◌+◌, ◌*◌, ◌≤◌, ◌<◌, Bytes, codes, [], ◌∷◌, List, map, true, Option, none, refl, ◌≡◌,
  length, arith, bytes_eq, replicate, ◌^◌, if◌then◌else◌,
}
use osfp.Entry.{Entry, type_of, unix_mode}
use osfp.Scan.Tree.{Answer, answer, Node, node, unreadable, nil, child, there}
use osfp.Filepath
use osfp.Scan.Settings
use osfp.Scan.Walk
use osfp.Scan.Walk.{ring_size, fill, hash_entry}
use osfp.Scan.Settings.{Options, mount_local}
use osfp.Scan.Walk.Hashed.{Holds, HoldsListing, HoldsChildren, HoldsFound, unhashed}
use osfp.Scan.Walk.Totals.{count_all}
use osfp.Scan.Ring.{
  Pipeline, entering, stopping, closed, got, acquire_cell, commit_cell, submit, add_pending,
  release_cell, consume, hash_cell, launch, ready, spent,
}
use osfp.Scan.Ring.Steps.{
  Reached, launched, later, enter, take_cell, offer, skip_hash, take_work, hand_on, hash_work,
  visited, end_sequence, receive, call_back, give_back, IsOver, walk_error,
}
use osfp.Scan.Ring.Cells.{read, held}
use osfp.Scan.Ring.Delivered.{Passed}
use osfp.Scan.Ring.Walked
use osfp.Scan.Ring.Ends
use osfp.Scan.Ring.Ends.{turns}
use osfp.Scan.Ring.Live
use osfp.Scan.Ring.Room
use osfp.Scan.Ring.Cycle
use osfp.Scan.Ring.Cycle.{acquired}
use osfp.Scan.Ring.Live.{Advances}
use osfp.Tests.{no_glob, scan_options, stat, leaf, dir}

-- A directory with one file.
abbrev folder : Node
folder = dir (child (codes "f") (there leaf) nil)

abbrev contents : Bytes → Answer
contents path = if bytes_eq path (codes "/") then answer [] else answer (replicate 32 1)

folder-Holds : Holds contents (codes "/") folder
unfolding Holds HoldsListing HoldsChildren HoldsFound Filepath.join_path
folder-Holds = (refl, ((refl, tt), tt))

abbrev accepts : List Entry → Entry → Option Bytes
accepts before e = none

abbrev own : Entry
own = fill (codes "/") (stat (2 ^ 31 + 0o755)) (answer [])

abbrev file : Entry
file = fill (codes "/f") (stat 0o644) (answer [])

abbrev found : List Entry
found = (Walk.walk no_glob (unhashed scan_options) (codes "/") folder).emitted

abbrev At : Pipeline → Type 0
At = Reached scan_options contents accepts found

-- The states of one run. The directory is passed on while the file is with a worker.
abbrev begun : Pipeline
begun = launch scan_options found

abbrev dir_filled : Pipeline
dir_filled =
    acquire_cell own 0 (1 ∷ 2 ∷ 3 ∷ 4 ∷ 5 ∷ 6 ∷ 7 ∷ []) (record begun { walking = entering })

abbrev dir_committed : Pipeline
dir_committed = commit_cell 0 (file ∷ []) (record dir_filled { walking = ready 0 })

abbrev file_entered : Pipeline
file_entered = record dir_committed { walking = entering }

abbrev file_filled : Pipeline
file_filled =
    acquire_cell file 1 (2 ∷ 3 ∷ 4 ∷ 5 ∷ 6 ∷ 7 ∷ []) (record dir_committed { walking = entering })

abbrev file_taken : Pipeline
file_taken = submit 1 (add_pending 1 file_filled)

abbrev dir_read : Pipeline
dir_read =
    release_cell 0 (consume accepts 0 none (record file_taken { reading = got 0; ordered = [] }))

abbrev walk_done : Pipeline
walk_done = record (commit_cell 1 [] dir_read) { walking = stopping }

abbrev file_waits : Pipeline
file_waits = record walk_done { reading = got 1; ordered = [] }

abbrev file_hashed : Pipeline
file_hashed = record (hash_cell scan_options contents 1 [] file_waits) { walking = closed }

abbrev ended : Pipeline
ended = release_cell 1 (consume accepts 1 none file_hashed)

abbrev to_dir_committed : At dir_committed
unfolding Walk.walk Walk.visit Walk.visit_listing Walk.visit_children Walk.visit_found
    Walk.may_descend launch fill type_of unix_mode Filepath.join_path Walk.acquire hash_entry
    Settings.count
to_dir_committed =
    later
      (later
        (later (later launched (enter begun own (file ∷ []) refl refl refl))
          (take_cell _ own (file ∷ []) 0 (1 ∷ 2 ∷ 3 ∷ 4 ∷ 5 ∷ 6 ∷ 7 ∷ []) refl refl refl))
        (skip_hash _ 0 refl refl))
      (hand_on _ own (file ∷ []) 0 refl refl)

abbrev to_file_entered : At file_entered
unfolding Walk.walk Walk.visit Walk.visit_listing Walk.visit_children Walk.visit_found
    Walk.may_descend launch fill type_of unix_mode Filepath.join_path Walk.acquire hash_entry
    Settings.count
to_file_entered = later to_dir_committed (enter dir_committed file [] refl refl refl)

abbrev to_file_taken : At file_taken
unfolding Walk.walk Walk.visit Walk.visit_listing Walk.visit_children Walk.visit_found
    Walk.may_descend launch fill type_of unix_mode Filepath.join_path Walk.acquire hash_entry
    Settings.count
to_file_taken =
    later
      (later
        (later (later to_dir_committed (enter dir_committed file [] refl refl refl))
          (take_cell _ file [] 1 (2 ∷ 3 ∷ 4 ∷ 5 ∷ 6 ∷ 7 ∷ []) refl refl refl))
        (offer file_filled 1 refl refl))
      (take_work _ 1 refl (omega arith))

abbrev to_dir_read : At dir_read
unfolding Walk.walk Walk.visit Walk.visit_listing Walk.visit_children Walk.visit_found
    Walk.may_descend launch fill type_of unix_mode Filepath.join_path Walk.acquire hash_entry
    Settings.count
to_dir_read =
    later
      (later (later to_file_taken (receive file_taken 0 [] refl refl)) (call_back _ 0 refl refl))
      (give_back _ 0 refl)

abbrev to_file_waits : At file_waits
unfolding Walk.walk Walk.visit Walk.visit_listing Walk.visit_children Walk.visit_found
    Walk.may_descend launch fill type_of unix_mode Filepath.join_path Walk.acquire hash_entry
    Settings.count
to_file_waits =
    later (later (later to_dir_read (hand_on dir_read file [] 1 refl refl)) (visited _ refl refl))
      (receive walk_done 1 [] refl refl)

abbrev to_ended : At ended
unfolding Walk.walk Walk.visit Walk.visit_listing Walk.visit_children Walk.visit_found
    Walk.may_descend launch fill type_of unix_mode Filepath.join_path Walk.acquire hash_entry
    Settings.count
to_ended =
    later
      (later
        (later (later to_file_waits (hash_work file_waits 1 [] [] refl)) (end_sequence _ refl refl))
        (call_back file_hashed 1 refl refl))
      (give_back _ 1 refl)

is_over : IsOver ended
is_over = record { is_closed = refl; drained = refl; at_rest = refl }

Reached-walk_example :
    Passed scan_options contents accepts
      (Walk.walk no_glob scan_options (codes "/") folder).emitted
      ended.emitted
      (walk_error ended)
    × (ended.stats ≡ count_all ended.emitted)
Reached-walk_example =
    Walked.Reached-walk no_glob scan_options contents accepts (codes "/") folder ended folder-Holds
      to_ended is_over

turns-le_example : turns scan_options contents accepts to_ended ≤ 9 * length found + 7
turns-le_example = Ends.turns-le scan_options contents accepts found ended to_ended

Reached-fits_example :
    (dir_committed.walking ≡ ready 0 → length dir_committed.ordered < ring_size scan_options)
    × (dir_committed.reading ≡ spent 0 → length dir_committed.free < ring_size scan_options)
    × (length (read dir_committed.reading)
          + length dir_committed.ordered
          + length (held dir_committed.walking)
          + length dir_committed.free
        ≤ ring_size scan_options)
    × (length dir_committed.work ≤ scan_options.jobs)
Reached-fits_example =
    Room.Reached-fits scan_options contents accepts found dir_committed 0 to_dir_committed

-- The consumer waits for the file that a worker has.
Reached-Advances_example : Advances scan_options contents accepts file_waits
Reached-Advances_example =
    Live.Reached-Advances scan_options contents accepts found file_waits (omega arith) to_file_waits

-- The walk enters the file, and gets the second of the eight cells.
acquire_cell-circular_example :
    ◌≡◌ {A = ℕ} 1 (acquired scan_options contents accepts to_file_entered % ring_size scan_options)
acquire_cell-circular_example =
    Cycle.acquire_cell-circular scan_options contents accepts found file_entered 1
      (2 ∷ 3 ∷ 4 ∷ 5 ∷ 6 ∷ 7 ∷ []) to_file_entered refl refl

-- Under the root `.` a child's path is its name, as `filepath.Join` makes it.
join_here : Filepath.join_path (codes ".") (codes "#x") ≡ codes "#x"
unfolding Filepath.join_path
join_here = refl

-- A directory whose listing fails behind its first name.
abbrev torn : Node
torn =
    node (stat (2 ^ 31 + 0o755)) (answer []) (answer []) (codes "ext4", true)
      (unreadable (codes "input/output error") (child (codes "f") (there leaf) nil))

-- The child that was read is visited, and the entry of the directory has the error.
partly_listed :
    map {B = Bytes × Bytes}
      (λ (e : Entry). (e.path, e.err))
      (Walk.walk no_glob scan_options (codes "/") torn).emitted
    ≡ (codes "/", codes "input/output error") ∷ (codes "/f", []) ∷ []
unfolding Walk.walk Walk.visit Walk.visit_listing Walk.visit_children Walk.visit_found Walk.fill
    Walk.may_descend Walk.acquire Walk.hash_entry type_of Filepath.join_path
partly_listed = refl
