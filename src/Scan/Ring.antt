-- ===== src/Scan/Ring.antt =====
-- The goroutines of `Walk` in internal/scan/walk.go, with the cells of reorder.go and the workers of
-- hash.go: the walk itself, the workers that hash, and the consumer, as steps in any order. The
-- caller's context may be cancelled at any time, and the callback may fail.
pub mod Steps
pub mod Cells
pub mod Coming
pub mod Order
pub mod Delivered
pub mod Ends
pub mod Room
pub mod Live
pub mod Walked
pub mod Cycle
use osfp.Base.{
  ℕ, zero, suc, ◌+◌, ◌*◌, ◌-◌, ◌<◌, Bytes, Bool, true, false, not, ◌&&◌, List, [], ◌∷◌, ◌++◌,
  Option, none, some, ◌==◌, if◌then◌else◌, length, ◌≡◌,
}
use osfp.Entry.{Entry, type_file, type_error}
use osfp.Scan.Tree.{Answer}
use osfp.Scan.Walk.Totals.{no_stats}
use osfp.Scan.Walk.{hash_entry, error_entry, ring_size}
use osfp.Scan.Settings.{Options, Stats, count}

-- `slot`; `pending` is the counter of its wait group.
pub record Slot : Type 0 where
  pub entry : Entry
  pub pending : ℕ

-- Where the walk stands with the next entry: before the test of the context, before `acquire`, with
-- a free cell that it fills, in `submit`, before `commit`; behind `visit`, and behind `ring.close`.
pub data Walking : Type 0 where
  idle entering : Walking
  holding offering ready : ℕ → Walking
  stopping closed : Walking

-- The consumer, with the cell that it received, and with one that it has to release.
pub data Reading : Type 0 where
  waiting : Reading
  got spent : ℕ → Reading

-- `todo` has the entries that the walk has yet to commit, `free` and `ordered` are the channels of
-- the ring, `work` has the cells that a worker took. `emitted` has the calls of the callback.
pub record Pipeline : Type 0 where
  pub todo : List Entry
  pub walking : Walking
  pub free : List ℕ
  pub ordered : List ℕ
  pub cells : ℕ → Slot
  pub work : List ℕ
  pub reading : Reading
  pub emitted : List Entry
  pub stats : Stats
  pub emit_err : Option Bytes
  pub walk_err : Bool
  pub cancelled : Bool

abbrev pub put_cell : ℕ → Slot → (ℕ → Slot) → ℕ → Slot
put_cell k v cells i = if i == k then v else cells i

abbrev pub hashes : Options → Entry → Bool
hashes opts e = e.type == type_file && not opts.no_hash

-- The cells `k` to `k + n - 1`.
abbrev pub cells_from : ℕ → ℕ → List ℕ
cells_from k zero = []
cells_from k (suc n) = k ∷ cells_from (suc k) n

abbrev pub empty_entry : Entry
empty_entry = record (error_entry [] []) { type = 0 }

-- What `Walk` starts, with `newRing` and `startHasher`.
unfoldable pub launch : Options → List Entry → Pipeline
launch opts es = record {
  todo = es;
  walking = idle;
  free = cells_from 0 (ring_size opts);
  ordered = [];
  cells = λ k. record { entry = empty_entry; pending = 0 };
  work = [];
  reading = waiting;
  emitted = [];
  stats = no_stats;
  emit_err = none;
  walk_err = false;
  cancelled = false;
}

-- `acquire`, and the entry that `visit` and `emitError` write into the cell.
abbrev pub acquire_cell : Entry → ℕ → List ℕ → Pipeline → Pipeline
acquire_cell e k rest s = record s {
  walking = holding k;
  free = rest;
  cells = put_cell k (record { entry = e; pending = 0 }) s.cells;
}

-- `visit` returns the error of the context.
abbrev pub leave : Pipeline → Pipeline
leave s = record s { walking = stopping; walk_err = true }

-- `s.wg.Add(1)`
abbrev pub add_pending : ℕ → Pipeline → Pipeline
add_pending k s = record s {
  walking = offering k;
  cells = put_cell k (record (s.cells k) { pending = (s.cells k).pending + 1 }) s.cells;
}

-- `submit`, where a worker takes the cell
abbrev pub submit : ℕ → Pipeline → Pipeline
submit k s = record s { walking = ready k; work = k ∷ s.work }

-- `s.wg.Done()`
abbrev pub done_pending : ℕ → Entry → (ℕ → Slot) → ℕ → Slot
done_pending k e cells = put_cell k (record { entry = e; pending = (cells k).pending - 1 }) cells

-- `submit`, where the context is done
abbrev pub withdraw : ℕ → Pipeline → Pipeline
withdraw k s = leave (record s { cells = done_pending k (s.cells k).entry s.cells })

-- `commit`
abbrev pub commit_cell : ℕ → List Entry → Pipeline → Pipeline
commit_cell k rest s = record s { todo = rest; walking = idle; ordered = s.ordered ++ k ∷ [] }

-- A round of `hasher.run`, on what the file holds
abbrev pub hash_cell : Options → (Bytes → Answer) → ℕ → List ℕ → Pipeline → Pipeline
hash_cell opts contents k rest s =
    let e = (s.cells k).entry in
    record s {
      cells = done_pending k (hash_entry opts.max_file_size (contents e.path) e) s.cells;
      work = rest;
    }

-- What the callback answers, and `cancel` where it fails.
abbrev pub called : Entry → Option Bytes → Pipeline → Pipeline
called e none s = record s { emitted = s.emitted ++ e ∷ []; stats = count s.stats e }
called e (some x) s = record s {
  emitted = s.emitted ++ e ∷ [];
  stats = count s.stats e;
  emit_err = some x;
  cancelled = true;
}

-- The round of the consumer behind `s.wg.Wait()`, up to `release`; the answer of the callback may
-- depend on the calls before.
abbrev pub consume : (List Entry → Entry → Option Bytes) → ℕ → Option Bytes → Pipeline → Pipeline
consume emit k (some x) s = record s { reading = spent k }
consume emit k none s =
    let e = (s.cells k).entry in record (called e (emit s.emitted e) s) { reading = spent k }

-- `release`
abbrev pub release_cell : ℕ → Pipeline → Pipeline
release_cell k s = record s { reading = waiting; free = s.free ++ k ∷ [] }
