-- ===== src/Scan/Ring/Steps.antt =====
-- The goroutines of `Walk` in internal/scan/walk.go, with hash.go, as steps that may come in any
-- order.
use osfp.Base.{
  ℕ, Bytes, true, false, not, ◌&&◌, List, [], ◌∷◌, ◌++◌, Option, none, some, ◌==◌, if◌then◌else◌,
  length, ◌≡◌, ◌<◌,
}
use osfp.Entry.{Entry, type_error}
use osfp.Scan.Tree.{Answer}
use osfp.Scan.Settings.{Options}
use osfp.Scan.Ring.{
  Pipeline, hashes, launch, acquire_cell, leave, add_pending, submit, withdraw, commit_cell,
  hash_cell, consume, release_cell, idle, entering, holding, offering, ready, stopping, closed,
  waiting, got, spent,
}

-- The steps of the program. `emitError` does not test the context before it acquires a cell.
pub data Step (opts : Options) (contents : Bytes → Answer)
    (emit : List Entry → Entry → Option Bytes) : Pipeline → Pipeline → Type 0 where
  enter :
      (s : Pipeline) (e : Entry) (es : List Entry)
      → s.walking ≡ idle
      → s.todo ≡ e ∷ es
      → (s.cancelled && not (e.type == type_error)) ≡ false
      → Step opts contents emit s (record s { walking = entering })
  refuse :
      (s : Pipeline) (e : Entry) (es : List Entry)
      → s.walking ≡ idle
      → s.todo ≡ e ∷ es
      → (s.cancelled && not (e.type == type_error)) ≡ true
      → Step opts contents emit s (leave s)
  take_cell :
      (s : Pipeline) (e : Entry) (es : List Entry) (k : ℕ) (rest : List ℕ)
      → s.walking ≡ entering
      → s.todo ≡ e ∷ es
      → s.free ≡ k ∷ rest
      → Step opts contents emit s (acquire_cell e k rest s)
  no_cell :
      (s : Pipeline)
      → s.walking ≡ entering
      → s.cancelled ≡ true
      → Step opts contents emit s (leave s)
  offer :
      (s : Pipeline) (k : ℕ)
      → s.walking ≡ holding k
      → hashes opts (s.cells k).entry ≡ true
      → Step opts contents emit s (add_pending k s)
  skip_hash :
      (s : Pipeline) (k : ℕ)
      → s.walking ≡ holding k
      → hashes opts (s.cells k).entry ≡ false
      → Step opts contents emit s (record s { walking = ready k })
  take_work :
      (s : Pipeline) (k : ℕ)
      → s.walking ≡ offering k
      → length s.work < opts.jobs
      → Step opts contents emit s (submit k s)
  no_worker :
      (s : Pipeline) (k : ℕ)
      → s.walking ≡ offering k
      → s.cancelled ≡ true
      → Step opts contents emit s (withdraw k s)
  hand_on :
      (s : Pipeline) (e : Entry) (es : List Entry) (k : ℕ)
      → s.walking ≡ ready k
      → s.todo ≡ e ∷ es
      → Step opts contents emit s (commit_cell k es s)
  hash_work :
      (s : Pipeline) (k : ℕ) (before behind : List ℕ)
      → s.work ≡ before ++ k ∷ behind
      → Step opts contents emit s (hash_cell opts contents k (before ++ behind) s)
  visited :
      (s : Pipeline)
      → s.walking ≡ idle
      → s.todo ≡ []
      → Step opts contents emit s (record s { walking = stopping })
  end_sequence :
      (s : Pipeline)
      → s.walking ≡ stopping
      → s.work ≡ []
      → Step opts contents emit s (record s { walking = closed })
  receive :
      (s : Pipeline) (k : ℕ) (rest : List ℕ)
      → s.reading ≡ waiting
      → s.ordered ≡ k ∷ rest
      → Step opts contents emit s (record s { reading = got k; ordered = rest })
  call_back :
      (s : Pipeline) (k : ℕ)
      → s.reading ≡ got k
      → (s.cells k).pending ≡ 0
      → Step opts contents emit s (consume emit k s.emit_err s)
  give_back :
      (s : Pipeline) (k : ℕ) → s.reading ≡ spent k → Step opts contents emit s (release_cell k s)

-- The states of a scan. The caller's context may be cancelled at any time.
pub data Reached (opts : Options) (contents : Bytes → Answer)
    (emit : List Entry → Entry → Option Bytes) (es : List Entry) : Pipeline → Type 0 where
  launched : Reached opts contents emit es (launch opts es)
  later :
      {s t : Pipeline}
      → Reached opts contents emit es s
      → Step opts contents emit s t
      → Reached opts contents emit es t
  interrupted :
      {s : Pipeline}
      → Reached opts contents emit es s
      → Reached opts contents emit es (record s { cancelled = true })

-- The loop of the consumer has ended.
pub record IsOver (s : Pipeline) : Type 0 where
  pub is_closed : s.walking ≡ closed
  pub drained : s.ordered ≡ []
  pub at_rest : s.reading ≡ waiting

-- The error that `Walk` returns: that of the callback, or that of the context.
pub data WalkError : Type 0 where
  refused : Bytes → WalkError
  stopped : WalkError

abbrev pub walk_error : Pipeline → Option WalkError
walk_error s = elim s.emit_err [
  | some x ↦ some (refused x)
  | none ↦ if s.walk_err then some stopped else none
]
