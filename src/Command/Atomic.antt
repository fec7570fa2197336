-- ===== src/Command/Atomic.antt =====
-- cmd/osfp/atomic.go: a file that takes its name only once it is complete. The buffer of bufio may
-- pass any part of what it holds on to the file; once a write failed it takes nothing more, and its
-- flush fails. A crash leaves the state that was reached.
use osfp.Base.{Bytes, Bool, true, false, [], ◌++◌, Option, none, some, if◌then◌else◌, ◌≡◌}

-- `atomicFile`, with what stands under its two names, and all bytes that its writer was given.
pub record State : Type 0 where
  pub final : Option Bytes
  pub tmp : Option Bytes
  pub buffer : Bytes
  pub given : Bytes
  pub broken : Bool
  pub done : Bool

-- The answers of the system to `Commit`, true where a call does not fail; `part` is what a flush
-- that fails passes on.
pub record Answers : Type 0 where
  pub part : Bytes
  pub flushes : Bool
  pub syncs : Bool
  pub closes : Bool
  pub renames : Bool
  pub removes : Bool
  pub syncs_dir : Bool

-- `createAtomic`, where `old` is what stands under the final name
unfoldable pub create_atomic : Option Bytes → State
create_atomic old = record {
  final = old;
  tmp = some [];
  buffer = [];
  given = [];
  broken = false;
  done = false;
}

abbrev pub grow : Bytes → Option Bytes → Option Bytes
grow out none = none
grow out (some t) = some (t ++ out)

-- os.Remove of the temporary file, whose error is dropped
abbrev pub remove_tmp : Bool → State → State
remove_tmp true s = record s { tmp = none }
remove_tmp false s = s

-- A call of `Commit` that fails, and a call that does not.
abbrev pub given_up : Answers → State → State × Bool
given_up a s = (remove_tmp a.removes s, false)

-- os.Rename onto the final name, and `syncDir`
abbrev pub rename_then : Answers → State → State × Bool
rename_then a s =
    if a.renames then (record s { final = s.tmp; tmp = none }, a.syncs_dir) else given_up a s

abbrev pub close_then : Answers → State → State × Bool
close_then a s = if a.closes then rename_then a s else given_up a s

abbrev pub sync_then : Answers → State → State × Bool
sync_then a s = if a.syncs then close_then a s else given_up a s

abbrev pub flush_ok : Bool → Bool → Bool
flush_ok true flushes = false
flush_ok false flushes = flushes

abbrev pub flush_then : Answers → State → State × Bool
flush_then a s =
    if flush_ok s.broken a.flushes
    then sync_then a (record s { tmp = grow s.buffer s.tmp; buffer = [] })
    else given_up a (record s { tmp = grow a.part s.tmp })

-- `Commit`, and whether it returns without an error
unfoldable pub commit : Answers → State → State × Bool
commit a s = if s.done then (s, true) else flush_then a (record s { done = true })

-- `Abort`
unfoldable pub abort : Bool → State → State
abort removes s = if s.done then s else remove_tmp removes (record s { done = true })

-- The writer was given `p`; `out` of what the buffer then holds is passed on to the file.
abbrev pub wrote : Bytes → Bytes → Bytes → State → State
wrote p out keep s = record s { tmp = grow out s.tmp; buffer = keep; given = s.given ++ p }

-- A write that fails; the file took `out`.
abbrev pub write_failed : Bytes → Bytes → State → State
write_failed p out s = record s { tmp = grow out s.tmp; given = s.given ++ p; broken = true }

-- What a command does with its file, one call after the other. Nothing is written behind `Commit`
-- or `Abort`.
pub data Step : State → State → Type 0 where
  write :
      (s : State) (p out keep : Bytes)
      → s.done ≡ false
      → s.broken ≡ false
      → s.buffer ++ p ≡ out ++ keep
      → Step s (wrote p out keep s)
  fail : (s : State) (p out : Bytes) → s.done ≡ false → Step s (write_failed p out s)
  finish : (s : State) (a : Answers) → Step s (commit a s).0
  discard : (s : State) (removes : Bool) → Step s (abort removes s)

-- The states that a command comes to.
pub data Reached (s : State) : State → Type 0 where
  begun : Reached s s
  later : {t u : State} → Reached s t → Step t u → Reached s u
