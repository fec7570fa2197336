-- ===== src/Diff/Merge.antt =====
-- internal/diff/merge.go: the merge join. A method returns the joiner as it leaves it, and the
-- error that it returns, if any.
pub mod Refine
pub mod Pointwise
pub mod Join
pub mod Silent
pub mod Misordered
use Prim.Native.Nat.{Ordering}
use osfp.Base.{
  ℤ, ℕ, zero, suc, ◌+◌, Bytes, Bool, true, false, not, ◌&&◌, List, [], ◌∷◌, ◌++◌, Option, none,
  some, bytes_eq, if◌then◌else◌, length,
}
use osfp.Canon.{compare_key}
use osfp.Entry.{Entry}
use osfp.Diff.Op.{Op, OpSet, op_none, op_added_dir, op_eq, all_ops}
use osfp.Diff.Classify.{classify, op_for_missing}
use osfp.Diff.Ignore
use osfp.Diff.Ignore.{Ignore}

pub record DirSummary : Type 0 where
  pub files : ℕ
  pub dirs : ℕ
  pub bytes : ℤ

pub record Change : Type 0 where
  pub op : Op
  pub path : Bytes
  pub old : Option Entry
  pub new : Option Entry
  pub detail : Bytes
  pub summary : Option DirSummary

pub record Options : Type 0 where
  pub show : Option OpSet
  pub ignore : Ignore
  pub summarize : Option (Bytes → Option DirSummary)

pub record Stats : Type 0 where
  pub counts : Op → ℕ
  pub ignored : ℕ
  pub hidden : ℕ
  pub compared : ℕ

-- What `Next` of the fingerprint yields, call by call: an entry or an error; the end of the list is
-- io.EOF.
pub data Pull : Type 0 where
  entry : Entry → Pull
  broken : Bytes → Pull

pub data Error : Type 0 where
  out_of_order : Error
  source : Bytes → Error
  callback : Bytes → Error
  -- The model's loop ran out of fuel.
  stuck : Error

-- `emitted` are the changes that the callback was called with, in order.
pub record Joiner : Type 0 where
  pub base : List Pull
  pub old : Option Entry
  pub opts : Options
  pub stats : Stats
  pub last_live : Bytes
  pub started : Bool
  pub done : Bool
  pub emitted : List Change

abbrev pub Outcome : Type 0
Outcome = Joiner × Option Error

-- `if err := …; err != nil { return err }`
infixl 5 ◌and_then◌
abbrev pub ◌and_then◌ : Outcome → (Joiner → Outcome) → Outcome
(j, none) and_then f = f j
(j, some e) and_then f = (j, some e)

abbrev pub bump : Op → (Op → ℕ) → Op → ℕ
bump op counts o = if op_eq op o then counts o + 1 else counts o

-- `Stats.Total`, over every key that the map may have
abbrev total_of : (Op → ℕ) → List Op → ℕ
total_of counts [] = 0
total_of counts (op ∷ ops) = counts op + total_of counts ops

unfoldable pub total : Stats → ℕ
total s = total_of s.counts (op_none ∷ all_ops)

abbrev advance_to : Joiner → List Pull → Outcome
advance_to j [] = (record j { old = none }, none)
advance_to j (broken e ∷ rest) = (record j { base = rest }, some (source e))
advance_to j (entry e ∷ rest) = (record j { base = rest; old = some e }, none)

-- `advance`
unfoldable pub advance : Joiner → Outcome
advance j = advance_to j j.base

abbrev shows : Option OpSet → Op → Bool
shows none op = true
shows (some set) op = set op

-- The summary that `report` fills in.
abbrev summary_of : Options → Change → Option DirSummary
summary_of opts c =
    if op_eq c.op op_added_dir
    then elim opts.summarize [ none ↦ c.summary | some f ↦ f c.path ]
    else c.summary

abbrev pub summarized : Options → Change → Change
summarized opts c = record c { summary = summary_of opts c }

abbrev pub removed : Entry → Change
removed e = record {
  op = op_for_missing e false;
  path = e.path;
  old = some e;
  new = none;
  detail = [];
  summary = none;
}

abbrev pub added : Entry → Change
added e = record {
  op = op_for_missing e true;
  path = e.path;
  old = none;
  new = some e;
  detail = [];
  summary = none;
}

abbrev pub changed : (ℕ → ℕ → Bytes) → Entry → Entry → Change
changed ratio old live = record {
  op = (classify ratio old live).0;
  path = live.path;
  old = some old;
  new = some live;
  detail = (classify ratio old live).1;
  summary = none;
}

-- The test of `Feed` on the canonical order.
abbrev pub out_of_place : Joiner → Entry → Bool
out_of_place j live =
    j.started && (elim (compare_key j.last_live live.path) [ Ordering.lt ↦ false | _ ↦ true ])

module _ (ratio : ℕ → ℕ → Bytes) (glob : Bytes → Bytes → Option Bool)
    (emit : Change → Option Bytes) where
  abbrev pub emit_error : Change → Option Error
  emit_error c = elim (emit c) [ none ↦ none | some e ↦ some (callback e) ]

  -- `report`
  unfoldable pub report : Change → Joiner → Outcome
  report c j =
      if Ignore.match glob j.opts.ignore c.op c.path
      then (record j { stats = record (j.stats) { ignored = j.stats.ignored + 1 } }, none)
      else if not (shows j.opts.show c.op)
      then (record j { stats = record (j.stats) { hidden = j.stats.hidden + 1 } }, none)
      else (
        record j {
          stats = record (j.stats) { counts = bump c.op j.stats.counts };
          emitted = j.emitted ++ summarized j.opts c ∷ [];
        },
        emit_error (summarized j.opts c),
      )

  -- `reportRemoved`, at the entry that `old` holds
  unfoldable pub report_removed : Entry → Joiner → Outcome
  unfolding report advance
  report_removed e j = report (removed e) j and_then advance

  -- The first loop of `Feed`: each round pulls once.
  unfoldable pub drop_before : ℕ → Bytes → Joiner → Outcome
  unfolding report_removed compare_key
  drop_before zero path j = (j, some stuck)
  drop_before (suc fuel) path j = elim j.old [
    | none ↦ (j, none)
    | some e ↦ elim (compare_key e.path path) [
      | Ordering.lt ↦ report_removed e j and_then drop_before fuel path
      | _ ↦ (j, none)
    ]
  ]

  -- The path is on both sides.
  unfoldable pub report_common : Entry → Entry → Joiner → Outcome
  unfolding report advance classify
  report_common e live j =
      let j' = record j { stats = record (j.stats) { compared = j.stats.compared + 1 } } in
      (if op_eq (classify ratio e live).0 op_none
        then (j', none)
        else report (changed ratio e live) j')
      and_then advance

  -- The rest of `Feed`.
  unfoldable pub feed_here : Entry → Joiner → Outcome
  unfolding report report_common
  feed_here live j = elim j.old [
    | none ↦ report (added live) j
    | some e ↦ if bytes_eq e.path live.path then report_common e live j else report (added live) j
  ]

  -- `Feed`
  unfoldable pub feed : Entry → Joiner → Outcome
  unfolding drop_before feed_here
  feed live j =
      if out_of_place j live
      then (j, some out_of_order)
      else (drop_before (length j.base + 2) live.path
            (record j { last_live = live.path; started = true })
          and_then feed_here live)

  unfoldable pub drain : ℕ → Joiner → Outcome
  unfolding report_removed
  drain zero j = (j, some stuck)
  drain (suc fuel) j = elim j.old [
    | none ↦ (j, none)
    | some e ↦ report_removed e j and_then drain fuel
  ]

  -- `Finish`
  unfoldable pub finish : Joiner → Outcome
  unfolding drain
  finish j = if j.done then (j, none) else drain (length j.base + 2) (record j { done = true })

  -- `NewJoiner`
  unfoldable pub new_joiner : List Pull → Options → Outcome
  unfolding advance
  new_joiner base opts = advance (record {
    base = base;
    old = none;
    opts = opts;
    stats = record { counts = λ op. 0; ignored = 0; hidden = 0; compared = 0 };
    last_live = [];
    started = false;
    done = false;
    emitted = [];
  })

  -- The scan feeds its entries one by one, and an error ends it.
  unfoldable pub feed_all : List Entry → Joiner → Outcome
  unfolding feed
  feed_all [] j = (j, none)
  feed_all (live ∷ lives) j = feed live j and_then feed_all lives

  -- A whole comparison, as the command runs it.
  unfoldable pub join_all : List Pull → Options → List Entry → Outcome
  unfolding new_joiner feed_all finish
  join_all base opts lives = new_joiner base opts and_then feed_all lives and_then finish
