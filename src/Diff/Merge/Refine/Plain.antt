-- ===== src/Diff/Merge/Refine/Plain.antt =====
-- A plain merge of two lists of entries, and the states of the joiner in its terms.
use Prim.Native.Nat.{Ordering}
use osfp.Base.{
  ℕ, suc, ◌+◌, ◌≤◌, Bytes, Bool, true, false, not, List, [], ◌∷◌, ◌++◌, map, Option, none, some,
  if◌then◌else◌, length, ◌≡◌, refl, ap, arith,
}
use osfp.Canon.{compare_key}
use osfp.Canon.Order.{◌≺◌}
use osfp.Entry.{Entry}
use osfp.Diff.Op.{Op, op_none, op_eq}
use osfp.Diff.Classify.{classify}
use osfp.Diff.Ignore
use osfp.Diff.Merge.{
  Change, Options, Pull, entry, Joiner, bump, shows, summarized, removed, added, changed,
  out_of_place,
}

-- The changes for a path that is on both sides.
unfoldable pub common : (ℕ → ℕ → Bytes) → Entry → Entry → List Change
common ratio old live =
    if op_eq (classify ratio old live).0 op_none then [] else changed ratio old live ∷ []

-- What the arrival of one live entry reports, of a fingerprint's remaining entries.
unfoldable pub upto : (ℕ → ℕ → Bytes) → Entry → List Entry → List Change
upto ratio live [] = added live ∷ []
upto ratio live (e ∷ olds) = elim (compare_key e.path live.path) [
  | Ordering.lt ↦ removed e ∷ upto ratio live olds
  | Ordering.eq ↦ common ratio e live
  | Ordering.gt ↦ added live ∷ []
]

-- What remains of the fingerprint after it.
unfoldable pub rest_after : Entry → List Entry → List Entry
rest_after live [] = []
rest_after live (e ∷ olds) = elim (compare_key e.path live.path) [
  | Ordering.lt ↦ rest_after live olds
  | Ordering.eq ↦ olds
  | Ordering.gt ↦ e ∷ olds
]

-- The number of paths on both sides.
unfoldable pub met : Entry → List Entry → ℕ
met live [] = 0
met live (e ∷ olds) = elim (compare_key e.path live.path) [
  | Ordering.lt ↦ met live olds
  | Ordering.eq ↦ 1
  | Ordering.gt ↦ 0
]

-- Every difference between two lists of entries, before any filter.
unfoldable pub classified : (ℕ → ℕ → Bytes) → List Entry → List Entry → List Change
classified ratio olds [] = map removed olds
classified ratio olds (live ∷ lives) =
    upto ratio live olds ++ classified ratio (rest_after live olds) lives

unfoldable pub met_all : List Entry → List Entry → ℕ
met_all olds [] = 0
met_all olds (live ∷ lives) = met live olds + met_all (rest_after live olds) lives

-- Each live path comes after the one before it.
abbrev pub Follows : Bool → Bytes → List Entry → Type 0
Follows started last [] = Unit
Follows false last (live ∷ lives) = Follows true live.path lives
Follows true last (live ∷ lives) = (last ≺ live.path) × Follows true live.path lives

-- What the joiner has counted and delivered.
pub record Ledger : Type 0 where
  pub counts : Op → ℕ
  pub ignored : ℕ
  pub hidden : ℕ
  pub emitted : List Change

abbrev pub no_changes : Ledger
no_changes = record { counts = λ op. 0; ignored = 0; hidden = 0; emitted = [] }

abbrev pub first : List Entry → Option Entry
first [] = none
first (e ∷ olds) = some e

abbrev pub later : List Entry → List Pull
later [] = []
later (e ∷ olds) = map entry olds

abbrev pub last_path : Bytes → List Entry → Bytes
last_path last [] = last
last_path last (live ∷ lives) = last_path live.path lives

abbrev pub has_started : Bool → List Entry → Bool
has_started started [] = started
has_started started (live ∷ lives) = has_started true lives

length-map : (olds : List Entry) → length (map entry olds) ≡ length olds
length-map [] = refl
length-map (e ∷ olds) = ap suc (length-map olds)

pub length-later : (olds : List Entry) → length olds ≤ length (later olds) + 1
length-later [] = omega arith
length-later (e ∷ olds) = omega (arith, length-map olds)

module _ (glob : Bytes → Bytes → Option Bool) (opts : Options) where
  -- A change goes to one of the three counters.
  unfoldable pub post : Ledger → Change → Ledger
  post g c =
      if Ignore.match glob opts.ignore c.op c.path
      then record g { ignored = g.ignored + 1 }
      else if not (shows opts.show c.op)
      then record g { hidden = g.hidden + 1 }
      else record g { counts = bump c.op g.counts; emitted = g.emitted ++ summarized opts c ∷ [] }

  -- The joiner with the fingerprint's entries `olds` still to come.
  abbrev pub state : List Entry → Ledger → ℕ → Bytes → Bool → Bool → Joiner
  state olds g n last started done = record {
    base = later olds;
    old = first olds;
    opts = opts;
    stats = record { counts = g.counts; ignored = g.ignored; hidden = g.hidden; compared = n };
    last_live = last;
    started = started;
    done = done;
    emitted = g.emitted;
  }

pub Follows-cons :
    (glob : Bytes → Bytes → Option Bool) (opts : Options) (started : Bool) (live : Entry)
    (lives olds : List Entry) (g : Ledger) (n : ℕ) (last : Bytes)
    → Follows started last (live ∷ lives)
    → (out_of_place (state glob opts olds g n last started false) live ≡ false)
      × Follows true live.path lives
Follows-cons glob opts false live lives olds g n last h = (refl, h)
Follows-cons glob opts true live lives olds g n last h = (rw h.0, h.1)
