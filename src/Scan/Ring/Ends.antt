-- ===== src/Scan/Ring/Ends.antt =====
-- How long the goroutines of `Walk` in internal/scan/walk.go go on.
use osfp.Base.{
  ℕ, suc, ◌+◌, ◌*◌, ◌≤◌, ◌<◌, Bytes, List, [], ◌∷◌, Option, none, some, length, length-append, ◌≡◌,
  arith,
}
use osfp.Entry.{Entry}
use osfp.Scan.Tree.{Answer}
use osfp.Scan.Settings.{Options}
use osfp.Scan.Ring.{
  Walking, idle, entering, holding, offering, ready, stopping, closed, Reading, waiting, got, spent,
  Pipeline, launch, called, consume,
}
use osfp.Scan.Ring.Steps.{
  Step, enter, refuse, take_cell, no_cell, offer, skip_hash, take_work, no_worker, hand_on,
  hash_work, visited, end_sequence, receive, call_back, give_back, Reached, launched, later,
  interrupted,
}

-- The steps that the walk, and the consumer, may still take.
abbrev walk_weight : Walking → ℕ → ℕ
walk_weight idle n = 9 * n + 7
walk_weight entering n = 9 * n + 6
walk_weight (holding k) n = 9 * n + 5
walk_weight (offering k) n = 9 * n + 4
walk_weight (ready k) n = 9 * n + 2
walk_weight stopping n = 1
walk_weight closed n = 0

abbrev read_weight : Reading → ℕ
read_weight waiting = 0
read_weight (got k) = 2
read_weight (spent k) = 1

abbrev pub weight : Pipeline → ℕ
weight s =
    walk_weight s.walking (length s.todo)
    + 3 * length s.ordered
    + length s.work
    + read_weight s.reading

module _ (opts : Options) (contents : Bytes → Answer)
    (emit : List Entry → Entry → Option Bytes) where
  weight-called :
      (s : Pipeline) (e : Entry) (k : ℕ) (a : Option Bytes)
      → s.reading ≡ got k
      → weight (record (called e a s) { reading = spent k }) < weight s
  weight-called s e k none w = ground arith
  weight-called s e k (some x) w = ground arith

  weight-consume :
      (s : Pipeline) (k : ℕ) (failed : Option Bytes)
      → s.reading ≡ got k
      → weight (consume emit k failed s) < weight s
  weight-consume s k none w =
      weight-called s (s.cells k).entry k (emit s.emitted (s.cells k).entry) w
  weight-consume s k (some x) w = ground arith

  weight-Step : (s t : Pipeline) → Step opts contents emit s t → weight t < weight s
  weight-Step s t (enter _ e es w d g) = ground arith
  weight-Step s t (refuse _ e es w d g) = ground arith
  weight-Step s t (take_cell _ e es k rest w d f) = ground arith
  weight-Step s t (no_cell _ w g) = ground arith
  weight-Step s t (offer _ k w h) = ground arith
  weight-Step s t (skip_hash _ k w h) = ground arith
  weight-Step s t (take_work _ k w h) = ground arith
  weight-Step s t (no_worker _ k w h) = ground arith
  weight-Step s t (hand_on _ e es k w d) = ground (arith, length-append s.ordered (k ∷ []))
  weight-Step s t (hash_work _ k before behind w) =
      ground (arith, length-append before (k ∷ behind), length-append before behind)
  weight-Step s t (visited _ w d) = ground arith
  weight-Step s t (end_sequence _ w d) = ground arith
  weight-Step s t (receive _ k rest w d) = ground arith
  weight-Step s t (call_back _ k w d) = weight-consume s k s.emit_err w
  weight-Step s t (give_back _ k w) = ground arith

  -- The steps of the program that lead to a state.
  abbrev pub turns : {es : List Entry} {s : Pipeline} → Reached opts contents emit es s → ℕ
  turns launched = 0
  turns (later r step) = suc (turns r)
  turns (interrupted r) = turns r

  weight-launch : (es : List Entry) → weight (launch opts es) ≡ 9 * length es + 7
  unfolding launch
  weight-launch es = omega arith

  turns-weight :
      (es : List Entry) (s : Pipeline) (r : Reached opts contents emit es s)
      → turns r + weight s ≤ 9 * length es + 7
  turns-weight es s launched = omega (arith, weight-launch es)
  turns-weight es s (later r step) = omega (arith, turns-weight es _ r, weight-Step _ s step)
  turns-weight es s (interrupted r) = turns-weight es _ r

  -- However the goroutines of a scan take turns, they take nine steps for each entry of the walk at
  -- most, and seven more.
  pub turns-le :
      (es : List Entry) (s : Pipeline) (r : Reached opts contents emit es s)
      → turns r ≤ 9 * length es + 7
  turns-le es s r = omega (arith, turns-weight es s r)
