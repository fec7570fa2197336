-- ===== src/Scan/Ring/Cells.antt =====
-- The cells of the ring in reorder.go, as the goroutines of `Walk` share them.
use osfp.Base.{
  ℕ, zero, suc, ◌+◌, ◌≤◌, ◌<◌, Bytes, List, [], ◌∷◌, ◌++◌, Option, none, some, ◌==◌, if◌then◌else◌,
  ◌≡◌, refl, arith,
}
use osfp.Entry.{Entry}
use osfp.Scan.Tree.{Answer}
use osfp.Scan.Walk.{ring_size}
use osfp.Scan.Settings.{Options}
use osfp.Scan.Ring.{
  Walking, idle, entering, holding, offering, ready, stopping, closed, Reading, waiting, got, spent,
  Pipeline, cells_from, launch, called, consume,
}
use osfp.Scan.Ring.Steps.{
  Step, enter, refuse, take_cell, no_cell, offer, skip_hash, take_work, no_worker, hand_on,
  hash_work, visited, end_sequence, receive, call_back, give_back, Reached, launched, later,
  interrupted,
}

-- How often a cell occurs in a channel.
abbrev pub occurs : ℕ → List ℕ → ℕ
occurs k [] = 0
occurs k (x ∷ xs) = if k == x then suc (occurs k xs) else occurs k xs

pub occurs-append : (k : ℕ) (xs ys : List ℕ) → occurs k (xs ++ ys) ≡ occurs k xs + occurs k ys
occurs-append k [] ys = omega arith
occurs-append k (x ∷ xs) ys = ground (arith, occurs-append k xs ys)

-- The cell of the walk, and that of the consumer.
abbrev pub held : Walking → List ℕ
held (holding k) = k ∷ []
held (offering k) = k ∷ []
held (ready k) = k ∷ []
held idle = []
held entering = []
held stopping = []
held closed = []

abbrev pub filled : Walking → List ℕ
filled (holding k) = k ∷ []
filled (offering k) = []
filled (ready k) = []
filled idle = []
filled entering = []
filled stopping = []
filled closed = []

abbrev pub offered : Walking → List ℕ
offered (holding k) = []
offered (offering k) = k ∷ []
offered (ready k) = []
offered idle = []
offered entering = []
offered stopping = []
offered closed = []

abbrev pub read : Reading → List ℕ
read waiting = []
read (got k) = k ∷ []
read (spent k) = k ∷ []

abbrev pub used : Reading → List ℕ
used waiting = []
used (got k) = []
used (spent k) = k ∷ []

-- A cell is in one place. If it is in the hands of a worker, or offered to one, it is waited for,
-- and not free.
pub record CellAt (s : Pipeline) (k : ℕ) : Type 0 where
  pub single :
      occurs k (read s.reading) + occurs k s.ordered + occurs k (held s.walking) + occurs k s.free
      ≤ 1
  pub waits : (s.cells k).pending ≡ occurs k s.work + occurs k (offered s.walking)
  pub apart :
      occurs k s.work
        + occurs k (offered s.walking)
        + occurs k (used s.reading)
        + occurs k (filled s.walking)
        + occurs k s.free
      ≤ 1

abbrev pub Cells : Pipeline → Type 0
Cells s = (k : ℕ) → CellAt s k

occurs-cells_from :
    (k i n : ℕ) → (occurs k (cells_from i n) ≤ 1) × (k < i → occurs k (cells_from i n) ≡ 0)
occurs-cells_from k i zero = (omega arith, λ h. refl)
occurs-cells_from k i (suc n) = ground (arith, occurs-cells_from k (suc i) n)

Cells-launch : (opts : Options) (es : List Entry) → Cells (launch opts es)
unfolding launch
Cells-launch opts es k = ground (arith, (occurs-cells_from k 0 (ring_size opts)).0)

module _ (opts : Options) (contents : Bytes → Answer)
    (emit : List Entry → Entry → Option Bytes) where
  Cells-called :
      (s : Pipeline) (k : ℕ) (a : Option Bytes)
      → s.reading ≡ got k
      → (s.cells k).pending ≡ 0
      → Cells s
      → Cells (record (called (s.cells k).entry a s) { reading = spent k })
  Cells-called s k none w d c j = ground (arith, c j)
  Cells-called s k (some x) w d c j = ground (arith, c j)

  Cells-consume :
      (s : Pipeline) (k : ℕ) (failed : Option Bytes)
      → s.reading ≡ got k
      → (s.cells k).pending ≡ 0
      → Cells s
      → Cells (consume emit k failed s)
  Cells-consume s k none w d c = Cells-called s k (emit s.emitted (s.cells k).entry) w d c
  Cells-consume s k (some x) w d c = λ j. ground (arith, c j)

  pub Cells-Step : (s t : Pipeline) → Step opts contents emit s t → Cells s → Cells t
  Cells-Step s t (enter _ e es w d g) c j = ground (arith, c j)
  Cells-Step s t (refuse _ e es w d g) c j = ground (arith, c j)
  Cells-Step s t (take_cell _ e es k rest w d f) c j = ground (arith, c j)
  Cells-Step s t (no_cell _ w g) c j = ground (arith, c j)
  Cells-Step s t (offer _ k w h) c j = ground (arith, c j, c k)
  Cells-Step s t (skip_hash _ k w h) c j = ground (arith, c j)
  Cells-Step s t (take_work _ k w h) c j = ground (arith, c j)
  Cells-Step s t (no_worker _ k w h) c j = ground (arith, c j, c k)
  Cells-Step s t (hand_on _ e es k w d) c j =
      ground (arith, c j, occurs-append j s.ordered (k ∷ []))
  Cells-Step s t (hash_work _ k before behind w) c j = ground (
    arith,
    c j,
    c k,
    occurs-append j before (k ∷ behind),
    occurs-append j before behind,
    occurs-append k before (k ∷ behind),
  )
  Cells-Step s t (visited _ w d) c j = ground (arith, c j)
  Cells-Step s t (end_sequence _ w d) c j = ground (arith, c j)
  Cells-Step s t (receive _ k rest w d) c j = ground (arith, c j)
  Cells-Step s t (call_back _ k w d) c j = Cells-consume s k s.emit_err w d c j
  Cells-Step s t (give_back _ k w) c j = ground (arith, c j, occurs-append j s.free (k ∷ []))

  pub Cells-Reached : (es : List Entry) (s : Pipeline) → Reached opts contents emit es s → Cells s
  Cells-Reached es s launched = Cells-launch opts es
  Cells-Reached es s (later r step) = Cells-Step _ s step (Cells-Reached es _ r)
  Cells-Reached es s (interrupted r) = λ j. ground (arith, Cells-Reached es _ r j)
