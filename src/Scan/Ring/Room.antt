-- ===== src/Scan/Ring/Room.antt =====
-- The channels between the goroutines of `Walk` in internal/scan/walk.go, and how full they are.
use osfp.Base.{
  ℕ, zero, suc, ◌+◌, ◌≤◌, ◌<◌, Bytes, Bool, true, false, List, [], ◌∷◌, Option, none, some, length,
  length-append, ◌≡◌, arith,
}
use osfp.Entry.{Entry}
use osfp.Scan.Tree.{Answer}
use osfp.Scan.Walk.{ring_size}
use osfp.Scan.Settings.{Options}
use osfp.Scan.Ring.{
  Walking, idle, entering, holding, offering, ready, stopping, closed, got, spent, Pipeline,
  cells_from, launch, called, consume,
}
use osfp.Scan.Ring.Steps.{
  Step, enter, refuse, take_cell, no_cell, offer, skip_hash, take_work, no_worker, hand_on,
  hash_work, visited, end_sequence, receive, call_back, give_back, Reached, launched, later,
  interrupted,
}
use osfp.Scan.Ring.Cells.{read, held}

-- The walk goes on, and it has an entry in its hands.
abbrev pub goes_on : Walking → Bool
goes_on stopping = false
goes_on closed = false
goes_on idle = true
goes_on entering = true
goes_on (holding k) = true
goes_on (offering k) = true
goes_on (ready k) = true

abbrev pub is_idle : Walking → Bool
is_idle idle = true
is_idle _ = false

abbrev pub in_use : Pipeline → ℕ
in_use s = length (read s.reading) + length s.ordered + length (held s.walking) + length s.free

-- No cell is made or, while the walk goes on, lost; and no worker has two.
pub record Room (opts : Options) (s : Pipeline) : Type 0 where
  pub bounded : in_use s ≤ ring_size opts
  pub complete : goes_on s.walking ≡ true → in_use s ≡ ring_size opts
  pub busy : goes_on s.walking ≡ true → is_idle s.walking ≡ false → 1 ≤ length s.todo
  pub workers : length s.work ≤ opts.jobs

length-cells_from : (k n : ℕ) → length (cells_from k n) ≡ n
length-cells_from k zero = omega arith
length-cells_from k (suc n) = omega (arith, length-cells_from (suc k) n)

Room-launch : (opts : Options) (es : List Entry) → Room opts (launch opts es)
unfolding launch
Room-launch opts es = ground (arith, length-cells_from 0 (ring_size opts))

module _ (opts : Options) (contents : Bytes → Answer)
    (emit : List Entry → Entry → Option Bytes) where
  Room-called :
      (s : Pipeline) (e : Entry) (k : ℕ) (a : Option Bytes)
      → s.reading ≡ got k
      → Room opts s
      → Room opts (record (called e a s) { reading = spent k })
  Room-called s e k none w r = ground arith
  Room-called s e k (some x) w r = ground arith

  Room-consume :
      (s : Pipeline) (k : ℕ) (failed : Option Bytes)
      → s.reading ≡ got k
      → Room opts s
      → Room opts (consume emit k failed s)
  Room-consume s k none w r =
      Room-called s (s.cells k).entry k (emit s.emitted (s.cells k).entry) w r
  Room-consume s k (some x) w r = ground arith

  Room-Step : (s t : Pipeline) → Step opts contents emit s t → Room opts s → Room opts t
  Room-Step s t (enter _ e es w d g) r = ground arith
  Room-Step s t (refuse _ e es w d g) r = ground arith
  Room-Step s t (take_cell _ e es k rest w d f) r = ground arith
  Room-Step s t (no_cell _ w g) r = ground arith
  Room-Step s t (offer _ k w h) r = ground arith
  Room-Step s t (skip_hash _ k w h) r = ground arith
  Room-Step s t (take_work _ k w h) r = ground arith
  Room-Step s t (no_worker _ k w h) r = ground arith
  Room-Step s t (hand_on _ e es k w d) r = ground (arith, length-append s.ordered (k ∷ []))
  Room-Step s t (hash_work _ k before behind w) r =
      ground (arith, length-append before (k ∷ behind), length-append before behind)
  Room-Step s t (visited _ w d) r = ground arith
  Room-Step s t (end_sequence _ w d) r = ground arith
  Room-Step s t (receive _ k rest w d) r = ground arith
  Room-Step s t (call_back _ k w d) r = Room-consume s k s.emit_err w r
  Room-Step s t (give_back _ k w) r = ground (arith, length-append s.free (k ∷ []))

  pub Room-Reached :
      (es : List Entry) (s : Pipeline) → Reached opts contents emit es s → Room opts s
  Room-Reached es s launched = Room-launch opts es
  Room-Reached es s (later r step) = Room-Step _ s step (Room-Reached es _ r)
  Room-Reached es s (interrupted r) = ground (arith, Room-Reached es _ r)

  -- A cell that the walk commits, or that the consumer releases, finds room in its channel, however
  -- the goroutines take turns; no more cells are in use than the ring has, and no more with a worker
  -- than there are workers.
  pub Reached-fits :
      (es : List Entry) (s : Pipeline) (k : ℕ)
      → Reached opts contents emit es s
      → (s.walking ≡ ready k → length s.ordered < ring_size opts)
        × (s.reading ≡ spent k → length s.free < ring_size opts)
        × (length (read s.reading) + length s.ordered + length (held s.walking) + length s.free
            ≤ ring_size opts)
        × (length s.work ≤ opts.jobs)
  Reached-fits es s k r = ground (arith, Room-Reached es s r)
