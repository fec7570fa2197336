-- ===== src/Scan/Ring/Live.antt =====
-- The goroutines of `Walk` in internal/scan/walk.go never all wait for each other.
use osfp.Base.{
  ℕ, ◌≤◌, Bytes, not, ◌&&◌, List, [], ◌∷◌, Option, ◌==◌, length, ◌≡◌, ◌⊎◌, inl, inr, refl, arith,
  Bool-cases,
}
use osfp.Entry.{Entry, type_error}
use osfp.Scan.Tree.{Answer}
use osfp.Scan.Settings.{Options, set_defaults}
use osfp.Scan.Ring.{
  Walking, idle, entering, holding, offering, ready, stopping, closed, Reading, waiting, got, spent,
  Pipeline, hashes,
}
use osfp.Scan.Ring.Steps.{
  Step, enter, refuse, take_cell, offer, skip_hash, take_work, hand_on, hash_work, visited,
  end_sequence, receive, call_back, give_back, Reached, IsOver,
}
use osfp.Scan.Ring.Cells.{occurs, held, offered, CellAt, Cells, Cells-Reached}
use osfp.Scan.Ring.Room.{Room, Room-Reached}

offered-held : (w : Walking) (k : ℕ) → occurs k (offered w) ≤ occurs k (held w)
offered-held idle k = omega arith
offered-held entering k = omega arith
offered-held (holding j) k = omega arith
offered-held (offering j) k = omega arith
offered-held (ready j) k = omega arith
offered-held stopping k = omega arith
offered-held closed k = omega arith

module _ (opts : Options) (contents : Bytes → Answer)
    (emit : List Entry → Entry → Option Bytes) where
  abbrev pub Advances : Pipeline → Type 0
  Advances s = IsOver s ⊎ ((t : Pipeline) × Step opts contents emit s t)

  idle-Step :
      (s : Pipeline) (todo : List Entry)
      → s.todo ≡ todo
      → s.walking ≡ idle
      → (t : Pipeline) × Step opts contents emit s t
  idle-Step s [] d w = (_, visited s w d)
  idle-Step s (e ∷ es) d w = elim (Bool-cases (s.cancelled && not (e.type == type_error))) [
    | inl stop ↦ (_, refuse s e es w d stop)
    | inr go ↦ (_, enter s e es w d go)
  ]

  entering-Step :
      (s : Pipeline) (free : List ℕ) (todo : List Entry)
      → s.free ≡ free
      → s.todo ≡ todo
      → s.walking ≡ entering
      → 1 ≤ length free
      → 1 ≤ length todo
      → (t : Pipeline) × Step opts contents emit s t
  entering-Step s [] todo f d w h n = absurd (omega arith)
  entering-Step s (k ∷ rest) [] f d w h n = absurd (omega arith)
  entering-Step s (k ∷ rest) (e ∷ es) f d w h n = (_, take_cell s e es k rest w d f)

  holding-Step :
      (s : Pipeline) (k : ℕ) → s.walking ≡ holding k → (t : Pipeline) × Step opts contents emit s t
  holding-Step s k w = elim (Bool-cases (hashes opts (s.cells k).entry)) [
    | inl h ↦ (_, offer s k w h)
    | inr h ↦ (_, skip_hash s k w h)
  ]

  ready-Step :
      (s : Pipeline) (k : ℕ) (todo : List Entry)
      → s.todo ≡ todo
      → s.walking ≡ ready k
      → 1 ≤ length todo
      → (t : Pipeline) × Step opts contents emit s t
  ready-Step s k [] d w n = absurd (omega arith)
  ready-Step s k (e ∷ es) d w n = (_, hand_on s e es k w d)

  got_done :
      (s : Pipeline) (k : ℕ)
      → s.reading ≡ got k
      → s.work ≡ []
      → CellAt s k
      → (s.cells k).pending ≡ 0
  got_done s k d w c = ground (arith, c, offered-held s.walking k)

  -- The workers and the consumer wait for the walk.
  record Quiet (s : Pipeline) : Type 0 where
    no_work : s.work ≡ []
    no_order : s.ordered ≡ []
    no_read : s.reading ≡ waiting

  walk-Advances :
      (s : Pipeline) (walking : Walking)
      → s.walking ≡ walking
      → 1 ≤ opts.jobs
      → Quiet s
      → Room opts s
      → Advances s
  walk-Advances s idle w j q r = inr (idle-Step s s.todo refl w)
  walk-Advances s entering w j q r =
      inr (entering-Step s s.free s.todo refl refl w (ground arith) (ground arith))
  walk-Advances s (holding k) w j q r = inr (holding-Step s k w)
  walk-Advances s (offering k) w j q r = inr (_, take_work s k w (ground arith))
  walk-Advances s (ready k) w j q r = inr (ready-Step s k s.todo refl w (ground arith))
  walk-Advances s stopping w j q r = inr (_, end_sequence s w q.no_work)
  walk-Advances s closed w j q r =
      inl (record { is_closed = w; drained = q.no_order; at_rest = q.no_read })

  -- No worker has a cell.
  idle_workers-Advances :
      (s : Pipeline) (reading : Reading) (ordered : List ℕ)
      → s.reading ≡ reading
      → s.ordered ≡ ordered
      → s.work ≡ []
      → 1 ≤ opts.jobs
      → Cells s
      → Room opts s
      → Advances s
  idle_workers-Advances s (got k) ordered d o w j c r =
      inr (_, call_back s k d (got_done s k d w (c k)))
  idle_workers-Advances s (spent k) ordered d o w j c r = inr (_, give_back s k d)
  idle_workers-Advances s waiting (k ∷ rest) d o w j c r = inr (_, receive s k rest d o)
  idle_workers-Advances s waiting [] d o w j c r =
      walk-Advances s s.walking refl j (record { no_work = w; no_order = o; no_read = d }) r

  work-Advances :
      (s : Pipeline) (work : List ℕ)
      → s.work ≡ work
      → 1 ≤ opts.jobs
      → Cells s
      → Room opts s
      → Advances s
  work-Advances s (k ∷ rest) w j c r = inr (_, hash_work s k [] rest w)
  work-Advances s [] w j c r = idle_workers-Advances s s.reading s.ordered refl refl w j c r

  -- With one worker at least, the goroutines of a scan never all wait for each other: its consumer has
  -- come to its end, or one of them can take a step, whatever the callback answered and whether or not
  -- the context was cancelled.
  pub Reached-Advances :
      (es : List Entry) (s : Pipeline)
      → 1 ≤ opts.jobs
      → Reached opts contents emit es s
      → Advances s
  Reached-Advances es s j r =
      work-Advances s s.work refl j (Cells-Reached opts contents emit es s r)
        (Room-Reached opts contents emit es s r)

-- The options of a scan, with their defaults, have a worker.
pub jobs-set_defaults : (cpus : ℕ) (o : Options) → 1 ≤ cpus → 1 ≤ (set_defaults cpus o).jobs
unfolding set_defaults
jobs-set_defaults cpus o h = ground arith
