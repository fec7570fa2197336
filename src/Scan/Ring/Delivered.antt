-- ===== src/Scan/Ring/Delivered.antt =====
-- What `Walk` of internal/scan/walk.go has passed on where it returns, whatever order its goroutines
-- ran in.
use mathlib.Core.List.{append-nil}
use mathlib.Core.Path.{subst}
use osfp.Base.{
  Bytes, Bool, true, false, List, [], ◌++◌, Option, none, some, map, ◌≡◌, refl, sym, ap, ◌∙◌, arith,
}
use osfp.Entry.{Entry}
use osfp.Scan.Tree.{Answer}
use osfp.Scan.Settings.{Options}
use osfp.Scan.Walk.Hashed.{hashed}
use osfp.Scan.Walk.Totals.{count_all}
use osfp.Scan.Ring.{closed, Pipeline, launch}
use osfp.Scan.Ring.Steps.{
  Reached, launched, later, interrupted, IsOver, WalkError, refused, stopped, walk_error,
}
use osfp.Scan.Ring.Cells.{Cells-Reached}
use osfp.Scan.Ring.Order.{calls, Given, InOrder, InOrder-Step, given_of, Ahead-walking}

module _ (opts : Options) (contents : Bytes → Answer)
    (emit : List Entry → Entry → Option Bytes) where
  InOrder-launch :
      (es : List Entry)
      → InOrder opts contents emit (map (hashed opts contents) es) (launch opts es)
  unfolding launch count_all
  InOrder-launch es = record { given = (refl, refl); counted = refl; ahead = tt }

  InOrder-Reached :
      (es : List Entry) (s : Pipeline)
      → Reached opts contents emit es s
      → InOrder opts contents emit (map (hashed opts contents) es) s
  InOrder-Reached es s launched = InOrder-launch es
  InOrder-Reached es s (later r step) =
      InOrder-Step opts contents emit _ _ s step (Cells-Reached opts contents emit es _ r)
        (InOrder-Reached es _ r)
  InOrder-Reached es s (interrupted r) =
      let h = InOrder-Reached es _ r in
      record { given = h.given; counted = h.counted; ahead = h.ahead }

  -- What the callback was given of `goal`, for each error that `Walk` returns.
  abbrev pub Passed : List Entry → List Entry → Option WalkError → Type 0
  Passed goal emitted none = (calls emit [] goal ≡ (emitted, none)) × (emitted ≡ goal)
  Passed goal emitted (some (refused x)) = calls emit [] goal ≡ (emitted, some x)
  Passed goal emitted (some stopped) =
      (rest : List Entry) × (emitted ++ rest ≡ goal)
      × (calls emit [] goal ≡ calls emit emitted rest)

  calls_nil : (es : List Entry) → calls emit es [] ≡ (es, none)
  unfolding calls
  calls_nil es = refl

  abbrev outcome : Option Bytes → Bool → Option WalkError
  outcome (some x) b = some (refused x)
  outcome none true = some stopped
  outcome none false = none

  -- The consumer has nothing left to read.
  rest_over :
      (goal : List Entry) (s : Pipeline) (o : Option Bytes)
      → IsOver s
      → s.emit_err ≡ o
      → InOrder opts contents emit goal s
      → Given opts contents emit goal o s.emitted (map (hashed opts contents) s.todo)
  rest_over goal s o over e h =
      given_of opts contents emit goal s o _ e (rw (over.at_rest, over.drained) refl) h

  Passed-outcome :
      (goal : List Entry) (s : Pipeline) (o : Option Bytes) (b : Bool)
      → s.walk_err ≡ b
      → IsOver s
      → Given opts contents emit goal o s.emitted (map (hashed opts contents) s.todo)
      → InOrder opts contents emit goal s
      → Passed goal s.emitted (outcome o b)
  Passed-outcome goal s (some x) b f over g h = g
  Passed-outcome goal s none true f over (same, whole) h = (_, whole, same)
  Passed-outcome goal s none false f over (same, whole) h =
      let nothing =
        ap (map (hashed opts contents))
          (Ahead-walking opts contents emit goal s closed over.is_closed h f) in
      (
        same ∙ ap (calls emit s.emitted) nothing ∙ calls_nil s.emitted,
        sym (append-nil s.emitted) ∙ ap (λ r. s.emitted ++ r) (sym nothing) ∙ whole,
      )

  outcome_lem : (s : Pipeline) → outcome s.emit_err s.walk_err ≡ walk_error s
  outcome_lem s = ground arith

  -- However the goroutines of a scan take turns, and whenever the caller's context is cancelled: where
  -- the scan has ended without an error, the callback was given the entries of the walk in their
  -- order, each behind its worker, and accepted them. If the callback failed, it was given them up to
  -- the one that it refused, and its error is that of the scan; a scan that was cancelled has given it
  -- the first of them. What the scan counted are the entries that the callback was given.
  pub Reached-Passed :
      (es : List Entry) (s : Pipeline)
      → Reached opts contents emit es s
      → IsOver s
      → Passed (map (hashed opts contents) es) s.emitted (walk_error s)
        × (s.stats ≡ count_all s.emitted)
  Reached-Passed es s r o =
      let h = InOrder-Reached es s r in
      let goal = map (hashed opts contents) es in
      (
        subst (Passed goal s.emitted) (outcome_lem s) (
            Passed-outcome goal s s.emit_err s.walk_err refl o
              (rest_over goal s s.emit_err o refl h) h),
        h.counted,
      )
