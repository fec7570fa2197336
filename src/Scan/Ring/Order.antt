-- ===== src/Scan/Ring/Order.antt =====
-- What the consumer of `Walk` in internal/scan/walk.go hands to the callback, whatever order the
-- goroutines run in.
use mathlib.Core.List.{append_assoc, foldl-append}
use mathlib.Core.Path.{fun_ext, subst}
use osfp.Base.{
  ℕ, Bytes, Bool, false, List, [], ◌∷◌, ◌++◌, Option, none, some, map, ◌≡◌, refl, sym, ap, ◌∙◌,
  arith,
}
use osfp.Entry.{Entry}
use osfp.Scan.Tree.{Answer}
use osfp.Scan.Settings.{Options, Stats, count}
use osfp.Scan.Walk.Hashed.{hashed}
use osfp.Scan.Walk.Totals.{no_stats, count_all}
use osfp.Scan.Ring.{
  Slot, Walking, idle, entering, holding, offering, ready, stopping, closed, got, spent, Pipeline,
  called, consume, hash_cell,
}
use osfp.Scan.Ring.Steps.{
  Step, enter, refuse, take_cell, no_cell, offer, skip_hash, take_work, no_worker, hand_on,
  hash_work, visited, end_sequence, receive, call_back, give_back,
}
use osfp.Scan.Ring.Cells.{Cells}
use osfp.Scan.Ring.Coming.{
  unread, absent, worked, put_same, settled, coming, settled-hash, coming-put, coming_snoc,
  settled-offered, settled-skipped, settled_done,
}

-- The calls of a callback on the entries in order, up to the first that fails, behind `before`.
unfoldable pub calls :
    (List Entry → Entry → Option Bytes) → List Entry → List Entry → List Entry × Option Bytes
calls emit before [] = (before, none)
calls emit before (e ∷ es) =
    let rest = calls emit (before ++ e ∷ []) es in
    elim (emit before e) [ none ↦ rest | some x ↦ (before ++ e ∷ [], some x) ]

counted_snoc :
    (es : List Entry) (e : Entry) (c : Stats)
    → c ≡ count_all es
    → count c e ≡ count_all (es ++ e ∷ [])
unfolding count_all
counted_snoc es e c h = ap (λ d. count d e) h ∙ sym (foldl-append count no_stats es (e ∷ []))

module _ (opts : Options) (contents : Bytes → Answer)
    (emit : List Entry → Entry → Option Bytes) where
  abbrev pub Ahead : Walking → List Entry → (ℕ → Slot) → Bool → Type 0
  Ahead (holding k) todo cells err =
      (e : Entry) × (es : List Entry) × (todo ≡ e ∷ es)
      × (cells k ≡ record { entry = e; pending = 0 })
  Ahead (offering k) todo cells err =
      (e : Entry) × (es : List Entry) × (todo ≡ e ∷ es)
      × (settled opts contents (cells k) ≡ hashed opts contents e)
  Ahead (ready k) todo cells err =
      (e : Entry) × (es : List Entry) × (todo ≡ e ∷ es)
      × (settled opts contents (cells k) ≡ hashed opts contents e)
  Ahead idle todo cells err = Unit {0}
  Ahead entering todo cells err = Unit {0}
  Ahead stopping todo cells err = err ≡ false → todo ≡ []
  Ahead closed todo cells err = err ≡ false → todo ≡ []

  module _ (goal : List Entry) where
    -- What the callback was given, before and behind an error of it.
    abbrev pub Given : Option Bytes → List Entry → List Entry → Type 0
    Given none emitted rest =
        (calls emit [] goal ≡ calls emit emitted rest) × (emitted ++ rest ≡ goal)
    Given (some x) emitted rest = calls emit [] goal ≡ (emitted, some x)

    pub record InOrder (s : Pipeline) : Type 0 where
      pub given :
          Given s.emit_err s.emitted
            (coming opts contents s.cells (unread s.reading ++ s.ordered) s.todo)
      pub counted : s.stats ≡ count_all s.emitted
      pub ahead : Ahead s.walking s.todo s.cells s.walk_err

  calls_step :
      (before es : List Entry) (e : Entry)
      → emit before e ≡ none
      → calls emit before (e ∷ es) ≡ calls emit (before ++ e ∷ []) es
  unfolding calls
  calls_step before es e h = ground arith

  calls_fail :
      (before es : List Entry) (e : Entry) (x : Bytes)
      → emit before e ≡ some x
      → calls emit before (e ∷ es) ≡ (before ++ e ∷ [], some x)
  unfolding calls
  calls_fail before es e x h = ground arith

  Ahead-hash :
      (w : Walking) (todo : List Entry) (s : Pipeline) (err : Bool) (k : ℕ)
      → (s.cells k).pending ≡ 1
      → Ahead w todo s.cells err
      → Ahead w todo (hash_cell opts contents k [] s).cells err
  Ahead-hash (holding j) todo s err k p (e, es, d, h) = (e, es, d, ground arith)
  Ahead-hash (offering j) todo s err k p (e, es, d, h) =
      (e, es, d, settled-hash opts contents k s.cells j p ∙ h)
  Ahead-hash (ready j) todo s err k p (e, es, d, h) =
      (e, es, d, settled-hash opts contents k s.cells j p ∙ h)
  Ahead-hash idle todo s err k p h = tt
  Ahead-hash entering todo s err k p h = tt
  Ahead-hash stopping todo s err k p h = h
  Ahead-hash closed todo s err k p h = h

  -- Values that stay what they were.
  InOrder-same :
      (goal : List Entry) (s t : Pipeline)
      → coming opts contents t.cells (unread t.reading ++ t.ordered) t.todo
        ≡ coming opts contents s.cells (unread s.reading ++ s.ordered) s.todo
      → t.emitted ≡ s.emitted
      → t.stats ≡ s.stats
      → t.emit_err ≡ s.emit_err
      → Ahead t.walking t.todo t.cells t.walk_err
      → InOrder goal s
      → InOrder goal t
  InOrder-same goal s t same emitted stats err ahead h = record {
    given = rw (same, emitted, err) h.given;
    counted = rw (stats, emitted) h.counted;
    ahead = ahead;
  }

  module _ (goal : List Entry) where
    pub Ahead-walking :
        (s : Pipeline) (w : Walking)
        → s.walking ≡ w
        → InOrder goal s
        → Ahead w s.todo s.cells s.walk_err
    Ahead-walking s w e h = subst (λ x. Ahead x s.todo s.cells s.walk_err) e h.ahead

    pub given_of :
        (s : Pipeline) (o : Option Bytes) (rest : List Entry)
        → s.emit_err ≡ o
        → coming opts contents s.cells (unread s.reading ++ s.ordered) s.todo ≡ rest
        → InOrder goal s
        → Given goal o s.emitted rest
    given_of s o rest e f h = rw⁻¹ (e, f) h.given

    -- The consumer passes an entry on, the first of those that are coming opts contents.
    InOrder-called :
        (s : Pipeline) (k : ℕ) (a : Option Bytes)
        → emit s.emitted (s.cells k).entry ≡ a
        → Given goal none s.emitted
            ((s.cells k).entry ∷ coming opts contents s.cells s.ordered s.todo)
        → s.emit_err ≡ none
        → InOrder goal s
        → InOrder goal (record (called (s.cells k).entry a s) { reading = spent k })
    InOrder-called s k none answer (same, whole) calm h = record {
      given = rw calm (
        same
            ∙ calls_step s.emitted (coming opts contents s.cells s.ordered s.todo) (s.cells k).entry
                answer,
        append_assoc s.emitted ((s.cells k).entry ∷ [])
              (coming opts contents s.cells s.ordered s.todo)
            ∙ whole,
      );
      counted = counted_snoc s.emitted (s.cells k).entry s.stats h.counted;
      ahead = h.ahead;
    }
    InOrder-called s k (some x) answer (same, whole) calm h = record {
      given =
          same
          ∙ calls_fail s.emitted (coming opts contents s.cells s.ordered s.todo) (s.cells k).entry x
              answer;
      counted = counted_snoc s.emitted (s.cells k).entry s.stats h.counted;
      ahead = h.ahead;
    }

    InOrder-consume :
        (s : Pipeline) (k : ℕ) (failed : Option Bytes)
        → s.emit_err ≡ failed
        → s.reading ≡ got k
        → (s.cells k).pending ≡ 0
        → InOrder goal s
        → InOrder goal (consume emit k failed s)
    InOrder-consume s k none f w p h =
        let front : coming opts contents s.cells (unread s.reading ++ s.ordered) s.todo
            ≡ (s.cells k).entry ∷ coming opts contents s.cells s.ordered s.todo =
          rw w (
            ap (λ x. x ∷ coming opts contents s.cells s.ordered s.todo)
              (settled_done opts contents (s.cells k) p)) in
        InOrder-called s k (emit s.emitted (s.cells k).entry) refl (given_of s none _ f front h) f h
    InOrder-consume s k (some x) f w p h = record {
      given = rw f (given_of s (some x) _ f refl h);
      counted = h.counted;
      ahead = h.ahead;
    }

    pub InOrder-Step :
        (s t : Pipeline) → Step opts contents emit s t → Cells s → InOrder goal s → InOrder goal t
    InOrder-Step s t (enter _ e es w d g) c h = InOrder-same goal s t refl refl refl refl tt h
    InOrder-Step s t (refuse _ e es w d g) c h =
        InOrder-same goal s t refl refl refl refl (λ no. absurd (cc no)) h
    InOrder-Step s t (take_cell _ e es k rest w d f) c h =
        InOrder-same goal s t
          (coming-put opts contents k _ s.cells _ s.todo (absent s k c (ground arith))) refl refl
          refl (e, es, d, put_same k _ s.cells) h
    InOrder-Step s t (no_cell _ w g) c h =
        InOrder-same goal s t refl refl refl refl (λ no. absurd (cc no)) h
    InOrder-Step s t (offer _ k w x) c h =
        let (e, es, d, own) = Ahead-walking s (holding k) w h in
        InOrder-same goal s t
          (coming-put opts contents k _ s.cells _ s.todo (absent s k c (ground arith))) refl refl
          refl
          (
            e,
            es,
            d,
            ap (settled opts contents) (put_same k _ s.cells)
                ∙ settled-offered opts contents (s.cells k) e own x,
          )
          h
    InOrder-Step s t (skip_hash _ k w x) c h =
        let (e, es, d, own) = Ahead-walking s (holding k) w h in
        InOrder-same goal s t refl refl refl refl
          (e, es, d, settled-skipped opts contents (s.cells k) e own x) h
    InOrder-Step s t (take_work _ k w x) c h =
        InOrder-same goal s t refl refl refl refl (Ahead-walking s (offering k) w h) h
    InOrder-Step s t (no_worker _ k w x) c h =
        InOrder-same goal s t
          (coming-put opts contents k _ s.cells _ s.todo (absent s k c (ground arith))) refl refl
          refl (λ no. absurd (cc no)) h
    InOrder-Step s t (hand_on _ e es k w d) c h =
        let (e', es', d', own) = Ahead-walking s (ready k) w h in
        InOrder-same goal s t
          (coming_snoc opts contents k s.cells (unread s.reading) s.ordered e es
              (own ∙ ap (hashed opts contents) {x = e'} {y = e} (cc (d, d')))
            ∙ ap (coming opts contents s.cells (unread s.reading ++ s.ordered)) (sym d))
          refl refl refl tt h
    InOrder-Step s t (hash_work _ k before behind w) c h =
        let p = worked s k before behind c w in
        InOrder-same goal s t
          (ap
            (λ (f : ℕ → Entry).
              map f (unread s.reading ++ s.ordered) ++ map (hashed opts contents) s.todo)
            (fun_ext (λ j. settled-hash opts contents k s.cells j p)))
          refl refl refl (Ahead-hash s.walking s.todo s s.walk_err k p h.ahead) h
    InOrder-Step s t (visited _ w d) c h = InOrder-same goal s t refl refl refl refl (λ ok. d) h
    InOrder-Step s t (end_sequence _ w d) c h =
        InOrder-same goal s t refl refl refl refl (Ahead-walking s stopping w h) h
    InOrder-Step s t (receive _ k rest w d) c h =
        InOrder-same goal s t (rw (w, d) refl) refl refl refl h.ahead h
    InOrder-Step s t (call_back _ k w p) c h = InOrder-consume s k s.emit_err refl w p h
    InOrder-Step s t (give_back _ k w) c h =
        InOrder-same goal s t (rw w refl) refl refl refl h.ahead h
