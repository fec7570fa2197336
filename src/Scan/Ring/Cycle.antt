-- ===== src/Scan/Ring/Cycle.antt =====
-- The order in which `visit` of internal/scan/walk.go takes the cells of reorder.go: the first-in,
-- first-out channels hand them round.
use mathlib.Core.List.{append_assoc}
use native.Mathlib.Nat.{mod-eq_of_lt}
use osfp.Base.{
  ℕ, zero, suc, ◌+◌, ◌%◌, ◌≤◌, Bytes, true, List, [], ◌∷◌, ◌++◌, Option, none, some, length,
  length-append, ◌≡◌, refl, sym, ap, ◌∙◌, arith,
}
use osfp.Entry.{Entry}
use osfp.Scan.Tree.{Answer}
use osfp.Scan.Walk.{ring_size}
use osfp.Scan.Settings.{Options}
use osfp.Scan.Ring.{
  entering, got, spent, Pipeline, cells_from, launch, acquire_cell, called, consume,
}
use osfp.Scan.Ring.Steps.{
  Step, enter, refuse, take_cell, no_cell, offer, skip_hash, take_work, no_worker, hand_on,
  hash_work, visited, end_sequence, receive, call_back, give_back, Reached, launched, later,
  interrupted,
}
use osfp.Scan.Ring.Cells.{read, held}
use osfp.Scan.Ring.Room.{goes_on}

-- `m` cells of a ring of `n`, one after the other, from the cell of number `i` on.
abbrev cycle : ℕ → ℕ → ℕ → List ℕ
cycle n i zero = []
cycle n i (suc m) = (i % n) ∷ cycle n (suc i) m

cycle_snoc : (n i m : ℕ) → cycle n i m ++ ((i + m) % n) ∷ [] ≡ cycle n i (suc m)
cycle_snoc n i zero = ap (λ j. (j % n) ∷ []) (omega arith)
cycle_snoc n i (suc m) =
    let e : i + suc m ≡ suc i + m = omega arith in
    ap (λ r. (i % n) ∷ r) (ap (λ j. cycle n (suc i) m ++ (j % n) ∷ []) e ∙ cycle_snoc n (suc i) m)

around : (i m : ℕ) → (suc i + m) % suc m ≡ i % suc m
around i m = grind arith

cycle_turn : (n i k : ℕ) (ks : List ℕ) → k ∷ ks ≡ cycle n i n → ks ++ k ∷ [] ≡ cycle n (suc i) n
cycle_turn zero i k ks h = absurd (cc h)
cycle_turn (suc m) i k ks h =
    let first : k ≡ i % suc m = cc h in
    let others : ks ≡ cycle (suc m) (suc i) m = cc h in
    rw (others, first, sym (around i m)) (cycle_snoc (suc m) (suc i) m)

cycle_at : (n i m k : ℕ) (xs ys : List ℕ) → xs ++ k ∷ ys ≡ cycle n i m → k ≡ (i + length xs) % n
cycle_at n i zero k [] ys h = absurd (cc h)
cycle_at n i (suc m) k [] ys h =
    let first : k ≡ i % n = cc h in first ∙ ap (λ j. j % n) (omega arith)
cycle_at n i zero k (x ∷ xs) ys h = absurd (cc h)
cycle_at n i (suc m) k (x ∷ xs) ys h =
    cycle_at n (suc i) m k xs ys (cc h) ∙ ap (λ j. j % n) (omega arith)

cells_from-cycle : (n i m : ℕ) → i + m ≤ n → cells_from i m ≡ cycle n i m
cells_from-cycle n i zero h = refl
cells_from-cycle n i (suc m) h =
    let own : i ≡ i % n = sym (mod-eq_of_lt (omega arith)) in
    ap (λ j. j ∷ cells_from (suc i) m) own
    ∙ ap (λ r. (i % n) ∷ r) (cells_from-cycle n (suc i) m (omega arith))

-- All cells, that of the consumer first and the free ones last.
abbrev line : Pipeline → List ℕ
line s = read s.reading ++ (s.ordered ++ (held s.walking ++ s.free))

abbrev busy : Pipeline → ℕ
busy s = length (read s.reading) + length s.ordered + length (held s.walking)

-- Where the walk goes on, the cells stand as they were made, turned by those that were released.
record Turned (n released acquired : ℕ) (s : Pipeline) : Type 0 where
  in_line : goes_on s.walking ≡ true → line s ≡ cycle n released n
  passed : goes_on s.walking ≡ true → acquired ≡ released + busy s

module _ (opts : Options) (contents : Bytes → Answer)
    (emit : List Entry → Entry → Option Bytes) where
  -- Whether a step takes a cell, and whether it gives one back.
  abbrev takes : {s t : Pipeline} → Step opts contents emit s t → ℕ
  takes (take_cell _ e es k rest w d f) = 1
  takes _ = 0

  abbrev gives : {s t : Pipeline} → Step opts contents emit s t → ℕ
  gives (give_back _ k w) = 1
  gives _ = 0

  -- The cells that were taken on the way to a state, and those that were released.
  abbrev pub acquired : {es : List Entry} {s : Pipeline} → Reached opts contents emit es s → ℕ
  acquired launched = 0
  acquired (later r step) = acquired r + takes step
  acquired (interrupted r) = acquired r

  abbrev released : {es : List Entry} {s : Pipeline} → Reached opts contents emit es s → ℕ
  released launched = 0
  released (later r step) = released r + gives step
  released (interrupted r) = released r

  module _ (n i a : ℕ) where
    Turned-stays :
        (s t : Pipeline)
        → (goes_on t.walking ≡ true
            → (goes_on s.walking ≡ true) × (line t ≡ line s) × (busy t ≡ busy s))
        → Turned n i a s
        → Turned n (i + 0) (a + 0) t
    Turned-stays s t same h = record {
      in_line = λ go.
          let (still, l, b) = same go in l ∙ h.in_line still ∙ ap (λ j. cycle n j n) (omega arith);
      passed = λ go. let (still, l, b) = same go in omega (arith, h.passed still, b);
    }

    Turned-called :
        (s : Pipeline) (e : Entry) (k : ℕ) (o : Option Bytes)
        → s.reading ≡ got k
        → Turned n i a s
        → Turned n (i + 0) (a + 0) (record (called e o s) { reading = spent k })
    Turned-called s e k none w h = Turned-stays s _ (λ go. (go, rw w refl, rw w refl)) h
    Turned-called s e k (some x) w h = Turned-stays s _ (λ go. (go, rw w refl, rw w refl)) h

    Turned-consume :
        (s : Pipeline) (k : ℕ) (failed : Option Bytes)
        → s.reading ≡ got k
        → Turned n i a s
        → Turned n (i + 0) (a + 0) (consume emit k failed s)
    Turned-consume s k (some x) w h = Turned-stays s _ (λ go. (go, rw w refl, rw w refl)) h
    Turned-consume s k none w h =
        Turned-called s (s.cells k).entry k (emit s.emitted (s.cells k).entry) w h

    Turned-Step :
        (s t : Pipeline) (step : Step opts contents emit s t)
        → Turned n i a s
        → Turned n (i + gives step) (a + takes step) t
    Turned-Step s t (enter _ e es w d g) h =
        Turned-stays s t (λ go. (rw w refl, rw w refl, rw w refl)) h
    Turned-Step s t (refuse _ e es w d g) h = Turned-stays s t (λ go. absurd (cc go)) h
    Turned-Step s t (take_cell _ e es k rest w d f) h = record {
      in_line = λ go.
          let still : line (acquire_cell e k rest s) ≡ line s = rw (w, f) refl in
          still ∙ h.in_line (rw w refl) ∙ ap (λ j. cycle n j n) (omega arith);
      passed = λ go. let p = h.passed (rw w refl) in ground (arith, p);
    }
    Turned-Step s t (no_cell _ w g) h = Turned-stays s t (λ go. absurd (cc go)) h
    Turned-Step s t (offer _ k w x) h = Turned-stays s t (λ go. (rw w refl, rw w refl, rw w refl)) h
    Turned-Step s t (skip_hash _ k w x) h =
        Turned-stays s t (λ go. (rw w refl, rw w refl, rw w refl)) h
    Turned-Step s t (take_work _ k w x) h =
        Turned-stays s t (λ go. (rw w refl, rw w refl, rw w refl)) h
    Turned-Step s t (no_worker _ k w x) h = Turned-stays s t (λ go. absurd (cc go)) h
    Turned-Step s t (hand_on _ e es k w d) h =
        Turned-stays s t
          (λ go. (
            rw w refl,
            rw w (ap (λ r. read s.reading ++ r) (append_assoc s.ordered (k ∷ []) s.free)),
            rw w (omega (arith, length-append s.ordered (k ∷ []))),
          ))
          h
    Turned-Step s t (hash_work _ k before behind w) h = Turned-stays s t (λ go. (go, refl, refl)) h
    Turned-Step s t (visited _ w d) h = Turned-stays s t (λ go. absurd (cc go)) h
    Turned-Step s t (end_sequence _ w d) h = Turned-stays s t (λ go. absurd (cc go)) h
    Turned-Step s t (receive _ k rest w d) h =
        Turned-stays s t (λ go. (go, rw (w, d) refl, ground arith)) h
    Turned-Step s t (call_back _ k w d) h = Turned-consume s k s.emit_err w h
    Turned-Step s t (give_back _ k w) h = record {
      in_line = λ go.
          let behind = s.ordered ++ (held s.walking ++ s.free) in
          let before : k ∷ behind ≡ cycle n i n = rw w at (h.in_line go) in
          ap (λ r. s.ordered ++ r) (sym (append_assoc (held s.walking) s.free (k ∷ [])))
          ∙ sym (append_assoc s.ordered (held s.walking ++ s.free) (k ∷ []))
          ∙ cycle_turn n i k behind before
          ∙ ap (λ j. cycle n j n) (omega arith);
      passed = λ go. let p = h.passed go in ground (arith, p);
    }

  Turned-launch : (es : List Entry) → Turned (ring_size opts) 0 0 (launch opts es)
  unfolding launch
  Turned-launch es = record {
    in_line = λ go. cells_from-cycle (ring_size opts) 0 (ring_size opts) (omega arith);
    passed = λ go. refl;
  }

  Turned-Reached :
      (es : List Entry) (s : Pipeline) (r : Reached opts contents emit es s)
      → Turned (ring_size opts) (released r) (acquired r) s
  Turned-Reached es s launched = Turned-launch es
  Turned-Reached es s (later r step) =
      Turned-Step (ring_size opts) (released r) (acquired r) _ s step (Turned-Reached es _ r)
  Turned-Reached es s (interrupted r) =
      let h = Turned-Reached es _ r in record { in_line = h.in_line; passed = h.passed }

  -- However the goroutines of a scan take turns, the walk takes the cells of the ring in a circle: the
  -- next cell that it gets is that of the number of cells it took before, modulo their number.
  pub acquire_cell-circular :
      (es : List Entry) (s : Pipeline) (k : ℕ) (rest : List ℕ) (r : Reached opts contents emit es s)
      → s.walking ≡ entering
      → s.free ≡ k ∷ rest
      → k ≡ acquired r % ring_size opts
  acquire_cell-circular es s k rest r w f =
      let h = Turned-Reached es s r in
      let n = ring_size opts in
      let front = read s.reading ++ s.ordered in
      let all : front ++ k ∷ rest ≡ cycle n (released r) n =
        append_assoc (read s.reading) s.ordered (k ∷ rest) ∙ rw (w, f) at (h.in_line (rw w refl)) in
      let p = h.passed (rw w refl) in
      cycle_at n (released r) n k front rest all
      ∙ ap (λ j. j % n) (ground (arith, p, length-append (read s.reading) s.ordered))
