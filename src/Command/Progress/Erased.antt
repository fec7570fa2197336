-- ===== src/Command/Progress/Erased.antt =====
-- The line of a long scan on a terminal, and what is erased at its end.
use osfp.Base.{
  codes, ℕ, zero, suc, ◌+◌, ◌-◌, ◌%◌, ◌≤◌, Bytes, Bool, true, false, not, List, [], ◌∷◌, ◌++◌, ltb,
  ◌==◌, ℤ, if◌then◌else◌, length, length-append, take, replicate, All, All-map, ◌≡◌, refl, ap,
  arith,
}
use osfp.Entry.{Entry}
use osfp.Command.Progress.{
  Progress, progress_width, second, max, draw, update, counted, status, tick, erased, new_progress,
}

length-replicate : (n : ℕ) (c : ℕ) → length (replicate n c) ≡ n
length-replicate zero c = refl
length-replicate (suc n) c = ap suc (length-replicate n c)

length-take : (n : ℕ) (s : Bytes) → length (take n s) ≤ n
length-take zero s = omega arith
length-take (suc n) [] = omega arith
length-take (suc n) (c ∷ s) = omega (arith, length-take n s)

-- On a terminal: no line is wider than the widest so far, and that fits a row.
record Covered (p : Progress) : Type 0 where
  pub on_terminal : p.terminal ≡ true
  pub is_enabled : p.enabled ≡ true
  pub covers : All (λ (l : Bytes). length l ≤ p.width) p.shown
  pub narrow : p.width ≤ progress_width

Covered-draw : (text : Bytes) (p : Progress) → Covered p → Covered (draw text p)
Covered-draw text p h =
    let line = take progress_width text in
    let width = max p.width (length line) in
    let wider : p.width ≤ width = ground arith in
    let holds : length line ≤ width = ground arith in
    record {
      on_terminal = h.on_terminal;
      is_enabled = h.is_enabled;
      covers = (
        omega (
          arith,
          holds,
          length-append line (replicate (width - length line) b' '),
          length-replicate (width - length line) b' ',
        ),
        All-map (λ (l : Bytes). length l ≤ p.width) _ p.shown (λ l k. omega (arith, k, wider))
            h.covers,
      );
      narrow = ground (arith, h.narrow, length-take progress_width text);
    }

-- The ticks of a scan, each with its time.
abbrev pub tick_all : (ℤ → Bytes) → (ℕ → Bytes) → List (Entry × ℕ) → Progress → Progress
tick_all size duration [] p = p
tick_all size duration ((e, now) ∷ ts) p = tick_all size duration ts (tick size duration e now p)

module _ (size : ℤ → Bytes) (duration : ℕ → Bytes) where
  Covered-if : (t : Bool) (p q : Progress) → Covered p → Covered q → Covered (if t then p else q)
  Covered-if true p q h k = h
  Covered-if false p q h k = k

  Covered-counted : (e : Entry) (p : Progress) → Covered p → Covered (counted e p)
  Covered-counted e p h = record {
    on_terminal = h.on_terminal;
    is_enabled = h.is_enabled;
    covers = h.covers;
    narrow = h.narrow;
  }

  Covered-first : (t : Bool) (p q : Progress) → t ≡ true → Covered p → Covered (if t then p else q)
  Covered-first true p q e h = h
  Covered-first false p q e h = absurd (cc e)

  Covered-update :
      (e : Entry) (now : ℕ) (p : Progress) → Covered p → Covered (update size duration e now p)
  Covered-update e now p h =
      let text = status size duration p now ++ codes "  " ++ e.path in
      let here = record p { next = now + second } in
      let elsewhere = record here {
        shown = (status size duration p now ++ codes "\n") ∷ p.shown;
      } in
      Covered-first p.terminal (draw text here) elsewhere h.on_terminal (
        Covered-draw text (record p { next = now + second })
          (record {
            on_terminal = h.on_terminal;
            is_enabled = h.is_enabled;
            covers = h.covers;
            narrow = h.narrow;
          }))

  Covered-tick :
      (e : Entry) (now : ℕ) (p : Progress) → Covered p → Covered (tick size duration e now p)
  unfolding tick
  Covered-tick e now p h =
      let next = counted e p in
      Covered-if (not p.enabled) p _ h (
        Covered-if (not ((p.entries + 1) % 512 == 0)) next _ (Covered-counted e p h) (
          Covered-if (ltb now p.next) next _ (Covered-counted e p h)
            (Covered-update e now next (Covered-counted e p h))))

  Covered-tick_all :
      (ts : List (Entry × ℕ)) (p : Progress) → Covered p → Covered (tick_all size duration ts p)
  Covered-tick_all [] p h = h
  Covered-tick_all ((e, now) ∷ ts) p h =
      Covered-tick_all ts (tick size duration e now p) (Covered-tick e now p h)

  erased-Covered : (p : Progress) → Covered p → erased p ≡ p.width
  unfolding erased
  erased-Covered p h = rw (h.on_terminal, h.is_enabled) (ground arith)

  -- On a terminal, whatever is scanned and whenever: no line that was drawn has more characters than
  -- the end of the scan erases, and these are 79 at most.
  pub erased-tick_all :
      (ts : List (Entry × ℕ)) (began : ℕ)
      → let p = tick_all size duration ts (new_progress true true began) in
        All (λ (l : Bytes). length l ≤ erased p) p.shown × (erased p ≤ progress_width)
  unfolding new_progress
  erased-tick_all ts began =
      let p = tick_all size duration ts (new_progress true true began) in
      let h : Covered p =
        Covered-tick_all ts (new_progress true true began)
          (record { on_terminal = refl; is_enabled = refl; covers = tt; narrow = omega arith }) in
      let same = erased-Covered p h in
      (
        All-map (λ (l : Bytes). length l ≤ p.width) _ p.shown (λ l k. omega (arith, k, same))
            h.covers,
        omega (arith, same, h.narrow),
      )
