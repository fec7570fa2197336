-- ===== src/Command/Whole.antt =====
-- What stands under the final name of an atomic file.
use mathlib.Core.List.{append_assoc}
use osfp.Base.{
  Bytes, Bool, true, false, [], ◌++◌, Option, some, if◌then◌else◌, ◌≡◌, ◌⊎◌, inl, inr, refl, sym,
  ap, ◌∙◌, Bool-cases,
}
use osfp.Command.Atomic.{
  State, Answers, create_atomic, grow, remove_tmp, given_up, rename_then, close_then, sync_then,
  flush_ok, flush_then, commit, abort, Step, write, fail, finish, discard, Reached, begun, later,
}

-- What stood there before, or all that the writer was given.
abbrev pub IsWhole : Option Bytes → State → Type 0
IsWhole old s = (s.final ≡ old) ⊎ (s.final ≡ some s.given)

-- Up to `Commit` and `Abort`, the file and the buffer hold all that was given, unless a write failed.
record Sound (old : Option Bytes) (s : State) : Type 0 where
  whole : IsWhole old s
  untouched : s.done ≡ false → s.final ≡ old
  held :
      s.done ≡ false → s.broken ≡ false → (t : Bytes) × (s.tmp ≡ some t) × (t ++ s.buffer ≡ s.given)

-- Behind a call of `Commit`: where it returns no error, the file is complete.
record Ended (old : Option Bytes) (o : State × Bool) : Type 0 where
  whole : IsWhole old o.0
  is_done : o.0.done ≡ true
  complete : o.1 ≡ true → o.0.final ≡ some o.0.given

module _ (old : Option Bytes) where
  IsWhole-remove_tmp : (r : Bool) (s : State) → IsWhole old s → IsWhole old (remove_tmp r s)
  IsWhole-remove_tmp true s h = h
  IsWhole-remove_tmp false s h = h

  remove_tmp-done : (r : Bool) (s : State) → (remove_tmp r s).done ≡ s.done
  remove_tmp-done true s = refl
  remove_tmp-done false s = refl

  Ended-given_up :
      (a : Answers) (s : State) → s.final ≡ old → s.done ≡ true → Ended old (given_up a s)
  Ended-given_up a s h d = record {
    whole = IsWhole-remove_tmp a.removes s (inl h);
    is_done = remove_tmp-done a.removes s ∙ d;
    complete = λ ok. absurd (cc ok);
  }

  module _ (a : Answers) (s : State) (h : s.final ≡ old) (d : s.done ≡ true)
      (k : s.tmp ≡ some s.given) where
    Ended-rename_then : Ended old (rename_then a s)
    Ended-rename_then = elim (Bool-cases a.renames) [
      | inl good ↦ rw good (record { whole = inr k; is_done = d; complete = λ ok. k })
      | inr bad ↦ rw bad (Ended-given_up a s h d)
    ]

    Ended-close_then : Ended old (close_then a s)
    Ended-close_then = elim (Bool-cases a.closes) [
      | inl good ↦ rw good Ended-rename_then
      | inr bad ↦ rw bad (Ended-given_up a s h d)
    ]

    Ended-sync_then : Ended old (sync_then a s)
    Ended-sync_then = elim (Bool-cases a.syncs) [
      | inl good ↦ rw good Ended-close_then
      | inr bad ↦ rw bad (Ended-given_up a s h d)
    ]

  flush_ok_sound : (broken flushes : Bool) → flush_ok broken flushes ≡ true → broken ≡ false
  flush_ok_sound true flushes h = absurd (cc h)
  flush_ok_sound false flushes h = refl

  Ended-commit : (a : Answers) (s : State) → Sound old s → s.done ≡ false → Ended old (commit a s)
  unfolding commit
  Ended-commit a s h d =
      let s' : State = record s { done = true } in
      rw d (elim (Bool-cases (flush_ok s.broken a.flushes)) [
        | inl good ↦
            let (t, e, f) = h.held d (flush_ok_sound s.broken a.flushes good) in
            let all : grow s.buffer s.tmp ≡ some s.given = ap (grow s.buffer) e ∙ ap some f in
            rw good (
              Ended-sync_then a (record s' { tmp = grow s.buffer s.tmp; buffer = [] })
                (h.untouched d) refl all)
        | inr bad ↦
            rw bad (Ended-given_up a (record s' { tmp = grow a.part s.tmp }) (h.untouched d) refl)
      ])

  Sound-done : (s : State) → IsWhole old s → s.done ≡ true → Sound old s
  Sound-done s h d = record {
    whole = h;
    untouched = λ e. absurd (cc (d, e));
    held = λ e b. absurd (cc (d, e));
  }

  Sound-create_atomic : Sound old (create_atomic old)
  unfolding create_atomic
  Sound-create_atomic = record {
    whole = inl refl;
    untouched = λ d. refl;
    held = λ d b. ([], refl, refl);
  }

  kept :
      (b : Bool) (x y : State × Bool) → b ≡ true → Sound old x.0 → Sound old (if b then x else y).0
  kept true x y e h = h
  kept false x y e h = absurd (cc e)

  kept_state : (b : Bool) (x y : State) → b ≡ true → Sound old x → Sound old (if b then x else y)
  kept_state true x y e h = h
  kept_state false x y e h = absurd (cc e)

  Sound-Step : (s t : State) → Sound old s → Step s t → Sound old t
  Sound-Step s t h (write _ p out keep d b e) = record {
    whole = inl (h.untouched d);
    untouched = h.untouched;
    held = λ _ _.
        let (t, f, g) = h.held d b in
        (
          t ++ out,
          ap (grow out) f,
          append_assoc t out keep
              ∙ ap (λ r. t ++ r) (sym e)
              ∙ sym (append_assoc t s.buffer p)
              ∙ ap (λ r. r ++ p) g,
        );
  }
  Sound-Step s t h (fail _ p out d) = record {
    whole = inl (h.untouched d);
    untouched = h.untouched;
    held = λ _ b. absurd (cc b);
  }
  Sound-Step s t h (finish _ a) = elim (Bool-cases s.done) [
    | inl over ↦
        unfold commit in kept s.done (s, true) (flush_then a (record s { done = true })) over h
    | inr going ↦ let e = Ended-commit a s h going in Sound-done (commit a s).0 e.whole e.is_done
  ]
  Sound-Step s t h (discard _ r) = elim (Bool-cases s.done) [
    | inl over ↦
        unfold abort in kept_state s.done s (remove_tmp r (record s { done = true })) over h
    | inr going ↦
        unfold abort in
        rw going (
          Sound-done (remove_tmp r (record s { done = true }))
            (IsWhole-remove_tmp r (record s { done = true }) (inl (h.untouched going)))
            (remove_tmp-done r (record s { done = true })))
  ]

  Sound-Reached : (s : State) → Reached (create_atomic old) s → Sound old s
  Sound-Reached s begun = Sound-create_atomic
  Sound-Reached s (later r step) = Sound-Step _ s (Sound-Reached _ r) step

-- Whatever the system answers, and wherever a command stops, the final name of an atomic file holds
-- what it held before, or everything that the file's writer was given.
pub Reached-IsWhole :
    (old : Option Bytes) (s : State) → Reached (create_atomic old) s → IsWhole old s
Reached-IsWhole old s r = (Sound-Reached old s r).whole

-- A first call of `Commit` that returns without an error leaves everything that the writer was given
-- under the final name.
pub commit_complete :
    (old : Option Bytes) (s : State) (a : Answers)
    → Reached (create_atomic old) s
    → s.done ≡ false
    → (commit a s).1 ≡ true
    → (commit a s).0.final ≡ some (commit a s).0.given
commit_complete old s a r d ok = (Ended-commit old a s (Sound-Reached old s r) d).complete ok
