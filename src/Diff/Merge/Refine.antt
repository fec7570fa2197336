-- ===== src/Diff/Merge/Refine.antt =====
-- The joiner's loops over its mutable fields, against a plain merge of two lists of entries.
mod Plain
unfoldable pub use Plain.*
use Prim.Native.Nat.{Ordering}
use mathlib.Core.List.{foldl, foldl-append}
use osfp.Base.{
  ℕ, zero, suc, ◌+◌, ◌<◌, ◌≤◌, Bytes, Bool, true, false, not, List, [], ◌∷◌, ◌++◌, map, Option,
  none, some, if◌then◌else◌, length, ◌≡◌, refl, ◌∙◌, ap, arith, Bool-cases, Ordering-cases, inl,
  inr,
}
use osfp.Canon.{compare_key}
use osfp.Canon.Order.{◌≺◌, bytes_eq-of_eq, bytes_eq-of_ne}
use native.Mathlib.Nat.{add-zero, zero-add, add_assoc}
use osfp.Entry.{Entry}
use osfp.Diff.Op.{Op, op_none, op_eq}
use osfp.Diff.Classify.{classify}
use osfp.Diff.Ignore
use osfp.Diff.Merge.{
  Change, Options, Pull, entry, Joiner, Outcome, ◌and_then◌, bump, shows, summarized, removed,
  added, changed, report, advance, report_removed, drop_before, report_common, feed_here, feed,
  drain, finish, new_joiner, feed_all, join_all, out_of_place, emit_error,
}

module _ (ratio : ℕ → ℕ → Bytes) (glob : Bytes → Bytes → Option Bool) (emit : Change → Option Bytes)
    (emits : (c : Change) → emit c ≡ none) (opts : Options) where
  report-state :
      (c : Change) (olds : List Entry) (g : Ledger) (n : ℕ) (last : Bytes) (started done : Bool)
      → report ratio glob emit c (state glob opts olds g n last started done)
        ≡ (state glob opts olds (post glob opts g c) n last started done, none)
  unfolding report post
  report-state c olds g n last started done =
      elim (Bool-cases (Ignore.match glob opts.ignore c.op c.path)) [
        | inl yes_ignored ↦ rw yes_ignored
        | inr kept ↦ elim (Bool-cases (shows opts.show c.op)) [
          | inl shown ↦ rw (kept, shown, emits, emit_error)
          | inr off ↦ rw (kept, off)
        ]
      ]

  report_removed-state :
      (e : Entry) (olds : List Entry) (g : Ledger) (n : ℕ) (last : Bytes) (started done : Bool)
      → report_removed ratio glob emit e (state glob opts (e ∷ olds) g n last started done)
        ≡ (state glob opts olds (post glob opts g (removed e)) n last started done, none)
  unfolding report_removed advance
  report_removed-state e [] g n last started done = rw report-state
  report_removed-state e (f ∷ olds) g n last started done = rw report-state

  report_common-state :
      (e live : Entry) (olds : List Entry) (g : Ledger) (n : ℕ) (last : Bytes) (started done : Bool)
      → report_common ratio glob emit e live (state glob opts (e ∷ olds) g n last started done) ≡ (
        state glob opts olds
            (foldl (post glob opts) g (common ratio e live))
            (n + 1)
            last
            started
            done,
        none,
      )
  unfolding report_common common advance
  report_common-state e live olds g n last started done =
      elim (Bool-cases (op_eq (classify ratio e live).0 op_none)) [
        | inl same ↦ rw same (pull olds g)
        | inr differs ↦ rw (differs, report-state) (pull olds _)
      ]
    where
      pull :
          (olds : List Entry) (g : Ledger)
          → advance (state glob opts (e ∷ olds) g (n + 1) last started done)
            ≡ (state glob opts olds g (n + 1) last started done, none)
      pull [] g = refl
      pull (f ∷ olds) g = refl

  -- The first loop and the rest of `Feed` report the changes up to the live entry.
  feed_here-drop_before :
      (live : Entry) (olds : List Entry) (fuel : ℕ) (g : Ledger) (n : ℕ) (last : Bytes)
      (started done : Bool)
      → length olds < fuel
      → (drop_before ratio glob emit fuel live.path (state glob opts olds g n last started done)
          and_then feed_here ratio glob emit live)
        ≡ (
          state glob opts
              (rest_after live olds)
              (foldl (post glob opts) g (upto ratio live olds))
              (n + met live olds)
              last
              started
              done,
          none,
        )
  unfolding drop_before feed_here upto rest_after met
  feed_here-drop_before live olds zero g n last started done h = absurd (omega arith)
  feed_here-drop_before live [] (suc fuel) g n last started done h =
      rw add-zero (report-state (added live) [] g n last started done)
  feed_here-drop_before live (e ∷ olds) (suc fuel) g n last started done h =
      elim (Ordering-cases (compare_key e.path live.path)) [
        | inl before ↦
            rw (before, drop_before, upto, rest_after, met, report_removed-state)
              (feed_here-drop_before live olds fuel _ n last started done (omega arith))
        | inr (inl equal) ↦
            rw (equal, drop_before, upto, rest_after, met, bytes_eq-of_eq _ _ equal)
              (report_common-state e live olds g n last started done)
        | inr (inr after) ↦
            rw
              (
                after,
                drop_before,
                upto,
                rest_after,
                met,
                bytes_eq-of_ne e.path live.path (λ p. cc),
                add-zero,
              )
              (report-state (added live) (e ∷ olds) g n last started done)
      ]

  pub feed-state :
      (live : Entry) (olds : List Entry) (g : Ledger) (n : ℕ) (last : Bytes) (started done : Bool)
      → out_of_place (state glob opts olds g n last started done) live ≡ false
      → feed ratio glob emit live (state glob opts olds g n last started done) ≡ (
        state glob opts
            (rest_after live olds)
            (foldl (post glob opts) g (upto ratio live olds))
            (n + met live olds)
            live.path
            true
            done,
        none,
      )
  unfolding feed
  feed-state live olds g n last started done h =
      rw h (
        feed_here-drop_before live olds _ g n live.path true done
          (omega (arith, length-later olds)))

  drain-state :
      (olds : List Entry) (fuel : ℕ) (g : Ledger) (n : ℕ) (last : Bytes) (started done : Bool)
      → length olds < fuel
      → drain ratio glob emit fuel (state glob opts olds g n last started done) ≡ (
        state glob opts [] (foldl (post glob opts) g (map removed olds)) n last started done,
        none,
      )
  unfolding drain
  drain-state olds zero g n last started done h = absurd (omega arith)
  drain-state [] (suc fuel) g n last started done h = refl
  drain-state (e ∷ olds) (suc fuel) g n last started done h =
      rw (report_removed-state, drain) (drain-state olds fuel _ n last started done (omega arith))

  pub feed_all-state :
      (lives olds : List Entry) (g : Ledger) (n : ℕ) (last : Bytes) (started : Bool)
      → Follows started last lives
      → (feed_all ratio glob emit lives (state glob opts olds g n last started false)
          and_then finish ratio glob emit)
        ≡ (
          state glob opts []
              (foldl (post glob opts) g (classified ratio olds lives))
              (n + met_all olds lives)
              (last_path last lives)
              (has_started started lives)
              true,
          none,
        )
  unfolding feed_all classified met_all
  feed_all-state [] olds g n last started h =
      rw add-zero (
        unfold finish in
        drain-state olds _ g n last started true (omega (arith, length-later olds)))
  feed_all-state (live ∷ lives) olds g n last started h =
      let (in_place, follows) = Follows-cons glob opts started live lives olds g n last h in
      let g' = foldl (post glob opts) g (upto ratio live olds) in
      ap
        (λ (o : Outcome). o and_then feed_all ratio glob emit lives and_then finish ratio glob emit)
        (feed-state live olds g n last started false in_place)
      ∙ feed_all-state lives (rest_after live olds) g' (n + met live olds) live.path true follows
      ∙ rw (foldl-append, add_assoc)

  -- A comparison whose source and callback do not fail ends without an error, in the state that
  -- the merged differences give.
  pub join_all-state :
      (olds lives : List Entry)
      → Follows false [] lives
      → join_all ratio glob emit (map entry olds) opts lives ≡ (
        state glob opts []
            (foldl (post glob opts) no_changes (classified ratio olds lives))
            (met_all olds lives)
            (last_path [] lives)
            (has_started false lives)
            true,
        none,
      )
  unfolding join_all new_joiner advance
  join_all-state [] lives h = feed_all-state lives [] no_changes 0 [] false h ∙ rw zero-add
  join_all-state (e ∷ olds) lives h =
      feed_all-state lives (e ∷ olds) no_changes 0 [] false h ∙ rw zero-add
