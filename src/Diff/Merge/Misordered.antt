-- ===== src/Diff/Merge/Misordered.antt =====
-- `Feed` of internal/diff/merge.go on a scan that is out of order.
use mathlib.Core.List.{foldl}
use osfp.Base.{
  ℕ, ◌+◌, Bytes, Bool, true, false, List, [], ◌∷◌, ◌++◌, map, Option, none, some, ◌≡◌, refl, ap,
  ◌∙◌, Ordering-cases, inl, inr,
}
use osfp.Canon.{compare_key}
use osfp.Canon.Order.{◌≺◌}
use osfp.Entry.{Entry}
use osfp.Entry.Sorted.{IsSorted}
use osfp.Diff.Merge.{
  Change, Options, Joiner, Outcome, entry, out_of_order, ◌and_then◌, out_of_place, feed, feed_all,
  finish, join_all, new_joiner, advance,
}
use osfp.Diff.Merge.Refine.{
  Ledger, no_changes, post, upto, rest_after, met, state, Follows, Follows-cons, feed-state,
}
use osfp.Diff.Merge.Pointwise.{IsSorted-Follows}

module _ (ratio : ℕ → ℕ → Bytes) (glob : Bytes → Bytes → Option Bool) (emit : Change → Option Bytes)
    (emits : (c : Change) → emit c ≡ none) (opts : Options) where
  refused :
      (x y : Entry) (olds : List Entry) (g : Ledger) (n : ℕ)
      → ¬ (x.path ≺ y.path)
      → out_of_place (state glob opts olds g n x.path true false) y ≡ true
  refused x y olds g n h = elim (Ordering-cases (compare_key x.path y.path)) [
    | inl lt ↦ absurd (h lt)
    | inr (inl eq) ↦ rw eq refl
    | inr (inr gt) ↦ rw gt refl
  ]

  abbrev run : List Entry → Joiner → Outcome
  run lives j = feed_all ratio glob emit lives j and_then finish ratio glob emit

  stops :
      (xs : List Entry) (x y : Entry) (ys olds : List Entry) (g : Ledger) (n : ℕ) (last : Bytes)
      (started : Bool)
      → Follows started last (xs ++ x ∷ [])
      → ¬ (x.path ≺ y.path)
      → (run (xs ++ x ∷ y ∷ ys) (state glob opts olds g n last started false)).1 ≡ some out_of_order
  unfolding feed_all
  stops [] x y ys olds g n last started h k =
      let (in_place, follows) = Follows-cons glob opts started x [] olds g n last h in
      ap
        (λ (o : Outcome).
          (o and_then feed_all ratio glob emit (y ∷ ys) and_then finish ratio glob emit).1)
        (feed-state ratio glob emit emits opts x olds g n last started false in_place)
      ∙ rw
          (
            refused x y (rest_after x olds) (foldl (post glob opts) g (upto ratio x olds))
                (n + met x olds) k,
            feed,
          )
          refl
  stops (z ∷ xs) x y ys olds g n last started h k =
      let (in_place, follows) = Follows-cons glob opts started z (xs ++ x ∷ []) olds g n last h in
      let g' = foldl (post glob opts) g (upto ratio z olds) in
      ap
        (λ (o : Outcome).
          (o
            and_then feed_all ratio glob emit (xs ++ x ∷ y ∷ ys)
            and_then finish ratio glob emit).1)
        (feed-state ratio glob emit emits opts z olds g n last started false in_place)
      ∙ stops xs x y ys (rest_after z olds) g' (n + met z olds) z.path true follows k

module _ (ratio : ℕ → ℕ → Bytes) (glob : Bytes → Bytes → Option Bool)
    (emit : Change → Option Bytes) where
  -- With a callback that does not fail, a comparison whose scan gives a path that does not come
  -- after the one before it ends with the error for a scan out of canonical order, wherever in the
  -- scan that happens first.
  pub join_all-out_of_order :
      (olds xs ys : List Entry) (x y : Entry) (opts : Options)
      → ((c : Change) → emit c ≡ none)
      → IsSorted (xs ++ x ∷ [])
      → ¬ (x.path ≺ y.path)
      → (join_all ratio glob emit (map entry olds) opts (xs ++ x ∷ y ∷ ys)).1 ≡ some out_of_order
  unfolding join_all new_joiner advance
  join_all-out_of_order [] xs ys x y opts emits h k =
      stops ratio glob emit emits opts xs x y ys [] no_changes 0 [] false
        (IsSorted-Follows false [] (xs ++ x ∷ []) (λ q. cc) h) k
  join_all-out_of_order (e ∷ olds) xs ys x y opts emits h k =
      stops ratio glob emit emits opts xs x y ys (e ∷ olds) no_changes 0 [] false
        (IsSorted-Follows false [] (xs ++ x ∷ []) (λ q. cc) h) k
