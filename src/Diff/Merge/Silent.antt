-- ===== src/Diff/Merge/Silent.antt =====
-- When a comparison of internal/diff/merge.go finds nothing.
use Prim.Native.Nat.{Ordering}
use osfp.Base.{
  ℕ, ◌+◌, Bytes, Bool, true, List, [], ◌∷◌, ◌++◌, map, Option, none, length, ◌≡◌, ◌↔◌, refl, arith,
  inl, inr, Bool-cases, Ordering-cases,
}
use osfp.Canon.{compare_key}
use osfp.Canon.Order.{compare_key_eq, compare_key_refl}
use osfp.Entry.{Entry}
use osfp.Entry.Sorted.{IsSorted}
use osfp.Diff.Op.{Op, op_none, op_eq}
use osfp.Diff.Classify.{classify}
use osfp.Diff.Classify.Meaning.{Unchanged, classify-none_iff}
use osfp.Diff.Merge.{Change, Options, entry, join_all, total}
use osfp.Diff.Merge.Refine.{common, upto, rest_after, classified}
use osfp.Diff.Merge.Join.{join_all-conserves}

-- The two lists have the same paths, one by one, with entries that the classifier cannot tell apart.
abbrev pub Agree : List Entry → List Entry → Type 0
Agree [] [] = Unit
Agree [] (live ∷ lives) = ⊥
Agree (old ∷ olds) [] = ⊥
Agree (old ∷ olds) (live ∷ lives) = (old.path ≡ live.path) × Unchanged old live × Agree olds lives

op_eq-none : (op : Op) → op_eq op op_none ≡ true → op ≡ op_none
op_eq-none Op.op_none h = refl
op_eq-none _ h = cc

append-nil_left : (xs ys : List Change) → xs ++ ys ≡ [] → xs ≡ []
append-nil_left [] ys h = refl
append-nil_left (x ∷ xs) ys h = cc

length-zero : (xs : List Change) → length xs ≡ 0 → xs ≡ []
length-zero [] h = refl
length-zero (x ∷ xs) h = absurd (omega arith)

module _ (ratio : ℕ → ℕ → Bytes) where
  common-nil : (old live : Entry) → common ratio old live ≡ [] → Unchanged old live
  unfolding common
  common-nil old live h = elim (Bool-cases (op_eq (classify ratio old live).0 op_none)) [
    | inl same ↦ (classify-none_iff ratio old live).0 (op_eq-none _ same)
    | inr other ↦ absurd (cc (rw other at h))
  ]

  common-Unchanged : (old live : Entry) → Unchanged old live → common ratio old live ≡ []
  unfolding common
  common-Unchanged old live u = rw ((classify-none_iff ratio old live).1 u) refl

  classified-Agree : (olds lives : List Entry) → Agree olds lives → classified ratio olds lives ≡ []
  unfolding classified upto rest_after
  classified-Agree [] [] a = refl
  classified-Agree [] (live ∷ lives) a = absurd a
  classified-Agree (old ∷ olds) [] a = absurd a
  classified-Agree (old ∷ olds) (live ∷ lives) (e, u, a) =
      let equal : compare_key old.path live.path ≡ Ordering.eq =
        rw e (compare_key_refl live.path) in
      rw (equal, upto, rest_after, common-Unchanged old live u) (classified-Agree olds lives a)

  Agree-classified : (olds lives : List Entry) → classified ratio olds lives ≡ [] → Agree olds lives
  unfolding classified upto rest_after
  Agree-classified [] [] h = tt
  Agree-classified (old ∷ olds) [] h = cc
  Agree-classified [] (live ∷ lives) h = cc
  Agree-classified (old ∷ olds) (live ∷ lives) h =
      elim (Ordering-cases (compare_key old.path live.path)) [
        | inl before ↦ absurd (cc (rw (before, upto) at h))
        | inr (inl equal) ↦
            let parts : common ratio old live ++ classified ratio olds lives ≡ [] =
              rw (equal, upto, rest_after) at h in
            let quiet = append-nil_left (common ratio old live) _ parts in
            (
              compare_key_eq old.path live.path equal,
              common-nil old live quiet,
              Agree-classified olds lives (rw quiet at parts),
            )
        | inr (inr after) ↦ absurd (cc (rw (after, upto) at h))
      ]

module _ (ratio : ℕ → ℕ → Bytes) (glob : Bytes → Bytes → Option Bool)
    (emit : Change → Option Bytes) where
  -- With a callback that does not fail and a scan of strictly increasing paths, a comparison counts
  -- no change, reported, ignored or hidden, exactly if the scan has the paths of the fingerprint,
  -- one by one, and the classifier cannot tell the two entries of any path apart.
  pub join_all-silent_iff :
      (olds lives : List Entry) (opts : Options)
      → ((c : Change) → emit c ≡ none)
      → IsSorted lives
      → let s = (join_all ratio glob emit (map entry olds) opts lives).0.stats in
        (total s + s.ignored + s.hidden ≡ 0) ↔ Agree olds lives
  join_all-silent_iff olds lives opts emits k =
      let (tally, _) = join_all-conserves ratio glob emit olds lives opts emits k in
      rw tally (
        λ h. Agree-classified ratio olds lives (length-zero (classified ratio olds lives) h),
        λ a. rw (classified-Agree ratio olds lives a) refl,
      )
