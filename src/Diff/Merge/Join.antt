-- ===== src/Diff/Merge/Join.antt =====
-- What a whole comparison reports: `NewJoiner`, one `Feed` for each live entry, `Finish`.
use mathlib.Core.List.{foldl}
use osfp.Base.{
  ℕ, suc, ◌+◌, Bytes, Bool, false, List, [], ◌∷◌, map, Option, none, length, ◌≡◌, refl, ◌∙◌, ap,
  arith, inl, inr, Bool-cases, length-append,
}
use native.Mathlib.Nat.{zero-add}
use osfp.Entry.{Entry}
use osfp.Entry.Sorted.{IsSorted}
use osfp.Diff.Op.{Op, op_none, all_ops}
use osfp.Diff.Ignore
use osfp.Diff.Merge.{Change, Options, entry, bump, shows, summarized, join_all, total, total_of}
use osfp.Diff.Merge.Refine.{classified, Ledger, no_changes, post, join_all-state}
use osfp.Diff.Merge.Pointwise.{
  find, changes_at, diff_at, delivered, emitted-foldl, delivered-changes_at, IsSorted-Follows,
  changes_at-classified,
}

total-bump :
    (op : Op) (counts : Op → ℕ)
    → total_of (bump op counts) (op_none ∷ all_ops) ≡ suc (total_of counts (op_none ∷ all_ops))
total-bump Op.op_none counts = omega arith
total-bump _ counts = omega arith

module _ (glob : Bytes → Bytes → Option Bool) (opts : Options) where
  abbrev tally : Ledger → ℕ
  tally g = total_of g.counts (op_none ∷ all_ops) + g.ignored + g.hidden

  tally-post : (g : Ledger) (c : Change) → tally (post glob opts g c) ≡ suc (tally g)
  unfolding post
  tally-post g c = elim (Bool-cases (Ignore.match glob opts.ignore c.op c.path)) [
    | inl ign ↦ rw ign (omega arith)
    | inr kept ↦ elim (Bool-cases (shows opts.show c.op)) [
      | inl shown ↦ rw (kept, shown) (omega (arith, total-bump c.op g.counts))
      | inr off ↦ rw (kept, off) (omega arith)
    ]
  ]

  tally-foldl :
      (cs : List Change) (g : Ledger) → tally (foldl (post glob opts) g cs) ≡ tally g + length cs
  tally-foldl [] g = omega arith
  tally-foldl (c ∷ cs) g = omega (arith, tally-foldl cs (post glob opts g c), tally-post g c)

  emitted-post :
      (g : Ledger) (c : Change)
      → length g.emitted ≡ total_of g.counts (op_none ∷ all_ops)
      → length (post glob opts g c).emitted
        ≡ total_of (post glob opts g c).counts (op_none ∷ all_ops)
  unfolding post
  emitted-post g c h = elim (Bool-cases (Ignore.match glob opts.ignore c.op c.path)) [
    | inl ign ↦ rw ign h
    | inr kept ↦ elim (Bool-cases (shows opts.show c.op)) [
      | inl shown ↦
          rw (kept, shown)
            (omega
              (arith, total-bump c.op g.counts, length-append g.emitted (summarized opts c ∷ [])))
      | inr off ↦ rw (kept, off) h
    ]
  ]

  emitted_count :
      (cs : List Change) (g : Ledger)
      → length g.emitted ≡ total_of g.counts (op_none ∷ all_ops)
      → length (foldl (post glob opts) g cs).emitted
        ≡ total_of (foldl (post glob opts) g cs).counts (op_none ∷ all_ops)
  emitted_count [] g h = h
  emitted_count (c ∷ cs) g h = emitted_count cs (post glob opts g c) (emitted-post g c h)

module _ (ratio : ℕ → ℕ → Bytes) (glob : Bytes → Bytes → Option Bool)
    (emit : Change → Option Bytes) where
  -- On a fingerprint and a scan whose paths strictly increase, with a callback that does not fail,
  -- a comparison ends without an error. For every path, what it hands to the callback under that
  -- path is the difference of the two entries that the path has, either of which may be missing,
  -- unless an ignore rule or `--show` drops it, with the summary of an added directory filled in.
  pub join_all-pointwise :
      (olds lives : List Entry) (opts : Options) (p : Bytes)
      → ((c : Change) → emit c ≡ none)
      → IsSorted olds
      → IsSorted lives
      → ((join_all ratio glob emit (map entry olds) opts lives).1 ≡ none)
        × (changes_at p (join_all ratio glob emit (map entry olds) opts lives).0.emitted
            ≡ delivered glob opts (diff_at ratio (find p olds) (find p lives)))
  join_all-pointwise olds lives opts p emits h k =
      let whole =
        join_all-state ratio glob emit emits opts olds lives
          (IsSorted-Follows false [] lives (λ q. cc) k) in
      (
        rw whole,
        rw (whole, emitted-foldl)
            (delivered-changes_at glob opts p (classified ratio olds lives)
              ∙ ap (delivered glob opts) (changes_at-classified ratio p olds lives h k)),
      )

  -- Nothing is lost silently: on a comparison whose callback does not fail and whose scan has
  -- strictly increasing paths, the reported, ignored and hidden changes together number the
  -- differences found, and the callback was called once for each reported one.
  pub join_all-conserves :
      (olds lives : List Entry) (opts : Options)
      → ((c : Change) → emit c ≡ none)
      → IsSorted lives
      → let s = (join_all ratio glob emit (map entry olds) opts lives).0.stats in
        (total s + s.ignored + s.hidden ≡ length (classified ratio olds lives))
        × (length (join_all ratio glob emit (map entry olds) opts lives).0.emitted ≡ total s)
  unfolding total
  join_all-conserves olds lives opts emits k =
      let whole =
        join_all-state ratio glob emit emits opts olds lives
          (IsSorted-Follows false [] lives (λ q. cc) k) in
      rw whole (
        tally-foldl glob opts (classified ratio olds lives) no_changes ∙ zero-add _,
        emitted_count glob opts (classified ratio olds lives) no_changes refl,
      )
