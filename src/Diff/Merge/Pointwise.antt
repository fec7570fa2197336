-- ===== src/Diff/Merge/Pointwise.antt =====
-- The merge of two sorted lists, read path by path.
use mathlib.Core.List.{foldl, append-nil, append_assoc}
use osfp.Base.{
  bytes_eq→eq, ℕ, Bytes, Bool, true, false, not, List, [], ◌∷◌, ◌++◌, map, Option, none, some,
  bytes_eq, if◌then◌else◌, ◌≡◌, refl, sym, ◌∙◌, ap, arith, Bool-cases, Ordering-cases, inl, inr,
  All,
}
use mathlib.Core.Path.{subst}
use osfp.Canon.{compare_key}
use osfp.Canon.Order.{◌≺◌, ≺_trans, compare_key_eq, compare_key-flip, bytes_eq-of_ne, flip}
use osfp.Entry.{Entry}
use osfp.Entry.Sorted.{IsSorted}
use osfp.Diff.Ignore
use osfp.Diff.Merge.{Change, Options, shows, summarized, removed, added}
use osfp.Diff.Merge.Refine.{common, upto, rest_after, classified, Follows, Ledger, post}

-- The entry of a path.
abbrev pub find : Bytes → List Entry → Option Entry
find p [] = none
find p (e ∷ es) = if bytes_eq e.path p then some e else find p es

-- The changes that name a path.
abbrev pub changes_at : Bytes → List Change → List Change
changes_at p [] = []
changes_at p (c ∷ cs) = if bytes_eq c.path p then c ∷ changes_at p cs else changes_at p cs

-- The difference between the two entries of one path, either of which may be missing.
unfoldable pub diff_at : (ℕ → ℕ → Bytes) → Option Entry → Option Entry → List Change
unfolding common
diff_at ratio none none = []
diff_at ratio (some old) none = removed old ∷ []
diff_at ratio none (some live) = added live ∷ []
diff_at ratio (some old) (some live) = common ratio old live

changes_at-append :
    (p : Bytes) (cs ds : List Change) → changes_at p (cs ++ ds) ≡ changes_at p cs ++ changes_at p ds
changes_at-append p [] ds = refl
changes_at-append p (c ∷ cs) ds = ground (arith, changes_at-append p cs ds)

-- A path below all of them has no entry.
find-none : (p : Bytes) (es : List Entry) → All (λ (f : Entry). p ≺ f.path) es → find p es ≡ none
find-none p [] h = refl
find-none p (e ∷ es) h =
    rw (bytes_eq-of_ne e.path p (λ q. cc (h.0, compare_key-flip e.path p))) (find-none p es h.1)

-- Nor has one that the first of them has.
find_below :
    (p : Bytes) (e : Entry) (es : List Entry)
    → bytes_eq e.path p ≡ true
    → All (λ (f : Entry). e.path ≺ f.path) es
    → find p es ≡ none
find_below p e es h k =
    let same = bytes_eq→eq e.path p h in
    find-none p es (subst (λ (q : Bytes). All (λ (f : Entry). q ≺ f.path) es) same k)

below_trans :
    (p q : Bytes) (es : List Entry)
    → p ≺ q
    → All (λ (f : Entry). q ≺ f.path) es
    → All (λ (f : Entry). p ≺ f.path) es
below_trans p q [] h k = tt
below_trans p q (e ∷ es) h k = (≺_trans p q e.path h k.0, below_trans p q es h k.1)

rest_after-All :
    (P : Entry → Type 0) (live : Entry) (olds : List Entry)
    → All P olds
    → All P (rest_after live olds)
unfolding rest_after
rest_after-All P live [] h = tt
rest_after-All P live (e ∷ olds) h = elim (Ordering-cases (compare_key e.path live.path)) [
  | inl before ↦ rw (before, rest_after) (rest_after-All P live olds h.1)
  | inr (inl equal) ↦ rw (equal, rest_after) h.1
  | inr (inr after) ↦ rw (after, rest_after) h
]

rest_after-IsSorted :
    (live : Entry) (olds : List Entry) → IsSorted olds → IsSorted (rest_after live olds)
unfolding rest_after
rest_after-IsSorted live [] h = tt
rest_after-IsSorted live (e ∷ olds) h = elim (Ordering-cases (compare_key e.path live.path)) [
  | inl before ↦ rw (before, rest_after) (rest_after-IsSorted live olds h.1)
  | inr (inl equal) ↦ rw (equal, rest_after) h.1
  | inr (inr after) ↦ rw (after, rest_after) h
]

module _ (ratio : ℕ → ℕ → Bytes) (p : Bytes) where
  changes_at-common :
      (old live : Entry) (rest : List Change)
      → changes_at p (common ratio old live ++ rest) ≡ (
          if bytes_eq live.path p
          then common ratio old live ++ changes_at p rest
          else changes_at p rest)
  unfolding common
  changes_at-common old live rest = ground arith

  changes_at-removed :
      (olds : List Entry)
      → IsSorted olds
      → changes_at p (map removed olds) ≡ diff_at ratio (find p olds) none
  unfolding diff_at
  changes_at-removed [] h = refl
  changes_at-removed (e ∷ olds) h = elim (Bool-cases (bytes_eq e.path p)) [
    | inl here ↦ rw here (
        ap (λ r. removed e ∷ r)
          (changes_at-removed olds h.1
            ∙ ap (λ o. diff_at ratio o none) (find_below p e olds here h.0)))
    | inr past ↦ rw past (changes_at-removed olds h.1)
  ]

  -- The changes up to a live entry, and those behind it.
  changes_at-upto :
      (live : Entry) (olds lives : List Entry) (rest : List Change)
      → IsSorted olds
      → All (λ (f : Entry). live.path ≺ f.path) lives
      → changes_at p rest ≡ diff_at ratio (find p (rest_after live olds)) (find p lives)
      → changes_at p (upto ratio live olds ++ rest)
        ≡ diff_at ratio (find p olds) (find p (live ∷ lives))
  unfolding diff_at upto rest_after
  changes_at-upto live [] lives rest h k e = elim (Bool-cases (bytes_eq live.path p)) [
    | inl here ↦
        let later = find_below p live lives here k in
        rw here (ap (λ r. added live ∷ r) (rw later at e))
    | inr past ↦ rw past e
  ]
  changes_at-upto live (o ∷ olds) lives rest h k e =
      elim (Ordering-cases (compare_key o.path live.path)) [
        | inl before ↦
            let ih = changes_at-upto live olds lives rest h.1 k (rw (before, rest_after) at e) in
            elim (Bool-cases (bytes_eq o.path p)) [
              | inl here ↦
                  let gone = find_below p o olds here h.0 in
                  let later =
                    find_below p o (live ∷ lives) here
                      (before, below_trans o.path live.path lives before k) in
                  rw (before, upto, here, later) (ap (λ r. removed o ∷ r) (rw (gone, later) at ih))
              | inr past ↦ rw (before, upto, past) ih
            ]
        | inr (inl equal) ↦
            let e' = rw (equal, rest_after) at e in
            let same = compare_key_eq o.path live.path equal in
            elim (Bool-cases (bytes_eq live.path p)) [
              | inl here ↦
                  let here_o = ap (λ q. bytes_eq q p) same ∙ here in
                  let gone = find_below p o olds here_o h.0 in
                  let later = find_below p live lives here k in
                  rw (equal, upto, here_o, changes_at-common, here)
                    (ap (λ r. common ratio o live ++ r) (rw (gone, later) at e')
                      ∙ append-nil (common ratio o live))
              | inr past ↦
                  rw (equal, upto, ap (λ q. bytes_eq q p) same ∙ past, changes_at-common, past) e'
            ]
        | inr (inr after) ↦
            let e' = rw (after, rest_after) at e in
            elim (Bool-cases (bytes_eq live.path p)) [
              | inl here ↦
                  let up = compare_key-flip o.path live.path ∙ ap flip after in
                  let gone =
                    find_below p live (o ∷ olds) here
                      (up, below_trans live.path o.path olds up h.0) in
                  let later = find_below p live lives here k in
                  rw (after, upto, here, gone) (ap (λ r. added live ∷ r) (rw (gone, later) at e'))
              | inr past ↦ rw (after, upto, past) e'
            ]
      ]

  pub changes_at-classified :
      (olds lives : List Entry)
      → IsSorted olds
      → IsSorted lives
      → changes_at p (classified ratio olds lives) ≡ diff_at ratio (find p olds) (find p lives)
  unfolding classified
  changes_at-classified olds [] h k = changes_at-removed olds h
  changes_at-classified olds (live ∷ lives) h k =
      changes_at-upto live olds lives _ h k.0
        (changes_at-classified (rest_after live olds) lives (rest_after-IsSorted live olds h) k.1)

-- The changes that pass both filters, with the summary of an added directory filled in.
unfoldable pub delivered : (Bytes → Bytes → Option Bool) → Options → List Change → List Change
delivered glob opts [] = []
delivered glob opts (c ∷ cs) =
    if Ignore.match glob opts.ignore c.op c.path
    then delivered glob opts cs
    else if not (shows opts.show c.op)
    then delivered glob opts cs
    else summarized opts c ∷ delivered glob opts cs

module _ (glob : Bytes → Bytes → Option Bool) (opts : Options) where
  pub emitted-foldl :
      (cs : List Change) (g : Ledger)
      → (foldl (post glob opts) g cs).emitted ≡ g.emitted ++ delivered glob opts cs
  unfolding delivered post
  emitted-foldl [] g = sym (append-nil g.emitted)
  emitted-foldl (c ∷ cs) g =
      emitted-foldl cs (post glob opts g c)
      ∙ ground (arith, append_assoc g.emitted (summarized opts c ∷ []) (delivered glob opts cs))

  pub delivered-changes_at :
      (p : Bytes) (cs : List Change)
      → changes_at p (delivered glob opts cs) ≡ delivered glob opts (changes_at p cs)
  unfolding delivered
  delivered-changes_at p [] = refl
  delivered-changes_at p (c ∷ cs) = ground (arith, delivered-changes_at p cs)

pub IsSorted-Follows :
    (started : Bool) (last : Bytes) (lives : List Entry)
    → (started ≡ true → All (λ (f : Entry). last ≺ f.path) lives)
    → IsSorted lives
    → Follows started last lives
IsSorted-Follows started last [] h k = tt
IsSorted-Follows false last (live ∷ lives) h k =
    IsSorted-Follows true live.path lives (λ _. k.0) k.1
IsSorted-Follows true last (live ∷ lives) h k =
    ((h refl).0, IsSorted-Follows true live.path lives (λ _. k.0) k.1)
