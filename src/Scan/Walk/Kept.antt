-- ===== src/Scan/Walk/Kept.antt =====
-- The exclusions that `visit` of internal/scan/walk.go applies.
use mathlib.Core.List.{append_assoc, append-nil}
use osfp.Base.{
  ℕ, ◌+◌, Bytes, Bool, true, false, List, [], ◌∷◌, ◌++◌, Option, ◌≡◌, ◌⊎◌, inl, inr, refl, sym, ap,
  ◌∙◌, All, All-append, if◌then◌else◌,
}
use osfp.Entry.{Entry}
use osfp.Filepath.{join_path}
use osfp.Scan.Tree.{
  Node, node, Listing, unreadable, listed, Children, nil, child, Found, gone, there,
}
use osfp.Scan.Walk.{
  Walker, acquire, commit, enters, fill, finished, list_error, error_entry, emit_error, excludes,
  visit, visit_listing, visit_children, visit_found, walk, new_walker, dev_of,
}
use osfp.Scan.Settings.{Options}
use osfp.Scan.Walk.Order.{path-fill, path-finished, path-list_error, emitted-enters}

module _ (P : Bytes → Type 0) where
  -- What a part of the walk appends to the entries, with paths of which `P` holds.
  abbrev pub Adds : Walker → Walker → Type 0
  Adds w w' =
      (fresh : List Entry) × (w'.emitted ≡ w.emitted ++ fresh) × All (λ (e : Entry). P e.path) fresh

  pub Adds-none : (w : Walker) → Adds w w
  Adds-none w = ([], sym (append-nil w.emitted), tt)

  pub Adds-two : (w w' w'' : Walker) → Adds w w' → Adds w' w'' → Adds w w''
  Adds-two w w' w'' (xs, ex, px) (ys, ey, py) = (
    xs ++ ys,
    ey ∙ ap (λ r. r ++ ys) ex ∙ append_assoc w.emitted xs ys,
    All-append (λ (e : Entry). P e.path) xs ys px py,
  )

  pub Adds-own :
      (e : Entry) (w w1 : Walker) → w1.emitted ≡ w.emitted → P e.path → Adds w (commit e w1)
  Adds-own e w w1 same p = (e ∷ [], ap (λ r. r ++ e ∷ []) same, (p, tt))

  pub Adds-child :
      (excluded : Bool) (w seen : Walker) (next : Walker → Walker)
      → (excluded ≡ false → Adds w seen)
      → ((v : Walker) → Adds v (next v))
      → Adds w (next (if excluded then w else seen))
  Adds-child true w seen next here rest = rest w
  Adds-child false w seen next here rest = Adds-two w seen (next seen) (here refl) (rest seen)

module _ (glob : Bytes → Bytes → Option Bool) (opts : Options) (root : Bytes) where
  -- The path is the scan root, or the exclusions leave it in.
  abbrev pub Kept : Bytes → Type 0
  Kept path = (path ≡ root) ⊎ (excludes glob opts.exclude path ≡ false)

  mutual
    unfolding visit emit_error acquire

    visit-Adds :
        (n : Node) (path : Bytes) (depth parent_dev : ℕ) (w : Walker)
        → Kept path
        → Adds Kept w (visit glob opts path n depth parent_dev w)
    visit-Adds (node s target content fs listing) path depth parent_dev w k =
        let e = fill path s target in
        let next = enters opts e fs depth parent_dev (acquire opts s.dev w) in
        let own = finished opts content (list_error next.0 listing e) in
        let same : own.path ≡ path =
          path-finished opts content (list_error next.0 listing e)
          ∙ path-list_error next.0 listing e
          ∙ path-fill path s target in
        Adds-two Kept w (commit own next.1)
          (visit_listing glob opts path listing next.0 depth w.acquired (commit own next.1))
          (Adds-own Kept own w next.1 (emitted-enters opts e fs depth parent_dev s.dev w)
            (rw same k))
          (listing-Adds listing path next.0 depth w.acquired (commit own next.1))

    listing-Adds :
        (l : Listing) (path : Bytes) (descend : Bool) (depth own : ℕ) (w : Walker)
        → Adds Kept w (visit_listing glob opts path l descend depth own w)
    listing-Adds (unreadable x cs) path false depth own w = Adds-none Kept w
    listing-Adds (unreadable x cs) path true depth own w = children-Adds cs path depth own w
    listing-Adds (listed cs) path false depth own w = Adds-none Kept w
    listing-Adds (listed cs) path true depth own w = children-Adds cs path depth own w

    children-Adds :
        (cs : Children) (path : Bytes) (depth own : ℕ) (w : Walker)
        → Adds Kept w (visit_children glob opts path cs depth own w)
    children-Adds nil path depth own w = Adds-none Kept w
    children-Adds (child n found rest) path depth own w =
        Adds-child Kept (excludes glob opts.exclude (join_path path n)) w
          (visit_found glob opts (join_path path n) found depth own w)
          (visit_children glob opts path rest depth own)
          (λ kept. found-Adds found (join_path path n) depth own w (inr kept))
          (children-Adds rest path depth own)

    found-Adds :
        (f : Found) (path : Bytes) (depth own : ℕ) (w : Walker)
        → Kept path
        → Adds Kept w (visit_found glob opts path f depth own w)
    found-Adds (gone cause) path depth own w k = (error_entry path cause ∷ [], refl, (k, tt))
    found-Adds (there n) path depth own w k = visit-Adds n path (depth + 1) _ w k

-- Every entry that a walk emits, errors included, is that of the scan root or of a path that the
-- exclusions leave in.
pub walk-Kept :
    (glob : Bytes → Bytes → Option Bool) (opts : Options) (root : Bytes) (n : Node)
    → All (λ (e : Entry). Kept glob opts root e.path) (walk glob opts root n).emitted
unfolding walk
walk-Kept glob opts root n =
    let (fresh, emitted, kept) =
      visit-Adds glob opts root n root 0 (dev_of n) new_walker (inl refl) in
    rw emitted kept
