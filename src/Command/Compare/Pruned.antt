-- ===== src/Command/Compare/Pruned.antt =====
-- What a comparison scans: the closure `Descend` and the walk.
use osfp.Base.{
  ℕ, ◌+◌, Bytes, Bool, true, false, List, [], ◌∷◌, Option, ◌==◌, ◌≡◌, ◌⊎◌, inl, inr, refl, ◌∙◌,
  arith, Bool-cases,
}
use osfp.Entry.{Entry}
use osfp.Filepath.{join_path}
use osfp.Scan.Tree.{
  Node, node, Listing, unreadable, listed, Children, nil, child, Found, gone, there,
}
use osfp.Scan.Walk.{
  Walker, acquire, commit, cross_mount, within_limits, may_descend, enters, asks, fill, finished,
  list_error, error_entry, emit_error, excludes, visit, visit_listing, visit_children, visit_found,
}
use osfp.Scan.Settings.{Options}
use osfp.Canon.Components.{IsName}
use osfp.Scan.Walk.Names.{IsListed, IsListedListing, IsListedChildren, IsListedFound}
use osfp.Scan.Walk.Order.{path-fill, path-list_error, path-finished, emitted-enters}
use osfp.Scan.Walk.Kept.{Adds, Adds-none, Adds-two, Adds-own, Adds-child}
use osfp.Command.Compare.{is_known}

asks-within_limits :
    (opts : Options) (e : Entry) (depth : ℕ) (crossed : Bool) (w : Walker)
    → (within_limits opts e depth (crossed, w)).0 ≡ true
    → asks opts.descend e ≡ true
asks-within_limits opts e depth crossed w h = ground (arith, h)

-- Below the root, a directory is entered only where `Descend` says so.
asks-enters :
    (opts : Options) (e : Entry) (fs : Bytes × Bool) (depth parent_dev : ℕ) (w : Walker)
    → (depth == 0) ≡ false
    → (enters opts e fs depth parent_dev w).0 ≡ true
    → asks opts.descend e ≡ true
unfolding may_descend
asks-enters opts e fs depth parent_dev w below h = ground (
  arith,
  h,
  below,
  asks-within_limits opts e depth true w,
  asks-within_limits opts e depth (cross_mount opts e.path fs w).0 (cross_mount opts e.path fs w).1,
)

module _ (glob : Bytes → Bytes → Option Bool) (opts : Options) (root : Bytes) where
  -- The directory is the root, or one that `Descend` lets the walk into.
  abbrev Open : Bytes → Type 0
  Open path = (path ≡ root) ⊎ ((e : Entry) × (e.path ≡ path) × (asks opts.descend e ≡ true))

  -- The path is the root, or it lies directly in such a directory.
  abbrev pub InOpen : Bytes → Type 0
  InOpen path =
      (path ≡ root)
      ⊎ ((dir : Bytes) × (name : Bytes) × IsName name × (path ≡ join_path dir name) × Open dir)

  opened :
      (e : Entry) (path : Bytes) (fs : Bytes × Bool) (depth parent_dev : ℕ) (w : Walker)
      → ((depth == 0) ≡ true → path ≡ root)
      → e.path ≡ path
      → (enters opts e fs depth parent_dev w).0 ≡ true
      → Open path
  opened e path fs depth parent_dev w top same h = elim (Bool-cases (depth == 0)) [
    | inl here ↦ inl (top here)
    | inr below ↦ inr (e, same, asks-enters opts e fs depth parent_dev w below h)
  ]

  mutual
    unfolding visit emit_error acquire IsListed IsListedListing IsListedChildren IsListedFound

    visit-Adds :
        (n : Node) (path : Bytes) (depth parent_dev : ℕ) (w : Walker)
        → ((depth == 0) ≡ true → path ≡ root)
        → InOpen path
        → IsListed n
        → Adds InOpen w (visit glob opts path n depth parent_dev w)
    visit-Adds (node s target content fs listing) path depth parent_dev w top k l =
        let e = fill path s target in
        let next = enters opts e fs depth parent_dev (acquire opts s.dev w) in
        let own = finished opts content (list_error next.0 listing e) in
        let same : own.path ≡ path =
          path-finished opts content (list_error next.0 listing e)
          ∙ path-list_error next.0 listing e
          ∙ path-fill path s target in
        Adds-two InOpen w (commit own next.1)
          (visit_listing glob opts path listing next.0 depth w.acquired (commit own next.1))
          (Adds-own InOpen own w next.1 (emitted-enters opts e fs depth parent_dev s.dev w)
            (rw same k))
          (listing-Adds listing path next.0 depth w.acquired (commit own next.1)
            (opened e path fs depth parent_dev (acquire opts s.dev w) top (path-fill path s target))
            l)

    listing-Adds :
        (l : Listing) (path : Bytes) (descend : Bool) (depth own : ℕ) (w : Walker)
        → (descend ≡ true → Open path)
        → IsListedListing l
        → Adds InOpen w (visit_listing glob opts path l descend depth own w)
    listing-Adds (unreadable x cs) path false depth own w h k = Adds-none InOpen w
    listing-Adds (unreadable x cs) path true depth own w h k =
        children-Adds cs path depth own w (h refl) k
    listing-Adds (listed cs) path false depth own w h k = Adds-none InOpen w
    listing-Adds (listed cs) path true depth own w h k =
        children-Adds cs path depth own w (h refl) k

    children-Adds :
        (cs : Children) (path : Bytes) (depth own : ℕ) (w : Walker)
        → Open path
        → IsListedChildren cs
        → Adds InOpen w (visit_children glob opts path cs depth own w)
    children-Adds nil path depth own w h l = Adds-none InOpen w
    children-Adds (child n found rest) path depth own w h (hn, ne, above, hf, hr) =
        Adds-child InOpen (excludes glob opts.exclude (join_path path n)) w
          (visit_found glob opts (join_path path n) found depth own w)
          (visit_children glob opts path rest depth own)
          (λ kept. found-Adds found (join_path path n) depth own w (inr (path, n, hn, refl, h)) hf)
          (λ v. children-Adds rest path depth own v h hr)

    found-Adds :
        (f : Found) (path : Bytes) (depth own : ℕ) (w : Walker)
        → InOpen path
        → IsListedFound f
        → Adds InOpen w (visit_found glob opts path f depth own w)
    found-Adds (gone cause) path depth own w k l = (error_entry path cause ∷ [], refl, (k, tt))
    found-Adds (there n) path depth own w k l =
        visit-Adds n path (depth + 1) _ w (λ top. absurd (ground (arith, top))) k l

-- The path is the scan root, or it lies directly, under a name of one element, in the root or in a
-- directory of the fingerprint.
abbrev pub IsNear : Bytes → List Bytes → Bytes → Type 0
IsNear root dirs path =
    (path ≡ root)
    ⊎ ((dir : Bytes) × (name : Bytes) × IsName name
        × (path ≡ join_path dir name)
        × ((dir ≡ root) ⊎ (is_known dir dirs ≡ true)))
