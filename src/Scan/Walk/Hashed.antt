-- ===== src/Scan/Walk/Hashed.antt =====
-- The entries of `visit` in internal/scan/walk.go before and behind `hashEntry`.
use mathlib.Core.List.{map-append}
use osfp.Base.{
  ℕ, ◌+◌, Bytes, Bool, true, false, List, [], ◌∷◌, ◌++◌, Option, map, ◌≡◌, refl, sym, ap, ◌∙◌,
  if◌then◌else◌, arith, ◌==◌,
}
use osfp.Entry.{Entry, type_dir}
use osfp.Filepath.{join_path}
use osfp.Scan.Tree.{
  Answer, Stat, Node, node, Listing, unreadable, listed, Children, nil, child, Found, gone, there,
}
use osfp.Scan.Walk.{
  Walker, acquire, commit, enters, fill, finished, list_error, error_entry, emit_error, excludes,
  visit, visit_listing, visit_children, visit_found, walk, new_walker, dev_of, may_descend,
  within_limits, cross_mount, note_mount,
}
use osfp.Scan.Settings.{Options}
use osfp.Scan.Walk.Order.{path-fill, path-list_error}

-- An entry behind its worker, if it goes to one; `contents` says what the files hold.
abbrev pub hashed : Options → (Bytes → Answer) → Entry → Entry
hashed opts contents e = finished opts (contents e.path) e

-- The files of a tree hold what `contents` says of their paths.
unfoldable mutual
  pub Holds : (Bytes → Answer) → Bytes → Node → Type 0
  Holds contents path (node s target content fs listing) =
      (contents path ≡ content) × HoldsListing contents path listing

  pub HoldsListing : (Bytes → Answer) → Bytes → Listing → Type 0
  HoldsListing contents path (unreadable x cs) = HoldsChildren contents path cs
  HoldsListing contents path (listed cs) = HoldsChildren contents path cs

  pub HoldsChildren : (Bytes → Answer) → Bytes → Children → Type 0
  HoldsChildren contents path nil = Unit
  HoldsChildren contents path (child n found rest) =
      HoldsFound contents (join_path path n) found × HoldsChildren contents path rest

  pub HoldsFound : (Bytes → Answer) → Bytes → Found → Type 0
  HoldsFound contents path (gone cause) = Unit
  HoldsFound contents path (there n) = Holds contents path n

abbrev pub unhashed : Options → Options
unhashed opts = record opts { no_hash = true }

module _ (glob : Bytes → Bytes → Option Bool) (opts : Options) (contents : Bytes → Answer) where
  abbrev behind : Walker → Walker
  behind w = record w { emitted = map (hashed opts contents) w.emitted }

  -- The answer and the walker of a step without hashes, with the entries behind their workers.
  abbrev both : Bool × Walker → Bool × Walker
  both (b, w) = (b, behind w)

  cross_mount-behind :
      (path : Bytes) (fs : Bytes × Bool) (w : Walker)
      → cross_mount opts path fs (behind w) ≡ both (cross_mount (unhashed opts) path fs w)
  unfolding cross_mount note_mount
  cross_mount-behind path fs w = ground arith

  within_limits-behind :
      (e : Entry) (depth : ℕ) (c : Bool × Walker)
      → within_limits opts e depth (both c) ≡ both (within_limits (unhashed opts) e depth c)
  within_limits-behind e depth (crossed, w) = ground arith

  mounted-behind :
      (same : Bool) (path : Bytes) (fs : Bytes × Bool) (w : Walker)
      → (if same then (true, behind w) else cross_mount opts path fs (behind w))
        ≡ both (if same then (true, w) else cross_mount (unhashed opts) path fs w)
  mounted-behind true path fs w = refl
  mounted-behind false path fs w = cross_mount-behind path fs w

  if-both :
      (b : Bool) (x y x' y' : Bool × Walker)
      → x ≡ both x'
      → y ≡ both y'
      → (if b then x else y) ≡ both (if b then x' else y')
  if-both true x y x' y' h k = h
  if-both false x y x' y' h k = k

  may_descend-behind :
      (e : Entry) (fs : Bytes × Bool) (depth parent_dev : ℕ) (w : Walker)
      → may_descend opts e fs depth parent_dev (behind w)
        ≡ both (may_descend (unhashed opts) e fs depth parent_dev w)
  unfolding may_descend
  may_descend-behind e fs depth parent_dev w =
      if-both (depth == 0) _ _ (true, w) _ refl
        (ap (within_limits opts e depth) (mounted-behind (e.dev == parent_dev) e.path fs w)
          ∙ within_limits-behind e depth
              (if e.dev == parent_dev then (true, w) else cross_mount (unhashed opts) e.path fs w))

  enters-behind :
      (e : Entry) (fs : Bytes × Bool) (depth parent_dev dev : ℕ) (w : Walker)
      → enters opts e fs depth parent_dev (acquire opts dev (behind w))
        ≡ both (enters (unhashed opts) e fs depth parent_dev (acquire (unhashed opts) dev w))
  unfolding acquire
  enters-behind e fs depth parent_dev dev w =
      let w1 = acquire (unhashed opts) dev w in
      if-both (e.type == type_dir) _ _ _ (false, w1) (may_descend-behind e fs depth parent_dev w1)
        refl

  commit-behind :
      (e e' : Entry) (w : Walker)
      → e' ≡ hashed opts contents e
      → commit e' (behind w) ≡ behind (commit e w)
  commit-behind e e' w h =
      ap (λ (es : List Entry). record w { emitted = es })
        (ap (λ x. map (hashed opts contents) w.emitted ++ x ∷ []) h
          ∙ sym (map-append (hashed opts contents) w.emitted (e ∷ [])))

  finished-unhashed : (content : Answer) (e : Entry) → finished (unhashed opts) content e ≡ e
  finished-unhashed content e = ground arith

  gone_behind :
      (path cause : Bytes) (w : Walker)
      → emit_error opts path cause (behind w) ≡ behind (emit_error (unhashed opts) path cause w)
  unfolding emit_error acquire
  gone_behind path cause w =
      commit-behind (error_entry path cause) (error_entry path cause) (acquire (unhashed opts) 0 w)
        refl

  if-behind :
      (b : Bool) (v w : Walker) → (if b then behind v else behind w) ≡ behind (if b then v else w)
  if-behind true v w = refl
  if-behind false v w = refl

  own_behind :
      (path : Bytes) (content : Answer) (l : Listing) (descend : Bool) (s : Stat) (target : Answer)
      → contents path ≡ content
      → finished opts content (list_error descend l (fill path s target))
        ≡ hashed opts contents
            (finished (unhashed opts) content (list_error descend l (fill path s target)))
  own_behind path content l descend s target c =
      let e = list_error descend l (fill path s target) in
      let at : e.path ≡ path =
        path-list_error descend l (fill path s target) ∙ path-fill path s target in
      rw (finished-unhashed content e, at, c) refl

  mutual
    unfolding visit Holds

    visit-behind :
        (n : Node) (path : Bytes) (depth parent_dev : ℕ) (w : Walker)
        → Holds contents path n
        → visit glob opts path n depth parent_dev (behind w)
          ≡ behind (visit glob (unhashed opts) path n depth parent_dev w)
    visit-behind (node s target content fs listing) path depth parent_dev w (c, cs) =
        let e = fill path s target in
        let next = enters (unhashed opts) e fs depth parent_dev (acquire (unhashed opts) s.dev w) in
        let own = list_error next.0 listing e in
        let w2 = commit (finished (unhashed opts) content own) next.1 in
        ap
          (λ (n : Bool × Walker).
            visit_listing glob opts path listing n.0 depth w.acquired
              (commit (finished opts content (list_error n.0 listing e)) n.1))
          (enters-behind e fs depth parent_dev s.dev w)
        ∙ ap (visit_listing glob opts path listing next.0 depth w.acquired)
            (commit-behind _ _ next.1 (own_behind path content listing next.0 s target c))
        ∙ listing-behind listing path next.0 depth w.acquired w2 cs

    listing-behind :
        (l : Listing) (path : Bytes) (descend : Bool) (depth own : ℕ) (w : Walker)
        → HoldsListing contents path l
        → visit_listing glob opts path l descend depth own (behind w)
          ≡ behind (visit_listing glob (unhashed opts) path l descend depth own w)
    listing-behind (unreadable x cs) path false depth own w h = refl
    listing-behind (unreadable x cs) path true depth own w h = children-behind cs path depth own w h
    listing-behind (listed cs) path false depth own w h = refl
    listing-behind (listed cs) path true depth own w h = children-behind cs path depth own w h

    children-behind :
        (cs : Children) (path : Bytes) (depth own : ℕ) (w : Walker)
        → HoldsChildren contents path cs
        → visit_children glob opts path cs depth own (behind w)
          ≡ behind (visit_children glob (unhashed opts) path cs depth own w)
    children-behind nil path depth own w h = refl
    children-behind (child n found rest) path depth own w (here, h) =
        let p = join_path path n in
        let seen = visit_found glob (unhashed opts) p found depth own w in
        let out = excludes glob opts.exclude p in
        ap
          (λ (v : Walker).
            visit_children glob opts path rest depth own (if out then behind w else v))
          (found-behind found p depth own w here)
        ∙ ap (visit_children glob opts path rest depth own) (if-behind out w seen)
        ∙ children-behind rest path depth own (if out then w else seen) h

    found-behind :
        (f : Found) (path : Bytes) (depth own : ℕ) (w : Walker)
        → HoldsFound contents path f
        → visit_found glob opts path f depth own (behind w)
          ≡ behind (visit_found glob (unhashed opts) path f depth own w)
    found-behind (gone cause) path depth own w h = gone_behind path cause w
    found-behind (there n) path depth own w h = visit-behind n path (depth + 1) _ w h

-- A walk without hashes emits the entries of the walk before they go to a worker.
pub walk-hashed :
    (glob : Bytes → Bytes → Option Bool) (opts : Options) (contents : Bytes → Answer) (root : Bytes)
    (n : Node)
    → Holds contents root n
    → (walk glob opts root n).emitted
      ≡ map (hashed opts contents) (walk glob (unhashed opts) root n).emitted
unfolding walk
walk-hashed glob opts contents root n h =
    ap (λ (w : Walker). w.emitted)
      (visit-behind glob opts contents n root 0 (dev_of n) new_walker h)
