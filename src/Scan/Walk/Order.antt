-- ===== src/Scan/Walk/Order.antt =====
-- The order in which `visit` of internal/scan/walk.go emits entries.
use Prim.Native.Nat.{Ordering}
use mathlib.Core.List.{append_assoc, append-nil}
use osfp.Base.{
  ℕ, ◌+◌, Bytes, Bool, true, false, List, [], ◌∷◌, ◌++◌, Option, bytes_eq, if◌then◌else◌, ◌≡◌, ◌≢◌,
  refl, sym, ap, ◌∙◌, All, All-map, All-append, arith,
}
use mathlib.Core.Path.{subst}
use osfp.Canon.{compare_key, slash}
use osfp.Canon.Order.{◌≺◌}
use osfp.Canon.Components.{compare_name, IsName}
use osfp.Entry.{Entry}
use osfp.Entry.Sorted.{IsSorted, AllBefore, IsSorted-append}
use osfp.Filepath.{join_path, is_here}
use osfp.Scan.Tree.{
  Stat, Answer, Node, node, Listing, unreadable, listed, Children, nil, child, Found, gone, there,
}
use osfp.Scan.Walk.{
  Walker, acquire, commit, note_mount, cross_mount, within_limits, may_descend, enters, fill,
  hash_entry, finished, list_error, error_entry, emit_error, excludes, visit, visit_listing,
  visit_children, visit_found, walk, new_walker, dev_of,
}
use osfp.Scan.Settings.{Options}
use osfp.Scan.Walk.Names.{
  Above, IsListed, IsListedListing, IsListedChildren, IsListedFound, Below, Inside, names-lt,
  join_path-lt, parent-lt, join_path-not_root, join_path-not_here, Inside→Below,
}

pub path-fill : (p : Bytes) (s : Stat) (target : Answer) → (fill p s target).path ≡ p
unfolding fill
path-fill p s target = ground arith

pub path-list_error : (d : Bool) (l : Listing) (e : Entry) → (list_error d l e).path ≡ e.path
path-list_error true (unreadable x cs) e = refl
path-list_error true (listed cs) e = refl
path-list_error false l e = refl

pub path-finished :
    (opts : Options) (content : Answer) (e : Entry) → (finished opts content e).path ≡ e.path
unfolding hash_entry
path-finished opts content e = ground arith

emitted-within_limits :
    (opts : Options) (e : Entry) (depth : ℕ) (crossed : Bool) (w : Walker)
    → (within_limits opts e depth (crossed, w)).1.emitted ≡ w.emitted
emitted-within_limits opts e depth crossed w = ground arith

emitted-cross_mount :
    (opts : Options) (path : Bytes) (fs : Bytes × Bool) (w : Walker)
    → (cross_mount opts path fs w).1.emitted ≡ w.emitted
unfolding cross_mount note_mount
emitted-cross_mount opts path fs w = ground arith

pub emitted-enters :
    (opts : Options) (e : Entry) (fs : Bytes × Bool) (depth parent_dev dev : ℕ) (w : Walker)
    → (enters opts e fs depth parent_dev (acquire opts dev w)).1.emitted ≡ w.emitted
unfolding may_descend acquire
emitted-enters opts e fs depth parent_dev dev w =
    let w' = acquire opts dev w in
    ground (
      arith,
      emitted-within_limits opts e depth true w',
      emitted-within_limits opts e depth (cross_mount opts e.path fs w').0
          (cross_mount opts e.path fs w').1,
      emitted-cross_mount opts e.path fs w',
    )

-- What a part of the walk appends to the entries, in order and with paths of which `P` holds.
abbrev Appends : (Bytes → Type 0) → Walker → Walker → Type 0
Appends P w w' =
    (fresh : List Entry) × (w'.emitted ≡ w.emitted ++ fresh)
    × IsSorted fresh
    × All (λ (e : Entry). P e.path) fresh

-- A name of which all that a listing's names are below is below.
abbrev Behind : Children → Bytes → Type 0
Behind cs m = (n : Bytes) → Above n cs → compare_name n m ≡ Ordering.lt

children-before :
    (p n : Bytes) (rest : Children) (xs ys : List Entry)
    → is_here p ≡ false
    → IsName n
    → Above n rest
    → All (λ (e : Entry). Below (join_path p n) e.path) xs
    → All (λ (e : Entry). Inside p (Behind rest) e.path) ys
    → AllBefore xs ys
children-before p n rest xs ys here hn above hx hy =
    All-map (λ (e : Entry). Below (join_path p n) e.path) _ xs
      (λ e (r, hr, er).
        All-map (λ (f : Entry). Inside p (Behind rest) f.path) _ ys
          (λ f (m, s, hm, ne, behind, hs, es).
            rw (er, es)
              (join_path-lt p n m r s here (names-lt n m r s hn hm hr hs (behind n above))))
          hy)
      hx

Appends-two :
    (p n : Bytes) (found : Found) (rest : Children) (w w' w'' : Walker)
    → is_here p ≡ false
    → IsName n
    → n ≢ []
    → Above n rest
    → Appends (Below (join_path p n)) w w'
    → Appends (Inside p (Behind rest)) w' w''
    → Appends (Inside p (Behind (child n found rest))) w w''
Appends-two p n found rest w w' w'' here hn ne above (xs, ex, sx, bx) (ys, ey, sy, by) = (
  xs ++ ys,
  ey ∙ ap (λ r. r ++ ys) ex ∙ append_assoc w.emitted xs ys,
  IsSorted-append xs ys sx sy (children-before p n rest xs ys here hn above bx by),
  All-append _ xs ys
      (All-map _ _ xs (λ e (s, hs, es). (n, s, hn, ne, (λ k above_k. above_k.0), hs, es)) bx)
      (All-map _ _ ys
        (λ e (m, s, hm, nem, behind, hs, es).
          (m, s, hm, nem, (λ k above_k. behind k above_k.1), hs, es))
        by),
)

Appends-skip :
    (p n : Bytes) (found : Found) (rest : Children) (w w' : Walker)
    → Appends (Inside p (Behind rest)) w w'
    → Appends (Inside p (Behind (child n found rest))) w w'
Appends-skip p n found rest w w' (ys, ey, sy, by) = (
  ys,
  ey,
  sy,
  All-map _ _ ys
      (λ e (m, s, hm, nem, behind, hs, es).
        (m, s, hm, nem, (λ k above_k. behind k above_k.1), hs, es))
      by,
)

-- A child that may be excluded, and the children behind it.
Appends-child :
    (p n : Bytes) (found : Found) (rest : Children) (excluded : Bool) (w seen : Walker)
    → (next : Walker → Walker) → is_here p ≡ false
    → IsName n
    → n ≢ []
    → Above n rest
    → Appends (Below (join_path p n)) w seen
    → ((v : Walker) → Appends (Inside p (Behind rest)) v (next v))
    → Appends (Inside p (Behind (child n found rest))) w (next (if excluded then w else seen))
Appends-child p n found rest true w seen next dir hn ne above here behind =
    Appends-skip p n found rest w (next w) (behind w)
Appends-child p n found rest false w seen next dir hn ne above here behind =
    Appends-two p n found rest w seen (next seen) dir hn ne above here (behind seen)

all_named :
    (cs : Children) (path : Bytes) (w w' : Walker)
    → Appends (Inside path (Behind cs)) w w'
    → Appends (Inside path (λ m. Unit)) w w'
all_named cs path w w' (ys, ey, sy, by) =
    (ys, ey, sy, All-map _ _ ys (λ f (m, s, hm, ne, hp, hs, es). (m, s, hm, ne, tt, hs, es)) by)

-- The path is not empty where the path of the walk is not.
abbrev Named : Bytes → Bytes → Type 0
Named path q = path ≢ [] → q ≢ []

not_below_empty : (p : Bytes) → ¬ (p ≺ [])
unfolding compare_key
not_below_empty [] h = cc
not_below_empty (c ∷ p) h = cc

Inside→Named : (path q : Bytes) → is_here path ≡ false → Inside path (λ m. Unit) q → Named path q
Inside→Named path q here (m, s, hm, ne, hp, hs, es) h e =
    not_below_empty path (subst (λ r. path ≺ r) (sym es ∙ e) (parent-lt path m s here ne))

-- An entry for the path itself, and behind it what lies in it.
Appends-own :
    (path : Bytes) (e : Entry) (w w1 w' : Walker)
    → w1.emitted ≡ w.emitted
    → e.path ≡ path
    → is_here path ≡ false
    → Appends (Inside path (λ m. Unit)) (commit e w1) w'
    → (bytes_eq path (slash ∷ []) ≡ false → Appends (Below path) w w') × Appends (Named path) w w'
Appends-own path e w w1 w' same own here (ys, ey, sy, by) =
    let emitted : w'.emitted ≡ w.emitted ++ e ∷ ys =
      ey ∙ append_assoc w1.emitted (e ∷ []) ys ∙ ap (λ r. r ++ e ∷ ys) same in
    let sorted : IsSorted (e ∷ ys) = (
      All-map (λ (f : Entry). Inside path (λ m. Unit) f.path) _ ys
          (λ f (m, s, hm, ne, hp, hs, es). rw (own, es) (parent-lt path m s here ne)) by,
      sy,
    ) in
    (
      (λ other. (
        e ∷ ys,
        emitted,
        sorted,
        (
          ([], tt, own ∙ sym (append-nil path)),
          All-map _ _ ys (λ f below. Inside→Below path (λ m. Unit) f.path here other below) by,
        ),
      )),
      (
        e ∷ ys,
        emitted,
        sorted,
        (
          (λ h same_path. h (sym own ∙ same_path)),
          All-map _ _ ys (λ f. Inside→Named path f.path here) by,
        ),
      ),
    )

module _ (glob : Bytes → Bytes → Option Bool) (opts : Options) where
  mutual
    unfolding visit visit_listing visit_children visit_found emit_error acquire IsListed
        IsListedListing IsListedChildren IsListedFound

    visit-Appends :
        (n : Node) (path : Bytes) (depth parent_dev : ℕ) (w : Walker)
        → is_here path ≡ false
        → IsListed n
        → (bytes_eq path (slash ∷ []) ≡ false
            → Appends (Below path) w (visit glob opts path n depth parent_dev w))
          × Appends (Named path) w (visit glob opts path n depth parent_dev w)
    visit-Appends (node s target content fs listing) path depth parent_dev w here h =
        let e = fill path s target in
        let next = enters opts e fs depth parent_dev (acquire opts s.dev w) in
        let own = finished opts content (list_error next.0 listing e) in
        Appends-own path own w next.1
          (visit_listing glob opts path listing next.0 depth w.acquired (commit own next.1))
          (emitted-enters opts e fs depth parent_dev s.dev w)
          (path-finished opts content (list_error next.0 listing e)
            ∙ path-list_error next.0 listing e
            ∙ path-fill path s target)
          here (listing-Appends listing path next.0 depth w.acquired (commit own next.1) here h)

    listing-Appends :
        (l : Listing) (path : Bytes) (descend : Bool) (depth own : ℕ) (w : Walker)
        → is_here path ≡ false
        → IsListedListing l
        → Appends (Inside path (λ m. Unit)) w (visit_listing glob opts path l descend depth own w)
    listing-Appends (unreadable x cs) path false depth own w here h =
        ([], sym (append-nil w.emitted), tt, tt)
    listing-Appends (unreadable x cs) path true depth own w here h =
        all_named cs path w (visit_children glob opts path cs depth own w)
          (children-Appends cs path depth own w here h)
    listing-Appends (listed cs) path false depth own w here h =
        ([], sym (append-nil w.emitted), tt, tt)
    listing-Appends (listed cs) path true depth own w here h =
        all_named cs path w (visit_children glob opts path cs depth own w)
          (children-Appends cs path depth own w here h)

    children-Appends :
        (cs : Children) (path : Bytes) (depth own : ℕ) (w : Walker)
        → is_here path ≡ false
        → IsListedChildren cs
        → Appends (Inside path (Behind cs)) w (visit_children glob opts path cs depth own w)
    children-Appends nil path depth own w here h = ([], sym (append-nil w.emitted), tt, tt)
    children-Appends (child n found rest) path depth own w here (hn, ne, above, hf, hr) =
        Appends-child path n found rest (excludes glob opts.exclude (join_path path n)) w
          (visit_found glob opts (join_path path n) found depth own w)
          (visit_children glob opts path rest depth own) here hn ne above
          (found-Appends found (join_path path n) depth own w (join_path-not_root path n here ne)
            (join_path-not_here path n here ne) hf)
          (λ v. children-Appends rest path depth own v here hr)

    found-Appends :
        (f : Found) (path : Bytes) (depth own : ℕ) (w : Walker)
        → bytes_eq path (slash ∷ []) ≡ false
        → is_here path ≡ false
        → IsListedFound f
        → Appends (Below path) w (visit_found glob opts path f depth own w)
    found-Appends (gone cause) path depth own w nr here h =
        (error_entry path cause ∷ [], refl, (tt, tt), (([], tt, sym (append-nil path)), tt))
    found-Appends (there n) path depth own w nr here h =
        (visit-Appends n path (depth + 1) _ w here h).0 nr

-- Where the root is neither empty nor `.` and every listing gives nonempty names of one element in
-- increasing order, with an error or without, the walk emits its entries in strictly increasing canonical order of their paths, whatever it excludes or prunes.
pub walk-IsSorted :
    (glob : Bytes → Bytes → Option Bool) (opts : Options) (root : Bytes) (n : Node)
    → is_here root ≡ false
    → IsListed n
    → IsSorted (walk glob opts root n).emitted
unfolding walk
walk-IsSorted glob opts root n here h =
    let (fresh, emitted, sorted, below) =
      (visit-Appends glob opts n root 0 (dev_of n) new_walker here h).1 in
    rw emitted sorted

named : (root : Bytes) → is_here root ≡ false → root ≢ []
named [] here e = cc
named (c ∷ root) here e = cc

-- Below a root that is neither empty nor `.`, no path is empty.
pub walk-HasPath :
    (glob : Bytes → Bytes → Option Bool) (opts : Options) (root : Bytes) (n : Node)
    → is_here root ≡ false
    → IsListed n
    → All (λ (e : Entry). e.path ≢ []) (walk glob opts root n).emitted
unfolding walk
walk-HasPath glob opts root n here h =
    let (fresh, emitted, sorted, below) =
      (visit-Appends glob opts n root 0 (dev_of n) new_walker here h).1 in
    rw emitted (All-map _ _ fresh (λ e b. b (named root here)) below)
