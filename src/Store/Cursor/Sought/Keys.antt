-- ===== src/Store/Cursor/Sought/Keys.antt =====
-- The keys of the blocks and the entries on both sides of a path.
use Prim.Native.Nat.{Ordering}
use mathlib.Core.Path.{subst}
use osfp.Base.{
  ℕ, zero, suc, ◌<◌, Bytes, Bool, true, false, List, [], ◌∷◌, ◌++◌, drop, if◌then◌else◌, length,
  All, All-split, ◌≡◌, refl, sym, ap, ◌∙◌, arith, inl, inr, Ordering-cases,
}
use osfp.Canon.{compare_key}
use osfp.Canon.Order.{◌≺◌, ≺_trans, compare_key_eq, compare_key-flip, flip}
use osfp.Entry.{Entry}
use osfp.Entry.Sorted.{IsSorted, IsSorted-split}
use osfp.Store.Reader.{BlockRef}
use osfp.Store.Cursor.Iterate.{concat}
use osfp.Store.Cursor.Seek.{is_past, reaches, opens_past}

-- The first key of each reference is the path of the first entry of its block.
abbrev pub Keyed : List BlockRef → List (List Entry) → Type 0
Keyed [] [] = Unit
Keyed [] (b ∷ bs) = ⊥
Keyed (r ∷ rs) [] = ⊥
Keyed (r ∷ rs) ([] ∷ bs) = ⊥
Keyed (r ∷ rs) ((e ∷ b) ∷ bs) = (e.path ≡ r.first_key) × Keyed rs bs

-- The entries whose paths do not come before a path.
abbrev pub from_path : Bytes → List Entry → List Entry
from_path path [] = []
from_path path (e ∷ es) = if reaches e.path path then e ∷ from_path path es else from_path path es

abbrev at_least : Ordering → Bool
at_least o = elim o [ Ordering.lt ↦ false | _ ↦ true ]

abbrev more_than : Ordering → Bool
more_than o = elim o [ Ordering.gt ↦ true | _ ↦ false ]

differ : ¬ (false ≡ true)
differ h = cc

reaches_not : (a path : Bytes) → a ≺ path → reaches a path ≡ false
unfolding reaches
reaches_not a path h = ap at_least h

path_before : (a path : Bytes) → is_past a path ≡ true → path ≺ a
unfolding is_past
path_before a path h = compare_key-flip a path ∙ ap flip (is_gt (compare_key a path) h)
  where
    is_gt : (o : Ordering) → more_than o ≡ true → o ≡ Ordering.gt
    is_gt Ordering.lt e = absurd (cc e)
    is_gt Ordering.eq e = absurd (cc e)
    is_gt Ordering.gt e = refl

before_path : (a path : Bytes) → path ≺ a → (is_past a path ≡ true) × (reaches a path ≡ true)
unfolding is_past reaches
before_path a path h =
    let after : compare_key a path ≡ Ordering.gt = compare_key-flip path a ∙ ap flip h in
    (ap more_than after, ap at_least after)

-- What comes behind a key that is past the path is past it too.
is_past_later : (a b path : Bytes) → a ≺ b → is_past a path ≡ true → is_past b path ≡ true
is_past_later a b path h k = (before_path b path (≺_trans path a b (path_before a path k) h)).0

pub reaches_later : (a b path : Bytes) → a ≺ b → reaches a path ≡ true → reaches b path ≡ true
unfolding reaches
reaches_later a b path h k =
    (before_path b path (elim (Ordering-cases (compare_key a path)) [
      | inl l ↦ absurd (differ (sym (ap at_least l) ∙ k))
      | inr (inl e) ↦ subst (λ p. p ≺ b) (compare_key_eq a path e) h
      | inr (inr g) ↦ ≺_trans path a b (compare_key-flip a path ∙ ap flip g) h
    ])).1

-- What comes before a key that is not past the path comes before the path.
before_key : (a k path : Bytes) → a ≺ k → is_past k path ≡ false → a ≺ path
unfolding is_past
before_key a k path h n = elim (Ordering-cases (compare_key k path)) [
  | inl l ↦ ≺_trans a k path h l
  | inr (inl e) ↦ subst (λ p. a ≺ p) (compare_key_eq k path e) h
  | inr (inr g) ↦ absurd (differ (sym n ∙ ap more_than g))
]

pub from_path-all :
    (path : Bytes) (es : List Entry)
    → All (λ (e : Entry). reaches e.path path ≡ true) es
    → from_path path es ≡ es
from_path-all path [] h = refl
from_path-all path (e ∷ es) h = rw h.0 (ap (λ r. e ∷ r) (from_path-all path es h.1))

from_path-skip :
    (path : Bytes) (es fs : List Entry)
    → All (λ (e : Entry). e.path ≺ path) es
    → from_path path (es ++ fs) ≡ from_path path fs
from_path-skip path [] fs h = refl
from_path-skip path (e ∷ es) fs h = rw (reaches_not e.path path h.0) (from_path-skip path es fs h.1)

module _ (path : Bytes) where
  -- A key before all entries comes before the first key of any block, and so before the path where
  -- that first key is not past it.
  before_block :
      (rs : List BlockRef) (bs : List (List Entry)) (a : Bytes) (k : ℕ)
      → Keyed rs bs
      → k < length rs
      → opens_past path rs k ≡ false
      → All (λ (e : Entry). a ≺ e.path) (concat bs)
      → a ≺ path
  before_block [] bs a k d h n l = absurd (omega arith)
  before_block (r ∷ rs) [] a k d h n l = absurd d
  before_block (r ∷ rs) ([] ∷ bs) a k d h n l = absurd d
  before_block (r ∷ rs) ((e ∷ b) ∷ bs) a zero d h n l =
      before_key a r.first_key path (subst (λ k. a ≺ k) d.0 l.0) n
  before_block (r ∷ rs) ((e ∷ b) ∷ bs) a (suc k) d h n l =
      before_block rs bs a k d.1 (omega arith) n
        (All-split (λ (e : Entry). a ≺ e.path) b (concat bs) l.1).1

  pub all_before :
      (rs : List BlockRef) (bs : List (List Entry)) (es : List Entry) (k : ℕ)
      → Keyed rs bs
      → k < length rs
      → opens_past path rs k ≡ false
      → IsSorted (es ++ concat bs)
      → All (λ (e : Entry). e.path ≺ path) es
  all_before rs bs [] k d h n s = tt
  all_before rs bs (e ∷ es) k d h n s = (
    before_block rs bs e.path k d h n
        (All-split (λ (f : Entry). e.path ≺ f.path) es (concat bs) s.0).1,
    all_before rs bs es k d h n s.1,
  )

  -- The blocks in front of one whose first key is not past the path have no entry for the seeker.
  pub from_path-drop :
      (rs : List BlockRef) (bs : List (List Entry)) (k : ℕ)
      → Keyed rs bs
      → k < length rs
      → opens_past path rs k ≡ false
      → IsSorted (concat bs)
      → from_path path (concat bs) ≡ from_path path (concat (drop k bs))
  from_path-drop rs bs zero d h n s = refl
  from_path-drop [] bs (suc k) d h n s = absurd (omega arith)
  from_path-drop (r ∷ rs) [] (suc k) d h n s = absurd d
  from_path-drop (r ∷ rs) ([] ∷ bs) (suc k) d h n s = absurd d
  from_path-drop (r ∷ rs) ((e ∷ b) ∷ bs) (suc k) d h n s =
      from_path-skip path (e ∷ b) (concat bs) (all_before rs bs (e ∷ b) k d.1 (omega arith) n s)
      ∙ from_path-drop rs bs k d.1 (omega arith) n (IsSorted-split (e ∷ b) (concat bs) s).1

  -- Once a block opens past the path, the next one does.
  pub opens_past_next :
      (rs : List BlockRef) (bs : List (List Entry)) (i : ℕ)
      → Keyed rs bs
      → IsSorted (concat bs)
      → suc i < length rs
      → opens_past path rs i ≡ true
      → opens_past path rs (suc i) ≡ true
  opens_past_next [] bs i d s h n = absurd (omega arith)
  opens_past_next (r ∷ rs) [] i d s h n = absurd d
  opens_past_next (r ∷ rs) ([] ∷ bs) i d s h n = absurd d
  opens_past_next (r ∷ []) ((e ∷ b) ∷ bs) zero d s h n = absurd (omega arith)
  opens_past_next (r ∷ q ∷ rs) ((e ∷ b) ∷ []) zero d s h n = absurd d.1
  opens_past_next (r ∷ q ∷ rs) ((e ∷ b) ∷ [] ∷ bs) zero d s h n = absurd d.1
  opens_past_next (r ∷ q ∷ rs) ((e ∷ b) ∷ (f ∷ c) ∷ bs) zero d s h n =
      let behind = All-split (λ (g : Entry). e.path ≺ g.path) b (f ∷ c ++ concat bs) s.0 in
      is_past_later r.first_key q.first_key path
        (subst (λ k. k ≺ q.first_key) d.0 (subst (λ k. e.path ≺ k) d.1.0 behind.1.0)) n
  opens_past_next (r ∷ rs) ((e ∷ b) ∷ bs) (suc i) d s h n =
      opens_past_next rs bs i d.1 (IsSorted-split (e ∷ b) (concat bs) s).1 (omega arith) n
