-- ===== src/Report/Heading/Mounts.antt =====
-- The notes on mount points: every one is named once, under its kind.
use mathlib.Core.List.{append_assoc, append-nil}
use mathlib.Core.Path.{subst}
use osfp.Base.{
  ℕ, ◌+◌, Bytes, Bool, true, false, List, [], ◌∷◌, ◌++◌, if◌then◌else◌, ◌≡◌, inl, inr, refl, sym,
  ap, ◌∙◌, arith, Bool-cases,
}
use osfp.Scan.FsType.{FsKind}
use osfp.Scan.Settings.{SkippedMount}
use osfp.Report.Heading.{Groups, label_of, kind_eq, snoc_new, add_mount, group_mounts, no_groups}

-- The labels of the mount points of a kind, in their order.
abbrev pub labels : FsKind → List SkippedMount → List Bytes
labels k [] = []
labels k (m ∷ ms) = if kind_eq k m.kind then label_of m ∷ labels k ms else labels k ms

-- How often a kind stands in a list.
abbrev pub occurs : FsKind → List FsKind → ℕ
occurs k [] = 0
occurs k (j ∷ js) = (if kind_eq k j then 1 else 0) + occurs k js

-- 0 for an empty list, and otherwise 1.
abbrev pub mark : List Bytes → ℕ
mark [] = 0
mark (l ∷ ls) = 1

kind_eq→eq : (k j : FsKind) → kind_eq k j ≡ true → k ≡ j
kind_eq→eq FsKind.fs_local FsKind.fs_local h = refl
kind_eq→eq FsKind.fs_pseudo FsKind.fs_pseudo h = refl
kind_eq→eq FsKind.fs_network FsKind.fs_network h = refl
kind_eq→eq FsKind.fs_unknown FsKind.fs_unknown h = refl
kind_eq→eq FsKind.fs_local FsKind.fs_pseudo h = absurd (cc h)
kind_eq→eq FsKind.fs_local FsKind.fs_network h = absurd (cc h)
kind_eq→eq FsKind.fs_local FsKind.fs_unknown h = absurd (cc h)
kind_eq→eq FsKind.fs_pseudo FsKind.fs_local h = absurd (cc h)
kind_eq→eq FsKind.fs_pseudo FsKind.fs_network h = absurd (cc h)
kind_eq→eq FsKind.fs_pseudo FsKind.fs_unknown h = absurd (cc h)
kind_eq→eq FsKind.fs_network FsKind.fs_local h = absurd (cc h)
kind_eq→eq FsKind.fs_network FsKind.fs_pseudo h = absurd (cc h)
kind_eq→eq FsKind.fs_network FsKind.fs_unknown h = absurd (cc h)
kind_eq→eq FsKind.fs_unknown FsKind.fs_local h = absurd (cc h)
kind_eq→eq FsKind.fs_unknown FsKind.fs_pseudo h = absurd (cc h)
kind_eq→eq FsKind.fs_unknown FsKind.fs_network h = absurd (cc h)

abbrev one_if : Bool → ℕ
one_if b = if b then 1 else 0

occurs-snoc :
    (k j : FsKind) (js : List FsKind)
    → occurs k (js ++ j ∷ []) ≡ occurs k js + (if kind_eq k j then 1 else 0)
occurs-snoc k j [] = omega arith
occurs-snoc k j (i ∷ js) = omega (arith, occurs-snoc k j js)

mark-snoc : (ls : List Bytes) (l : Bytes) → mark (ls ++ l ∷ []) ≡ 1
mark-snoc [] l = refl
mark-snoc (x ∷ ls) l = refl

-- The kinds that have labels, each once.
abbrev Orderly : Groups → Type 0
Orderly g = (k : FsKind) → occurs k g.order ≡ mark (g.by_kind k)

occurs-new :
    (k j : FsKind) (ls : List Bytes) (order : List FsKind)
    → occurs j order ≡ mark ls
    → kind_eq k j ≡ true
    → occurs k (snoc_new ls j order) ≡ 1
occurs-new k j [] order h e = omega (
  arith,
  occurs-snoc k j order,
  h,
  subst (λ i. occurs i order ≡ 0) (sym (kind_eq→eq k j e)) h,
  ap one_if e,
)
occurs-new k j (l ∷ ls) order h e = subst (λ i. occurs i order ≡ 1) (sym (kind_eq→eq k j e)) h

occurs-other :
    (k j : FsKind) (ls : List Bytes) (order : List FsKind)
    → kind_eq k j ≡ false
    → occurs k (snoc_new ls j order) ≡ occurs k order
occurs-other k j [] order e = omega (arith, occurs-snoc k j order, ap one_if e)
occurs-other k j (l ∷ ls) order e = refl

Orderly-add_mount : (m : SkippedMount) (g : Groups) → Orderly g → Orderly (add_mount m g)
Orderly-add_mount m g h k = elim (Bool-cases (kind_eq k m.kind)) [
  | inl same ↦ rw same (
      occurs-new k m.kind (g.by_kind m.kind) g.order (h m.kind) same
      ∙ sym (mark-snoc (g.by_kind k) (label_of m)))
  | inr other ↦ rw other (occurs-other k m.kind (g.by_kind m.kind) g.order other ∙ h k)
]

group_mounts-Orderly :
    (ms : List SkippedMount) (g : Groups) (k : FsKind)
    → Orderly g
    → ((group_mounts ms g).by_kind k ≡ g.by_kind k ++ labels k ms)
      × (occurs k (group_mounts ms g).order ≡ mark ((group_mounts ms g).by_kind k))
unfolding group_mounts
group_mounts-Orderly [] g k h = (sym (append-nil (g.by_kind k)), h k)
group_mounts-Orderly (m ∷ ms) g k h =
    let (named, once) = group_mounts-Orderly ms (add_mount m g) k (Orderly-add_mount m g h) in
    (named ∙ gathered (kind_eq k m.kind) (g.by_kind k) (label_of m) (labels k ms), once)
  where
    gathered :
        (b : Bool) (xs : List Bytes) (x : Bytes) (ys : List Bytes)
        → (if b then xs ++ x ∷ [] else xs) ++ ys ≡ xs ++ (if b then x ∷ ys else ys)
    gathered true xs x ys = append_assoc xs (x ∷ []) ys
    gathered false xs x ys = refl

-- For every kind of filesystem, the mount points of that kind are named in the order in which the scan
-- met them, and the kind has one note if there are any and no note otherwise.
pub group_mounts-labels :
    (ms : List SkippedMount) (k : FsKind)
    → let g = group_mounts ms no_groups in
      (g.by_kind k ≡ labels k ms) × (occurs k g.order ≡ mark (labels k ms))
group_mounts-labels ms k =
    let (named, once) = group_mounts-Orderly ms no_groups k (λ j. refl) in
    (named, once ∙ ap mark named)
