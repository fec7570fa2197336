-- ===== src/Report/Sections.antt =====
-- Where the text report files a change.
use mathlib.Core.List.{append_assoc, append-nil}
use osfp.Base.{
  Bool, true, false, not, ◌&&◌, List, [], ◌∷◌, ◌++◌, if◌then◌else◌, ◌≡◌, refl, sym, ap, ◌∙◌,
  Bool-cases, inl, inr,
}
use osfp.Diff.Op.{Op, op_eq}
use osfp.Diff.Merge.{Change}
use osfp.Report.{
  Options, TextReporter, new_text_reporter, is_volatile, file_under, change, change_all,
}

-- The changes that a test picks, in their order.
abbrev pub picked : (Change → Bool) → List Change → List Change
picked p [] = []
picked p (c ∷ cs) = if p c then c ∷ picked p cs else picked p cs

abbrev pub goes_under : Options → Op → Change → Bool
goes_under opts op c = not (is_volatile opts c.path) && op_eq op c.op

abbrev pub is_noise : Options → Change → Bool
is_noise opts c = is_volatile opts c.path

snoc_if :
    (b : Bool) (xs : List Change) (c : Change) (ys : List Change)
    → (if b then xs ++ c ∷ [] else xs) ++ ys ≡ xs ++ (if b then c ∷ ys else ys)
snoc_if true xs c ys = append_assoc xs (c ∷ []) ys
snoc_if false xs c ys = refl

change-noise :
    (c : Change) (t : TextReporter)
    → is_volatile t.opts c.path ≡ true
    → change c t ≡ record t { volatile = t.volatile ++ c ∷ [] }
unfolding change
change-noise c t h = if_true (is_volatile t.opts c.path) h
  where
    if_true :
        (b : Bool)
        → b ≡ true
        → (if b
            then record t { volatile = t.volatile ++ c ∷ [] }
            else record t { sections = file_under c t.sections })
          ≡ record t { volatile = t.volatile ++ c ∷ [] }
    if_true true e = refl
    if_true false e = absurd (cc e)

change-filed :
    (c : Change) (t : TextReporter)
    → is_volatile t.opts c.path ≡ false
    → change c t ≡ record t { sections = file_under c t.sections }
unfolding change
change-filed c t h = if_false (is_volatile t.opts c.path) h
  where
    if_false :
        (b : Bool)
        → b ≡ false
        → (if b
            then record t { volatile = t.volatile ++ c ∷ [] }
            else record t { sections = file_under c t.sections })
          ≡ record t { sections = file_under c t.sections }
    if_false true e = absurd (cc e)
    if_false false e = refl

change_all-filed :
    (cs : List Change) (t : TextReporter) (op : Op)
    → ((change_all cs t).sections op ≡ t.sections op ++ picked (goes_under t.opts op) cs)
      × ((change_all cs t).volatile ≡ t.volatile ++ picked (is_noise t.opts) cs)
unfolding change_all
change_all-filed [] t op = (sym (append-nil (t.sections op)), sym (append-nil t.volatile))
change_all-filed (c ∷ cs) t op = elim (Bool-cases (is_volatile t.opts c.path)) [
  | inl noise ↦
      let (a, b) = change_all-filed cs (record t { volatile = t.volatile ++ c ∷ [] }) op in
      let e = change-noise c t noise in
      rw noise (
        ap (λ u. (change_all cs u).sections op) e ∙ a,
        ap (λ u. (change_all cs u).volatile) e
            ∙ b
            ∙ append_assoc t.volatile (c ∷ []) (picked (is_noise t.opts) cs),
      )
  | inr other ↦
      let (a, b) = change_all-filed cs (record t { sections = file_under c t.sections }) op in
      let e = change-filed c t other in
      rw other (
        ap (λ u. (change_all cs u).sections op) e
            ∙ a
            ∙ snoc_if (op_eq op c.op) (t.sections op) c (picked (goes_under t.opts op) cs),
        ap (λ u. (change_all cs u).volatile) e ∙ b,
      )
]

-- Behind any changes, the section of an operation holds the changes of that operation on paths that
-- are not volatile, and the last section those on volatile paths, each in the order of their coming.
pub change_all-picked :
    (opts : Options) (cs : List Change) (op : Op)
    → let t = change_all cs (new_text_reporter opts) in
      (t.sections op ≡ picked (goes_under opts op) cs) × (t.volatile ≡ picked (is_noise opts) cs)
unfolding new_text_reporter
change_all-picked opts cs op = change_all-filed cs (new_text_reporter opts) op
