-- ===== src/Text/Lines.antt =====
-- Files of lines, with either newline, as the lists of patterns and rules are read.
use mathlib.Core.List.{append_assoc, append-nil}
use osfp.Base.{ℕ, Bytes, List, [], ◌∷◌, ◌++◌, ◌≡◌, refl, sym, ap, ◌∙◌, All, arith, ◌≢◌}
use osfp.Text.{split_on, join, replace_newlines, lines_of}

-- A line has no newline, and no carriage return.
abbrev pub IsLine : Bytes → Type 0
IsLine = All (λ (c : ℕ). (c ≢ 10) × (c ≢ 13))

abbrev pub lf : Bytes
lf = 10 ∷ []

abbrev pub crlf : Bytes
crlf = 13 ∷ 10 ∷ []

replace_newlines-cons :
    (c : ℕ) (s : Bytes) → c ≢ 13 → replace_newlines (c ∷ s) ≡ c ∷ replace_newlines s
unfolding replace_newlines
replace_newlines-cons c [] h = refl
replace_newlines-cons c (d ∷ s) h = ground arith

replace_newlines-line :
    (l r : Bytes) → IsLine l → replace_newlines (l ++ r) ≡ l ++ replace_newlines r
replace_newlines-line [] r h = refl
replace_newlines-line (c ∷ l) r ((n, m), h) =
    replace_newlines-cons c (l ++ r) m ∙ ap (λ s. c ∷ s) (replace_newlines-line l r h)

replace_newlines-crlf : (r : Bytes) → replace_newlines (13 ∷ 10 ∷ r) ≡ 10 ∷ replace_newlines r
replace_newlines-crlf r =
    unfold replace_newlines in replace_newlines-cons 10 r (λ h. absurd (omega arith))

split_on-newline : (r : Bytes) → split_on 10 (10 ∷ r) ≡ [] ∷ split_on 10 r
unfolding split_on
split_on-newline r = refl

split_on-line :
    (l s f : Bytes) (fs : List Bytes)
    → IsLine l
    → split_on 10 s ≡ f ∷ fs
    → split_on 10 (l ++ s) ≡ (l ++ f) ∷ fs
unfolding split_on
split_on-line [] s f fs h e = e
split_on-line (c ∷ l) s f fs ((n, m), h) e = ground (arith, split_on-line l s f fs h e)

nothing_left : split_on 10 (replace_newlines []) ≡ [] ∷ []
unfolding replace_newlines split_on
nothing_left = refl

-- The lines of a text that has `newline` between them.
module _ (newline : Bytes)
    (step : (r : Bytes) → replace_newlines (newline ++ r) ≡ 10 ∷ replace_newlines r) where
  lines_of-joined :
      (l : Bytes) (ls : List Bytes)
      → IsLine l
      → All IsLine ls
      → split_on 10 (replace_newlines (join newline (l ∷ ls))) ≡ l ∷ ls
  unfolding join
  lines_of-joined l [] h hs =
      ap (λ x. split_on 10 (replace_newlines x)) (sym (append-nil l))
      ∙ ap (split_on 10) (replace_newlines-line l [] h)
      ∙ split_on-line l (replace_newlines []) [] [] h nothing_left
      ∙ ap (λ x. x ∷ []) (append-nil l)
  lines_of-joined l (m ∷ ls) h (k, hs) =
      let rest = join newline (m ∷ ls) in
      ap (λ x. split_on 10 (replace_newlines x)) (append_assoc l newline rest)
      ∙ ap (split_on 10) (replace_newlines-line l (newline ++ rest) h)
      ∙ ap (λ x. split_on 10 (l ++ x)) (step rest)
      ∙ split_on-line l (10 ∷ replace_newlines rest) [] (split_on 10 (replace_newlines rest)) h
          (split_on-newline (replace_newlines rest))
      ∙ ap (λ x. x ∷ split_on 10 (replace_newlines rest)) (append-nil l)
      ∙ ap (λ x. l ∷ x) (lines_of-joined m ls k hs)

-- A file is read as the lines that it was made of, with a newline or with a carriage return and a
-- newline between them; there is one line at least.
pub lines_of-join :
    (l : Bytes) (ls : List Bytes)
    → IsLine l
    → All IsLine ls
    → (lines_of (join lf (l ∷ ls)) ≡ l ∷ ls) × (lines_of (join crlf (l ∷ ls)) ≡ l ∷ ls)
unfolding lines_of
lines_of-join l ls h hs = (
  lines_of-joined lf (λ r. replace_newlines-cons 10 r (λ e. absurd (omega arith))) l ls h hs,
  lines_of-joined crlf replace_newlines-crlf l ls h hs,
)
