-- ===== src/Text/Laws.antt =====
-- What splitting, joining and trimming do to each other.
use osfp.Base.{
  ℕ, Bytes, List, [], ◌∷◌, ◌==◌, ◌≡◌, refl, ap, ◌∙◌, inl, inr, Bool-cases, if◌then◌else◌, arith,
}
use osfp.Text.{cons_head, split_on, join}

split_on-cons : (sep : ℕ) (s : Bytes) → (f : Bytes) × (fs : List Bytes) × (split_on sep s ≡ f ∷ fs)
unfolding split_on
split_on-cons sep [] = ([], [], refl)
split_on-cons sep (c ∷ s) = cons_case (split_on-cons sep s)
  where
    cons_case :
        ((f : Bytes) × (fs : List Bytes) × (split_on sep s ≡ f ∷ fs))
        → (f : Bytes) × (fs : List Bytes) × ((if c == sep
              then [] ∷ split_on sep s
              else cons_head c (split_on sep s))
            ≡ f ∷ fs)
    cons_case (f, fs, e) = elim (Bool-cases (c == sep)) [
      | inl here ↦ ([], f ∷ fs, rw (here, e) refl)
      | inr past ↦ (c ∷ f, fs, rw (past, e) refl)
    ]

join_step :
    (sep c : ℕ) (f : Bytes) (fs : List Bytes)
    → join (sep ∷ []) (if c == sep then [] ∷ f ∷ fs else (c ∷ f) ∷ fs)
      ≡ c ∷ join (sep ∷ []) (f ∷ fs)
unfolding join
join_step sep c f [] = ground arith
join_step sep c f (g ∷ gs) = ground arith

-- Joining the fields of a text with the byte they were split at gives the text back.
pub join-split_on : (sep : ℕ) (s : Bytes) → join (sep ∷ []) (split_on sep s) ≡ s
unfolding split_on
join-split_on sep [] = unfold join in refl
join-split_on sep (c ∷ s) =
    let (f, fs, e) = split_on-cons sep s in
    rw e (join_step sep c f fs ∙ ap (λ r. c ∷ r) (rw e at (join-split_on sep s)))
