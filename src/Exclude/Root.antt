-- ===== src/Exclude/Root.antt =====
-- The prefixes of a compiled set (internal/exclude/matcher.go) and the scan root.
use osfp.Base.{
  Bytes, Bool, true, false, not, ◌&&◌, ◌||◌, List, [], ◌∷◌, ◌++◌, Option, none, some, ◌≡◌, ◌≢◌, inl,
  inr, refl, arith, Bool-cases, bytes_eq, if◌then◌else◌,
}
use osfp.Exclude.Defaults.{defaults}
use osfp.Text.{trim_space}
use osfp.Filepath
use osfp.Filepath.{rooted, or_dot}
use osfp.Exclude.{
  Set, Options, under, under_any, has_glob, add_one, add, add_auto, new, match, file_pattern,
  is_bad_glob, is_comment, ◌then_with◌, empty_set, with_volatile,
}

-- The set's root is a given one, and none of its prefixes covers it.
abbrev Spares : Bytes → Set → Type 0
Spares root s = (s.root ≡ root) × (under_any root s.prefixes ≡ false)

under_any-snoc :
    (path p : Bytes) (ps : List Bytes)
    → under_any path ps ≡ false
    → under path p ≡ false
    → under_any path (ps ++ p ∷ []) ≡ false
unfolding under_any
under_any-snoc path p [] h k = ground arith
under_any-snoc path p (q ∷ ps) h k = ground (arith, under_any-snoc path p ps)

-- What holds of the set, unless there is an error instead.
abbrev Ensures : (Set → Type 0) → Option Set → Type 0
Ensures P none = Unit
Ensures P (some s) = P s

module _ (glob : Bytes → Bytes → Option Bool) (root : Bytes) where
  -- The pattern would cover the scan root.
  abbrev hits : Set → Bytes → Bool
  hits s p =
      not (has_glob p) && rooted p && not (bytes_eq s.root []) && under s.root (Filepath.clean p)

  Spares-file_pattern :
      (s : Set) (p : Bytes)
      → bytes_eq root [] ≡ false
      → Spares root s
      → hits s p ≡ false
      → Spares root (file_pattern glob s p)
  Spares-file_pattern s p n (e, h) k = elim (Bool-cases (rooted p)) [
    | inr free ↦ rw free (e, h)
    | inl abs ↦ elim (Bool-cases (has_glob p)) [
      | inl globbed ↦ rw (abs, globbed) (e, h)
      | inr plain ↦
          rw (abs, plain)
            (
              e,
              under_any-snoc root (Filepath.clean p) s.prefixes h
                  (ground (arith, rw (abs, plain, e, n) at k)),
            )
    ]
  ]

  Spares-add_one :
      (s : Set) (p : Bytes)
      → bytes_eq root [] ≡ false
      → Spares root s
      → Ensures (Spares root) (add_one glob s p)
  unfolding add_one
  Spares-add_one s p n h = elim (Bool-cases (hits s p)) [
    | inl covered ↦ rw covered h
    | inr clear ↦ elim (Bool-cases (has_glob p && is_bad_glob glob p)) [
      | inl bad ↦ rw (clear, bad) tt
      | inr good ↦ rw (clear, good) (Spares-file_pattern s p n h clear)
    ]
  ]

  Ensures-then :
      (P : Set → Type 0) (r : Option Set) (f : Set → Option Set)
      → Ensures P r
      → ((s : Set) → P s → Ensures P (f s))
      → Ensures P (elim r [ none ↦ none | some s ↦ f s ])
  Ensures-then P none f h k = tt
  Ensures-then P (some s) f h k = k s h

  Ensures-if :
      (P : Set → Type 0) (b : Bool) (r q : Option Set)
      → Ensures P r
      → Ensures P q
      → Ensures P (if b then r else q)
  Ensures-if P true r q h k = h
  Ensures-if P false r q h k = k

  Spares-add :
      (lines : List Bytes) (s : Set)
      → bytes_eq root [] ≡ false
      → Spares root s
      → Ensures (Spares root) (add glob s lines)
  unfolding add
  Spares-add [] s n h = h
  Spares-add (line ∷ lines) s n h =
      let p = trim_space line in
      Ensures-if (Spares root) (is_comment glob p) _ _ (Spares-add lines s n h) (
        Ensures-then (Spares root) (add_one glob s p) _ (Spares-add_one s p n h)
          (λ s' h'. Spares-add lines s' n h'))

  Spares-add_auto :
      (lines : List Bytes) (s : Set)
      → bytes_eq root [] ≡ false
      → Spares root s
      → Ensures (Spares root) (add_auto glob s lines)
  unfolding add_auto
  Spares-add_auto [] s n h = h
  Spares-add_auto (line ∷ lines) s n h =
      let p = trim_space line in
      Ensures-if (Spares root) (bytes_eq p [] || match glob s p) _ _ (Spares-add_auto lines s n h) (
        Ensures-then (Spares root) (add_one glob s p) _ (Spares-add_one s p n h)
          (λ s' h'. Spares-add_auto lines s' n h'))

clean-not_empty : (path : Bytes) → bytes_eq (Filepath.clean path) [] ≡ false
unfolding Filepath.clean
clean-not_empty path = ground arith

module _ (glob : Bytes → Bytes → Option Bool) where
  Ensures-with :
      (P : Set → Type 0) (r : Option Set) (f : Set → Option Set)
      → Ensures P r
      → ((s : Set) → P s → Ensures P (f s))
      → Ensures P (◌then_with◌ glob r f)
  Ensures-with P none f h k = tt
  Ensures-with P (some s) f h k = k s h

  not_nil : (p : Bytes) → p ≢ [] → bytes_eq p [] ≡ false
  not_nil [] n = absurd (n refl)
  not_nil (c ∷ p) n = refl

  Spares-with_volatile :
      (root : Bytes) (o : Options) (s : Set)
      → Spares root s
      → Ensures (Spares root) (with_volatile glob o s)
  Spares-with_volatile root o s h = elim (Bool-cases o.no_volatiles) [
    | inl off ↦ rw off h
    | inr on ↦ rw on h
  ]

  Spares-new : (o : Options) → o.root ≢ [] → Ensures (Spares (Filepath.clean o.root)) (new glob o)
  unfolding new
  Spares-new o n =
      let root = Filepath.clean o.root in
      let full = clean-not_empty o.root in
      let start : Spares root (empty_set glob o) = (rw (not_nil o.root n) refl, refl) in
      Ensures-with (Spares root) _ _
        (Ensures-with (Spares root) _ _
          (Ensures-with (Spares root) _ _
            (Ensures-if glob root (Spares root) o.no_defaults _ _ start
              (Spares-add glob root (defaults o.goos) (empty_set glob o) full start))
            (λ s h. Spares-add glob root o.patterns s full h))
          (λ s h. Spares-add_auto glob root o.auto s full h))
        (λ s h. Spares-with_volatile (Filepath.clean o.root) o s h)

  -- Where a scan root is given, no prefix that the compiled set holds covers it: a built-in or given
  -- pattern that would exclude the whole scan is dropped instead.
  pub new-spares_root :
      (o : Options) (s : Set)
      → o.root ≢ []
      → new glob o ≡ some s
      → (s.root ≡ Filepath.clean o.root) × (under_any (Filepath.clean o.root) s.prefixes ≡ false)
  new-spares_root o s n h = rw h at (Spares-new o n)
