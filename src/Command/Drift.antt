-- ===== src/Command/Drift.antt =====
-- What `--fail-on-diff` makes of a comparison.
use osfp.Base.{
  ℕ, suc, ◌≤◌, Bytes, Bool, true, List, [], ◌∷◌, Option, none, ltb, map, length, All, ◌≡◌, ◌↔◌,
  refl, ap, arith, Bool-cases, inl, inr,
}
use osfp.Entry.{Entry}
use osfp.Entry.Sorted.{IsSorted}
use osfp.Diff.Merge.{Change, Options, join_all, entry, total}
use osfp.Diff.Merge.Join.{join_all-conserves}
use osfp.Command.Exit.{exit_code, exit_ok, expected, compare_end}

-- The change is expected noise.
abbrev pub IsNoise : (Bytes → Bool) → Change → Type 0
IsNoise volatile c = volatile c.path ≡ true

module _ (volatile : Bytes → Bool) where
  expected-length : (cs : List Change) → expected volatile cs ≤ length cs
  unfolding expected
  expected-length [] = omega arith
  expected-length (c ∷ cs) = elim (Bool-cases (volatile c.path)) [
    | inl noise ↦ rw noise (omega (arith, expected-length cs))
    | inr drift ↦ rw drift (omega (arith, expected-length cs))
  ]

  expected_all : (cs : List Change) → All (IsNoise volatile) cs → expected volatile cs ≡ length cs
  unfolding expected
  expected_all [] h = refl
  expected_all (c ∷ cs) h = rw h.0 (ap suc (expected_all cs h.1))

  all_expected : (cs : List Change) → length cs ≤ expected volatile cs → All (IsNoise volatile) cs
  unfolding expected
  all_expected [] h = tt
  all_expected (c ∷ cs) h = elim (Bool-cases (volatile c.path)) [
    | inl noise ↦
        let h' : suc (length cs) ≤ suc (expected volatile cs) = rw noise at h in
        (noise, all_expected cs (omega (arith, h')))
    | inr drift ↦
        let h' : length (c ∷ cs) ≤ expected volatile cs = rw drift at h in
        absurd (omega (arith, expected-length cs, h'))
  ]

  exit_iff :
      (n : ℕ) (cs : List Change)
      → length cs ≡ n
      → (exit_code (compare_end n (expected volatile cs) true) ≡ exit_ok)
        ↔ All (IsNoise volatile) cs
  unfolding exit_code compare_end
  exit_iff n cs e = elim (Bool-cases (ltb (expected volatile cs) n)) [
    | inl drift ↦
        rw drift ((λ q. absurd (cc q)), (λ h. absurd (ground (arith, drift, e, expected_all cs h))))
    | inr noise ↦ rw noise ((λ q. all_expected cs (ground (arith, noise, e))), (λ h. refl))
  ]

module _ (ratio : ℕ → ℕ → Bytes) (glob : Bytes → Bytes → Option Bool)
    (emit : Change → Option Bytes) where
  -- On a comparison whose callback does not fail and whose scan has strictly increasing paths,
  -- `compare --fail-on-diff` ends with the exit code 0 exactly if every reported change is on a
  -- volatile path.
  pub compare_end-join_all :
      (olds lives : List Entry) (opts : Options) (volatile : Bytes → Bool)
      → ((c : Change) → emit c ≡ none)
      → IsSorted lives
      → let j = (join_all ratio glob emit (map entry olds) opts lives).0 in
        (exit_code (compare_end (total j.stats) (expected volatile j.emitted) true) ≡ exit_ok)
        ↔ All (IsNoise volatile) j.emitted
  compare_end-join_all olds lives opts volatile emits k =
      let j = (join_all ratio glob emit (map entry olds) opts lives).0 in
      exit_iff volatile (total j.stats) j.emitted
        (join_all-conserves ratio glob emit olds lives opts emits k).1
