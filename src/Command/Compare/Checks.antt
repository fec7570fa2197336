-- ===== src/Command/Compare/Checks.antt =====
-- What the checks of `runCompare` and `runBaseline` say where they let the command go on.
use osfp.Base.{
  ℕ, Bytes, Bool, true, false, not, ◌&&◌, ◌||◌, [], Option, none, some, ◌==◌, ==_iff, bytes_eq,
  bytes_eq→eq, if◌then◌else◌, ◌≡◌, ◌⊎◌, inl, inr, refl, Bool-cases,
}
use osfp.Store.Reader.{Result, ok, err}
use osfp.OsDetect.Key.{Info, key}
use osfp.Command.Exit.{
  CommandError, other, coded, exit_privilege, is_privileged, require_root, same_privilege,
  check_comparable,
}
use osfp.Command.Compare.Run.{Attempt, go, stop, ◌>>=◌, ◌>>◌, refuse, checked, needed, loaded}

-- What holds of every error, and of what the rest makes of every value, holds of the whole.
pub bind-ends {ℓ} :
    {A B : Type 0} (P : Attempt B → Type ℓ) (m : Attempt A) (rest : A → Attempt B)
    → ((e : CommandError) → P (stop e))
    → ((a : A) → m ≡ go a → P (rest a))
    → P (m >>= rest)
unfolding ◌>>=◌
bind-ends P (stop e) rest h k = h e
bind-ends P (go a) rest h k = k a refl

pub then-ends {ℓ} :
    {B : Type 0} (P : Attempt B → Type ℓ) (m : Attempt (Unit {0})) (rest : Attempt B)
    → ((e : CommandError) → P (stop e))
    → (m ≡ go tt → P rest)
    → P (m >> rest)
unfolding ◌>>◌
then-ends P (stop e) rest h k = h e
then-ends P (go tt) rest h k = k refl

pub refuse-go : (b : Bool) (e : CommandError) → refuse b e ≡ go tt → b ≡ false
refuse-go true e h = absurd (cc h)
refuse-go false e h = refl

pub not-false : (b : Bool) → not b ≡ false → b ≡ true
not-false true h = refl
not-false false h = absurd (cc h)

pub either_waived : (a b : Bool) → (not a && not b) ≡ false → (a ≡ true) ⊎ (b ≡ true)
either_waived true b h = inl refl
either_waived false b h = inr (not-false b h)

pub called_well :
    (n : ℕ) (base : Bytes)
    → (not (n == 0) || bytes_eq base []) ≡ false
    → (n ≡ 0) × (bytes_eq base [] ≡ false)
called_well n base h =
    let (none_behind, named) = both (n == 0) (bytes_eq base []) h in
    ((==_iff n 0).0 none_behind, named)
  where
    both : (a b : Bool) → (not a || b) ≡ false → (a ≡ true) × (b ≡ false)
    both true b h = (refl, h)
    both false b h = absurd (cc h)

pub needed-some : {A : Type 0} (o : Option A) (a : A) → needed o ≡ go a → o ≡ some a
needed-some none a h = absurd (cc h)
needed-some (some b) a h = cc h

pub loaded-ok : {A : Type 0} (r : Result A) (a : A) → loaded r ≡ go a → r ≡ ok a
loaded-ok (err e) a h = absurd (cc h)
loaded-ok (ok b) a h = cc h

pub checked-none : (o : Option CommandError) → checked o ≡ go tt → o ≡ none
checked-none none h = refl
checked-none (some e) h = absurd (cc h)

same_privilege-true : (a b : Bool) → same_privilege a b ≡ true → a ≡ b
same_privilege-true true true h = refl
same_privilege-true true false h = absurd (cc h)
same_privilege-true false true h = absurd (cc h)
same_privilege-true false false h = refl

pub require_root-none :
    (euid : ℕ) (allow : Bool) → require_root euid allow ≡ none → (euid ≡ 0) ⊎ (allow ≡ true)
unfolding require_root
require_root-none euid allow h = elim (Bool-cases (euid == 0)) [
  | inl root ↦ inl ((==_iff euid 0).0 root)
  | inr user ↦ inr (allowed allow (rw user at h))
]
  where
    allowed : (b : Bool) → (if b then none else some (coded exit_privilege true)) ≡ none → b ≡ true
    allowed true e = refl
    allowed false e = absurd (cc e)

pub check_comparable-none :
    (k : Bytes) (p : Bool) (info : Info) (euid : ℕ) (allow : Bool)
    → check_comparable k p info euid allow ≡ none
    → ((key info ≡ k) ⊎ (allow ≡ true)) × (p ≡ is_privileged euid)
unfolding check_comparable
check_comparable-none k p info euid allow h =
    let (named, alike) =
      tests (bytes_eq (key info) k) allow (same_privilege p (is_privileged euid)) h in
    (
      elim named [ inl e ↦ inl (bytes_eq→eq (key info) k e) | inr e ↦ inr e ],
      same_privilege-true p (is_privileged euid) alike,
    )
  where
    tests :
        (named allow alike : Bool)
        → (if not named && not allow
            then some other
            else if alike
            then none
            else some (coded exit_privilege true))
          ≡ none
        → ((named ≡ true) ⊎ (allow ≡ true)) × (alike ≡ true)
    tests true allow true h = (inl refl, refl)
    tests true allow false h = absurd (cc h)
    tests false true true h = (inr refl, refl)
    tests false true false h = absurd (cc h)
    tests false false alike h = absurd (cc h)
