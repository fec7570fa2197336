-- ===== src/Command/Exit.antt =====
-- cmd/osfp/main.go, root.go and compare.go: the exit codes, and the checks that lead to them.
-- Messages are left out, except for whether there is one.
use osfp.Base.{
  ℕ, suc, Bytes, Bool, true, false, not, ◌&&◌, List, [], ◌∷◌, Option, none, some, ltb, ◌==◌,
  bytes_eq, if◌then◌else◌,
}
use osfp.Diff.Merge.{Change}
use osfp.OsDetect.Key.{Info, key}

abbrev pub exit_ok : ℕ
exit_ok = 0

abbrev pub exit_diff : ℕ
exit_diff = 1

abbrev pub exit_error : ℕ
exit_error = 2

abbrev pub exit_privilege : ℕ
exit_privilege = 3

abbrev pub exit_interrupted : ℕ
exit_interrupted = 130

-- The errors that `dispatch` tells apart; `coded` is a `codedError`, with or without a message.
pub data CommandError : Type 0 where
  usage : CommandError
  coded : ℕ → Bool → CommandError
  other : CommandError

-- The end of `dispatch`
unfoldable pub exit_code : Option CommandError → ℕ
exit_code none = exit_ok
exit_code (some usage) = exit_error
exit_code (some (coded code message)) = code
exit_code (some other) = exit_error

-- Whether `dispatch` prints anything.
unfoldable pub prints : Option CommandError → Bool
prints none = false
prints (some usage) = true
prints (some (coded code message)) = message
prints (some other) = true

-- `privileged`
abbrev pub is_privileged : ℕ → Bool
is_privileged euid = euid == 0

-- `requireRoot`
unfoldable pub require_root : ℕ → Bool → Option CommandError
require_root euid allow_non_root =
    if is_privileged euid
    then none
    else if allow_non_root
    then none
    else some (coded exit_privilege true)

abbrev pub same_privilege : Bool → Bool → Bool
same_privilege true b = b
same_privilege false b = not b

-- `checkComparable`, on the key and the privilege of the fingerprint
unfoldable pub check_comparable : Bytes → Bool → Info → ℕ → Bool → Option CommandError
check_comparable meta_key meta_privileged info euid allow_mismatch =
    if not (bytes_eq (key info) meta_key) && not allow_mismatch
    then some other
    else if same_privilege meta_privileged (is_privileged euid)
    then none
    else some (coded exit_privilege true)

-- `expected` of `runCompare`: the reported changes on volatile paths
unfoldable pub expected : (Bytes → Bool) → List Change → ℕ
expected volatile [] = 0
expected volatile (c ∷ cs) =
    let rest = expected volatile cs in if volatile c.path then suc rest else rest

-- The end of `runCompare`
unfoldable pub compare_end : ℕ → ℕ → Bool → Option CommandError
compare_end total expected fail_on_diff =
    if ltb expected total && fail_on_diff then some (coded exit_diff false) else none
