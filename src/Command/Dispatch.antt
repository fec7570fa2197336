-- ===== src/Command/Dispatch.antt =====
-- cmd/osfp/main.go: the table of commands, and the routing to them. What a command does is a parameter.
use osfp.Base.{
  ℕ, Bytes, codes, Bool, ◌||◌, List, [], ◌∷◌, Option, none, some, bytes_eq, if◌then◌else◌,
}
use osfp.Command.Exit.{CommandError, exit_ok, exit_error, exit_code}

-- The `run` functions of the table
pub data Command : Type 0 where
  baseline_command compare_command info_command verify_command version_command : Command

-- `commands`, with the names under which they are found
abbrev pub commands : List (Bytes × Command)
commands =
    (codes "baseline", baseline_command)
    ∷ (codes "compare", compare_command)
    ∷ (codes "info", info_command)
    ∷ (codes "verify", verify_command)
    ∷ (codes "version", version_command)
    ∷ []

unfoldable pub find_command : Bytes → List (Bytes × Command) → Option Command
find_command name [] = none
find_command name ((n, c) ∷ cs) = if bytes_eq n name then some c else find_command name cs

-- `lookup`
unfoldable pub lookup : Bytes → Option Command
unfolding find_command
lookup name = find_command name commands

abbrev pub is_help : Bytes → Bool
is_help name =
    bytes_eq name (codes "-h")
    || bytes_eq name (codes "-help")
    || bytes_eq name (codes "--help")
    || bytes_eq name (codes "help")

abbrev pub is_version : Bytes → Bool
is_version name = bytes_eq name (codes "-V") || bytes_eq name (codes "--version")

abbrev found_or {ℓ} : {A : Type ℓ} → Option Command → A → (Command → A) → A
found_or none missing f = missing
found_or (some c) missing f = f c

-- `help`
unfoldable pub help : List Bytes → ℕ
unfolding lookup
help [] = exit_ok
help (name ∷ args) = found_or (lookup name) exit_error (λ c. exit_ok)

module _ (run : Command → List Bytes → Option CommandError) where
  abbrev pub run_named : Bytes → List Bytes → ℕ
  unfolding lookup
  run_named name args = found_or (lookup name) exit_error (λ c. exit_code (run c args))

  -- `dispatch`
  unfoldable pub dispatch : List Bytes → ℕ
  unfolding help
  dispatch [] = exit_error
  dispatch (name ∷ args) =
      if is_help name
      then help args
      else if is_version name
      then run_named (codes "version") []
      else run_named name args
