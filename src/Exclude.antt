-- ===== src/Exclude.antt =====
-- internal/exclude/matcher.go: which paths a scan leaves alone. The glob matcher of path/filepath
-- is the parameter `glob`: `none` is its error on a malformed pattern.
pub mod Defaults
pub mod Under
pub mod Root
use Defaults.{defaults, volatile_of}
use osfp.Base.{
  ℕ, Bytes, codes, Bool, true, false, not, ◌&&◌, ◌||◌, List, [], ◌∷◌, ◌++◌, Option, none, some,
  ◌==◌, bytes_eq, has_prefix, if◌then◌else◌, length, drop,
}
use osfp.Text.{trim_space, lines_of}
use osfp.Filepath
use osfp.Filepath.{rooted}
use osfp.Canon.{slash}

pub record Options : Type 0 where
  pub goos : Bytes
  pub root : Bytes
  pub no_defaults : Bool
  pub patterns : List Bytes
  pub auto : List Bytes
  pub no_volatiles : Bool

pub record Set : Type 0 where
  pub root : Bytes
  pub prefixes : List Bytes
  pub path_globs : List Bytes
  pub name_globs : List Bytes
  pub volatile : List Bytes
  pub patterns : List Bytes
  pub dropped : List Bytes

-- `path[len(prefix)] == '/'`
abbrev pub slash_next : Bytes → Bool
slash_next [] = false
slash_next (c ∷ s) = c == slash

-- `under`
unfoldable pub under : Bytes → Bytes → Bool
under path prefix =
    if bytes_eq prefix (slash ∷ [])
    then true
    else if not (has_prefix path prefix)
    then false
    else length path == length prefix || slash_next (drop (length prefix) path)

-- The loops over the prefixes, in `Match` and in `Volatile`.
unfoldable pub under_any : Bytes → List Bytes → Bool
unfolding under
under_any path [] = false
under_any path (p ∷ ps) = if under path p then true else under_any path ps

-- `strings.ContainsAny(p, "*?[")`
abbrev is_glob_byte : ℕ → Bool
is_glob_byte c = c == b'*' || c == b'?' || c == b'['

unfoldable pub has_glob : Bytes → Bool
has_glob [] = false
has_glob (c ∷ s) = if is_glob_byte c then true else has_glob s

abbrev snoc : List Bytes → Bytes → List Bytes
snoc xs x = xs ++ x ∷ []

-- `Set.Volatile`
unfoldable pub is_volatile : Set → Bytes → Bool
unfolding under_any
is_volatile s path = under_any path s.volatile

module _ (glob : Bytes → Bytes → Option Bool) where
  abbrev glob_ok : Bytes → Bytes → Bool
  glob_ok g name = elim (glob g name) [ none ↦ false | some b ↦ b ]

  unfoldable pub glob_any : Bytes → List Bytes → Bool
  glob_any name [] = false
  glob_any name (g ∷ gs) = if glob_ok g name then true else glob_any name gs

  -- `Set.Match`
  unfoldable pub match : Set → Bytes → Bool
  unfolding under_any glob_any Filepath.base
  match s path =
      if under_any path s.prefixes
      then true
      else if glob_any path s.path_globs
      then true
      else glob_any (Filepath.base path) s.name_globs

  -- The patterns as given, and the list that the pattern belongs to.
  abbrev pub file_pattern : Set → Bytes → Set
  file_pattern s p =
      if not (rooted p)
      then record s { patterns = snoc s.patterns p; name_globs = snoc s.name_globs p }
      else if has_glob p
      then record s { patterns = snoc s.patterns p; path_globs = snoc s.path_globs p }
      else record s { patterns = snoc s.patterns p; prefixes = snoc s.prefixes (Filepath.clean p) }

  abbrev is_bad_glob : Bytes → Bool
  is_bad_glob p = elim (glob p (slash ∷ [])) [ none ↦ true | some b ↦ false ]

  -- `Set.addOne`; `none` is the error
  unfoldable pub add_one : Set → Bytes → Option Set
  unfolding has_glob under Filepath.clean
  add_one s p =
      if not (has_glob p) && rooted p && not (bytes_eq s.root []) && under s.root (Filepath.clean p)
      then some (record s { dropped = snoc s.dropped p })
      else if has_glob p && is_bad_glob p
      then none
      else some (file_pattern s p)

  abbrev pub is_comment : Bytes → Bool
  is_comment p = bytes_eq p [] || has_prefix p (codes "#")

  -- `Set.add`
  unfoldable pub add : Set → List Bytes → Option Set
  unfolding add_one trim_space
  add s [] = some s
  add s (line ∷ lines) =
      let p = trim_space line in
      if is_comment p
      then add s lines
      else elim (add_one s p) [ none ↦ none | some s' ↦ add s' lines ]

  -- `Set.addAuto`
  unfoldable pub add_auto : Set → List Bytes → Option Set
  unfolding add_one trim_space match
  add_auto s [] = some s
  add_auto s (line ∷ lines) =
      let p = trim_space line in
      if bytes_eq p [] || match s p
      then add_auto s lines
      else elim (add_one s p) [ none ↦ none | some s' ↦ add_auto s' lines ]

  abbrev pub empty_set : Options → Set
  empty_set o = record {
    root = if bytes_eq o.root [] then [] else Filepath.clean o.root;
    prefixes = [];
    path_globs = [];
    name_globs = [];
    volatile = [];
    patterns = [];
    dropped = [];
  }

  infixl 5 ◌then_with◌
  abbrev pub ◌then_with◌ : Option Set → (Set → Option Set) → Option Set
  none then_with f = none
  some s then_with f = f s

  abbrev pub with_volatile : Options → Set → Option Set
  with_volatile o s =
      some (if o.no_volatiles then s else record s { volatile = volatile_of o.goos })

  -- `New`
  unfoldable pub new : Options → Option Set
  unfolding add add_auto Filepath.clean
  new o =
      (if o.no_defaults then some (empty_set o) else add (empty_set o) (defaults o.goos))
      then_with (λ s. add s o.patterns)
      then_with (λ s. add_auto s o.auto)
      then_with with_volatile o

-- `SelfPaths`, on the answers of `os.Executable` and of `filepath.EvalSymlinks`
unfoldable pub self_paths : Option Bytes → (Bytes → Option Bytes) → List Bytes
self_paths none resolve = []
self_paths (some exe) resolve = elim (resolve exe) [
  | none ↦ exe ∷ []
  | some r ↦ if bytes_eq r exe then exe ∷ [] else exe ∷ r ∷ []
]

-- `LoadPatterns`, on what the file holds
unfoldable pub load_patterns : Option Bytes → Option (List Bytes)
load_patterns none = none
load_patterns (some b) = some (lines_of b)
