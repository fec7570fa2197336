-- ===== src/Diff/Ignore.antt =====
-- internal/diff/ignore.go: the rules that keep classified changes out of a report. `glob` is the
-- glob matcher of path/filepath.
pub mod Loaded
use osfp.Base.{
  Bytes, codes, Bool, true, false, not, ◌||◌, List, [], ◌∷◌, Option, none, some, bytes_eq,
  has_prefix, if◌then◌else◌, map,
}
use osfp.Text.{trim_space, cut, lines_of}
use osfp.Exclude
use osfp.Diff.Op.{Op, OpSet, parse_ops}

pub record Rule : Type 0 where
  -- `none` stands for every category.
  pub ops : Option OpSet
  pub match : Exclude.Set
  pub raw : Bytes

-- A nil `*Ignore` has no rules.
pub record Ignore : Type 0 where
  pub rules : List Rule

abbrev covers_op : Option OpSet → Op → Bool
covers_op none op = true
covers_op (some ops) op = ops op

module _ (glob : Bytes → Bytes → Option Bool) where
  -- The categories and the pattern of a line, before the pattern is compiled.
  unfoldable pub split_rule : Bytes → Option (Option OpSet × Bytes)
  unfolding cut parse_ops trim_space
  split_rule line = elim (cut b':' line) [
    | none ↦ some (none, line)
    | some (front, back) ↦ elim (parse_ops front) [
      | none ↦ none
      | some ops ↦ some (some ops, trim_space back)
    ]
  ]

  abbrev compile_rule : Bytes → Option OpSet × Bytes → Option Rule
  compile_rule raw (ops, pattern) =
      if bytes_eq pattern []
      then none
      else elim (Exclude.new glob (record {
        goos = [];
        root = [];
        no_defaults = true;
        patterns = pattern ∷ [];
        auto = [];
        no_volatiles = true;
      })) [ none ↦ none | some set ↦ some (record { ops = ops; match = set; raw = raw }) ]

  unfoldable pub parse_rule : Bytes → Option Rule
  unfolding split_rule Exclude.new
  parse_rule line = elim (split_rule line) [ none ↦ none | some r ↦ compile_rule line r ]

  abbrev add_rule : Rule → Option (List Rule) → Option (List Rule)
  add_rule r none = none
  add_rule r (some rs) = some (r ∷ rs)

  -- The loop of `ParseIgnore`.
  unfoldable pub parse_lines : List Bytes → Option (List Rule)
  unfolding parse_rule trim_space
  parse_lines [] = some []
  parse_lines (l ∷ ls) =
      let line = trim_space l in
      let rest = parse_lines ls in
      if bytes_eq line [] || has_prefix line (codes "#")
      then rest
      else elim (parse_rule line) [ none ↦ none | some r ↦ add_rule r rest ]

  -- `ParseIgnore`; `none` is the error
  unfoldable pub parse_ignore : List Bytes → Option Ignore
  unfolding parse_lines
  parse_ignore lines = elim (parse_lines lines) [
    | none ↦ none
    | some rs ↦ some (record { rules = rs })
  ]

  -- The loop of `Match`.
  unfoldable pub match_rules : List Rule → Op → Bytes → Bool
  unfolding Exclude.match
  match_rules [] op path = false
  match_rules (r ∷ rs) op path =
      if not (covers_op r.ops op)
      then match_rules rs op path
      else if Exclude.match glob r.match path
      then true
      else match_rules rs op path

  -- `Ignore.Match`
  unfoldable pub match : Ignore → Op → Bytes → Bool
  unfolding match_rules
  match ig op path = match_rules ig.rules op path

-- `Ignore.Rules`
unfoldable pub rules_as_written : Ignore → List Bytes
rules_as_written ig = map (λ (r : Rule). r.raw) ig.rules

-- `LoadIgnore`, on what the file holds
unfoldable pub load_ignore : (Bytes → Bytes → Option Bool) → Option Bytes → Option Ignore
load_ignore glob none = none
load_ignore glob (some b) = parse_ignore glob (lines_of b)
