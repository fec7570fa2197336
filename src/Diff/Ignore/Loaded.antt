-- ===== src/Diff/Ignore/Loaded.antt =====
-- `LoadIgnore` of internal/diff/ignore.go and `LoadPatterns` of internal/exclude/matcher.go.
use osfp.Base.{Bytes, Bool, List, ◌∷◌, Option, some, ◌≡◌, ap, All}
use osfp.Text.{join}
use osfp.Text.Lines.{IsLine, lf, crlf, lines_of-join}
use osfp.Exclude.{load_patterns}
use osfp.Diff.Ignore.{load_ignore, parse_ignore}

module _ (l : Bytes) (ls : List Bytes) (h : IsLine l) (hs : All IsLine ls) where
  -- A file of patterns has the same patterns with either newline.
  pub load_patterns-join :
      (load_patterns (some (join lf (l ∷ ls))) ≡ some (l ∷ ls))
      × (load_patterns (some (join crlf (l ∷ ls))) ≡ some (l ∷ ls))
  unfolding load_patterns
  load_patterns-join = let (unix, dos) = lines_of-join l ls h hs in (ap some unix, ap some dos)

  -- A file of rules is compiled as its lines, with either newline.
  pub load_ignore-join :
      (glob : Bytes → Bytes → Option Bool)
      → (load_ignore glob (some (join lf (l ∷ ls))) ≡ parse_ignore glob (l ∷ ls))
        × (load_ignore glob (some (join crlf (l ∷ ls))) ≡ parse_ignore glob (l ∷ ls))
  unfolding load_ignore
  load_ignore-join glob =
      let (unix, dos) = lines_of-join l ls h hs in
      (ap (parse_ignore glob) unix, ap (parse_ignore glob) dos)
