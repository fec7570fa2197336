-- ===== src/Scan/Walk/Compared.antt =====
-- A walk compared with a fingerprint that another walk took.
use osfp.Base.{ℕ, Bytes, Bool, false, Option, none, map, ◌≡◌}
use osfp.Diff.Merge.{Change, entry, join_all}
use osfp.Diff.Merge
use osfp.Diff.Merge.Pointwise.{find, changes_at, diff_at, delivered}
use osfp.Diff.Merge.Join.{join_all-pointwise}
use osfp.Filepath.{is_here}
use osfp.Scan.Tree.{Node}
use osfp.Scan.Walk.{walk}
use osfp.Scan.Settings.{Options}
use osfp.Scan.Walk.Names.{IsListed}
use osfp.Scan.Walk.Order.{walk-IsSorted}

module _ (ratio : ℕ → ℕ → Bytes) (glob : Bytes → Bytes → Option Bool)
    (emit : Change → Option Bytes) where
  -- Two walks whose listings are ordered and whose roots are neither empty nor `.`, with any options,
  -- are compared without an error, and for
  -- every path the callback gets the filtered difference of what the two walks say of that path. The
  -- callback is one that does not fail.
  pub join_all-walk :
      (before after : Options) (opts : Merge.Options) (root root' p : Bytes) (old live : Node)
      → ((c : Change) → emit c ≡ none)
      → is_here root ≡ false
      → is_here root' ≡ false
      → IsListed old
      → IsListed live
      → let olds = (walk glob before root old).emitted in
        let lives = (walk glob after root' live).emitted in
        ((join_all ratio glob emit (map entry olds) opts lives).1 ≡ none)
        × (changes_at p (join_all ratio glob emit (map entry olds) opts lives).0.emitted
            ≡ delivered glob opts (diff_at ratio (find p olds) (find p lives)))
  join_all-walk before after opts root root' p old live emits here here' h k =
      join_all-pointwise ratio glob emit (walk glob before root old).emitted
        (walk glob after root' live).emitted opts p emits
        (walk-IsSorted glob before root old here h) (walk-IsSorted glob after root' live here' k)
