-- ===== src/Scan/Walk/Totals.antt =====
-- What `Walk` counts of the entries that it emits.
use mathlib.Core.List.{foldl}
use native.Mathlib.Nat.{zero-add}
use osfp.Base.{ℕ, suc, ◌+◌, List, [], ◌∷◌, bytes_eq, if◌then◌else◌, length, ◌≡◌, refl, ◌∙◌, arith}
use osfp.Entry.{Entry}
use osfp.Scan.Settings.{Stats, count, total}

abbrev pub no_stats : Stats
no_stats = record {
  dirs = 0;
  files = 0;
  symlinks = 0;
  others = 0;
  errors = 0;
  hashed = 0;
  partial = 0;
  bytes = 0;
}

-- The loop of `Walk` over the entries in order.
unfoldable pub count_all : List Entry → Stats
count_all es = foldl count no_stats es

total-count : (s : Stats) (e : Entry) → total (count s e) ≡ suc (total s)
unfolding total count
total-count s e = ground arith

errors-count :
    (s : Stats) (e : Entry)
    → (count s e).errors ≡ (if bytes_eq e.err [] then s.errors else s.errors + 1)
unfolding count
errors-count s e = refl

total-foldl : (es : List Entry) (s : Stats) → total (foldl count s es) ≡ total s + length es
total-foldl [] s = omega arith
total-foldl (e ∷ es) s = omega (arith, total-foldl es (count s e), total-count s e)

-- The entries that carry an error.
abbrev pub failures : List Entry → ℕ
failures [] = 0
failures (e ∷ es) = if bytes_eq e.err [] then failures es else failures es + 1

errors-foldl : (es : List Entry) (s : Stats) → (foldl count s es).errors ≡ s.errors + failures es
errors-foldl [] s = omega arith
errors-foldl (e ∷ es) s = ground (arith, errors-foldl es (count s e), errors-count s e)

-- The four kinds that a scan counts add up to the number of entries it emitted, and its errors are
-- the entries that carry one.
pub total-count_all :
    (es : List Entry) → (total (count_all es) ≡ length es) × ((count_all es).errors ≡ failures es)
unfolding count_all total
total-count_all es = (
  total-foldl es no_stats ∙ zero-add (length es),
  errors-foldl es no_stats ∙ zero-add (failures es),
)
