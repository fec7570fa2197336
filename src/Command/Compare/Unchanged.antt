-- ===== src/Command/Compare/Unchanged.antt =====
-- A comparison with a system on which nothing has changed.
use osfp.Base.{
  ℕ, ◌+◌, Bytes, Bool, true, List, [], ◌∷◌, map, Option, none, some, length, le→ltb, All, ◌≡◌, refl,
  arith,
}
use osfp.Entry.{Entry}
use osfp.Entry.Sorted.{IsSorted}
use osfp.Diff.Classify.Meaning.{Unchanged}
use osfp.Diff.Merge
use osfp.Diff.Merge.{Change, Outcome, entry, join_all, total}
use osfp.Diff.Merge.Join.{join_all-pointwise, join_all-conserves}
use osfp.Diff.Merge.Silent.{Agree, join_all-silent_iff}
use osfp.Store.Reader.{Reader, ReadError, ok}
use osfp.Store.Cursor.{iterate, start}
use osfp.Command.Exit.{exit_code, exit_ok, expected, compare_end}
use osfp.Command.Compare.{pulls}
use osfp.Command.Compare.Run.{finish_compare}
use osfp.Command.Compare.Recorded.{pulls-iterate}

-- The entry could be read.
abbrev pub IsRead : Entry → Type 0
IsRead e = e.err ≡ []

Unchanged-self : (e : Entry) → IsRead e → Unchanged e e
Unchanged-self e h = record {
  read_old = h;
  read_live = h;
  same_type = refl;
  same_link = λ k. refl;
  same_hash = λ k l. refl;
  same_size = λ k l. refl;
  same_mtime = λ k l. refl;
  same_mode = refl;
  same_uid = refl;
  same_gid = refl;
}

Agree-self : (es : List Entry) → All IsRead es → Agree es es
Agree-self [] h = tt
Agree-self (e ∷ es) h = (refl, Unchanged-self e h.0, Agree-self es h.1)

no_changes : (cs : List Change) → length cs ≡ 0 → cs ≡ []
no_changes [] h = refl
no_changes (c ∷ cs) h = absurd (omega arith)

module _ (ratio : ℕ → ℕ → Bytes) (glob : Bytes → Bytes → Option Bool)
    (emit : Change → Option Bytes) where
  exit-silent :
      (fail_on_diff : Bool) (volatile : Bytes → Bool) (o : Outcome)
      → o.1 ≡ none
      → total o.0.stats ≡ 0
      → exit_code (finish_compare true fail_on_diff volatile o) ≡ exit_ok
  unfolding exit_code compare_end
  exit-silent fail_on_diff volatile (j, some e) h k = absurd (cc h)
  exit-silent fail_on_diff volatile (j, none) h k =
      rw (le→ltb (expected volatile j.emitted) (total j.stats) (omega (arith, k))) refl

  -- A scan that finds the entries of a fingerprint, all of them read without an error, is compared with it
  -- without an error and without a change, and `compare` exits with 0, with and without --fail-on-diff.
  -- The paths are in strictly increasing order, the callback does not fail, the report is written, and
  -- the fuel lets the cursor come to the end of the fingerprint.
  pub compare-unchanged :
      (decompress : Bytes → Option Bytes) (message : ReadError → Bytes) (file : Bytes) (r : Reader)
      (es : List Entry) (fuel : ℕ) (opts : Merge.Options) (fail_on_diff : Bool)
      (volatile : Bytes → Bool)
      → ((c : Change) → emit c ≡ none)
      → IsSorted es
      → All IsRead es
      → iterate decompress file fuel (start r) ≡ ok es
      → let source = pulls decompress file message fuel (start r) in
        ((join_all ratio glob emit source opts es).1 ≡ none)
        × ((join_all ratio glob emit source opts es).0.emitted ≡ [])
        × (exit_code
              (finish_compare true fail_on_diff volatile (join_all ratio glob emit source opts es))
            ≡ exit_ok)
  compare-unchanged decompress message file r es fuel opts fail_on_diff volatile emits k read all =
      rw (pulls-iterate decompress file message fuel (start r) es all) (
        fine,
        no_changes o.0.emitted (omega (arith, reported, zeros)),
        exit-silent fail_on_diff volatile o fine (omega (arith, zeros)),
      )
    where
      o : Outcome
      o = join_all ratio glob emit (map entry es) opts es

      fine : o.1 ≡ none
      fine = (join_all-pointwise ratio glob emit es es opts [] emits k k).0

      zeros : total o.0.stats + o.0.stats.ignored + o.0.stats.hidden ≡ 0
      zeros = (join_all-silent_iff ratio glob emit es es opts emits k).1 (Agree-self es read)

      reported : length o.0.emitted ≡ total o.0.stats
      reported = (join_all-conserves ratio glob emit es es opts emits k).1
