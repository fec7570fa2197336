-- ===== src/Command/Compare/Recorded.antt =====
-- A comparison with a fingerprint that was written: the cursor of a container as the source of the
-- joiner.
use mathlib.Core.Path.{subst}
use osfp.Base.{
  ℕ, zero, suc, ◌+◌, ◌^◌, ◌<◌, ◌≤◌, Bytes, Bool, true, false, List, [], ◌∷◌, map, Option, none,
  some, length, All, ◌≡◌, refl, sym, ap, ◌∙◌,
}
use osfp.Entry.{Entry}
use osfp.Diff.Merge
use osfp.Diff.Merge.{Change, Pull, entry, join_all}
use osfp.Diff.Merge.Pointwise.{find, changes_at, diff_at, delivered}
use osfp.Filepath.{is_here}
use osfp.Scan.Tree.{Node}
use osfp.Scan.Walk.{walk}
use osfp.Scan.Settings.{Options}
use osfp.Scan.Walk.Names.{IsListed}
use osfp.Scan.Walk.Order.{walk-IsSorted, walk-HasPath}
use osfp.Scan.Walk.Compared.{join_all-walk}
use osfp.Store.Format.{max_block_size, max_meta_size}
use osfp.Store.RoundTrip.Steps.{IsStorable}
use osfp.Store.Reader.{Reader, ReadError, Result, ok, err, new_reader}
use osfp.Store.Cursor
use osfp.Store.Cursor.{Cursor, Step, done, failed, cursor_next, more, go_on, iterate, start, verify}
use osfp.Store.Writer.Closing.{index_section, write_all}
use osfp.Store.Container
use osfp.Command.Compare.{pulled, pulls}

module _ (decompress : Bytes → Option Bytes) (file : Bytes) (message : ReadError → Bytes) where
  read_or : List Entry → Result (List Entry) → List Entry
  read_or default (err e) = default
  read_or default (ok es) = es

  -- Where the loop over a cursor comes to the end, the joiner pulls the same entries and no error.
  pub pulls-iterate :
      (fuel : ℕ) (c : Cursor) (es : List Entry)
      → iterate decompress file fuel c ≡ ok es
      → pulls decompress file message fuel c ≡ map entry es
  unfolding iterate pulls read_or
  pulls-iterate zero c es h = absurd (cc h)
  pulls-iterate (suc fuel) c es h =
      by_step (cursor_next decompress file c) es (pulls-iterate fuel) h
    where
      by_result :
          (e : Entry) (ps : List Pull) (r : Result (List Entry)) (es : List Entry)
          → ((fs : List Entry) → r ≡ ok fs → ps ≡ map entry fs)
          → more decompress file e r ≡ ok es
          → entry e ∷ ps ≡ map entry es
      by_result e ps (err x) es rest h = absurd (cc h)
      by_result e ps (ok fs) es rest h =
          ap (λ qs. entry e ∷ qs) (rest fs refl) ∙ ap (λ r. map entry (read_or [] r)) h

      by_step :
          (s : Step) (es : List Entry)
          → ((c : Cursor) (fs : List Entry)
              → iterate decompress file fuel c ≡ ok fs
              → pulls decompress file message fuel c ≡ map entry fs)
          → go_on decompress file (iterate decompress file fuel) s ≡ ok es
          → pulled decompress file message (pulls decompress file message fuel) s ≡ map entry es
      by_step (Cursor.entry e c) es rest h =
          by_result e (pulls decompress file message fuel c) (iterate decompress file fuel c) es
            (rest c) h
      by_step (done c) es rest h = ap (λ r. map entry (read_or [] r)) h
      by_step (failed x) es rest h = absurd (cc h)

-- A fingerprint of the entries of one walk, written to a file that takes every write, opens, passes
-- the verification of its digest, and is compared with another walk without an error; for every path the
-- callback gets the filtered difference of what the two walks say of that path. The listings of both
-- walks are ordered, neither root is empty or `.`, the entries of the first are storable, the callback does not fail,
-- and the decompressor, the digest, the metadata and the sizes are as `write_all-ReadsBack` asks.
pub compare-written :
    (sink : Bytes → Bytes → ℕ × Option Bytes) (compress sha256 : Bytes → Bytes)
    (decompress : Bytes → Option Bytes) (is_meta : Bytes → Bool) (payload : Bytes)
    (ratio : ℕ → ℕ → Bytes) (glob : Bytes → Bytes → Option Bool) (emit : Change → Option Bytes)
    (message : ReadError → Bytes) (before after : Options) (opts : Merge.Options)
    (root root' p : Bytes) (old live : Node)
    → ((f p : Bytes) → sink f p ≡ (length p, none))
    → ((raw : Bytes) → decompress (compress raw) ≡ some raw)
    → ((raw : Bytes) → length raw ≤ max_block_size → length (compress raw) < 2 ^ 32)
    → ((p : Bytes) → length (sha256 p) ≡ 32)
    → is_meta payload ≡ true
    → length payload ≤ max_meta_size
    → ((c : Change) → emit c ≡ none)
    → is_here root ≡ false
    → is_here root' ≡ false
    → IsListed old
    → IsListed live
    → All IsStorable (walk glob before root old).emitted
    → length (walk glob before root old).emitted < 2 ^ 63
    → length (write_all sink compress sha256 payload (walk glob before root old).emitted).0.file
      < 2 ^ 63
    → length (
        index_section sink compress sha256
          (write_all sink compress sha256 payload (walk glob before root old).emitted).0.index)
      ≤ max_block_size
    → let olds = (walk glob before root old).emitted in
      let lives = (walk glob after root' live).emitted in
      let file = (write_all sink compress sha256 payload olds).0.file in
      (r : Reader) × (new_reader decompress is_meta file ≡ ok r)
      × (verify sha256 r ≡ ok tt)
      × (let source = pulls decompress file message (length olds + 1) (start r) in
          ((join_all ratio glob emit source opts lives).1 ≡ none)
          × (changes_at p (join_all ratio glob emit source opts lives).0.emitted
              ≡ delivered glob opts (diff_at ratio (find p olds) (find p lives))))
compare-written sink compress sha256 decompress is_meta payload ratio glob emit message before after
      opts root root' p old live accepts unpacks fits digest_size meta_good meta_fits emits here
      here' h k storable few small index_fits =
    let olds = (walk glob before root old).emitted in
    let lives = (walk glob after root' live).emitted in
    let back =
      (Container.write_all-ReadsBack sink compress sha256 decompress is_meta payload olds accepts
        unpacks fits digest_size meta_good meta_fits storable
        (walk-HasPath glob before root old here h) (walk-IsSorted glob before root old here h) few
        small index_fits).1 in
    let file = (write_all sink compress sha256 payload olds).0.file in
    (
      back.reader,
      back.opened,
      back.verified,
      subst
          (λ source.
            ((join_all ratio glob emit source opts lives).1 ≡ none)
            × (changes_at p (join_all ratio glob emit source opts lives).0.emitted
                ≡ delivered glob opts (diff_at ratio (find p olds) (find p lives))))
          (sym (
            pulls-iterate decompress file message (length olds + 1) (start back.reader) olds
              back.iterated))
          (join_all-walk ratio glob emit before after opts root root' p old live emits here here' h
            k),
    )
