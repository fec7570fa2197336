-- ===== src/Store/Cursor/Sought.antt =====
-- Where a cursor stands that was sought for a path, and what it gives from there.
pub mod Keys
use osfp.Base.{
  length-append, ℕ, zero, suc, ◌+◌, ◌-◌, ◌<◌, ◌≤◌, Bytes, Bool, true, false, List, [], ◌∷◌, ◌++◌,
  drop, Option, some, if◌then◌else◌, length, All, All-map, ◌≡◌, refl, sym, ap, ◌∙◌, arith, inl, inr,
  Bool-cases, ltb,
}
use osfp.Canon.Order.{◌≺◌}
use osfp.Entry.{Entry}
use osfp.Entry.Sorted.{IsSorted, IsSorted-split}
use osfp.Store.Decode.{reset}
use osfp.Store.RoundTrip.{decoder, next-nil, block_bytes}
use osfp.Store.Reader.{Reader, BlockRef, Result, ok, err, ◌>>=◌}
use osfp.Store.Cursor.{Cursor, Step, done, cursor_at, next_entry, cursor_next, more, iterate}
use osfp.Store.Cursor.Iterate.{
  Fits, Fits-tail, Stored, concat, reads, next_entry-cons, next_entry-nil, GoesOn, iterate-block,
  iterate-Stored,
}
use osfp.Store.Cursor.Seek.{reaches, opens_past, block_for, land, seek_from, seek}
use osfp.Store.Cursor.Sought.Keys.{
  Keyed, from_path, from_path-all, from_path-drop, reaches_later, opens_past_next,
}

module _ (decompress : Bytes → Option Bytes) (file : Bytes) (path : Bytes) where
  -- What is read behind a search.
  abbrev then_read : ℕ → Result Cursor → Result (List Entry)
  then_read fuel found = found >>= iterate decompress file fuel

  -- From the end of a block, the search and what is read behind it yield the entries of `rest` that do
  -- not come before the path.
  abbrev Lands : List BlockRef → List Entry → Type 0
  Lands rs rest =
      (prev : Bytes) (n fuel : ℕ)
      → length rest < n
      → length rest < fuel
      → then_read fuel (seek_from decompress file path n (cursor_at rs (decoder prev [])))
        ≡ ok (from_path path rest)

  landed : ℕ → ℕ → Step → Result (List Entry)
  landed n fuel s = then_read fuel (land decompress file path (seek_from decompress file path n) s)

  seek_from-block :
      (rs : List BlockRef) (rest : List Entry)
      → GoesOn decompress file rs rest
      → Lands rs rest
      → (cur : List Entry) (prev : Bytes) (n fuel : ℕ) → Fits prev cur
      → IsSorted (cur ++ rest)
      → length (cur ++ rest) < n
      → length (cur ++ rest) < fuel
      → then_read fuel
          (seek_from decompress file path n (cursor_at rs (decoder prev (block_bytes prev cur))))
        ≡ ok (from_path path (cur ++ rest))
  unfolding seek_from cursor_next landed iterate
  seek_from-block rs rest go lands [] prev n fuel f s h k =
      unfold block_bytes in lands prev n fuel h k
  seek_from-block rs rest go lands (e ∷ es) prev zero fuel f s h k = absurd (omega arith)
  seek_from-block rs rest go lands (e ∷ es) prev (suc n) zero f s h k = absurd (omega arith)
  seek_from-block rs rest go lands (e ∷ es) prev (suc n) (suc fuel) f s h k =
      ap (landed n (suc fuel)) (next_entry-cons decompress file rs prev e es f)
      ∙ (elim (Bool-cases (reaches e.path path)) [
        | inl here ↦
            rw
              (
                here,
                from_path-all path (es ++ rest) (
                    All-map (λ (g : Entry). e.path ≺ g.path) _ (es ++ rest)
                      (λ g b. reaches_later e.path g.path path b here) s.0),
                iterate-block decompress file rs rest go es e.path fuel (Fits-tail prev e es f)
                    (omega arith),
              )
              refl
        | inr before ↦ rw before (
            seek_from-block rs rest go lands es e.path n (suc fuel) (Fits-tail prev e es f) s.1
              (omega arith) (omega arith))
      ])

  next_entry-done :
      (prev : Bytes)
      → next_entry decompress file [] (decoder prev []) ≡ done (cursor_at [] (decoder prev []))
  unfolding next_entry
  next_entry-done prev = rw (next-nil prev) refl

  seek_from-Stored :
      (bs : List (List Entry)) (rs : List BlockRef)
      → Stored (reads decompress file) rs bs
      → IsSorted (concat bs)
      → Lands rs (concat bs)
  unfolding seek_from cursor_next landed
  seek_from-Stored [] [] s o prev zero fuel h k = absurd (omega arith)
  seek_from-Stored [] [] s o prev (suc n) fuel h k =
      ap (landed n fuel) (next_entry-done prev)
      ∙ iterate-Stored decompress file [] [] tt prev fuel k
  seek_from-Stored [] (r ∷ rs) s o prev n fuel h k = absurd s
  seek_from-Stored (b ∷ bs) [] s o prev n fuel h k = absurd s
  seek_from-Stored (b ∷ bs) (r ∷ rs) s o prev zero fuel h k = absurd (omega arith)
  seek_from-Stored (b ∷ bs) (r ∷ rs) (same, f, s) o prev (suc n) fuel h k =
      ap (landed n fuel) (next_entry-nil decompress file r rs prev b same)
      ∙ seek_from-block rs (concat bs) (iterate-Stored decompress file bs rs s)
          (seek_from-Stored bs rs s (IsSorted-split b (concat bs) o).1) b [] (suc n) fuel f o h k

-- The blocks from a position on.
Stored-drop :
    (read : BlockRef → Result Bytes) (k : ℕ) (rs : List BlockRef) (bs : List (List Entry))
    → Stored read rs bs
    → Stored read (drop k rs) (drop k bs)
Stored-drop read zero rs bs s = s
Stored-drop read (suc k) [] [] s = s
Stored-drop read (suc k) [] (b ∷ bs) s = absurd s
Stored-drop read (suc k) (r ∷ rs) [] s = absurd s
Stored-drop read (suc k) (r ∷ rs) (b ∷ bs) (same, f, s) = Stored-drop read k rs bs s

concat-drop :
    (k : ℕ) (bs : List (List Entry))
    → IsSorted (concat bs)
    → IsSorted (concat (drop k bs)) × (length (concat (drop k bs)) ≤ length (concat bs))
concat-drop zero bs o = (o, omega arith)
concat-drop (suc k) [] o = (o, omega arith)
concat-drop (suc k) (b ∷ bs) o =
    let (a, h) = concat-drop k bs (IsSorted-split b (concat bs) o).1 in
    (a, omega (arith, h, length-append b (concat bs)))

-- What `sort.Search` promises: a position of `n` at most, in front of which the test fails, where it
-- does not fail again behind a success.
abbrev pub IsMonotone : ℕ → (ℕ → Bool) → Type 0
IsMonotone n f = (i : ℕ) → suc i < n → f i ≡ true → f (suc i) ≡ true

module _ (decompress : Bytes → Option Bytes) (search : ℕ → (ℕ → Bool) → ℕ)
    (within : (n : ℕ) (f : ℕ → Bool) → search n f ≤ n)
    (fails : (n : ℕ) (f : ℕ → Bool) → IsMonotone n f → (i : ℕ) → i < search n f → f i ≡ false) where
  from_path-block_for :
      (path : Bytes) (rs : List BlockRef) (bs : List (List Entry))
      → Keyed rs bs
      → IsSorted (concat bs)
      → from_path path (concat bs) ≡ from_path path (concat (drop (block_for search path rs) bs))
  unfolding block_for
  from_path-block_for path rs bs d o =
      let m = search (length rs) (opens_past path rs) in
      elim (Bool-cases (ltb 0 m)) [
        | inl later ↦
            from_path-drop path rs bs (m - 1) d
              (ground (arith, later, within (length rs) (opens_past path rs)))
              (fails (length rs) (opens_past path rs) (λ i. opens_past_next path rs bs i d o)
                (m - 1) (ground (arith, later)))
              o
        | inr first ↦
            let zeroth : m - 1 ≡ 0 = ground (arith, first) in
            ap (λ k. from_path path (concat (drop k bs))) (sym zeroth)
      ]

  -- Where the references lead to the blocks of sorted entries and carry their first keys, a cursor that
  -- is sought for a path gives exactly the entries that do not come before the path.
  pub seek-Stored :
      (file path : Bytes) (r : Reader) (bs : List (List Entry)) (n fuel : ℕ)
      → Stored (reads decompress file) r.index bs
      → Keyed r.index bs
      → IsSorted (concat bs)
      → length (concat bs) < n
      → length (concat bs) < fuel
      → (seek decompress file path search n r >>= iterate decompress file fuel)
        ≡ ok (from_path path (concat bs))
  unfolding seek reset
  seek-Stored file path r bs n fuel s d o h k =
      let at = block_for search path r.index in
      let (sorted, few) = concat-drop at bs o in
      seek_from-Stored decompress file path (drop at bs) (drop at r.index)
        (Stored-drop (reads decompress file) at r.index bs s) sorted [] n fuel (omega (arith, few))
        (omega (arith, few))
      ∙ ap ok (sym (from_path-block_for path r.index bs d o))
