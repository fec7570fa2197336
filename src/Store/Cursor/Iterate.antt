-- ===== src/Store/Cursor/Iterate.antt =====
-- The entries that a cursor gives, block by block.
use osfp.Base.{
  ℕ, zero, suc, ◌<◌, Bytes, List, [], ◌∷◌, ◌++◌, Option, length, All, All-map, ◌≡◌, ◌⊎◌, refl, ap,
  ◌∙◌, arith, inl, inr,
}
use osfp.Canon.Order.{◌≺◌}
use osfp.Entry.{Entry}
use osfp.Entry.Sorted.{IsSorted}
use osfp.Store.Decode.{reset}
use osfp.Store.RoundTrip.{decoder, next-entry_bytes, next-nil, block_bytes, HasPath}
use osfp.Store.RoundTrip.Steps.{IsStorable}
use osfp.Store.Reader.{BlockRef, Result, ok, read_block}
use osfp.Store.Cursor.{cursor_at, entry, next_entry, cursor_next, more, go_on, iterate}

-- The entries of a block, all of which may stand behind the key `prev`.
pub record Fits (prev : Bytes) (es : List Entry) : Type 0 where
  pub storable : All IsStorable es
  pub named : All HasPath es
  pub sorted : IsSorted es
  pub behind : All (λ (e : Entry). (prev ≡ []) ⊎ (prev ≺ e.path)) es

pub Fits-start : (es : List Entry) → All IsStorable es → All HasPath es → IsSorted es → Fits [] es
Fits-start es w n s = record {
  storable = w;
  named = n;
  sorted = s;
  behind = All-map HasPath _ es (λ e h. inl refl) n;
}

pub Fits-tail : (prev : Bytes) (e : Entry) (es : List Entry) → Fits prev (e ∷ es) → Fits e.path es
Fits-tail prev e es f = record {
  storable = f.storable.1;
  named = f.named.1;
  sorted = f.sorted.1;
  behind = All-map (λ (g : Entry). e.path ≺ g.path) _ es (λ g h. inr h) f.sorted.0;
}

-- Each reference leads to a block of entries.
abbrev pub Stored : (BlockRef → Result Bytes) → List BlockRef → List (List Entry) → Type 0
Stored read [] [] = Unit
Stored read [] (b ∷ bs) = ⊥
Stored read (r ∷ rs) [] = ⊥
Stored read (r ∷ rs) (b ∷ bs) = (read r ≡ ok (block_bytes [] b)) × Fits [] b × Stored read rs bs

abbrev pub concat : List (List Entry) → List Entry
concat [] = []
concat (b ∷ bs) = b ++ concat bs

module _ (decompress : Bytes → Option Bytes) (file : Bytes) where
  abbrev pub reads : BlockRef → Result Bytes
  reads r = read_block decompress file r.offset r.size

  pub next_entry-cons :
      (rs : List BlockRef) (prev : Bytes) (e : Entry) (es : List Entry)
      → Fits prev (e ∷ es)
      → next_entry decompress file rs (decoder prev (block_bytes prev (e ∷ es)))
        ≡ entry e (cursor_at rs (decoder e.path (block_bytes e.path es)))
  unfolding next_entry block_bytes
  next_entry-cons [] prev e es f =
      rw (next-entry_bytes e prev (block_bytes e.path es) f.storable.0 (f.named.0, f.behind.0)) refl
  next_entry-cons (r ∷ rs) prev e es f =
      rw (next-entry_bytes e prev (block_bytes e.path es) f.storable.0 (f.named.0, f.behind.0)) refl

  pub next_entry-nil :
      (r : BlockRef) (rs : List BlockRef) (prev : Bytes) (b : List Entry)
      → reads r ≡ ok (block_bytes [] b)
      → next_entry decompress file (r ∷ rs) (decoder prev [])
        ≡ next_entry decompress file rs (decoder [] (block_bytes [] b))
  unfolding next_entry reset
  next_entry-nil r rs prev b h = rw (next-nil prev, h) refl

  -- From the end of a block, the cursor goes on with the entries `rest`.
  abbrev pub GoesOn : List BlockRef → List Entry → Type 0
  GoesOn rs rest =
      (prev : Bytes) (fuel : ℕ)
      → length rest < fuel
      → iterate decompress file fuel (cursor_at rs (decoder prev [])) ≡ ok rest

  pub iterate-block :
      (rs : List BlockRef) (rest : List Entry)
      → GoesOn rs rest
      → (cur : List Entry) (prev : Bytes) (fuel : ℕ) → Fits prev cur
      → length (cur ++ rest) < fuel
      → iterate decompress file fuel (cursor_at rs (decoder prev (block_bytes prev cur)))
        ≡ ok (cur ++ rest)
  unfolding iterate cursor_next
  iterate-block rs rest go [] prev fuel f h = unfold block_bytes in go prev fuel h
  iterate-block rs rest go (e ∷ es) prev zero f h = absurd (omega arith)
  iterate-block rs rest go (e ∷ es) prev (suc fuel) f h =
      ap (go_on decompress file (iterate decompress file fuel)) (next_entry-cons rs prev e es f)
      ∙ ap (more decompress file e)
          (iterate-block rs rest go es e.path fuel (Fits-tail prev e es f) (omega arith))

  -- From the end of a block, the cursor gives the entries of all blocks ahead and then ends.
  pub iterate-Stored :
      (bs : List (List Entry)) (rs : List BlockRef) → Stored reads rs bs → GoesOn rs (concat bs)
  unfolding iterate cursor_next
  iterate-Stored [] [] s prev zero h = absurd (omega arith)
  iterate-Stored [] [] s prev (suc fuel) h = unfold next_entry in rw (next-nil prev) refl
  iterate-Stored [] (r ∷ rs) s prev fuel h = absurd s
  iterate-Stored (b ∷ bs) [] s prev fuel h = absurd s
  iterate-Stored (b ∷ bs) (r ∷ rs) s prev zero h = absurd (omega arith)
  iterate-Stored (b ∷ bs) (r ∷ rs) (same, f, s) prev (suc fuel) h =
      ap (go_on decompress file (iterate decompress file fuel)) (next_entry-nil r rs prev b same)
      ∙ iterate-block rs (concat bs) (iterate-Stored bs rs s) b [] (suc fuel) f h

  -- Where every reference leads to a block of entries, a fresh cursor comes to the end of the
  -- blocks, on any fuel above the number of their entries, and gives exactly these entries.
  pub iterate-cursor_at :
      (bs : List (List Entry)) (rs : List BlockRef) (fuel : ℕ)
      → Stored reads rs bs
      → length (concat bs) < fuel
      → iterate decompress file fuel (cursor_at rs (reset [])) ≡ ok (concat bs)
  unfolding reset
  iterate-cursor_at bs rs fuel s h = iterate-Stored bs rs s [] fuel h
