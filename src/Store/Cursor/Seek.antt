-- ===== src/Store/Cursor/Seek.antt =====
-- internal/store/reader.go: `Reader.Seek`. `sort.Search` is a parameter.
use Prim.Native.Nat.{Ordering}
use osfp.Base.{
  ℕ, zero, suc, ◌-◌, Bytes, Bool, true, false, List, [], ◌∷◌, Option, some, length, drop,
  if◌then◌else◌,
}
use osfp.Canon.{compare_key}
use osfp.Store.Decode.{reset}
use osfp.Store.Reader.{Reader, no_fuel, BlockRef, Result, ok, err}
use osfp.Store.Cursor.{Cursor, Step, entry, done, failed, cursor_at, cursor_next}

-- `CompareKey(key, path) > 0`
unfoldable pub is_past : Bytes → Bytes → Bool
is_past key path = elim (compare_key key path) [ Ordering.gt ↦ true | _ ↦ false ]

-- `CompareKey(key, path) >= 0`
unfoldable pub reaches : Bytes → Bytes → Bool
reaches key path = elim (compare_key key path) [ Ordering.lt ↦ false | _ ↦ true ]

-- The test that `sort.Search` puts to the position of a block.
abbrev pub opens_past : Bytes → List BlockRef → ℕ → Bool
opens_past path [] i = false
opens_past path (r ∷ rs) zero = is_past r.first_key path
opens_past path (r ∷ rs) (suc i) = opens_past path rs i

-- The position of the last block whose first key is not past the path, or else of the first block.
unfoldable pub block_for : (ℕ → (ℕ → Bool) → ℕ) → Bytes → List BlockRef → ℕ
block_for search path rs = search (length rs) (opens_past path rs) - 1

module _ (decompress : Bytes → Option Bytes) (file : Bytes) (path : Bytes) where
  abbrev pub land : (Cursor → Result Cursor) → Step → Result Cursor
  land rest (entry e c) =
      let later = rest c in
      if reaches e.path path then ok (record c { pending = some e }) else later
  land rest (done c) = ok c
  land rest (failed x) = err x

  -- The loop of `Seek`, on fuel.
  unfoldable pub seek_from : ℕ → Cursor → Result Cursor
  seek_from zero c = err no_fuel
  seek_from (suc fuel) c = land (seek_from fuel) (cursor_next decompress file c)

  -- `Seek`, on fuel
  unfoldable pub seek : (ℕ → (ℕ → Bool) → ℕ) → ℕ → Reader → Result Cursor
  seek search fuel r =
      seek_from fuel (cursor_at (drop (block_for search path r.index) r.index) (reset []))
