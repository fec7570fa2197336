-- ===== src/Store/Container/Refs.antt =====
-- The blocks that the writer located, as the reader finds them.
use mathlib.Core.Path.{subst}
use osfp.Base.{
  ℕ, ◌^◌, ◌<◌, ◌≤◌, Bytes, List, [], ◌∷◌, map, Option, some, length, All, All-split, pos, ◌≡◌, ap,
  ◌∙◌, arith,
}
use osfp.Entry.{Entry}
use osfp.Entry.Sorted.{IsSorted, IsSorted-split}
use osfp.Store.Format.{max_block_size, max_string_size}
use osfp.Store.RoundTrip.{block_bytes, HasPath}
use osfp.Store.RoundTrip.Steps.{IsStorable}
use osfp.Store.Reader.{read_block}
use osfp.Store.Reader.Blocks.{length-packed, read_block-packed}
use osfp.Store.Reader.Index.{ref_of, IsPlaced}
use osfp.Store.Cursor.Iterate.{Stored, Fits-start, concat, reads}
use osfp.Store.Cursor.Sought.Keys.{Keyed}
use osfp.Store.Writer.{IndexEntry}
use osfp.Store.Writer.Layout.{Located, Opens}

key_fits :
    (key : Bytes) (b : List Entry) → Opens key b → All IsStorable b → length key ≤ max_string_size
key_fits key [] h s = absurd h
key_fits key (e ∷ b) h s = subst (λ k. length k ≤ max_string_size) h s.0.path_fits

module _ (compress : Bytes → Bytes) (decompress : Bytes → Option Bytes)
    (unpacks : (raw : Bytes) → decompress (compress raw) ≡ some raw) where
  pub Located-IsPlaced :
      (file : Bytes) (start : ℕ) (ies : List IndexEntry) (bs : List (List Entry))
      → Located compress file start ies bs
      → All IsStorable (concat bs)
      → All (IsPlaced start (length file)) ies
  Located-IsPlaced file start [] [] l s = tt
  Located-IsPlaced file start [] (b ∷ bs) l s = absurd l
  Located-IsPlaced file start (ie ∷ ies) [] l s = absurd l
  Located-IsPlaced file start (ie ∷ ies) (b ∷ bs) (l, ls) s =
      let (sb, sbs) = All-split IsStorable b (concat bs) s in
      (
        record {
          key_fits = key_fits ie.first_key b l.opens sb;
          from_start = l.placed;
          nonempty =
              omega (arith, l.sized, length-packed compress decompress unpacks (block_bytes [] b));
          to_end = omega (arith, l.sized, l.held.0);
        },
        Located-IsPlaced file start ies bs ls sbs,
      )

  pub Located-Stored :
      (file : Bytes) (start : ℕ)
      → length file < 2 ^ 63
      → ((raw : Bytes) → length raw ≤ max_block_size → length (compress raw) < 2 ^ 32)
      → (ies : List IndexEntry) (bs : List (List Entry)) → Located compress file start ies bs
      → All IsStorable (concat bs)
      → All HasPath (concat bs)
      → IsSorted (concat bs)
      → Stored (reads decompress file) (map ref_of ies) bs
  Located-Stored file start small fits [] [] l s n o = tt
  Located-Stored file start small fits [] (b ∷ bs) l s n o = absurd l
  Located-Stored file start small fits (ie ∷ ies) [] l s n o = absurd l
  Located-Stored file start small fits (ie ∷ ies) (b ∷ bs) (l, ls) s n o =
      let (sb, sbs) = All-split IsStorable b (concat bs) s in
      let (nb, nbs) = All-split HasPath b (concat bs) n in
      let (ob, obs) = IsSorted-split b (concat bs) o in
      let raw = block_bytes [] b in
      (
        ap (λ m. read_block decompress file (pos ie.offset) (pos m)) l.sized
            ∙ read_block-packed compress decompress unpacks file ie.offset raw l.held small l.fits
                (fits raw l.fits),
        Fits-start b sb nb ob,
        Located-Stored file start small fits ies bs ls sbs nbs obs,
      )

-- The references carry the first keys of the blocks.
pub Located-Keyed :
    (compress : Bytes → Bytes) (file : Bytes) (start : ℕ) (ies : List IndexEntry)
    (bs : List (List Entry))
    → Located compress file start ies bs
    → Keyed (map ref_of ies) bs
Located-Keyed compress file start [] [] l = tt
Located-Keyed compress file start [] (b ∷ bs) l = absurd l
Located-Keyed compress file start (ie ∷ ies) [] l = absurd l
Located-Keyed compress file start (ie ∷ ies) ([] ∷ bs) (l, ls) = absurd l.opens
Located-Keyed compress file start (ie ∷ ies) ((e ∷ b) ∷ bs) (l, ls) =
    (l.opens, Located-Keyed compress file start ies bs ls)
