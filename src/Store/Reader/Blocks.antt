-- ===== src/Store/Reader/Blocks.antt =====
-- A block in its packed form: its two lengths and the compressed bytes.
use mathlib.Core.List.{append_assoc}
use osfp.Base.{
  ℕ, zero, suc, ◌+◌, ◌^◌, ◌<◌, ◌≤◌, Bytes, false, [], ◌∷◌, ◌++◌, Option, some, ltb, length, take,
  drop, length-append, length-drop, drop_append, pos, add_i64-pos, le→ltb, ◌≡◌, refl, ap, ◌∙◌,
  arith,
}
use osfp.Store.Format.{max_block_size}
use osfp.Store.Writer.{put_le}
use osfp.Store.Reader.{ok, read_at, unpack, read_block}
use osfp.Store.Reader.Words.{length-put_le, get_le-put_le, drop-put_le}

-- What `flushBlock` and `writeIndex` write of a block.
abbrev pub packed : (Bytes → Bytes) → Bytes → Bytes
packed compress raw = (put_le 4 (length raw) ++ put_le 4 (length (compress raw))) ++ compress raw

module _ (compress : Bytes → Bytes) (decompress : Bytes → Option Bytes)
    (unpacks : (raw : Bytes) → decompress (compress raw) ≡ some raw) where
  pub length-packed : (raw : Bytes) → length (packed compress raw) ≡ 8 + length (compress raw)
  length-packed raw = omega (
    arith,
    length-append (put_le 4 (length raw) ++ put_le 4 (length (compress raw))) (compress raw),
    length-append (put_le 4 (length raw)) (put_le 4 (length (compress raw))),
    length-put_le 4 (length raw),
    length-put_le 4 (length (compress raw)),
  )

  drop_words : (m n : ℕ) (r : Bytes) → drop 8 (put_le 4 m ++ (put_le 4 n ++ r)) ≡ r
  unfolding put_le
  drop_words m n r = refl

  pub unpack-packed :
      (raw : Bytes)
      → length raw ≤ max_block_size
      → length (compress raw) < 2 ^ 32
      → unpack decompress (pos (length (packed compress raw))) (packed compress raw) ≡ ok raw
  unfolding unpack
  unpack-packed raw h k =
      rw
        (
          length-packed raw,
          append_assoc (put_le 4 (length raw)) (put_le 4 (length (compress raw))) (compress raw),
          get_le-put_le 4 (length raw) (put_le 4 (length (compress raw)) ++ compress raw)
              (omega arith),
          drop-put_le 4 (length raw) (put_le 4 (length (compress raw)) ++ compress raw),
          get_le-put_le 4 (length (compress raw)) (compress raw) (omega arith),
          drop_words (length raw) (length (compress raw)) (compress raw),
          unpacks raw,
        )
        (ground arith)

-- The bytes of the file at an offset start with a given piece.
abbrev pub Holds : Bytes → ℕ → Bytes → Type 0
Holds file o piece = (o + length piece ≤ length file) × (take (length piece) (drop o file) ≡ piece)

take-append_le : (n : ℕ) (xs ys : Bytes) → n ≤ length xs → take n (xs ++ ys) ≡ take n xs
take-append_le zero xs ys h = refl
take-append_le (suc n) [] ys h = absurd (omega arith)
take-append_le (suc n) (x ∷ xs) ys h = ap (λ r. x ∷ r) (take-append_le n xs ys (omega arith))

drop-append_le : (n : ℕ) (xs ys : Bytes) → n ≤ length xs → drop n (xs ++ ys) ≡ drop n xs ++ ys
drop-append_le zero xs ys h = refl
drop-append_le (suc n) [] ys h = absurd (omega arith)
drop-append_le (suc n) (x ∷ xs) ys h = drop-append_le n xs ys (omega arith)

-- What a file holds it still holds when more is written behind it.
pub Holds-append :
    (file more : Bytes) (o : ℕ) (piece : Bytes) → Holds file o piece → Holds (file ++ more) o piece
Holds-append file more o piece (fits, same) = (
  omega (arith, length-append file more),
  ap (take (length piece)) (drop-append_le o file more (omega arith))
      ∙ take-append_le (length piece) (drop o file) more (omega (arith, length-drop o file))
      ∙ same,
)

-- And it holds what was written last.
pub Holds-last : (file piece : Bytes) → Holds (file ++ piece) (length file) piece
Holds-last file piece = (
  omega (arith, length-append file piece),
  ap (take (length piece)) (drop_append file piece) ∙ take_whole piece,
)
  where
    take_whole : (p : Bytes) → take (length p) p ≡ p
    take_whole [] = refl
    take_whole (c ∷ p) = ap (λ r. c ∷ r) (take_whole p)

pub read_at-Holds :
    (file : Bytes) (o : ℕ) (piece : Bytes)
    → Holds file o piece
    → read_at file (pos o) (pos (length piece)) ≡ ok piece
unfolding read_at
read_at-Holds file o piece (fits, same) =
    rw (le→ltb (length file) (o + length piece) fits, same) refl

module _ (compress : Bytes → Bytes) (decompress : Bytes → Option Bytes)
    (unpacks : (raw : Bytes) → decompress (compress raw) ≡ some raw) where
  -- Reading a packed block back from where the file holds it.
  pub read_block-packed :
      (file : Bytes) (o : ℕ) (raw : Bytes)
      → Holds file o (packed compress raw)
      → length file < 2 ^ 63
      → length raw ≤ max_block_size
      → length (compress raw) < 2 ^ 32
      → read_block decompress file (pos o) (pos (length (packed compress raw))) ≡ ok raw
  unfolding read_block
  read_block-packed file o raw held small h k =
      let n = length (packed compress raw) in
      let long : ltb n 8 ≡ false =
        le→ltb n 8 (omega (arith, length-packed compress decompress unpacks raw)) in
      let inside : ltb (length file) (o + n) ≡ false = le→ltb (length file) (o + n) held.0 in
      rw
        (
          long,
          add_i64-pos o n (omega (arith, held.0)),
          inside,
          read_at-Holds file o (packed compress raw) held,
        )
        (unpack-packed compress decompress unpacks raw h k)
