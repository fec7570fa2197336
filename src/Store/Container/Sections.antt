-- ===== src/Store/Container/Sections.antt =====
-- The footer, the index and the blocks of a closed container, read back.
use mathlib.Core.List.{append_assoc}
use mathlib.Core.Path.{subst}
use osfp.Base.{
  ℕ, suc, ◌+◌, ◌-◌, ◌^◌, ◌<◌, ◌≤◌, Bytes, Bool, true, false, List, [], ◌∷◌, ◌++◌, map, Option, some,
  length, length-append, drop, drop_append, All, ◌==◌, pos, ◌≡◌, refl, sym, ap, ◌∙◌, arith,
}
use osfp.Entry.{Entry}
use osfp.Store.Format.{footer_size, max_block_size, max_meta_size}
use osfp.Store.RoundTrip.Steps.{IsStorable}
use osfp.Store.Reader.{ok, ◌>>=◌, read_block, read_index, parse_index}
use osfp.Store.Reader.Blocks.{
  packed, length-packed, Holds, Holds-last, Holds-append, read_block-packed,
}
use osfp.Store.Reader.Index.{ref_of, IsPlaced, parse_index-index_bytes}
use osfp.Store.Cursor.{start}
use osfp.Store.Writer.{Writer}
use osfp.Store.Writer.Puts.{words}
use osfp.Store.Writer.Closing.{index_section, indexed, file_end, AllFlushed}
use osfp.Store.Container.Refs.{Located-IsPlaced}
use osfp.Store.Container.Parts.{length-file_end}

pub map-length {ℓ κ} :
    {A : Type ℓ} {B : Type κ} (f : A → B) (xs : List A) → length (map f xs) ≡ length xs
map-length f [] = refl
map-length f (x ∷ xs) = ap suc (map-length f xs)

read_index-block :
    (decompress : Bytes → Option Bytes) (file : Bytes) (offset n start end : ℕ)
    → 0 < n
    → read_index decompress file (pos offset) (pos n) (pos start) (pos end)
      ≡ (read_block decompress file (pos offset) (pos n) >>= parse_index (pos start) (pos end))
unfolding read_index
read_index-block decompress file offset n start end h =
    let some_bytes : (n == 0) ≡ false = ground arith in rw some_bytes refl

-- What is asked of the compressor, of the digest and of the decoder of metadata.
pub record Codecs (compress sha256 : Bytes → Bytes) (decompress : Bytes → Option Bytes)
    (is_meta : Bytes → Bool) (payload : Bytes) : Type 0 where
  pub unpacks : (raw : Bytes) → decompress (compress raw) ≡ some raw
  pub fits : (raw : Bytes) → length raw ≤ max_block_size → length (compress raw) < 2 ^ 32
  pub digest_size : (p : Bytes) → length (sha256 p) ≡ 32
  pub meta_good : is_meta payload ≡ true
  pub meta_fits : length payload ≤ max_meta_size

module _ (sink : Bytes → Bytes → ℕ × Option Bytes) (compress sha256 : Bytes → Bytes)
    (decompress : Bytes → Option Bytes) (is_meta : Bytes → Bool) (payload : Bytes)
    (codecs : Codecs compress sha256 decompress is_meta payload) where
  module _ (es : List Entry) (v : Writer)
      (done : AllFlushed sink compress sha256 payload es v) where
    abbrev pub file_of : Bytes
    file_of = (indexed sink compress sha256 v).file ++ file_end sink compress sha256 v

    abbrev pub index_of : Bytes
    index_of = index_section sink compress sha256 v.index

    pub indexed-packed : (indexed sink compress sha256 v).file ≡ v.file ++ packed compress index_of
    indexed-packed = append_assoc v.file (words compress index_of) (compress index_of)

    pub length-file_of :
        length file_of ≡ length v.file + length (packed compress index_of) + footer_size
    length-file_of = omega (
      arith,
      length-append (indexed sink compress sha256 v).file (file_end sink compress sha256 v),
      ap (length {0}) indexed-packed,
      length-append v.file (packed compress index_of),
      length-file_end sink compress sha256 codecs.digest_size v,
    )

    pub footer_of : drop (length file_of - footer_size) file_of ≡ file_end sink compress sha256 v
    footer_of =
        let front = (indexed sink compress sha256 v).file in
        let here : length file_of - footer_size ≡ length front = omega (
          arith,
          length-append front (file_end sink compress sha256 v),
          length-file_end sink compress sha256 codecs.digest_size v,
        ) in
        ap (λ n. drop n file_of) here ∙ drop_append front (file_end sink compress sha256 v)

    pub index_held : Holds file_of v.off (packed compress index_of)
    index_held =
        let last =
          Holds-append (v.file ++ packed compress index_of) (file_end sink compress sha256 v)
            (length v.file) (packed compress index_of)
            (Holds-last v.file (packed compress index_of)) in
        subst (λ o. Holds file_of o (packed compress index_of)) (sym done.off_is)
          (subst (λ f. Holds f (length v.file) (packed compress index_of))
            (ap (λ r. r ++ file_end sink compress sha256 v) (sym indexed-packed)) last)

    module _ (small : length file_of < 2 ^ 63) (index_fits : length index_of ≤ max_block_size)
        (storable : All IsStorable es) where
      pub placed : All (IsPlaced v.data_offset v.off) v.index
      placed = rw done.off_is (
          Located-IsPlaced compress decompress codecs.unpacks v.file v.data_offset v.index
            done.blocks done.located (rw done.split storable))

      pub read_index-file_of :
          length v.index < 2 ^ 63
          → read_index decompress file_of
              (pos v.off)
              (pos (length (packed compress index_of)))
              (pos v.data_offset)
              (pos v.off)
            ≡ ok (map ref_of v.index)
      read_index-file_of few =
          let long = length-packed compress decompress codecs.unpacks index_of in
          read_index-block decompress file_of v.off (length (packed compress index_of))
            v.data_offset v.off (omega (arith, long))
          ∙ ap (λ r. r >>= parse_index (pos v.data_offset) (pos v.off))
              (read_block-packed compress decompress codecs.unpacks file_of v.off index_of
                index_held small index_fits (codecs.fits index_of index_fits))
          ∙ parse_index-index_bytes v.data_offset v.off (omega (arith, index_held.0)) sink compress
              sha256 v.index placed few
