-- ===== src/Store/Reader/Index.antt =====
-- Reading the index that the writer wrote.
use osfp.Base.{
  ℕ, ◌+◌, ◌*◌, ◌/◌, ◌^◌, ◌<◌, ◌≤◌, Bytes, false, List, [], ◌∷◌, ◌++◌, map, Option, ltb, length,
  length-append, All, pos, from_u64-pos, add_i64-pos, le→ltb, lt→ltb, ◌≡◌, refl, arith,
}
use osfp.Store.Format.{max_string_size}
use osfp.Store.Varint.{put_uvarint}
use osfp.Store.Encode.{put_str}
use osfp.Store.RoundTrip.{put_uvarint-length}
use osfp.Store.RoundTrip.Steps.{at, Reads-uvarint, Reads-str}
use osfp.Store.Writer.{IndexEntry, index_bytes}
use osfp.Store.Reader.{ok, BlockRef, read_ref, is_stray, read_refs, parse_index}

-- The record of a block, as the reader keeps it.
abbrev pub ref_of : IndexEntry → BlockRef
ref_of ie = record { first_key = ie.first_key; offset = pos ie.offset; size = pos ie.size }

-- A record of a block that lies between two offsets.
pub record IsPlaced (start end : ℕ) (ie : IndexEntry) : Type 0 where
  pub key_fits : length ie.first_key ≤ max_string_size
  pub from_start : start ≤ ie.offset
  pub nonempty : 0 < ie.size
  pub to_end : ie.offset + ie.size ≤ end

module _ (start end : ℕ) (small : end < 2 ^ 63) where
  not_stray :
      (ie : IndexEntry) → IsPlaced start end ie → is_stray (pos start) (pos end) (ref_of ie) ≡ false
  not_stray ie p =
      rw
        (
          le→ltb ie.offset start p.from_start,
          lt→ltb 0 ie.size p.nonempty,
          add_i64-pos ie.offset ie.size (omega (arith, p.to_end)),
          le→ltb end (ie.offset + ie.size) p.to_end,
        )
        refl

  read_ref-put :
      (ie : IndexEntry) (r : Bytes)
      → IsPlaced start end ie
      → read_ref
          (at (put_str ie.first_key ++ (put_uvarint ie.offset ++ (put_uvarint ie.size ++ r))))
        ≡ ok (ref_of ie, at r)
  unfolding read_ref
  read_ref-put ie r p =
      rw
        (
          Reads-str ie.first_key p.key_fits (put_uvarint ie.offset ++ (put_uvarint ie.size ++ r)),
          Reads-uvarint ie.offset (omega (arith, p.to_end)) (put_uvarint ie.size ++ r),
          Reads-uvarint ie.size (omega (arith, p.to_end)) r,
          from_u64-pos ie.offset (omega (arith, p.to_end)),
          from_u64-pos ie.size (omega (arith, p.to_end)),
        )
        refl

  module _ (sink : Bytes → Bytes → ℕ × Option Bytes) (compress sha256 : Bytes → Bytes) where
    read_refs-index_bytes :
        (ies : List IndexEntry)
        → All (IsPlaced start end) ies
        → read_refs (length ies) (pos start) (pos end) (at (index_bytes sink compress sha256 ies))
          ≡ ok (map ref_of ies)
    unfolding read_refs index_bytes
    read_refs-index_bytes [] p = refl
    read_refs-index_bytes (ie ∷ ies) p =
        rw
          (
            read_ref-put ie (index_bytes sink compress sha256 ies) p.0,
            not_stray ie p.0,
            read_refs-index_bytes ies p.1,
          )
          refl

    pub index_bytes-length :
        (ies : List IndexEntry) → length ies * 3 ≤ length (index_bytes sink compress sha256 ies)
    unfolding index_bytes
    index_bytes-length [] = omega arith
    index_bytes-length (ie ∷ ies) =
        let tail = index_bytes sink compress sha256 ies in
        omega (
          arith,
          length-append (put_str ie.first_key)
              (put_uvarint ie.offset ++ (put_uvarint ie.size ++ tail)),
          length-append (put_uvarint (length ie.first_key)) ie.first_key,
          length-append (put_uvarint ie.offset) (put_uvarint ie.size ++ tail),
          length-append (put_uvarint ie.size) tail,
          put_uvarint-length (length ie.first_key),
          put_uvarint-length ie.offset,
          put_uvarint-length ie.size,
          index_bytes-length ies,
        )

    pub parse_index-index_bytes :
        (ies : List IndexEntry)
        → All (IsPlaced start end) ies
        → length ies < 2 ^ 63
        → parse_index
            (pos start)
            (pos end)
            (put_uvarint (length ies) ++ index_bytes sink compress sha256 ies)
          ≡ ok (map ref_of ies)
    unfolding parse_index
    parse_index-index_bytes ies p few =
        let raw = put_uvarint (length ies) ++ index_bytes sink compress sha256 ies in
        let enough : ltb (length raw / 3) (length ies) ≡ false =
          le→ltb (length raw / 3) (length ies) (
            omega (
              arith,
              index_bytes-length ies,
              length-append (put_uvarint (length ies)) (index_bytes sink compress sha256 ies),
            )) in
        rw (Reads-uvarint (length ies) (omega arith) (index_bytes sink compress sha256 ies), enough)
          (read_refs-index_bytes ies p)
