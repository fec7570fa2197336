-- ===== src/Store/Container.antt =====
-- internal/store/writer.go and reader.go together: a container, written and read back.
pub mod Refs
pub mod Parts
pub mod Sections
pub mod Found
use mathlib.Core.List.{append_assoc}
use mathlib.Core.Path.{subst}
use osfp.Base.{
  ℕ, zero, suc, ◌+◌, ◌-◌, ◌*◌, ◌/◌, ◌^◌, ◌<◌, ◌≤◌, Bytes, Bool, true, false, not, List, [], ◌∷◌,
  ◌++◌, map, Option, none, some, length, length-append, take, drop, take_append, drop_append, All,
  ltb, ◌==◌, le→ltb, int_eq, ℤ, pos, bytes_eq, bytes_eq_refl, if◌then◌else◌, ◌≡◌, refl, sym, ap,
  ◌∙◌, arith,
}
use osfp.Entry.{Entry}
use osfp.Entry.Sorted.{IsSorted}
use osfp.Store.Format.{footer_magic, header_size, footer_size, max_block_size, max_meta_size}
use osfp.Store.RoundTrip.{HasPath, decoder}
use osfp.Store.RoundTrip.Steps.{IsStorable}
use osfp.Store.Decode.{reset}
use osfp.Store.Reader.{
  Reader, Result, ok, err, ◌>>=◌, ◌>>◌, refuse, BlockRef, read_block, read_index, parse_index,
  read_sections, check_header, new_reader, get_le,
}
use osfp.Store.Reader.Blocks.{
  packed, length-packed, Holds, Holds-last, Holds-append, read_block-packed,
}
use osfp.Store.Reader.Index.{ref_of, IsPlaced, parse_index-index_bytes, index_bytes-length}
use osfp.Store.Reader.Footer.{Footer, read_sections-Footer}
use osfp.Store.Cursor.{cursor_at, iterate, start, verify}
use osfp.Store.Cursor.Iterate.{concat, iterate-Stored}
use osfp.Store.Cursor.Seek.{seek}
use osfp.Store.Cursor.Sought.{IsMonotone, seek-Stored}
use osfp.Store.Cursor.Sought.Keys.{from_path}
use osfp.Store.Varint.{put_uvarint}
use osfp.Store.Writer.{Writer, Outcome, IndexEntry, header, footer, index_bytes}
use osfp.Store.Writer.Puts.{words}
use osfp.Store.Writer.Layout.{Located, Located-append}
use osfp.Store.Writer.Closing.{
  index_section, indexed, footed, file_end, AllFlushed, Complete, write_all, write_all-Complete,
}
use osfp.Store.Container.Refs.{Located-IsPlaced, Located-Stored}
use osfp.Store.Container.Parts.{numbers_of, length-file_end, digest_of, magic_of, Footer-file_end}
use osfp.Store.Container.Sections.{
  map-length, Codecs, file_of, index_of, indexed-packed, length-file_of, footer_of, index_held,
  read_index-file_of,
}
use osfp.Store.Container.Found.{ReadsBack, ReadsBack-flushed}

-- On a file that takes every write, storable entries with nonempty paths in strictly increasing
-- order are written and closed without an error, and the reader opens the file that this leaves,
-- finds the metadata and the number of entries, verifies the digest, and iterates over exactly
-- these entries. The decompressor undoes the compressor, what it makes of a block is shorter than
-- 2^32 bytes, a digest has 32 bytes, the metadata can be decoded and keep to their limit, the file
-- is shorter than 2^63 bytes, and its index fits into a block.
pub write_all-ReadsBack :
    (sink : Bytes → Bytes → ℕ × Option Bytes) (compress sha256 : Bytes → Bytes)
    (decompress : Bytes → Option Bytes) (is_meta : Bytes → Bool) (payload : Bytes) (es : List Entry)
    → ((f p : Bytes) → sink f p ≡ (length p, none))
    → ((raw : Bytes) → decompress (compress raw) ≡ some raw)
    → ((raw : Bytes) → length raw ≤ max_block_size → length (compress raw) < 2 ^ 32)
    → ((p : Bytes) → length (sha256 p) ≡ 32)
    → is_meta payload ≡ true
    → length payload ≤ max_meta_size
    → All IsStorable es
    → All HasPath es
    → IsSorted es
    → length es < 2 ^ 63
    → length (write_all sink compress sha256 payload es).0.file < 2 ^ 63
    → length
        (index_section sink compress sha256 (write_all sink compress sha256 payload es).0.index)
      ≤ max_block_size
    → ((write_all sink compress sha256 payload es).1 ≡ none)
      × ReadsBack sha256 decompress is_meta payload es
          (write_all sink compress sha256 payload es).0.file
write_all-ReadsBack sink compress sha256 decompress is_meta payload es accepts unpacks fits
      digest_size meta_good meta_fits s n o few small index_fits =
    let c = write_all-Complete sink compress sha256 accepts payload es s n o in
    let codecs : Codecs compress sha256 decompress is_meta payload = record {
      unpacks = unpacks;
      fits = fits;
      digest_size = digest_size;
      meta_good = meta_good;
      meta_fits = meta_fits;
    } in
    (
      c.good,
      subst (ReadsBack sha256 decompress is_meta payload es) (sym c.file_is) (
          ReadsBack-flushed sink compress sha256 decompress is_meta payload codecs es c.last
            c.flushed_is (subst (λ f. length f < 2 ^ 63) c.file_is small)
            (subst (λ i. length (index_section sink compress sha256 i) ≤ max_block_size) c.index_is
              index_fits)
            few s n o),
    )

-- The same file, opened and searched for any path, gives exactly the entries whose paths do not come
-- before it. The search within the index is one that answers with a position of its range, in front of
-- which a test that does not fail again behind a success fails.
pub write_all-seek :
    (sink : Bytes → Bytes → ℕ × Option Bytes) (compress sha256 : Bytes → Bytes)
    (decompress : Bytes → Option Bytes) (is_meta : Bytes → Bool) (payload : Bytes) (es : List Entry)
    (search : ℕ → (ℕ → Bool) → ℕ) (path : Bytes)
    → ((f p : Bytes) → sink f p ≡ (length p, none))
    → ((raw : Bytes) → decompress (compress raw) ≡ some raw)
    → ((raw : Bytes) → length raw ≤ max_block_size → length (compress raw) < 2 ^ 32)
    → ((p : Bytes) → length (sha256 p) ≡ 32)
    → is_meta payload ≡ true
    → length payload ≤ max_meta_size
    → ((n : ℕ) (f : ℕ → Bool) → search n f ≤ n)
    → ((n : ℕ) (f : ℕ → Bool) → IsMonotone n f → (i : ℕ) → i < search n f → f i ≡ false)
    → All IsStorable es
    → All HasPath es
    → IsSorted es
    → length es < 2 ^ 63
    → length (write_all sink compress sha256 payload es).0.file < 2 ^ 63
    → length
        (index_section sink compress sha256 (write_all sink compress sha256 payload es).0.index)
      ≤ max_block_size
    → let file = (write_all sink compress sha256 payload es).0.file in
      let fuel = length es + 1 in
      (new_reader decompress is_meta file >>= λ r.
      seek decompress file path search fuel r >>= iterate decompress file fuel)
      ≡ ok (from_path path es)
write_all-seek sink compress sha256 decompress is_meta payload es search path accepts unpacks fits
      digest_size meta_good meta_fits within fails s n o few small index_fits =
    let file = (write_all sink compress sha256 payload es).0.file in
    let fuel = length es + 1 in
    let back =
      (write_all-ReadsBack sink compress sha256 decompress is_meta payload es accepts unpacks fits
        digest_size meta_good meta_fits s n o few small index_fits).1 in
    let enough : length (concat back.blocks) < fuel = omega (arith, ap (length {0}) back.split) in
    ap (λ m. m >>= λ r. seek decompress file path search fuel r >>= iterate decompress file fuel)
      back.opened
    ∙ seek-Stored decompress search within fails file path back.reader back.blocks fuel fuel
        back.stored back.keyed (subst IsSorted (sym back.split) o) enough enough
    ∙ ap (λ es. ok (from_path path es)) back.split
