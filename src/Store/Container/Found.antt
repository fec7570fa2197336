-- ===== src/Store/Container/Found.antt =====
-- A closed container, as `NewReader` and the cursor find it.
use mathlib.Core.List.{append_assoc}
use mathlib.Core.Path.{subst}
use osfp.Base.{
  ℕ, ◌+◌, ◌-◌, ◌^◌, ◌<◌, ◌≤◌, Bytes, Bool, List, ◌++◌, map, Option, length, length-append, take,
  drop, take_append, All, le→ltb, pos, bytes_eq_refl, ◌≡◌, refl, sym, ap, ◌∙◌, arith,
}
use osfp.Entry.{Entry}
use osfp.Entry.Sorted.{IsSorted}
use osfp.Store.Format.{footer_magic, header_size, footer_size, max_block_size}
use osfp.Store.RoundTrip.{HasPath}
use osfp.Store.RoundTrip.Steps.{IsStorable}
use osfp.Store.Reader.{
  Reader, ok, BlockRef, read_index, read_sections, check_header, new_reader, get_le,
}
use osfp.Store.Reader.Blocks.{packed, Holds, Holds-append}
use osfp.Store.Reader.Index.{ref_of, index_bytes-length}
use osfp.Store.Reader.Footer.{read_sections-Footer}
use osfp.Store.Cursor.{iterate, start, verify}
use osfp.Store.Cursor.Iterate.{concat, Stored, reads, iterate-cursor_at}
use osfp.Store.Cursor.Sought.Keys.{Keyed}
use osfp.Store.Varint.{put_uvarint}
use osfp.Store.Writer.{Writer, header, footer, index_bytes}
use osfp.Store.Writer.Puts.{words}
use osfp.Store.Writer.Layout.{Located, Located-append}
use osfp.Store.Writer.Closing.{index_section, indexed, footed, file_end, AllFlushed}
use osfp.Store.Container.Refs.{Located-Stored, Located-Keyed}
use osfp.Store.Container.Parts.{numbers_of, digest_of, magic_of, Footer-file_end}
use osfp.Store.Container.Sections.{
  map-length, Codecs, file_of, indexed-packed, length-file_of, footer_of, read_index-file_of,
}

-- What a reader finds in a container that holds the entries.
pub record ReadsBack (sha256 : Bytes → Bytes) (decompress : Bytes → Option Bytes)
    (is_meta : Bytes → Bool) (payload : Bytes) (es : List Entry) (file : Bytes) : Type 0 where
  pub reader : Reader
  pub opened : new_reader decompress is_meta file ≡ ok reader
  pub meta_is : reader.payload ≡ payload
  pub entries_is : reader.entries ≡ pos (length es)
  pub verified : verify sha256 reader ≡ ok tt
  pub iterated : iterate decompress file (length es + 1) (start reader) ≡ ok es
  pub blocks : List (List Entry)
  pub split : concat blocks ≡ es
  pub stored : Stored (reads decompress file) reader.index blocks
  pub keyed : Keyed reader.index blocks

module _ (sink : Bytes → Bytes → ℕ × Option Bytes) (compress sha256 : Bytes → Bytes)
    (decompress : Bytes → Option Bytes) (is_meta : Bytes → Bool) (payload : Bytes)
    (codecs : Codecs compress sha256 decompress is_meta payload) where
  module _ (es : List Entry) (v : Writer)
      (done : AllFlushed sink compress sha256 payload es v) where
    abbrev file : Bytes
    file = file_of sink compress sha256 decompress is_meta payload codecs es v done

    abbrev tail : Bytes
    tail = file_end sink compress sha256 v

    abbrev front : Bytes
    front = (indexed sink compress sha256 v).file

    abbrev packed_index : Bytes
    packed_index = packed compress (index_section sink compress sha256 v.index)

    long : length file ≡ length v.file + length packed_index + footer_size
    long = length-file_of sink compress sha256 decompress is_meta payload codecs es v done

    abbrev head : Bytes
    head = header sink compress sha256

    within {ℓ} : (P : Bytes → Type ℓ) → ((more : Bytes) → P (v.file ++ more)) → P file
    within P h =
        subst P
          (sym (
            ap (λ r. r ++ tail)
              (indexed-packed sink compress sha256 decompress is_meta payload codecs es v done)
            ∙ append_assoc v.file packed_index tail))
          (h (packed_index ++ tail))

    head_of : take header_size file ≡ head
    head_of =
        (within (λ f. Holds f 0 head)
          (λ more. Holds-append v.file more 0 head done.heads.head_held)).1

    meta_held : Holds file v.meta_offset payload
    meta_held =
        within (λ f. Holds f v.meta_offset payload)
          (λ more. Holds-append v.file more v.meta_offset payload done.heads.meta_held)

    header_good : check_header head ≡ ok tt
    unfolding check_header get_le
    header_good = refl

    abbrev found : List BlockRef → Reader
    found index = record {
      file = file;
      payload = payload;
      entries = pos v.entries;
      errors = pos v.errors;
      blocks = pos (length v.index);
      index = index;
      digest = take 32 (drop 72 tail);
    }

    new_reader-sections :
        new_reader decompress is_meta file ≡ read_sections decompress is_meta file tail
    unfolding new_reader
    new_reader-sections =
        rw
          (
            le→ltb (length file) (header_size + footer_size)
                (omega (arith, long, done.after_start, done.off_is, done.heads.data_at)),
            head_of,
            header_good,
            footer_of sink compress sha256 decompress is_meta payload codecs es v done,
            magic_of sink compress sha256 codecs.digest_size v,
          )
          refl

    module _ (small : length file < 2 ^ 63)
        (index_fits : length (index_section sink compress sha256 v.index) ≤ max_block_size)
        (few : length es < 2 ^ 63) (storable : All IsStorable es) where
      few_blocks : length v.index < 2 ^ 63
      few_blocks = omega (
        arith,
        index_fits,
        index_bytes-length 0 0 (omega arith) sink compress sha256 v.index,
        length-append (put_uvarint (length v.index)) (index_bytes sink compress sha256 v.index),
      )

      opens : read_sections decompress is_meta file tail ≡ ok (found (map ref_of v.index))
      opens =
          let at = done.heads in
          read_sections-Footer decompress is_meta file tail payload (map ref_of v.index)
            (numbers_of sink compress sha256 codecs.digest_size v)
            (Footer-file_end sink compress sha256 codecs.digest_size v (omega (arith, at.meta_at))
              (omega (arith, at.meta_long, codecs.meta_fits))
              (omega (arith, at.data_at, codecs.meta_fits)) (omega (arith, long, done.off_is, size))
              (omega (arith, long, done.off_is)) (omega (arith, done.counted))
              (omega (arith, done.counted, done.few)) few_blocks)
            small (omega (arith, at.meta_at)) meta_held at.meta_long
            (omega (arith, at.meta_at, at.meta_long, at.data_at)) (omega (arith, done.after_start))
            (omega (arith, long, done.off_is, size)) codecs.meta_fits codecs.meta_good
            (ap
                (λ n.
                  read_index decompress file (pos v.off) (pos n) (pos v.data_offset) (pos v.off))
                (omega (arith, size))
              ∙ read_index-file_of sink compress sha256 decompress is_meta payload codecs es v done
                  small index_fits storable few_blocks)
            (map-length ref_of v.index)
        where
          size : (indexed sink compress sha256 v).off ≡ v.off + length packed_index
          size = omega (
            arith,
            length-append (words compress (index_section sink compress sha256 v.index))
                (compress (index_section sink compress sha256 v.index)),
          )

      front_hashed :
          (footed sink compress sha256 v).digest
          ≡ front ++ footer sink compress sha256 v.off (indexed sink compress sha256 v)
      front_hashed =
          ap
            (λ d.
              ((d ++ words compress (index_section sink compress sha256 v.index))
                ++ compress (index_section sink compress sha256 v.index))
              ++ footer sink compress sha256 v.off (indexed sink compress sha256 v))
            done.heads.hashed

      before_digest : take (length file - 40) file ≡ (footed sink compress sha256 v).digest
      before_digest =
          let fields = footer sink compress sha256 v.off (indexed sink compress sha256 v) in
          let sum = sha256 (footed sink compress sha256 v).digest in
          let here : length file - 40 ≡ length (front ++ fields) = omega (
            arith,
            ap (length {0}) (append_assoc front fields (sum ++ footer_magic)),
            length-append (front ++ fields) (sum ++ footer_magic),
            length-append sum footer_magic,
            codecs.digest_size (footed sink compress sha256 v).digest,
          ) in
          ap (λ n. take n file) here
          ∙ ap (take (length (front ++ fields)))
              (sym (append_assoc front fields (sum ++ footer_magic)))
          ∙ take_append (front ++ fields) (sum ++ footer_magic)
          ∙ sym front_hashed

      verifies : verify sha256 (found (map ref_of v.index)) ≡ ok tt
      unfolding verify
      verifies =
          let sum = sha256 (footed sink compress sha256 v).digest in
          rw (before_digest, digest_of sink compress sha256 codecs.digest_size v, bytes_eq_refl sum)
            refl

      module _ (named : All HasPath es) (sorted : IsSorted es) where
        located : Located compress file v.data_offset v.index done.blocks
        located =
            within (λ f. Located compress f v.data_offset v.index done.blocks)
              (λ more.
                Located-append compress v.file more v.data_offset v.index done.blocks done.located)

        blocks_held : Stored (reads decompress file) (map ref_of v.index) done.blocks
        blocks_held =
            Located-Stored compress decompress codecs.unpacks file v.data_offset small codecs.fits
              v.index done.blocks located (subst (All IsStorable) (sym done.split) storable)
              (subst (All HasPath) (sym done.split) named) (subst IsSorted (sym done.split) sorted)

        iterates :
            iterate decompress file (length es + 1) (start (found (map ref_of v.index))) ≡ ok es
        unfolding start
        iterates =
            iterate-cursor_at decompress file done.blocks (map ref_of v.index) (length es + 1)
              blocks_held (subst (λ r. length r < length es + 1) (sym done.split) (omega arith))
            ∙ ap ok done.split

        pub ReadsBack-flushed : ReadsBack sha256 decompress is_meta payload es file
        ReadsBack-flushed = record {
          reader = found (map ref_of v.index);
          opened = new_reader-sections ∙ opens;
          meta_is = refl;
          entries_is = ap pos done.counted;
          verified = verifies;
          iterated = iterates;
          blocks = done.blocks;
          split = done.split;
          stored = blocks_held;
          keyed = Located-Keyed compress file v.data_offset v.index done.blocks located;
        }
