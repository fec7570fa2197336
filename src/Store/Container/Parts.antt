-- ===== src/Store/Container/Parts.antt =====
-- The parts of a closed container, where the reader looks for them.
use mathlib.Core.List.{append_assoc}
use osfp.Base.{
  ℕ, ◌-◌, ◌^◌, ◌<◌, Bytes, List, [], ◌∷◌, ◌++◌, Option, length, length-append, take, drop,
  take_append, drop_append, ◌≡◌, refl, sym, ap, ◌∙◌, arith,
}
use osfp.Store.Format.{footer_magic, footer_size}
use osfp.Store.Reader.Footer.{Footer, Numbers, length-put_all, field-nth}
use osfp.Store.Writer.{Writer, put_all}
use osfp.Store.Writer.Closing.{indexed, footed, file_end}

module _ (sink : Bytes → Bytes → ℕ × Option Bytes) (compress sha256 : Bytes → Bytes)
    (digest_size : (p : Bytes) → length (sha256 p) ≡ 32) where
  -- The numbers of the footer, in their order.
  abbrev pub numbers : Writer → List ℕ
  numbers v =
      v.meta_offset
      ∷ v.meta_length
      ∷ v.data_offset
      ∷ (v.off - v.data_offset)
      ∷ v.off
      ∷ ((indexed sink compress sha256 v).off - v.off)
      ∷ v.entries
      ∷ v.errors
      ∷ length v.index
      ∷ []

  abbrev pub trailer : Writer → Bytes
  trailer v = sha256 (footed sink compress sha256 v).digest ++ footer_magic

  pub length-file_end : (v : Writer) → length (file_end sink compress sha256 v) ≡ footer_size
  length-file_end v = omega (
    arith,
    length-append (put_all sink compress sha256 (numbers v)) (trailer v),
    length-put_all sink compress sha256 (numbers v),
    length-append (sha256 (footed sink compress sha256 v).digest) footer_magic,
    digest_size (footed sink compress sha256 v).digest,
  )

  -- What stands behind the numbers.
  pub drop-file_end : (v : Writer) → drop 72 (file_end sink compress sha256 v) ≡ trailer v
  drop-file_end v =
      ap (λ n. drop n (file_end sink compress sha256 v))
        (sym (length-put_all sink compress sha256 (numbers v)))
      ∙ drop_append (put_all sink compress sha256 (numbers v)) (trailer v)

  pub digest_of :
      (v : Writer)
      → take 32 (drop 72 (file_end sink compress sha256 v))
        ≡ sha256 (footed sink compress sha256 v).digest
  digest_of v =
      let sum = sha256 (footed sink compress sha256 v).digest in
      ap (take 32) (drop-file_end v)
      ∙ ap (λ n. take n (trailer v)) (sym (digest_size (footed sink compress sha256 v).digest))
      ∙ take_append sum footer_magic

  pub magic_of : (v : Writer) → drop 104 (file_end sink compress sha256 v) ≡ footer_magic
  magic_of v =
      let sum = sha256 (footed sink compress sha256 v).digest in
      let fields = put_all sink compress sha256 (numbers v) in
      let long : length (fields ++ sum) ≡ 104 = omega (
        arith,
        length-append fields sum,
        length-put_all sink compress sha256 (numbers v),
        digest_size (footed sink compress sha256 v).digest,
      ) in
      ap (drop 104) (sym (append_assoc fields sum footer_magic))
      ∙ ap (λ n. drop n ((fields ++ sum) ++ footer_magic)) (sym long)
      ∙ drop_append (fields ++ sum) footer_magic

  abbrev IsSmall : ℕ → Type 0
  IsSmall n = n < 2 ^ 63

  abbrev pub numbers_of : Writer → Numbers
  numbers_of v = record {
    meta_offset = v.meta_offset;
    meta_length = v.meta_length;
    data_offset = v.data_offset;
    data_length = v.off - v.data_offset;
    index_offset = v.off;
    index_length = (indexed sink compress sha256 v).off - v.off;
    entries = v.entries;
    errors = v.errors;
    blocks = length v.index;
  }

  pub Footer-file_end :
      (v : Writer)
      → IsSmall v.meta_offset
      → IsSmall v.meta_length
      → IsSmall v.data_offset
      → IsSmall (indexed sink compress sha256 v).off
      → IsSmall v.off
      → IsSmall v.entries
      → IsSmall v.errors
      → IsSmall (length v.index)
      → Footer (file_end sink compress sha256 v) (numbers_of v)
  Footer-file_end v h0 h1 h2 h5 h4 h6 h7 h8 = record {
    at0 = field-nth sink compress sha256 0 v.meta_offset (numbers v) (trailer v) refl h0;
    at1 = field-nth sink compress sha256 1 v.meta_length (numbers v) (trailer v) refl h1;
    at2 = field-nth sink compress sha256 2 v.data_offset (numbers v) (trailer v) refl h2;
    at3 =
        field-nth sink compress sha256 3 (v.off - v.data_offset) (numbers v) (trailer v) refl
          (omega (arith, h4));
    at4 = field-nth sink compress sha256 4 v.off (numbers v) (trailer v) refl h4;
    at5 =
        field-nth sink compress sha256 5 ((indexed sink compress sha256 v).off - v.off) (numbers v)
          (trailer v) refl (omega (arith, h5));
    at6 = field-nth sink compress sha256 6 v.entries (numbers v) (trailer v) refl h6;
    at7 = field-nth sink compress sha256 7 v.errors (numbers v) (trailer v) refl h7;
    at8 = field-nth sink compress sha256 8 (length v.index) (numbers v) (trailer v) refl h8;
  }
