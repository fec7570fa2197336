-- ===== src/Store/Reader/Footer.antt =====
-- Reading the footer that the writer wrote, and the sections that it points at.
use mathlib.Core.List.{append_assoc}
use osfp.Base.{
  ℕ, zero, suc, ◌+◌, ◌-◌, ◌*◌, ◌^◌, ◌<◌, ◌≤◌, Bytes, Bool, true, false, List, [], ◌∷◌, ◌++◌, Option,
  none, some, length, length-append, take, drop, pos, from_u64-pos, int_eq_refl, add_i64,
  add_i64-pos, le→ltb, ◌≡◌, refl, ap, ◌∙◌, sym, arith,
}
use osfp.Store.Format.{header_size, footer_size, max_meta_size}
use osfp.Store.Writer.{put_le, put_all}
use osfp.Store.Reader.{ok, BlockRef, field, is_outside, read_at, read_index, read_sections}
use osfp.Store.Reader.Words.{length-put_le, get_le-put_le, drop-put_le}
use osfp.Store.Reader.Blocks.{Holds, read_at-Holds}

module _ (sink : Bytes → Bytes → ℕ × Option Bytes) (compress sha256 : Bytes → Bytes) where
  pub length-put_all : (vs : List ℕ) → length (put_all sink compress sha256 vs) ≡ length vs * 8
  unfolding put_all
  length-put_all [] = refl
  length-put_all (v ∷ vs) = omega (
    arith,
    length-append (put_le 8 v) (put_all sink compress sha256 vs),
    length-put_le 8 v,
    length-put_all vs,
  )

  pub field-put_all :
      (v : ℕ) (vs : List ℕ) (r : Bytes)
      → v < 2 ^ 63
      → field 0 (put_all sink compress sha256 (v ∷ vs) ++ r) ≡ pos v
  unfolding put_all
  field-put_all v vs r h =
      rw
        (
          append_assoc (put_le 8 v) (put_all sink compress sha256 vs) r,
          get_le-put_le 8 v (put_all sink compress sha256 vs ++ r) (omega arith),
        )
        (from_u64-pos v h)

  abbrev nothing : Bytes
  nothing = []

  drop_nil : (n : ℕ) → drop n nothing ≡ nothing
  drop_nil zero = refl
  drop_nil (suc n) = refl

  suc_add : (m n : ℕ) → suc m + n ≡ suc (m + n)
  suc_add m n = omega arith

  drop_add : (m n : ℕ) (bs : Bytes) → drop (m + n) bs ≡ drop n (drop m bs)
  drop_add zero n bs = ap (λ k. drop k bs) (omega arith)
  drop_add (suc m) n [] = ap (λ k. drop k nothing) (suc_add m n) ∙ sym (drop_nil n)
  drop_add (suc m) n (b ∷ bs) = ap (λ k. drop k (b ∷ bs)) (suc_add m n) ∙ drop_add m n bs

  pub field-put_all_tail :
      (i v : ℕ) (vs : List ℕ) (r : Bytes)
      → field (suc i) (put_all sink compress sha256 (v ∷ vs) ++ r)
        ≡ field i (put_all sink compress sha256 vs ++ r)
  unfolding put_all
  field-put_all_tail i v vs r =
      rw
        (
          append_assoc (put_le 8 v) (put_all sink compress sha256 vs) r,
          eight i,
          drop_add 8 (i * 8) (put_le 8 v ++ (put_all sink compress sha256 vs ++ r)),
          drop-put_le 8 v (put_all sink compress sha256 vs ++ r),
        )
        refl
    where
      eight : (i : ℕ) → suc i * 8 ≡ 8 + i * 8
      eight i = omega arith

abbrev pub nth : ℕ → List ℕ → Option ℕ
nth i [] = none
nth zero (v ∷ vs) = some v
nth (suc i) (v ∷ vs) = nth i vs

module _ (sink : Bytes → Bytes → ℕ × Option Bytes) (compress sha256 : Bytes → Bytes) where
  pub field-nth :
      (i v : ℕ) (vs : List ℕ) (r : Bytes)
      → nth i vs ≡ some v
      → v < 2 ^ 63
      → field i (put_all sink compress sha256 vs ++ r) ≡ pos v
  field-nth i v [] r h small = absurd (cc h)
  field-nth zero v (x ∷ vs) r h small =
      let same : x ≡ v = cc h in
      field-put_all sink compress sha256 x vs r (omega (arith, same)) ∙ ap pos same
  field-nth (suc i) v (x ∷ vs) r h small =
      field-put_all_tail sink compress sha256 i x vs r ∙ field-nth i v vs r h small

not_outside :
    (limit offset len : ℕ)
    → limit < 2 ^ 63
    → header_size ≤ offset
    → offset + len ≤ limit
    → is_outside (pos limit) (pos offset) (pos len) ≡ false
not_outside limit offset len small h k =
    rw
      (
        le→ltb offset header_size h,
        le→ltb len 0 (omega arith),
        le→ltb limit offset (omega arith),
        add_i64-pos offset len (omega arith),
        le→ltb limit (offset + len) k,
      )
      refl

-- The numbers of a footer.
pub record Numbers : Type 0 where
  pub meta_offset : ℕ
  pub meta_length : ℕ
  pub data_offset : ℕ
  pub data_length : ℕ
  pub index_offset : ℕ
  pub index_length : ℕ
  pub entries : ℕ
  pub errors : ℕ
  pub blocks : ℕ

-- The footer holds the numbers.
pub record Footer (footer : Bytes) (n : Numbers) : Type 0 where
  pub at0 : field 0 footer ≡ pos n.meta_offset
  pub at1 : field 1 footer ≡ pos n.meta_length
  pub at2 : field 2 footer ≡ pos n.data_offset
  pub at3 : field 3 footer ≡ pos n.data_length
  pub at4 : field 4 footer ≡ pos n.index_offset
  pub at5 : field 5 footer ≡ pos n.index_length
  pub at6 : field 6 footer ≡ pos n.entries
  pub at7 : field 7 footer ≡ pos n.errors
  pub at8 : field 8 footer ≡ pos n.blocks

module _ (decompress : Bytes → Option Bytes) (is_meta : Bytes → Bool) where
  pub read_sections-Footer :
      (file footer payload : Bytes) (index : List BlockRef) (n : Numbers) (f : Footer footer n)
      → length file < 2 ^ 63
      → header_size ≤ n.meta_offset
      → Holds file n.meta_offset payload
      → n.meta_length ≡ length payload
      → n.meta_offset + n.meta_length ≤ n.data_offset
      → n.data_offset + n.data_length ≡ n.index_offset
      → n.index_offset + n.index_length ≡ length file - footer_size
      → length payload ≤ max_meta_size
      → is_meta payload ≡ true
      → read_index decompress file
          (pos n.index_offset)
          (pos n.index_length)
          (pos n.data_offset)
          (pos n.index_offset)
        ≡ ok index
      → length index ≡ n.blocks
      → read_sections decompress is_meta file footer
        ≡ ok (record {
          file = file;
          payload = payload;
          entries = pos n.entries;
          errors = pos n.errors;
          blocks = pos n.blocks;
          index = index;
          digest = take 32 (drop 72 footer);
        })
  unfolding read_sections
  read_sections-Footer file footer payload index n f small start held long order middle whole fits
        good indexed counted =
      let limit = length file - footer_size in
      let end : add_i64 (pos n.data_offset) (pos n.data_length) ≡ pos n.index_offset =
        add_i64-pos n.data_offset n.data_length (omega arith) ∙ ap pos middle in
      let read : read_at file (pos n.meta_offset) (pos n.meta_length) ≡ ok payload =
        rw long (read_at-Holds file n.meta_offset payload held) in
      rw
        (
          f.at0,
          f.at1,
          f.at2,
          f.at3,
          f.at4,
          f.at5,
          f.at6,
          f.at7,
          f.at8,
          not_outside limit n.meta_offset n.meta_length (omega arith) start (omega arith),
          not_outside limit n.data_offset n.data_length (omega arith) (omega arith) (omega arith),
          not_outside limit n.index_offset n.index_length (omega arith) (omega arith) (omega arith),
          le→ltb n.entries 0 (omega arith),
          le→ltb n.errors 0 (omega arith),
          le→ltb n.blocks 0 (omega arith),
          le→ltb max_meta_size n.meta_length (omega arith),
          read,
          good,
          end,
          indexed,
          counted,
          int_eq_refl (pos n.blocks),
        )
        refl
