-- ===== src/Store/Writer/Filled.antt =====
-- The entries of a scan, given to the writer one by one.
use mathlib.Core.List.{append_assoc, append-nil}
use mathlib.Core.Path.{subst}
use osfp.Base.{
  ℕ, ◌+◌, Bytes, Bool, true, false, List, [], ◌∷◌, ◌++◌, Option, none, some, length, length-append,
  All, if◌then◌else◌, bytes_eq, ◌≡◌, ◌≢◌, refl, sym, ap, ◌∙◌, arith, inl,
}
use osfp.Canon.{compare_key}
use osfp.Canon.Order.{◌≺◌}
use osfp.Entry.{Entry}
use osfp.Entry.Sorted.{IsSorted}
use osfp.Store.RoundTrip.{block_bytes, HasPath}
use osfp.Store.RoundTrip.Steps.{IsStorable}
use osfp.Store.Reader.Blocks.{Holds-last, Holds-append}
use osfp.Store.Writer.{
  Writer, Outcome, ◌and_then◌, is_misplaced, add, add_unless, add_all, new_writer, put_meta,
  end_meta, header, blank, flush_full,
}
use osfp.Store.Writer.Puts.{put, write-put}
use osfp.Store.Writer.Succeeds.{placed, not_nil}
use osfp.Store.Writer.Layout.{Layout-put_entry}
use osfp.Store.Writer.Filling.{
  Holding, Holding-flush_full, Filling-put_entry, put_entry-length_le, put_entry-counts, with_entry,
}

pub if_false {ℓ} : {A : Type ℓ} (b : Bool) (x y : A) → b ≡ false → (if b then x else y) ≡ y
if_false true x y e = absurd (cc e)
if_false false x y e = refl

module _ (sink : Bytes → Bytes → ℕ × Option Bytes) (compress sha256 : Bytes → Bytes)
    (accepts : (f p : Bytes) → sink f p ≡ (length p, none)) where
  add-flush_full :
      (e : Entry) (w : Writer)
      → w.err ≡ none
      → w.closed ≡ false
      → e.path ≢ []
      → is_misplaced sink compress sha256 w e ≡ false
      → add sink compress sha256 e w
        ≡ flush_full sink compress sha256 (with_entry sink compress sha256 accepts [] [] e w)
  unfolding add
  add-flush_full e w h c n m = unless w.err h
    where
      unless :
          (err : Option Bytes)
          → err ≡ none
          → add_unless sink compress sha256 err e w
            ≡ flush_full sink compress sha256 (with_entry sink compress sha256 accepts [] [] e w)
      unless (some x) q = absurd (cc q)
      unless none q =
          if_false w.closed _ _ c
          ∙ if_false (bytes_eq e.path []) _ _ (not_nil sink compress sha256 accepts e.path n)
          ∙ if_false (is_misplaced sink compress sha256 w e) _ _ m

  module _ (head payload : Bytes) where
    abbrev pub HoldsAll : List Entry → Bytes → Bool → Outcome → Type 0
    HoldsAll = Holding sink compress sha256 accepts head payload

    Holding-add :
        (es : List Entry) (last : Bytes) (l : Bool) (e : Entry) (w : Writer)
        → HoldsAll es last l (w, none)
        → IsStorable e
        → HasPath e
        → (l ≡ true → last ≺ e.path)
        → HoldsAll (es ++ e ∷ []) e.path true (add sink compress sha256 e w)
    Holding-add es last l e w h s n follows =
        let f = h.filling in
        let misplaced : is_misplaced sink compress sha256 w e ≡ false =
          placed sink compress sha256 accepts w.has_last (compare_key w.last_key e.path)
            (λ b. rw f.last_is (follows (sym f.has_last_is ∙ b))) in
        rw (add-flush_full e w f.heads.unlatched f.is_open n misplaced) (
          Holding-flush_full sink compress sha256 accepts head payload (es ++ e ∷ []) e.path true
            (with_entry sink compress sha256 accepts head payload e w)
            (Layout-put_entry sink compress sha256 es e w h.layout)
            (Filling-put_entry sink compress sha256 accepts head payload last l e w f)
            (put_entry-counts sink compress sha256 accepts head payload e w)
            (put_entry-length_le sink compress sha256 accepts head payload e w s h.short))

    Holding-then :
        (o : Outcome) (f : Writer → Outcome) (es fs : List Entry) (last : Bytes) (l : Bool)
        → HoldsAll es last l o
        → ((w : Writer)
            → HoldsAll es last l (w, none)
            → (key : Bytes) × (k : Bool) × HoldsAll fs key k (f w))
        → (key : Bytes) × (k : Bool) × HoldsAll fs key k (o and_then f)
    Holding-then (w, none) f es fs last l h go = go w h
    Holding-then (w, some x) f es fs last l h go = absurd (cc h.good)

    pub Holding-add_all :
        (fs es : List Entry) (last : Bytes) (l : Bool) (w : Writer)
        → HoldsAll es last l (w, none)
        → All IsStorable fs
        → All HasPath fs
        → IsSorted fs
        → (l ≡ true → All (λ (e : Entry). last ≺ e.path) fs)
        → (key : Bytes) × (k : Bool) × HoldsAll (es ++ fs) key k (add_all sink compress sha256 fs w)
    unfolding add_all
    Holding-add_all [] es last l w h s n o follows =
        (last, l, subst (λ r. HoldsAll r last l (w, none)) (sym (append-nil es)) h)
    Holding-add_all (e ∷ fs) es last l w h s n o follows =
        subst
          (λ r.
            (key : Bytes) × (k : Bool) × HoldsAll r key k (add_all sink compress sha256 (e ∷ fs) w))
          (append_assoc es (e ∷ []) fs)
          (Holding-then (add sink compress sha256 e w) (add_all sink compress sha256 fs)
            (es ++ e ∷ []) ((es ++ e ∷ []) ++ fs) e.path true
            (Holding-add es last l e w h s.0 n.0 (λ b. (follows b).0))
            (λ v k. Holding-add_all fs (es ++ e ∷ []) e.path true v k s.1 n.1 o.1 (λ b. o.0)))

  pub Holding-new_writer :
      (payload : Bytes)
      → HoldsAll
          (header sink compress sha256)
          payload
          []
          []
          false
          (new_writer sink compress sha256 payload)
  unfolding new_writer
  Holding-new_writer payload =
      let head = header sink compress sha256 in
      let made : Writer = record (put head (blank sink compress sha256)) { meta_offset = 32 } in
      let whole : new_writer sink compress sha256 payload ≡ (
        record (put payload made) {
          meta_length = length payload;
          data_offset = 32 + length payload;
        },
        none,
      ) =
        ap (λ (o : Outcome). o and_then put_meta sink compress sha256 payload)
          (write-put sink compress sha256 accepts head (blank sink compress sha256) refl)
        ∙ ap (λ (o : Outcome). o and_then end_meta sink compress sha256 payload)
            (write-put sink compress sha256 accepts payload made refl) in
      rw whole (record {
        good = refl;
        layout = record {
          blocks = [];
          cur = [];
          split = refl;
          located = tt;
          block_is = unfold block_bytes in refl;
          count_is = refl;
          prev_is = inl refl;
          first_is = inl refl;
          off_is = omega (arith, length-append head payload);
          after_start = omega arith;
          counted = refl;
        };
        filling = record {
          heads = record {
            head_held = Holds-append head payload 0 head (Holds-last [] head);
            meta_held = Holds-last head payload;
            meta_at = refl;
            meta_long = refl;
            data_at = refl;
            hashed = refl;
            unlatched = refl;
          };
          is_open = refl;
          has_last_is = refl;
          last_is = refl;
          few = omega arith;
        };
        short = omega arith;
      })
