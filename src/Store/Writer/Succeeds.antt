-- ===== src/Store/Writer/Succeeds.antt =====
-- The whole of internal/store/writer.go on a file that takes every write.
use Prim.Native.Nat.{Ordering}
use osfp.Base.{
  ℕ, Bytes, Bool, true, false, ◌&&◌, List, [], ◌∷◌, Option, none, some, ◌==◌, bytes_eq,
  if◌then◌else◌, length, leb, All, ◌≡◌, ◌≢◌, refl, sym, ◌∙◌, Bool-cases, inl, inr,
}
use osfp.Canon.{compare_key}
use osfp.Canon.Order.{◌≺◌}
use osfp.Entry.{Entry}
use osfp.Entry.Sorted.{IsSorted}
use osfp.Store.Format.{default_block_size}
use osfp.Store.Writer.{
  Writer, Outcome, ◌and_then◌, write, flush_block, start_block, put_entry, is_misplaced, add,
  add_unless, close, close_unless, write_tail, new_writer, put_meta, end_meta, header, blank,
  add_all,
}
use osfp.Store.Writer.Unfailing.{
  Ready, Ready-then, Ready-if, Ready-write, Ready-flush_block, Ready-write_tail,
}

module _ (sink : Bytes → Bytes → ℕ × Option Bytes) (compress sha256 : Bytes → Bytes)
    (accepts : (f p : Bytes) → sink f p ≡ (length p, none)) where
  Ready-else :
      (c l : Bool) (last : Bytes) (t : Bool) (o o' : Outcome)
      → t ≡ false
      → Ready c l last o'
      → Ready c l last (if t then o else o')
  Ready-else c l last true o o' e h = absurd (cc e)
  Ready-else c l last false o o' e h = h

  pub placed :
      (b : Bool) (o : Ordering)
      → (b ≡ true → o ≡ Ordering.lt)
      → (b && (elim o [ Ordering.lt ↦ false | _ ↦ true ])) ≡ false
  placed false o h = refl
  placed true o h = rw (h refl) refl

  Ready-put_entry :
      (l : Bool) (last : Bytes) (e : Entry) (w : Writer)
      → Ready false l last (w, none)
      → Ready false true e.path
          (put_entry sink compress sha256 e (start_block sink compress sha256 e w), none)
  Ready-put_entry l last e w h = elim (Bool-cases (w.block_count == 0)) [
    | inl fresh ↦ rw fresh (record {
      good = refl;
      unlatched = h.unlatched;
      closed_is = h.closed_is;
      has_last_is = refl;
      last_is = refl;
    })
    | inr going ↦ rw going (record {
      good = refl;
      unlatched = h.unlatched;
      closed_is = h.closed_is;
      has_last_is = refl;
      last_is = refl;
    })
  ]

  pub not_nil : (p : Bytes) → p ≢ [] → bytes_eq p [] ≡ false
  not_nil [] n = absurd (n refl)
  not_nil (c ∷ p) n = refl

  Ready-add :
      (l : Bool) (last : Bytes) (e : Entry) (w : Writer)
      → Ready false l last (w, none)
      → e.path ≢ []
      → (l ≡ true → last ≺ e.path)
      → Ready false true e.path (add sink compress sha256 e w)
  unfolding add
  Ready-add l last e w h n follows = unless w.err h.unlatched
    where
      unless :
          (err : Option Bytes)
          → err ≡ none
          → Ready false true e.path (add_unless sink compress sha256 err e w)
      unless (some x) q = absurd (cc q)
      unless none q =
          let next = put_entry sink compress sha256 e (start_block sink compress sha256 e w) in
          let put = Ready-put_entry l last e w h in
          let misplaced : is_misplaced sink compress sha256 w e ≡ false =
            placed w.has_last (compare_key w.last_key e.path)
              (λ b. rw h.last_is (follows (sym h.has_last_is ∙ b))) in
          Ready-else false true e.path w.closed _ _ h.closed_is (
            Ready-else false true e.path (bytes_eq e.path []) _ _ (not_nil e.path n) (
              Ready-else false true e.path (is_misplaced sink compress sha256 w e) _ _ misplaced (
                Ready-if false true e.path (leb default_block_size (length next.block)) _
                  (next, none)
                  (Ready-flush_block sink compress sha256 accepts false true e.path next put) put)))

  Ready-close :
      (l : Bool) (last : Bytes) (w : Writer)
      → Ready false l last (w, none)
      → (close sink compress sha256 w).1 ≡ none
  unfolding close
  Ready-close l last w h =
      (Ready-else true l last w.closed (w, none) _ h.closed_is (unless w.err h.unlatched)).good
    where
      unless :
          (err : Option Bytes)
          → err ≡ none
          → Ready true l last (close_unless sink compress sha256 err (record w { closed = true }))
      unless (some x) q = absurd (cc q)
      unless none q =
          let w' = record w { closed = true } in
          Ready-then true l last (flush_block sink compress sha256 w')
            (write_tail sink compress sha256)
            (Ready-flush_block sink compress sha256 accepts true l last w' (record {
              good = refl;
              unlatched = h.unlatched;
              closed_is = refl;
              has_last_is = h.has_last_is;
              last_is = h.last_is;
            }))
            (Ready-write_tail sink compress sha256 accepts true l last)

  abbrev pub HasPath : Entry → Type 0
  HasPath e = e.path ≢ []

  finishes :
      (es : List Entry) (l : Bool) (last : Bytes) (w : Writer)
      → Ready false l last (w, none)
      → All HasPath es
      → (l ≡ true → All (λ (e : Entry). last ≺ e.path) es)
      → IsSorted es
      → (add_all sink compress sha256 es w and_then close sink compress sha256).1 ≡ none
  unfolding add_all
  finishes [] l last w h n follows s = Ready-close l last w h
  finishes (e ∷ es) l last w h n follows s =
      onwards (add sink compress sha256 e w) (Ready-add l last e w h n.0 (λ b. (follows b).0))
        (λ v k. finishes es true e.path v k n.1 (λ b. s.0) s.1)
    where
      onwards :
          (o : Outcome)
          → Ready false true e.path o
          → ((v : Writer)
              → Ready false true e.path (v, none)
              → (add_all sink compress sha256 es v and_then close sink compress sha256).1 ≡ none)
          → (o and_then add_all sink compress sha256 es and_then close sink compress sha256).1
            ≡ none
      onwards (v, none) k rest = rest v k
      onwards (v, some x) k rest = absurd (cc k.good)

  Ready-new_writer :
      (payload : Bytes) → Ready false false [] (new_writer sink compress sha256 payload)
  unfolding new_writer
  Ready-new_writer payload =
      Ready-then false false []
        (write sink compress sha256 (header sink compress sha256) (blank sink compress sha256))
        (put_meta sink compress sha256 payload)
        (Ready-write sink compress sha256 accepts false false [] (header sink compress sha256)
          (blank sink compress sha256)
          (record {
            good = refl;
            unlatched = refl;
            closed_is = refl;
            has_last_is = refl;
            last_is = refl;
          }))
        (λ w h.
          Ready-then false false []
            (write sink compress sha256 payload (record w { meta_offset = w.off }))
            (end_meta sink compress sha256 payload)
            (Ready-write sink compress sha256 accepts false false [] payload
              (record w { meta_offset = w.off })
              (record {
                good = refl;
                unlatched = h.unlatched;
                closed_is = h.closed_is;
                has_last_is = h.has_last_is;
                last_is = h.last_is;
              }))
            (λ v k. record {
              good = refl;
              unlatched = k.unlatched;
              closed_is = k.closed_is;
              has_last_is = k.has_last_is;
              last_is = k.last_is;
            }))

  -- On a file that takes every write, entries with paths in strictly increasing canonical order are
  -- written, from the header to the closing magic, without an error.
  pub close-none :
      (payload : Bytes) (es : List Entry)
      → All HasPath es
      → IsSorted es
      → (new_writer sink compress sha256 payload
          and_then add_all sink compress sha256 es
          and_then close sink compress sha256).1
        ≡ none
  close-none payload es n s =
      from_start (new_writer sink compress sha256 payload) (Ready-new_writer payload)
    where
      from_start :
          (o : Outcome)
          → Ready false false [] o
          → (o and_then add_all sink compress sha256 es and_then close sink compress sha256).1
            ≡ none
      from_start (w, none) h = finishes es false [] w h n (λ b. absurd (cc b)) s
      from_start (w, some x) h = absurd (cc h.good)
