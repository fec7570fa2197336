-- ===== src/Store/Writer/Unfailing.antt =====
-- The steps of the writer on a file that takes every write.
use osfp.Base.{
  ℕ, Bytes, Bool, true, false, Option, none, some, ◌==◌, if◌then◌else◌, length, ◌≡◌, refl,
}
use osfp.Store.Format.{footer_magic}
use osfp.Store.Writer.{
  Writer, Outcome, ◌and_then◌, write, write_raw, write_packed, flush_block, write_index, write_tail,
  end_file, footer, seal, write_unless,
}

-- No error was met, none is latched, and the last key is a given one, if there is one.
pub record Ready (closed has_last : Bool) (last : Bytes) (o : Outcome) : Type 0 where
  pub good : o.1 ≡ none
  pub unlatched : o.0.err ≡ none
  pub closed_is : o.0.closed ≡ closed
  pub has_last_is : o.0.has_last ≡ has_last
  pub last_is : o.0.last_key ≡ last

module _ (c l : Bool) (last : Bytes) where
  pub Ready-then :
      (o : Outcome) (f : Writer → Outcome)
      → Ready c l last o
      → ((w : Writer) → Ready c l last (w, none) → Ready c l last (f w))
      → Ready c l last (o and_then f)
  Ready-then (w, none) f h k = k w h
  Ready-then (w, some e) f h k = absurd (cc h.good)

  pub Ready-if :
      (t : Bool) (o o' : Outcome)
      → Ready c l last o
      → Ready c l last o'
      → Ready c l last (if t then o else o')
  Ready-if true o o' h k = h
  Ready-if false o o' h k = k

module _ (sink : Bytes → Bytes → ℕ × Option Bytes) (compress sha256 : Bytes → Bytes)
    (accepts : (f p : Bytes) → sink f p ≡ (length p, none)) where
  module _ (c l : Bool) (last : Bytes) where
    pub Ready-write :
        (p : Bytes) (w : Writer)
        → Ready c l last (w, none)
        → Ready c l last (write sink compress sha256 p w)
    unfolding write
    Ready-write p w h = unless w.err h.unlatched
      where
        unless :
            (err : Option Bytes)
            → err ≡ none
            → Ready c l last (write_unless sink compress sha256 err p w)
        unless none e = rw (accepts w.file p) (record {
          good = refl;
          unlatched = refl;
          closed_is = h.closed_is;
          has_last_is = h.has_last_is;
          last_is = h.last_is;
        })
        unless (some x) e = absurd (cc e)

    pub Ready-write_raw :
        (p : Bytes) (w : Writer)
        → Ready c l last (w, none)
        → Ready c l last (write_raw sink compress sha256 p w)
    unfolding write_raw
    Ready-write_raw p w h = rw (accepts w.file p) (record {
      good = refl;
      unlatched = h.unlatched;
      closed_is = h.closed_is;
      has_last_is = h.has_last_is;
      last_is = h.last_is;
    })

    pub Ready-write_packed :
        (raw : Bytes) (w : Writer)
        → Ready c l last (w, none)
        → Ready c l last (write_packed sink compress sha256 raw w)
    unfolding write_packed
    Ready-write_packed raw w h =
        Ready-then c l last _ _ (Ready-write _ w h) (Ready-write (compress raw))

    pub Ready-flush_block :
        (w : Writer)
        → Ready c l last (w, none)
        → Ready c l last (flush_block sink compress sha256 w)
    unfolding flush_block
    Ready-flush_block w h =
        Ready-if c l last (w.block_count == 0) (w, none) _ h
          (Ready-then c l last _ _ (Ready-write_packed w.block w h) (λ v k. record {
            good = refl;
            unlatched = k.unlatched;
            closed_is = k.closed_is;
            has_last_is = k.has_last_is;
            last_is = k.last_is;
          }))

    pub Ready-write_tail :
        (w : Writer) → Ready c l last (w, none) → Ready c l last (write_tail sink compress sha256 w)
    unfolding write_index
    Ready-write_tail w h =
        Ready-then c l last (write_index sink compress sha256 w) (end_file sink compress sha256 w)
          (Ready-write_packed _ w h)
          (λ v k.
            Ready-then c l last (write sink compress sha256 (footer sink compress sha256 w.off v) v)
              (seal sink compress sha256) (Ready-write (footer sink compress sha256 w.off v) v k)
              (λ u q.
                Ready-then c l last (write_raw sink compress sha256 (sha256 u.digest) u)
                  (write_raw sink compress sha256 footer_magic)
                  (Ready-write_raw (sha256 u.digest) u q) (Ready-write_raw footer_magic)))
