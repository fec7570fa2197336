-- ===== src/Store/Writer/Filling.antt =====
-- The writer between `NewWriter` and `Close`, on a file that takes every write.
use osfp.Base.{
  ℕ, ◌+◌, ◌≤◌, ◌<◌, Bytes, Bool, true, false, List, [], ◌++◌, Option, none, ◌==◌, length,
  length-append, leb, if◌then◌else◌, bytes_eq, ◌≡◌, refl, ap, arith, Bool-cases, inl, inr,
}
use osfp.Entry.{Entry}
use osfp.Store.Format.{max_block_size, default_block_size}
use osfp.Store.Encode.{append_entry}
use osfp.Store.RoundTrip.Steps.{IsStorable}
use osfp.Store.Reader.Blocks.{Holds, Holds-append}
use osfp.Store.Writer.{Writer, Outcome, start_block, put_entry, flush_full}
use osfp.Store.Writer.Puts.{put, words, flushed, flush_block-flushed}
use osfp.Store.Writer.Sizes.{entry_bytes-length_le}
use osfp.Store.Writer.Layout.{Layout, Layout-flushed}

-- The parts of the file that do not change, and what the hash was given.
pub record Heads (head payload : Bytes) (w : Writer) : Type 0 where
  pub head_held : Holds w.file 0 head
  pub meta_held : Holds w.file w.meta_offset payload
  pub meta_at : w.meta_offset ≡ 32
  pub meta_long : w.meta_length ≡ length payload
  pub data_at : w.data_offset ≡ 32 + length payload
  pub hashed : w.digest ≡ w.file
  pub unlatched : w.err ≡ none

-- The writer may be given a further entry.
pub record Filling (head payload last : Bytes) (l : Bool) (w : Writer) : Type 0 where
  pub heads : Heads head payload w
  pub is_open : w.closed ≡ false
  pub has_last_is : w.has_last ≡ l
  pub last_is : w.last_key ≡ last
  pub few : w.errors ≤ w.entries

errors_le : (b : Bool) (m n : ℕ) → m ≤ n → (if b then m else m + 1) ≤ n + 1
errors_le true m n h = omega arith
errors_le false m n h = omega arith

module _ (head payload : Bytes) where
  pub Heads-put : (p : Bytes) (w : Writer) → Heads head payload w → Heads head payload (put p w)
  Heads-put p w h = record {
    head_held = Holds-append w.file p 0 head h.head_held;
    meta_held = Holds-append w.file p w.meta_offset payload h.meta_held;
    meta_at = h.meta_at;
    meta_long = h.meta_long;
    data_at = h.data_at;
    hashed = ap (λ d. d ++ p) h.hashed;
    unlatched = refl;
  }

  module _ (compress : Bytes → Bytes) where
    pub Heads-flushed :
        (w : Writer) → Heads head payload w → Heads head payload (flushed compress w)
    Heads-flushed w h =
        let k =
          Heads-put (compress w.block) (put (words compress w.block) w)
            (Heads-put (words compress w.block) w h) in
        record {
          head_held = k.head_held;
          meta_held = k.meta_held;
          meta_at = k.meta_at;
          meta_long = k.meta_long;
          data_at = k.data_at;
          hashed = k.hashed;
          unlatched = k.unlatched;
        }

    pub Filling-flushed :
        (last : Bytes) (l : Bool) (w : Writer)
        → Filling head payload last l w
        → Filling head payload last l (flushed compress w)
    Filling-flushed last l w h = record {
      heads = Heads-flushed w h.heads;
      is_open = h.is_open;
      has_last_is = h.has_last_is;
      last_is = h.last_is;
      few = h.few;
    }

module _ (sink : Bytes → Bytes → ℕ × Option Bytes) (compress sha256 : Bytes → Bytes)
    (accepts : (f p : Bytes) → sink f p ≡ (length p, none)) (head payload : Bytes) where
  abbrev pub with_entry : Entry → Writer → Writer
  with_entry e w = put_entry sink compress sha256 e (start_block sink compress sha256 e w)

  pub Filling-put_entry :
      (last : Bytes) (l : Bool) (e : Entry) (w : Writer)
      → Filling head payload last l w
      → Filling head payload e.path true (with_entry e w)
  Filling-put_entry last l e w h =
      let k = h.heads in
      elim (Bool-cases (w.block_count == 0)) [
        | inl fresh ↦ rw fresh (record {
          heads = record {
            head_held = k.head_held;
            meta_held = k.meta_held;
            meta_at = k.meta_at;
            meta_long = k.meta_long;
            data_at = k.data_at;
            hashed = k.hashed;
            unlatched = k.unlatched;
          };
          is_open = h.is_open;
          has_last_is = refl;
          last_is = refl;
          few = errors_le (bytes_eq e.err []) w.errors w.entries h.few;
        })
        | inr going ↦ rw going (record {
          heads = record {
            head_held = k.head_held;
            meta_held = k.meta_held;
            meta_at = k.meta_at;
            meta_long = k.meta_long;
            data_at = k.data_at;
            hashed = k.hashed;
            unlatched = k.unlatched;
          };
          is_open = h.is_open;
          has_last_is = refl;
          last_is = refl;
          few = errors_le (bytes_eq e.err []) w.errors w.entries h.few;
        })
      ]

  pub put_entry-length_le :
      (e : Entry) (w : Writer)
      → IsStorable e
      → length w.block < default_block_size
      → length (with_entry e w).block ≤ max_block_size
  unfolding append_entry
  put_entry-length_le e w s h = elim (Bool-cases (w.block_count == 0)) [
    | inl fresh ↦ rw fresh (omega (arith, length-append w.block _, entry_bytes-length_le e [] s))
    | inr going ↦
        rw going (omega (arith, length-append w.block _, entry_bytes-length_le e w.block_prev s))
  ]

  pub put_entry-counts : (e : Entry) (w : Writer) → ((with_entry e w).block_count == 0) ≡ false
  put_entry-counts e w = elim (Bool-cases (w.block_count == 0)) [
    | inl fresh ↦ rw fresh (ground arith)
    | inr going ↦ rw going (ground arith)
  ]

  -- The writer behind some entries, with room in its block.
  pub record Holding (es : List Entry) (last : Bytes) (l : Bool) (o : Outcome) : Type 0 where
    pub good : o.1 ≡ none
    pub layout : Layout compress es o.0
    pub filling : Filling head payload last l o.0
    pub short : length o.0.block < default_block_size

  pub Holding-flush_full :
      (es : List Entry) (last : Bytes) (l : Bool) (w : Writer)
      → Layout compress es w
      → Filling head payload last l w
      → (w.block_count == 0) ≡ false
      → length w.block ≤ max_block_size
      → Holding es last l (flush_full sink compress sha256 w)
  Holding-flush_full es last l w k f going fits =
      elim (Bool-cases (leb default_block_size (length w.block))) [
        | inl full ↦
            rw (full, flush_block-flushed sink compress sha256 accepts w f.heads.unlatched going)
              (record {
                good = refl;
                layout = Layout-flushed compress es w k going fits;
                filling = Filling-flushed head payload compress last l w f;
                short = omega arith;
              })
        | inr room ↦ rw room (record { good = refl; layout = k; filling = f; short = ground arith })
      ]
