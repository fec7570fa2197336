-- ===== src/Store/Writer/Closing.antt =====
-- The file that `Close` leaves, on a file that takes every write.
use mathlib.Core.List.{append_assoc, append-nil}
use osfp.Base.{
  ℕ, ◌≤◌, Bytes, Bool, true, false, List, [], ◌++◌, Option, none, some, ◌==◌, length, All, ◌≡◌,
  refl, sym, ap, ◌∙◌, arith, Bool-cases, inl, inr,
}
use osfp.Entry.{Entry}
use osfp.Entry.Sorted.{IsSorted}
use osfp.Store.Format.{max_block_size, footer_magic}
use osfp.Store.Varint.{put_uvarint}
use osfp.Store.RoundTrip.{HasPath}
use osfp.Store.RoundTrip.Steps.{IsStorable}
use osfp.Store.Cursor.Iterate.{concat}
use osfp.Store.Writer.{
  Writer, Outcome, IndexEntry, ◌and_then◌, flush_block, index_bytes, write_index, footer, seal,
  end_file, write_tail, close, close_unless, add_all, new_writer, header, write_raw,
}
use osfp.Store.Writer.Puts.{
  put, put_packed, flushed, write-put, write_packed-put, flush_block-flushed, write_raw-put,
}
use osfp.Store.Writer.Layout.{Layout, Layout-flushed, Located, nil_of_length}
use osfp.Store.Writer.Filling.{Heads, Heads-flushed, Filling}
use osfp.Store.Writer.Filled.{if_false, Holding-add_all, Holding-new_writer, HoldsAll}

module _ (sink : Bytes → Bytes → ℕ × Option Bytes) (compress sha256 : Bytes → Bytes) where
  -- What `writeIndex` compresses.
  abbrev pub index_section : List IndexEntry → Bytes
  index_section ies = put_uvarint (length ies) ++ index_bytes sink compress sha256 ies

  -- The file behind the last block, the index behind it, and the end of the file.
  abbrev pub indexed : Writer → Writer
  indexed v = put_packed compress (index_section v.index) v

  abbrev pub footed : Writer → Writer
  footed v = put (footer sink compress sha256 v.off (indexed v)) (indexed v)

  abbrev pub file_end : Writer → Bytes
  file_end v =
      footer sink compress sha256 v.off (indexed v) ++ (sha256 (footed v).digest ++ footer_magic)

  -- All blocks are written.
  pub record AllFlushed (payload : Bytes) (es : List Entry) (v : Writer) : Type 0 where
    pub heads : Heads (header sink compress sha256) payload v
    pub blocks : List (List Entry)
    pub split : concat blocks ≡ es
    pub located : Located compress v.file v.data_offset v.index blocks
    pub off_is : v.off ≡ length v.file
    pub after_start : v.data_offset ≤ v.off
    pub counted : v.entries ≡ length es
    pub few : v.errors ≤ v.entries

  -- A file that was closed without an error.
  pub record Complete (payload : Bytes) (es : List Entry) (o : Outcome) : Type 0 where
    pub good : o.1 ≡ none
    pub last : Writer
    pub flushed_is : AllFlushed payload es last
    pub index_is : o.0.index ≡ last.index
    pub file_is : o.0.file ≡ (indexed last).file ++ file_end last

  -- `NewWriter`, `Add` of every entry, and `Close`
  abbrev pub write_all : Bytes → List Entry → Outcome
  write_all payload es =
      new_writer sink compress sha256 payload
      and_then add_all sink compress sha256 es
      and_then close sink compress sha256

  module _ (accepts : (f p : Bytes) → sink f p ≡ (length p, none)) where
    seal-file :
        (u : Writer)
        → seal sink compress sha256 u
          ≡ (record u { file = (u.file ++ sha256 u.digest) ++ footer_magic }, none)
    seal-file u =
        ap (λ (o : Outcome). o and_then write_raw sink compress sha256 footer_magic)
          (write_raw-put sink compress sha256 accepts (sha256 u.digest) u)
        ∙ write_raw-put sink compress sha256 accepts footer_magic
            (record u { file = u.file ++ sha256 u.digest })

    Complete-tail :
        (payload : Bytes) (es : List Entry) (v : Writer)
        → AllFlushed payload es v
        → Complete payload es (write_tail sink compress sha256 v)
    unfolding write_index
    Complete-tail payload es v h =
        let fields = footer sink compress sha256 v.off (indexed v) in
        let whole : write_tail sink compress sha256 v ≡ (
          record (footed v) {
            file = ((footed v).file ++ sha256 (footed v).digest) ++ footer_magic;
          },
          none,
        ) =
          ap (λ (o : Outcome). o and_then end_file sink compress sha256 v)
            (write_packed-put sink compress sha256 accepts (index_section v.index) v
              h.heads.unlatched)
          ∙ ap (λ (o : Outcome). o and_then seal sink compress sha256)
              (write-put sink compress sha256 accepts fields (indexed v) refl)
          ∙ seal-file (footed v) in
        rw whole (record {
          good = refl;
          last = v;
          flushed_is = h;
          index_is = refl;
          file_is =
              append_assoc (footed v).file (sha256 (footed v).digest) footer_magic
              ∙ append_assoc (indexed v).file fields _;
        })

    all_flushed :
        (es : List Entry) (w : Writer) (k : Layout compress es w)
        → w.block_count ≡ 0
        → concat k.blocks ≡ es
    all_flushed es w k h =
        sym (append-nil (concat k.blocks))
        ∙ ap (λ r. concat k.blocks ++ r) (sym (nil_of_length k.cur (omega (arith, k.count_is))))
        ∙ k.split

    AllFlushed-flush :
        (payload : Bytes) (es : List Entry) (key : Bytes) (l : Bool) (w : Writer)
        → Layout compress es w
        → Filling (header sink compress sha256) payload key l w
        → length w.block ≤ max_block_size
        → (v : Writer) × (flush_block sink compress sha256 (record w { closed = true }) ≡ (v, none))
          × AllFlushed payload es v
    unfolding flush_block
    AllFlushed-flush payload es key l w k f fits =
        let c : Writer = record w { closed = true } in
        let heads : Heads (header sink compress sha256) payload c = record {
          head_held = f.heads.head_held;
          meta_held = f.heads.meta_held;
          meta_at = f.heads.meta_at;
          meta_long = f.heads.meta_long;
          data_at = f.heads.data_at;
          hashed = f.heads.hashed;
          unlatched = f.heads.unlatched;
        } in
        elim (Bool-cases (w.block_count == 0)) [
          | inl fresh ↦ (
            c,
            rw fresh refl,
            record {
              heads = heads;
              blocks = k.blocks;
              split = all_flushed es w k (ground arith);
              located = k.located;
              off_is = k.off_is;
              after_start = k.after_start;
              counted = k.counted;
              few = f.few;
            },
          )
          | inr going ↦
              let m = Layout-flushed compress es w k going fits in
              let g = Heads-flushed (header sink compress sha256) payload compress w f.heads in
              (
                record (flushed compress w) { closed = true },
                flush_block-flushed sink compress sha256 accepts c f.heads.unlatched going,
                record {
                  heads = record {
                    head_held = g.head_held;
                    meta_held = g.meta_held;
                    meta_at = g.meta_at;
                    meta_long = g.meta_long;
                    data_at = g.data_at;
                    hashed = g.hashed;
                    unlatched = g.unlatched;
                  };
                  blocks = m.blocks;
                  split = all_flushed es (flushed compress w) m refl;
                  located = m.located;
                  off_is = m.off_is;
                  after_start = m.after_start;
                  counted = m.counted;
                  few = f.few;
                },
              )
        ]

    Complete-close :
        (payload : Bytes) (es : List Entry) (key : Bytes) (l : Bool) (o : Outcome)
        → HoldsAll sink compress sha256 accepts (header sink compress sha256) payload es key l o
        → Complete payload es (o and_then close sink compress sha256)
    unfolding close
    Complete-close payload es key l (w, some x) h = absurd (cc h.good)
    Complete-close payload es key l (w, none) h =
        let (v, same, done) =
          AllFlushed-flush payload es key l w h.layout h.filling (omega (arith, h.short)) in
        let whole : close sink compress sha256 w ≡ write_tail sink compress sha256 v =
          if_false w.closed _ _ h.filling.is_open
          ∙ unless w.err h.filling.heads.unlatched
          ∙ ap (λ (o : Outcome). o and_then write_tail sink compress sha256) same in
        rw whole (Complete-tail payload es v done)
      where
        unless :
            (err : Option Bytes)
            → err ≡ none
            → close_unless sink compress sha256 err (record w { closed = true }) ≡ (
                flush_block sink compress sha256 (record w { closed = true })
                and_then write_tail sink compress sha256)
        unless (some x) q = absurd (cc q)
        unless none q = refl

    pub write_all-Complete :
        (payload : Bytes) (es : List Entry)
        → All IsStorable es
        → All HasPath es
        → IsSorted es
        → Complete payload es (write_all payload es)
    write_all-Complete payload es s n o =
        from_start (new_writer sink compress sha256 payload)
          (Holding-new_writer sink compress sha256 accepts payload)
      where
        from_start :
            (u : Outcome)
            → HoldsAll sink compress sha256 accepts
                (header sink compress sha256)
                payload
                []
                []
                false
                u
            → Complete payload es
                (u and_then add_all sink compress sha256 es and_then close sink compress sha256)
        from_start (w, some x) h = absurd (cc h.good)
        from_start (w, none) h =
            let (key, l, k) =
              Holding-add_all sink compress sha256 accepts (header sink compress sha256) payload es
                [] [] false w h s n o (λ b. absurd (cc b)) in
            Complete-close payload es key l (add_all sink compress sha256 es w) k
