-- ===== src/Store/Writer/Layout.antt =====
-- Where the writer has put the entries that it was given.
use mathlib.Core.List.{append_assoc, append-nil}
use mathlib.Core.Path.{subst}
use osfp.Base.{
  ℕ, ◌+◌, ◌-◌, ◌≤◌, Bytes, false, List, [], ◌∷◌, ◌++◌, Option, ◌==◌, length, length-append, ◌≡◌,
  ◌≢◌, ◌⊎◌, inl, inr, refl, sym, ap, ◌∙◌, arith, Bool-cases,
}
use osfp.Entry.{Entry}
use osfp.Store.Format.{max_block_size}
use osfp.Store.Encode.{entry_bytes, append_entry}
use osfp.Store.RoundTrip.{block_bytes}
use osfp.Store.Reader.Blocks.{packed, Holds, Holds-append, Holds-last}
use osfp.Store.Cursor.Iterate.{concat}
use osfp.Store.Writer.{Writer, IndexEntry, start_block, put_entry}
use osfp.Store.Writer.Puts.{words, flushed}

-- The key that the next entry of a block is front-coded against.
abbrev pub last_of : Bytes → List Entry → Bytes
last_of prev [] = prev
last_of prev (e ∷ es) = last_of e.path es

-- The block starts with a given key.
abbrev pub Opens : Bytes → List Entry → Type 0
Opens key [] = ⊥
Opens key (e ∷ es) = e.path ≡ key

-- An index entry, and the block that it locates behind `start`.
pub record Locates (compress : Bytes → Bytes) (file : Bytes) (start : ℕ) (ie : IndexEntry)
    (b : List Entry) : Type 0 where
  pub held : Holds file ie.offset (packed compress (block_bytes [] b))
  pub sized : ie.size ≡ length (packed compress (block_bytes [] b))
  pub placed : start ≤ ie.offset
  pub opens : Opens ie.first_key b
  pub fits : length (block_bytes [] b) ≤ max_block_size

abbrev pub Located : (Bytes → Bytes) → Bytes → ℕ → List IndexEntry → List (List Entry) → Type 0
Located compress file start [] [] = Unit
Located compress file start [] (b ∷ bs) = ⊥
Located compress file start (ie ∷ ies) [] = ⊥
Located compress file start (ie ∷ ies) (b ∷ bs) =
    Locates compress file start ie b × Located compress file start ies bs

-- The entries are those of the blocks that were flushed, and of the open block.
pub record Layout (compress : Bytes → Bytes) (es : List Entry) (w : Writer) : Type 0 where
  pub blocks : List (List Entry)
  pub cur : List Entry
  pub split : concat blocks ++ cur ≡ es
  pub located : Located compress w.file w.data_offset w.index blocks
  pub block_is : w.block ≡ block_bytes [] cur
  pub count_is : w.block_count ≡ length cur
  pub prev_is : (cur ≡ []) ⊎ (w.block_prev ≡ last_of [] cur)
  pub first_is : (cur ≡ []) ⊎ Opens w.block_first cur
  pub off_is : w.off ≡ length w.file
  pub after_start : w.data_offset ≤ w.off
  pub counted : w.entries ≡ length es

block_bytes-snoc :
    (prev : Bytes) (cur : List Entry) (e : Entry)
    → block_bytes prev (cur ++ e ∷ []) ≡ block_bytes prev cur ++ entry_bytes e (last_of prev cur)
unfolding block_bytes
block_bytes-snoc prev [] e = append-nil (entry_bytes e prev)
block_bytes-snoc prev (x ∷ cur) e =
    ap (λ r. entry_bytes x prev ++ r) (block_bytes-snoc x.path cur e)
    ∙ sym (append_assoc (entry_bytes x prev) (block_bytes x.path cur) _)

concat-snoc : (bs : List (List Entry)) (b : List Entry) → concat (bs ++ b ∷ []) ≡ concat bs ++ b
concat-snoc [] b = append-nil b
concat-snoc (c ∷ bs) b = ap (λ r. c ++ r) (concat-snoc bs b) ∙ sym (append_assoc c (concat bs) b)

module _ (compress : Bytes → Bytes) (file more : Bytes) (start : ℕ) where
  pub Located-append :
      (ies : List IndexEntry) (bs : List (List Entry))
      → Located compress file start ies bs
      → Located compress (file ++ more) start ies bs
  Located-append [] [] l = l
  Located-append [] (b ∷ bs) l = absurd l
  Located-append (ie ∷ ies) [] l = absurd l
  Located-append (ie ∷ ies) (b ∷ bs) (l, ls) = (
    record {
      held = Holds-append file more ie.offset (packed compress (block_bytes [] b)) l.held;
      sized = l.sized;
      placed = l.placed;
      opens = l.opens;
      fits = l.fits;
    },
    Located-append ies bs ls,
  )

  Located-snoc :
      (ies : List IndexEntry) (bs : List (List Entry)) (ie : IndexEntry) (b : List Entry)
      → Located compress file start ies bs
      → Locates compress file start ie b
      → Located compress file start (ies ++ ie ∷ []) (bs ++ b ∷ [])
  Located-snoc [] [] ie b l k = (k, tt)
  Located-snoc [] (c ∷ bs) ie b l k = absurd l
  Located-snoc (x ∷ ies) [] ie b l k = absurd l
  Located-snoc (x ∷ ies) (c ∷ bs) ie b (l, ls) k = (l, Located-snoc ies bs ie b ls k)

last_of-snoc : (prev : Bytes) (cur : List Entry) (e : Entry) → last_of prev (cur ++ e ∷ []) ≡ e.path
last_of-snoc prev [] e = refl
last_of-snoc prev (x ∷ cur) e = last_of-snoc x.path cur e

Opens-snoc :
    (key : Bytes) (cur : List Entry) (e : Entry) → Opens key cur → Opens key (cur ++ e ∷ [])
Opens-snoc key [] e h = absurd h
Opens-snoc key (x ∷ cur) e h = h

pub nil_of_length : (cur : List Entry) → length cur ≡ 0 → cur ≡ []
nil_of_length [] h = refl
nil_of_length (x ∷ cur) h = absurd (omega arith)

module _ (sink : Bytes → Bytes → ℕ × Option Bytes) (compress sha256 : Bytes → Bytes)
    (es : List Entry) (e : Entry) where
  abbrev added : Writer → Writer
  added v = put_entry sink compress sha256 e v

  Layout-put :
      (v : Writer) (l : Layout compress es v)
      → v.block_prev ≡ last_of [] l.cur
      → Opens v.block_first (l.cur ++ e ∷ [])
      → Layout compress (es ++ e ∷ []) (added v)
  unfolding append_entry
  Layout-put v l p q = record {
    blocks = l.blocks;
    cur = l.cur ++ e ∷ [];
    split = sym (append_assoc (concat l.blocks) l.cur (e ∷ [])) ∙ ap (λ r. r ++ e ∷ []) l.split;
    located = l.located;
    block_is =
        ap (λ r. v.block ++ entry_bytes e r) p
        ∙ ap (λ r. r ++ entry_bytes e (last_of [] l.cur)) l.block_is
        ∙ sym (block_bytes-snoc [] l.cur e);
    count_is = omega (arith, l.count_is, length-append l.cur (e ∷ []));
    prev_is = inr (sym (last_of-snoc [] l.cur e));
    first_is = inr q;
    off_is = l.off_is;
    after_start = l.after_start;
    counted = omega (arith, l.counted, length-append es (e ∷ []));
  }

  pub Layout-put_entry :
      (w : Writer)
      → Layout compress es w
      → Layout compress (es ++ e ∷ []) (added (start_block sink compress sha256 e w))
  Layout-put_entry w l = elim (Bool-cases (w.block_count == 0)) [
    | inl fresh ↦
        let empty : l.cur ≡ [] = nil_of_length l.cur (ground (arith, l.count_is)) in
        rw fresh (
          Layout-put (record w { block_first = e.path; block_prev = [] })
            (record {
              blocks = l.blocks;
              cur = l.cur;
              split = l.split;
              located = l.located;
              block_is = l.block_is;
              count_is = l.count_is;
              prev_is = inl empty;
              first_is = inl empty;
              off_is = l.off_is;
              after_start = l.after_start;
              counted = l.counted;
            })
            (ap (last_of []) (sym empty))
            (subst (λ cur. Opens e.path (cur ++ e ∷ [])) (sym empty) refl))
    | inr going ↦
        let busy : l.cur ≢ [] = λ h. ground (arith, l.count_is, ap (length {0}) h, going) in
        rw going (
          Layout-put w l (elim l.prev_is [ inl h ↦ absurd (busy h) | inr h ↦ h ])
            (Opens-snoc w.block_first l.cur e
              (elim l.first_is [ inl h ↦ absurd (busy h) | inr h ↦ h ])))
  ]

Opens-whole :
    (key : Bytes) (cur : List Entry) → ((cur ≡ []) ⊎ Opens key cur) → cur ≢ [] → Opens key cur
Opens-whole key cur (inl h) n = absurd (n h)
Opens-whole key cur (inr h) n = h

module _ (compress : Bytes → Bytes) (es : List Entry) where
  -- The file, with the open block packed behind it.
  abbrev pub grown : Writer → Bytes
  grown w = (w.file ++ words compress w.block) ++ compress w.block

  grown-packed : (w : Writer) → grown w ≡ w.file ++ packed compress w.block
  grown-packed w = append_assoc w.file (words compress w.block) (compress w.block)

  abbrev entry_of : Writer → IndexEntry
  entry_of w = record {
    first_key = w.block_first;
    offset = w.off;
    size = w.off + length (words compress w.block) + length (compress w.block) - w.off;
  }

  Locates-flushed :
      (w : Writer) (b : List Entry)
      → w.block ≡ block_bytes [] b
      → w.off ≡ length w.file
      → w.data_offset ≤ w.off
      → Opens w.block_first b
      → length w.block ≤ max_block_size
      → Locates compress (grown w) w.data_offset (entry_of w) b
  Locates-flushed w b same off start opens fits =
      let size : length (packed compress w.block)
          ≡ length (words compress w.block) + length (compress w.block) =
        length-append (words compress w.block) (compress w.block) in
      record {
        held =
            subst (λ r. Holds (grown w) w.off (packed compress r)) same
              (rw (grown-packed w, off) (Holds-last w.file (packed compress w.block)));
        sized = omega (arith, size, ap (λ r. length (packed compress r)) same);
        placed = start;
        opens = opens;
        fits = subst (λ r. length r ≤ max_block_size) same fits;
      }

  pub Layout-flushed :
      (w : Writer)
      → Layout compress es w
      → (w.block_count == 0) ≡ false
      → length w.block ≤ max_block_size
      → Layout compress es (flushed compress w)
  Layout-flushed w l going fits =
      let busy : l.cur ≢ [] = λ h. ground (arith, l.count_is, ap (length {0}) h, going) in
      let long = length-append (w.file ++ words compress w.block) (compress w.block) in
      let more = length-append w.file (words compress w.block) in
      record {
        blocks = l.blocks ++ l.cur ∷ [];
        cur = [];
        split = append-nil (concat (l.blocks ++ l.cur ∷ [])) ∙ concat-snoc l.blocks l.cur ∙ l.split;
        located =
            Located-snoc compress (grown w) [] w.data_offset w.index l.blocks (entry_of w) l.cur
              (rw (grown-packed w) (
                Located-append compress w.file (packed compress w.block) w.data_offset w.index
                  l.blocks l.located))
              (Locates-flushed w l.cur l.block_is l.off_is l.after_start
                (Opens-whole w.block_first l.cur l.first_is busy) fits);
        block_is = unfold block_bytes in refl;
        count_is = refl;
        prev_is = inl refl;
        first_is = inl refl;
        off_is = omega (arith, l.off_is, long, more);
        after_start = omega (arith, l.after_start);
        counted = l.counted;
      }
