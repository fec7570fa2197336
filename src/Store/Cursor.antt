-- ===== src/Store/Cursor.antt =====
-- internal/store/reader.go: the cursor over the entries of a container.
pub mod Iterate
pub mod Seek
pub mod Sought
pub mod Ends
use osfp.Base.{
  ℕ, zero, suc, ◌+◌, Bytes, Bool, true, false, not, List, [], ◌∷◌, Option, none, some, length,
  if◌then◌else◌, bytes_eq, take, ◌-◌,
}
use osfp.Entry.{Entry}
use osfp.Store.Decode.{BlockDecoder, Next, got, eof, corrupt, reset, next}
use osfp.Store.Reader.{
  Reader, ReadError, damaged, no_fuel, digest_mismatch, BlockRef, Result, ok, err, read_block,
}

-- `Cursor`, with the blocks that it has not come to; `pending` holds the entry that the next call
-- gives again.
pub record Cursor : Type 0 where
  pub ahead : List BlockRef
  pub dec : BlockDecoder
  pub pending : Option Entry

-- The results of `Cursor.Next`: an entry, io.EOF, or an error.
pub data Step : Type 0 where
  entry : Entry → Cursor → Step
  done : Cursor → Step
  failed : ReadError → Step

abbrev pub cursor_at : List BlockRef → BlockDecoder → Cursor
cursor_at ahead d = record { ahead = ahead; dec = d; pending = none }

-- `Reader.Cursor`: before the first block, with a decoder that has nothing to read
unfoldable pub start : Reader → Cursor
start r = cursor_at r.index (reset [])

module _ (decompress : Bytes → Option Bytes) (file : Bytes) where
  -- What a decoded entry, or its absence, makes of the step; `later` goes on to the next block.
  abbrev pub step : List BlockRef → BlockDecoder → Next → Step → Step
  step ahead d (got e d') later = entry e (cursor_at ahead d')
  step ahead d corrupt later = failed damaged
  step ahead d eof later = later

  abbrev pub open_block : (BlockDecoder → Step) → Result Bytes → Step
  open_block later (err e) = failed e
  open_block later (ok buf) = later (reset buf)

  -- The loop of `Next`: from the decoder, then from the blocks ahead.
  unfoldable pub next_entry : List BlockRef → BlockDecoder → Step
  next_entry [] d = step [] d (next d) (done (cursor_at [] d))
  next_entry (r ∷ rs) d =
      step (r ∷ rs) d (next d)
        (open_block (next_entry rs) (read_block decompress file r.offset r.size))

  abbrev pub give : Option Entry → Cursor → Step
  give none c = next_entry c.ahead c.dec
  give (some e) c = entry e (record c { pending = none })

  -- `Cursor.Next`
  unfoldable pub cursor_next : Cursor → Step
  cursor_next c = give c.pending c

  abbrev pub more : Entry → Result (List Entry) → Result (List Entry)
  more e (ok es) = ok (e ∷ es)
  more e (err x) = err x

  abbrev pub go_on : (Cursor → Result (List Entry)) → Step → Result (List Entry)
  go_on rest (entry e c) = more e (rest c)
  go_on rest (done c) = ok []
  go_on rest (failed x) = err x

  -- The loop of `Iterate`, on fuel: the entries that its callback gets.
  unfoldable pub iterate : ℕ → Cursor → Result (List Entry)
  iterate zero c = err no_fuel
  iterate (suc fuel) c = go_on (iterate fuel) (cursor_next c)

-- `Verify`
unfoldable pub verify : (Bytes → Bytes) → Reader → Result (Unit {0})
verify sha256 r =
    if bytes_eq (sha256 (take (length r.file - 40) r.file)) r.digest
    then ok tt
    else err digest_mismatch
