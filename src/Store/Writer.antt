-- ===== src/Store/Writer.antt =====
-- internal/store/writer.go: the stream of a container. Compression, the digest and the encoding of
-- the metadata are parameters, and so is the file: `sink` says, of a write behind what the file
-- already holds, how many bytes were written and whether the call failed.
pub mod Offsets
pub mod Sealed
pub mod Unfailing
pub mod Puts
pub mod Sizes
pub mod Layout
pub mod Filling
pub mod Filled
pub mod Closing
pub mod Succeeds
use Prim.Native.Nat.{Ordering}
use osfp.Base.{
  ℕ, zero, suc, ◌+◌, ◌*◌, ◌/◌, ◌%◌, ◌^◌, ◌-◌, Bytes, codes, Bool, true, false, not, ◌&&◌, List, [],
  ◌∷◌, ◌++◌, Option, none, some, ltb, leb, ◌==◌, bytes_eq, if◌then◌else◌, length, take, replicate,
}
use osfp.Canon.{compare_key}
use osfp.Entry.{Entry}
use osfp.Store.Varint.{put_uvarint}
use osfp.Store.Format.{
  magic, footer_magic, format_version, hash_sha256, compression_zstd, header_size,
  default_block_size,
}
use osfp.Store.Encode.{put_str, append_entry}

-- `indexEntry`
pub record IndexEntry : Type 0 where
  pub first_key : Bytes
  pub offset : ℕ
  pub size : ℕ

-- `Writer`: `file` is what the file holds, and `digest` what the hash was given.
pub record Writer : Type 0 where
  pub file : Bytes
  pub digest : Bytes
  pub off : ℕ
  pub block : Bytes
  pub block_first : Bytes
  pub block_prev : Bytes
  pub block_count : ℕ
  pub index : List IndexEntry
  pub last_key : Bytes
  pub has_last : Bool
  pub entries : ℕ
  pub errors : ℕ
  pub meta_offset : ℕ
  pub meta_length : ℕ
  pub data_offset : ℕ
  pub closed : Bool
  pub err : Option Bytes

pub data WriteError : Type 0 where
  -- an error of the file, latched or new
  io : Bytes → WriteError
  after_close : WriteError
  empty_path : WriteError
  misordered : WriteError

abbrev pub Outcome : Type 0
Outcome = Writer × Option WriteError

-- `if err := …; err != nil { return err }`
infixl 5 ◌and_then◌
abbrev pub ◌and_then◌ : Outcome → (Writer → Outcome) → Outcome
(w, none) and_then f = f w
(w, some e) and_then f = (w, some e)

-- binary.LittleEndian: the lowest bytes of a number
unfoldable pub put_le : ℕ → ℕ → Bytes
put_le zero x = []
put_le (suc k) x = (x % 256) ∷ put_le k (x / 256)

abbrev pub failed : Option Bytes → Option WriteError
failed none = none
failed (some e) = some (io e)

module _ (sink : Bytes → Bytes → ℕ × Option Bytes) (compress sha256 : Bytes → Bytes) where
  -- The answer of the file, added to its bytes, to the hash and to the offset.
  abbrev pub accept : Bytes → ℕ × Option Bytes → Writer → Outcome
  accept p (n, e) w = (
    record w { file = w.file ++ take n p; digest = w.digest ++ take n p; off = w.off + n; err = e },
    failed e,
  )

  abbrev pub write_unless : Option Bytes → Bytes → Writer → Outcome
  write_unless (some e) p w = (w, some (io e))
  write_unless none p w = accept p (sink w.file p) w

  -- `write`
  unfoldable pub write : Bytes → Writer → Outcome
  write p w = write_unless w.err p w

  -- A write past `write`, as `Close` does with the digest and the closing magic.
  unfoldable pub write_raw : Bytes → Writer → Outcome
  write_raw p w = let (n, e) = sink w.file p in (record w { file = w.file ++ take n p }, failed e)

  -- The lengths that stand before a block, as uint32, and the compressed bytes.
  unfoldable pub write_packed : Bytes → Writer → Outcome
  write_packed raw w =
      write (put_le 4 (length raw) ++ put_le 4 (length (compress raw))) w
      and_then write (compress raw)

  -- The end of `flushBlock`; `offset` is where the block starts.
  abbrev pub end_block : ℕ → Writer → Outcome
  end_block offset w = (
    record w {
      index =
          w.index
          ++ record { first_key = w.block_first; offset = offset; size = w.off - offset } ∷ [];
      block = [];
      block_count = 0;
    },
    none,
  )

  -- `flushBlock`
  unfoldable pub flush_block : Writer → Outcome
  flush_block w =
      if w.block_count == 0 then (w, none) else (write_packed w.block w and_then end_block w.off)

  -- The state in which `Add` appends the entry.
  abbrev pub start_block : Entry → Writer → Writer
  start_block e w =
      if w.block_count == 0 then record w { block_first = e.path; block_prev = [] } else w

  abbrev pub put_entry : Entry → Writer → Writer
  put_entry e w = record w {
    block = append_entry w.block e w.block_prev;
    block_prev = e.path;
    block_count = w.block_count + 1;
    last_key = e.path;
    has_last = true;
    entries = w.entries + 1;
    errors = if bytes_eq e.err [] then w.errors else w.errors + 1;
  }

  -- The last test of `Add`.
  abbrev pub flush_full : Writer → Outcome
  flush_full w = if leb default_block_size (length w.block) then flush_block w else (w, none)

  -- `canon.CompareKey(w.lastKey, e.Path) >= 0`, behind the test of `hasLast`
  abbrev pub is_misplaced : Writer → Entry → Bool
  is_misplaced w e =
      w.has_last && (elim (compare_key w.last_key e.path) [ Ordering.lt ↦ false | _ ↦ true ])

  abbrev pub add_unless : Option Bytes → Entry → Writer → Outcome
  add_unless (some x) e w = (w, some (io x))
  add_unless none e w =
      if w.closed
      then (w, some after_close)
      else if bytes_eq e.path []
      then (w, some empty_path)
      else if is_misplaced w e
      then (w, some misordered)
      else flush_full (put_entry e (start_block e w))

  -- `Add`
  unfoldable pub add : Entry → Writer → Outcome
  add e w = add_unless w.err e w

  unfoldable pub index_bytes : List IndexEntry → Bytes
  index_bytes [] = []
  index_bytes (ie ∷ ies) =
      put_str ie.first_key ++ (put_uvarint ie.offset ++ (put_uvarint ie.size ++ index_bytes ies))

  -- `writeIndex`
  unfoldable pub write_index : Writer → Outcome
  write_index w = write_packed (put_uvarint (length w.index) ++ index_bytes w.index) w

  unfoldable pub put_all : List ℕ → Bytes
  put_all [] = []
  put_all (v ∷ vs) = put_le 8 v ++ put_all vs

  -- The footer's fields, where the data ends and the index starts at `index_offset`.
  abbrev pub footer : ℕ → Writer → Bytes
  footer index_offset w = put_all (
      w.meta_offset
      ∷ w.meta_length
      ∷ w.data_offset
      ∷ (index_offset - w.data_offset)
      ∷ index_offset
      ∷ (w.off - index_offset)
      ∷ w.entries
      ∷ w.errors
      ∷ length w.index
      ∷ [])

  abbrev pub seal : Writer → Outcome
  seal w = write_raw (sha256 w.digest) w and_then write_raw footer_magic

  abbrev pub end_file : Writer → Writer → Outcome
  end_file w v = write (footer w.off v) v and_then seal

  -- `Close`, behind the last block
  abbrev pub write_tail : Writer → Outcome
  write_tail w = write_index w and_then end_file w

  abbrev pub close_unless : Option Bytes → Writer → Outcome
  close_unless (some x) w = (w, some (io x))
  close_unless none w = flush_block w and_then write_tail

  -- `Close`
  unfoldable pub close : Writer → Outcome
  close w = if w.closed then (w, none) else close_unless w.err (record w { closed = true })

  abbrev pub header : Bytes
  header = magic ++ format_version ∷ hash_sha256 ∷ compression_zstd ∷ replicate (header_size - 8) 0

  abbrev pub blank : Writer
  blank = record {
    file = [];
    digest = [];
    off = 0;
    block = [];
    block_first = [];
    block_prev = [];
    block_count = 0;
    index = [];
    last_key = [];
    has_last = false;
    entries = 0;
    errors = 0;
    meta_offset = 0;
    meta_length = 0;
    data_offset = 0;
    closed = false;
    err = none;
  }

  abbrev pub end_meta : Bytes → Writer → Outcome
  end_meta payload w = (record w { meta_length = length payload; data_offset = w.off }, none)

  abbrev pub put_meta : Bytes → Writer → Outcome
  put_meta payload w = write payload (record w { meta_offset = w.off }) and_then end_meta payload

  -- `NewWriter`, on the encoded metadata
  unfoldable pub new_writer : Bytes → Outcome
  new_writer payload = write header blank and_then put_meta payload

  -- A scan adds its entries one by one, and an error ends it.
  unfoldable pub add_all : List Entry → Writer → Outcome
  add_all [] w = (w, none)
  add_all (e ∷ es) w = add e w and_then add_all es
