-- ===== src/Store/Reader.antt =====
-- internal/store/reader.go: reading a container, every byte of which is untrusted. The file can be
-- read; a range that is not in it is an error. The decoder of zstd, SHA-256 and the decoder of the
-- metadata are parameters.
pub mod Words
pub mod Blocks
pub mod Index
pub mod Footer
pub mod Unpanicking
use osfp.Base.{
  ℕ, zero, suc, ◌+◌, ◌*◌, ◌^◌, ◌/◌, ◌-◌, Bytes, Bool, true, false, not, ◌&&◌, ◌||◌, List, [], ◌∷◌,
  ◌++◌, Option, none, some, ltb, leb, ◌==◌, bytes_eq, if◌then◌else◌, length, take, drop, ℤ, pos,
  negsuc, int_eq, from_u64, int_lt, add_i64,
}
use Prim.Native.Nat.{Ordering}
use osfp.Canon.{compare_key}
use osfp.Entry.{Entry}
use osfp.Store.Format.{
  magic, footer_magic, format_version, hash_sha256, compression_zstd, header_size, footer_size,
  block_header_size, max_block_size, max_string_size, max_meta_size,
}
use osfp.Store.Decode.{ByteReader, uvarint, str, BlockDecoder, Next, got, eof, corrupt, reset, next}

pub data ReadError : Type 0 where
  bad_magic unsupported damaged unreadable digest_mismatch : ReadError
  -- `make` of a length that is below zero or past the address space
  panic : ReadError
  -- No error of the program: a loop of the model has used up its fuel.
  no_fuel : ReadError

pub data Result {ℓ} (A : Type ℓ) : Type ℓ where
  ok : A → Result A
  err : ReadError → Result A

-- The rest of a function, behind `if err != nil { return err }`.
infixl 5 ◌>>=◌
abbrev pub ◌>>=◌ {ℓ κ} : {A : Type ℓ} {B : Type κ} → Result A → (A → Result B) → Result B
m >>= rest = elim m [ err e ↦ err e | ok a ↦ rest a ]

infixl 5 ◌>>◌
abbrev pub ◌>>◌ {ℓ} : {B : Type ℓ} → Result (Unit {0}) → Result B → Result B
m >> rest = elim m [ err e ↦ err e | ok a ↦ rest ]

-- `if b { return err }`
abbrev pub refuse : Bool → ReadError → Result (Unit {0})
refuse true e = err e
refuse false e = ok tt

-- `indexEntry`, as it is read
pub record BlockRef : Type 0 where
  pub first_key : Bytes
  pub offset : ℤ
  pub size : ℤ

-- `Reader`; the metadata is its encoding.
pub record Reader : Type 0 where
  pub file : Bytes
  pub payload : Bytes
  pub entries : ℤ
  pub errors : ℤ
  pub blocks : ℤ
  pub index : List BlockRef
  pub digest : Bytes

-- binary.LittleEndian on the first `k` bytes
unfoldable pub get_le : ℕ → Bytes → ℕ
get_le zero bs = 0
get_le (suc k) [] = 0
get_le (suc k) (b ∷ bs) = b + 256 * get_le k bs

abbrev pub size_of : Bytes → ℤ
size_of file = pos (length file)

-- What a process can address on a 64-bit system: `make` panics on a length past it.
abbrev pub max_alloc : ℕ
max_alloc = 2 ^ 48

abbrev pub refused : ℕ → Result Bytes
refused n = if ltb max_alloc n then err panic else err unreadable

-- `make` and `ReadAt`; there is memory for a range of the file.
unfoldable pub read_at : Bytes → ℤ → ℤ → Result Bytes
read_at file offset (negsuc n) = err panic
read_at file (negsuc o) (pos n) = refused n
read_at file (pos o) (pos n) =
    if ltb (length file) (o + n) then refused n else ok (take n (drop o file))

-- One of the three sections that the footer declares.
abbrev pub is_outside : ℤ → ℤ → ℤ → Bool
is_outside limit offset len =
    int_lt offset (pos header_size)
    || int_lt len (pos 0)
    || int_lt limit offset
    || int_lt limit (add_i64 offset len)

-- The byte of the header at an offset.
abbrev pub byte_at : ℕ → Bytes → ℕ
byte_at n bs = get_le 1 (drop n bs)

-- The tests of `NewReader` on the header.
unfoldable pub check_header : Bytes → Result (Unit {0})
check_header header = do
  refuse (not (bytes_eq (take 5 header) magic)) bad_magic
  refuse (not (byte_at 5 header == format_version)) unsupported
  refuse (not (byte_at 6 header == hash_sha256)) unsupported
  refuse (not (byte_at 7 header == compression_zstd)) unsupported

-- The field of the footer with a number.
abbrev pub field : ℕ → Bytes → ℤ
field i footer = from_u64 (get_le 8 (drop (i * 8) footer))

-- What a step of the byte reader yields, or `ErrCorrupt` where an error is latched.
abbrev settled {ℓ} : {A : Type ℓ} → A × ByteReader → Result (A × ByteReader)
settled (a, b) = if b.failed then err damaged else ok (a, b)

unfoldable pub read_ref : ByteReader → Result (BlockRef × ByteReader)
read_ref b =
    let (key, b1) = str max_string_size b in
    let (off, b2) = uvarint b1 in
    let (len, b3) = uvarint b2 in
    settled (record { first_key = key; offset = from_u64 off; size = from_u64 len }, b3)

-- The test on the place of a block.
abbrev pub is_stray : ℤ → ℤ → BlockRef → Bool
is_stray start end r =
    int_lt r.offset start || not (int_lt (pos 0) r.size) || int_lt end (add_i64 r.offset r.size)

-- The loop of `readIndex`, with the number of records left.
unfoldable pub read_refs : ℕ → ℤ → ℤ → ByteReader → Result (List BlockRef)
read_refs zero start end b = ok []
read_refs (suc n) start end b = do
  (r, b') ← read_ref b
  refuse (is_stray start end r) damaged
  rs ← read_refs n start end b'
  ok (r ∷ rs)

-- `readIndex`, behind the reading of the section
unfoldable pub parse_index : ℤ → ℤ → Bytes → Result (List BlockRef)
parse_index start end raw = do
  (count, b) ← settled (uvarint (record { rest = raw; failed = false }))
  refuse (ltb (length raw / 3) count) damaged
  read_refs count start end b

module _ (decompress : Bytes → Option Bytes) where
  abbrev pub unpacked : ℕ → Option Bytes → Result Bytes
  unpacked n none = err damaged
  unpacked n (some out) = if length out == n then ok out else err damaged

  -- `readBlock`, behind the reading of its bytes
  unfoldable pub unpack : ℤ → Bytes → Result Bytes
  unpack size raw = do
    refuse
        (ltb max_block_size (get_le 4 raw)
          || not (int_eq (pos (get_le 4 (drop 4 raw) + block_header_size)) size))
        damaged
    unpacked (get_le 4 raw) (decompress (drop block_header_size raw))

  -- `readBlock`
  unfoldable pub read_block : Bytes → ℤ → ℤ → Result Bytes
  read_block file offset size = do
    refuse (int_lt size (pos block_header_size) || int_lt (size_of file) (add_i64 offset size))
        damaged
    raw ← read_at file offset size
    unpack size raw

  -- `readIndex`
  unfoldable pub read_index : Bytes → ℤ → ℤ → ℤ → ℤ → Result (List BlockRef)
  read_index file offset len start end =
      if int_eq len (pos 0) then ok [] else (read_block file offset len >>= parse_index start end)

  module _ (is_meta : Bytes → Bool) where
    -- The checks of `NewReader` on the fields of the footer, and what they point at.
    unfoldable pub read_sections : Bytes → Bytes → Result Reader
    read_sections file footer = do
      let limit = pos (length file - footer_size)
      refuse
          (is_outside limit (field 0 footer) (field 1 footer)
            || is_outside limit (field 2 footer) (field 3 footer)
            || is_outside limit (field 4 footer) (field 5 footer))
          damaged
      refuse
          (int_lt (field 6 footer) (pos 0)
            || int_lt (field 7 footer) (pos 0)
            || int_lt (field 8 footer) (pos 0))
          damaged
      refuse (int_lt (pos max_meta_size) (field 1 footer)) damaged
      payload ← read_at file (field 0 footer) (field 1 footer)
      refuse (not (is_meta payload)) damaged
      index ←
          read_index file (field 4 footer) (field 5 footer) (field 2 footer)
            (add_i64 (field 2 footer) (field 3 footer))
      refuse (not (int_eq (pos (length index)) (field 8 footer))) damaged
      ok (record {
        file = file;
        payload = payload;
        entries = field 6 footer;
        errors = field 7 footer;
        blocks = field 8 footer;
        index = index;
        digest = take 32 (drop 72 footer);
      })

    -- `NewReader`, on a file and its size
    unfoldable pub new_reader : Bytes → Result Reader
    new_reader file = do
      refuse (ltb (length file) (header_size + footer_size)) damaged
      check_header (take header_size file)
      let footer = drop (length file - footer_size) file
      refuse (not (bytes_eq (drop 104 footer) footer_magic)) damaged
      read_sections file footer
