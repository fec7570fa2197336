-- ===== src/Store/Decode.antt =====
-- internal/store/decode.go: the reader of untrusted bytes and the decoder of a block.
pub mod Falls
pub mod Shorter
use Prim.Native.Nat.{bit_and, Ordering}
use osfp.Base.{
  ℕ, ◌%◌, ◌^◌, Bytes, Bool, true, false, not, ◌&&◌, [], ◌∷◌, ◌++◌, none, some, ltb, ◌==◌, bytes_eq,
  if◌then◌else◌, length, take, drop, replicate, ℤ, pos, from_u64,
}
use osfp.Canon.{compare_key}
use osfp.Entry.{Entry}
use osfp.Store.Varint.{get_uvarint, unzigzag}
use osfp.Store.Format.{
  flag_hashed, flag_partial, flag_link, flag_hardlink, flag_error, max_string_size,
}

-- `byteReader`: the buffer from the current position on, and whether an error is latched.
pub record ByteReader : Type 0 where
  pub rest : Bytes
  pub failed : Bool

abbrev pub fail : ByteReader → ByteReader
fail b = record b { failed = true }

-- A step of the reader, and a row of steps.
abbrev pub Read {ℓ} : Type ℓ → Type ℓ
Read A = ByteReader → A × ByteReader

infixl 5 ◌>>=◌
unfoldable pub ◌>>=◌ {ℓ κ} : {A : Type ℓ} {B : Type κ} → Read A → (A → Read B) → Read B
◌>>=◌ m f b = f (m b).0 (m b).1

unfoldable pub pure {ℓ} : {A : Type ℓ} → A → Read A
pure a b = (a, b)

-- `b.err == nil`
unfoldable pub is_good : Read Bool
is_good b = (not b.failed, b)

-- `uvarint`
unfoldable pub uvarint : Read ℕ
uvarint b =
    if b.failed
    then (0, b)
    else elim (get_uvarint b.rest) [ none ↦ (0, fail b) | some (v, r) ↦ (v, record b { rest = r }) ]

-- `varint`
unfoldable pub varint : Read ℤ
varint b = if b.failed then (pos 0, b) else elim (get_uvarint b.rest) [
  | none ↦ (pos 0, fail b)
  | some (v, r) ↦ (unzigzag v, record b { rest = r })
]

-- `u8`
unfoldable pub u8 : Read ℕ
u8 b =
    if b.failed
    then (0, b)
    else elim b.rest [ [] ↦ (0, fail b) | c ∷ r ↦ (c, record b { rest = r }) ]

-- `take`
unfoldable pub take_bytes : ℕ → Read Bytes
take_bytes n b =
    if b.failed
    then ([], b)
    else if ltb (length b.rest) n
    then ([], fail b)
    else (take n b.rest, record b { rest = drop n b.rest })

-- `str`
unfoldable pub str : ℕ → Read Bytes
str max b =
    let (n, b') = uvarint b in
    if b'.failed then ([], b') else if ltb max n then ([], fail b') else take_bytes n b'

-- A field that a flag announces; without it the field keeps its zero value.
abbrev pub read_if {ℓ} : {A : Type ℓ} → Bool → A → Read A → Read A
read_if b default read = if b then read else pure default

abbrev pub has_flag : ℕ → ℕ → Bool
has_flag flags flag = not (bit_and flags flag == 0)

-- The Go zero value of `[32]byte`, and `copy` of what was read onto it.
abbrev pub zero_hash : Bytes
zero_hash = replicate 32 0

abbrev copy_hash : Bytes × ByteReader → Bytes × ByteReader
copy_hash (h, b) = (if b.failed then zero_hash else h, b)

unfoldable pub read_hash : Read Bytes
read_hash b = copy_hash (take_bytes 32 b)

-- The three hard-link fields.
unfoldable pub read_links : Read (ℕ × ℕ × ℕ)
read_links = do dev ← uvarint; ino ← uvarint; nlink ← uvarint; pure (dev, ino, nlink % 2 ^ 32)

-- `blockDecoder`, without the entry that it hands out.
pub record BlockDecoder : Type 0 where
  pub br : ByteReader
  pub prev : Bytes

-- The results of `next`: an entry, io.EOF, or the latched error.
pub data Next : Type 0 where
  got : Entry → BlockDecoder → Next
  eof : Next
  corrupt : Next

unfoldable pub reset : Bytes → BlockDecoder
reset buf = record { br = record { rest = buf; failed = false }; prev = [] }

-- The fields behind the path.
unfoldable pub read_fields : Bytes → Read Entry
read_fields path = do
  type ← u8
  flags ← u8
  mode ← uvarint
  uid ← uvarint
  gid ← uvarint
  size ← uvarint
  mtime ← varint
  hash ← read_if (has_flag flags flag_hashed) zero_hash read_hash
  good ← is_good
  link ← read_if (has_flag flags flag_link) [] (str max_string_size)
  links ← read_if (has_flag flags flag_hardlink) (0, 0, 0) read_links
  err ← read_if (has_flag flags flag_error) [] (str max_string_size)
  pure (record {
    path = path;
    type = type;
    mode = mode % 2 ^ 32;
    uid = uid % 2 ^ 32;
    gid = gid % 2 ^ 32;
    size = from_u64 size;
    mtime = mtime;
    hash = hash;
    hashed = has_flag flags flag_hashed && good;
    partial = has_flag flags flag_partial;
    link = link;
    dev = links.0;
    ino = links.1;
    nlink = links.2;
    err = err;
  })

-- The last test of `next`.
abbrev pub finish : Bytes → Entry × ByteReader → Next
finish path (e, b) = if b.failed then corrupt else got e (record { br = b; prev = path })

-- `d.br.fail` where more bytes are shared than the key before has.
abbrev pub check_shared : ℕ → Bytes → ByteReader → ByteReader
check_shared shared prev b = if not b.failed && ltb (length prev) shared then fail b else b

abbrev pub out_of_order : Bytes → Bytes → Bool
out_of_order prev path =
    not (bytes_eq prev []) && (elim (compare_key prev path) [ Ordering.lt ↦ false | _ ↦ true ])

-- `next`
unfoldable pub next : BlockDecoder → Next
next d =
    let (shared, b1) = uvarint d.br in
    let (suffix, b2) = str max_string_size (check_shared shared d.prev b1) in
    let path = take shared d.prev ++ suffix in
    if d.br.failed
    then corrupt
    else if bytes_eq d.br.rest []
    then eof
    else if b2.failed
    then corrupt
    else if bytes_eq path []
    then corrupt
    else if out_of_order d.prev path
    then corrupt
    else finish path (read_fields path b2)
