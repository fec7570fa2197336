-- ===== src/Store/Encode.antt =====
-- internal/store/writer.go: the encoding of one entry, front-coded against the key before it.
use Prim.Native.Nat.{bit_or}
use osfp.Base.{
  ℕ, suc, Bytes, Bool, not, ◌||◌, [], ◌∷◌, ◌++◌, ◌==◌, bytes_eq, if◌then◌else◌, length, drop,
  to_u64,
}
use osfp.Entry.{Entry}
use osfp.Store.Varint.{put_uvarint, zigzag}
use osfp.Store.Format.{flag_hashed, flag_partial, flag_link, flag_hardlink, flag_error}

-- `sharedPrefix`
unfoldable pub shared_prefix : Bytes → Bytes → ℕ
shared_prefix [] b = 0
shared_prefix (c ∷ a) [] = 0
shared_prefix (c ∷ a) (d ∷ b) = let n = shared_prefix a b in if c == d then suc n else 0

-- The test that stands before the three hard-link fields.
abbrev pub has_links : Entry → Bool
has_links e = not (e.dev == 0) || not (e.ino == 0) || not (e.nlink == 0)

abbrev pub has_link : Entry → Bool
has_link e = not (bytes_eq e.link [])

abbrev pub has_err : Entry → Bool
has_err e = not (bytes_eq e.err [])

abbrev flag_if : Bool → ℕ → ℕ → ℕ
flag_if b flag f = if b then bit_or f flag else f

unfoldable pub flags_of : Bool → Bool → Bool → Bool → Bool → ℕ
flags_of hashed partial link links err =
    let f = flag_if hashed flag_hashed 0 in
    let f = flag_if partial flag_partial f in
    let f = flag_if link flag_link f in
    let f = flag_if links flag_hardlink f in flag_if err flag_error f

-- `entryFlags`
unfoldable pub entry_flags : Entry → ℕ
entry_flags e = flags_of e.hashed e.partial (has_link e) (has_links e) (has_err e)

-- A text behind its length.
abbrev pub put_str : Bytes → Bytes
put_str s = put_uvarint (length s) ++ s

abbrev pub put_if : Bool → Bytes → Bytes
put_if b s = if b then s else []

-- What `appendEntry` appends.
unfoldable pub entry_bytes : Entry → Bytes → Bytes
entry_bytes e prev =
    let shared = shared_prefix prev e.path in
    put_uvarint shared
    ++ (put_str (drop shared e.path)
        ++ (e.type
            ∷ entry_flags e
            ∷ (put_uvarint e.mode
                ++ (put_uvarint e.uid
                    ++ (put_uvarint e.gid
                        ++ (put_uvarint (to_u64 e.size)
                            ++ (put_uvarint (zigzag e.mtime)
                                ++ (put_if e.hashed e.hash
                                    ++ (put_if (has_link e) (put_str e.link)
                                        ++ (put_if (has_links e) (
                                              put_uvarint e.dev
                                              ++ (put_uvarint e.ino ++ put_uvarint e.nlink))
                                            ++ put_if (has_err e) (put_str e.err)))))))))))

-- `appendEntry`
unfoldable pub append_entry : Bytes → Entry → Bytes → Bytes
append_entry dst e prev = dst ++ entry_bytes e prev
