-- ===== src/Store/RoundTrip.antt =====
-- Decoding what was encoded: an entry, a block.
pub mod Steps
pub mod Fields
use Prim.Native.Nat.{Ordering}
use mathlib.Core.List.{append_assoc, append-nil}
use native.Mathlib.Nat.{mod-eq_of_lt}
use osfp.Base.{
  ℕ, zero, suc, ◌+◌, ◌%◌, ◌^◌, ◌≤◌, ◌<◌, Bytes, Bool, true, false, not, ◌&&◌, ◌||◌, List, [], ◌∷◌,
  ◌++◌, ltb, ◌==◌, bytes_eq, bytes_eq→eq, if◌then◌else◌, All, All-map, Option, none, some, length,
  take, drop, take_append, drop_append, length-drop, length-append, ◌≡◌, ◌≢◌, ◌⊎◌, refl, sym, ap,
  ◌∙◌, arith, ℤ, IsI64, IsU64, to_u64, to_u64-IsU64, le→ltb, from_u64, from_u64-to_u64, Bool-cases,
  inl, inr,
}
use osfp.Canon.{compare_key}
use osfp.Canon.Order.{◌≺◌}
use osfp.Entry.{Entry}
use osfp.Entry.Sorted.{IsSorted}
use osfp.Store.Varint.{
  put_uvarint, put_groups, get_uvarint, get_uvarint-put_uvarint, zigzag, unzigzag, unzigzag-zigzag,
  zigzag-IsU64,
}
use osfp.Store.Format.{
  flag_hashed, flag_partial, flag_link, flag_hardlink, flag_error, max_string_size,
}
use osfp.Store.Encode.{
  shared_prefix, has_links, has_link, has_err, flags_of, entry_flags, put_str, put_if, entry_bytes,
}
use osfp.Store.Decode.{
  ByteReader, uvarint, varint, u8, take_bytes, str, read_if, has_flag, zero_hash, read_hash,
  read_links, BlockDecoder, Next, got, eof, corrupt, reset, read_fields, out_of_order, next, Read,
  ◌>>=◌, pure, is_good, finish, check_shared,
}
use osfp.Store.RoundTrip.Steps.{
  IsStorable, at, Reads, Reads-bind, Reads-last, Reads-pure, Reads-good, Reads-u8, Reads-uvarint,
  Reads-varint, Reads-take, Reads-str, Reads-if-str, Reads-if-hash, Reads-if-links,
}
use osfp.Store.RoundTrip.Fields.{
  Reads-fields, shared_prefix-le, shared_prefix-le_right, take-shared_prefix, field_bytes,
}

-- The decoder in the middle of a block, behind the key `prev`.
abbrev pub decoder : Bytes → Bytes → BlockDecoder
decoder prev r = record { br = at r; prev = prev }

-- The key may follow `prev`.
abbrev pub MayFollow : Bytes → Bytes → Type 0
MayFollow prev path = (path ≢ []) × ((prev ≡ []) ⊎ (prev ≺ path))

in_order : (prev path : Bytes) → MayFollow prev path → out_of_order prev path ≡ false
in_order [] path (n, h) = refl
in_order (c ∷ prev) path (n, inl h) = cc
in_order (c ∷ prev) path (n, inr h) = rw h

not_empty : (p : Bytes) → p ≢ [] → bytes_eq p [] ≡ false
not_empty [] h = absurd (h refl)
not_empty (c ∷ p) h = refl

put_uvarint-not_empty : (x : ℕ) (r : Bytes) → bytes_eq (put_uvarint x ++ r) [] ≡ false
unfolding put_uvarint
put_uvarint-not_empty x r = elim (Bool-cases (ltb x 128)) [
  | inl small ↦ rw (small, put_groups) refl
  | inr large ↦ rw (large, put_groups) refl
]

-- Decoding a storable entry that was encoded behind a key that it may follow gives the entry, and
-- leaves the decoder with the entry's path as its key in front of what stood behind the entry.
pub next-entry_bytes :
    (e : Entry) (prev r : Bytes)
    → IsStorable e
    → MayFollow prev e.path
    → next (decoder prev (entry_bytes e prev ++ r)) ≡ got e (decoder e.path r)
unfolding next entry_bytes
next-entry_bytes e prev r w h =
    let n = shared_prefix prev e.path in
    let suffix = drop n e.path in
    rw (
      append_assoc,
      put_uvarint-not_empty n,
      Reads-uvarint n (omega (arith, shared_prefix-le_right prev e.path)) _,
      le→ltb (length prev) n (shared_prefix-le prev e.path),
      append_assoc,
      Reads-str suffix (omega (arith, length-drop n e.path)) _,
      take-shared_prefix prev e.path,
      not_empty e.path h.0,
      in_order prev e.path h,
      Reads-fields e w r,
    )

-- The entries of a block, encoded one behind the other as `Add` does.
unfoldable pub block_bytes : Bytes → List Entry → Bytes
block_bytes prev [] = []
block_bytes prev (e ∷ es) = entry_bytes e prev ++ block_bytes e.path es

abbrev after : (BlockDecoder → Option (List Entry)) → Next → Option (List Entry)
after rest eof = some []
after rest corrupt = none
after rest (got e d) = elim (rest d) [ none ↦ none | some es ↦ some (e ∷ es) ]

-- The loop of `Cursor.Next` over one block; `none` is an error, or no fuel left.
unfoldable pub decode_all : ℕ → BlockDecoder → Option (List Entry)
decode_all zero d = none
decode_all (suc fuel) d = after (decode_all fuel) (next d)

-- The loop on a whole block. Every entry takes a byte at least.
unfoldable pub decode_block : Bytes → Option (List Entry)
decode_block buf = decode_all (length buf + 1) (reset buf)

abbrev pub HasPath : Entry → Type 0
HasPath e = e.path ≢ []

pub next-nil : (prev : Bytes) → next (decoder prev []) ≡ eof
unfolding next
next-nil prev = refl

pub put_uvarint-length : (x : ℕ) → 1 ≤ length (put_uvarint x)
unfolding put_uvarint
put_uvarint-length x = elim (Bool-cases (ltb x 128)) [
  | inl small ↦ rw (small, put_groups) (omega arith)
  | inr large ↦ rw (large, put_groups) (omega arith)
]

entry_bytes-length : (e : Entry) (prev : Bytes) → 1 ≤ length (entry_bytes e prev)
unfolding entry_bytes
entry_bytes-length e prev = omega (
  arith,
  length-append (put_uvarint (shared_prefix prev e.path)) _,
  put_uvarint-length (shared_prefix prev e.path),
)

-- The path may stand behind the key `prev`, which is empty at the start of a block.
abbrev Behind : Bytes → Entry → Type 0
Behind prev e = (prev ≡ []) ⊎ (prev ≺ e.path)

after-got :
    (rest : BlockDecoder → Option (List Entry)) (e : Entry) (es : List Entry) (d : BlockDecoder)
    → rest d ≡ some es
    → after rest (got e d) ≡ some (e ∷ es)
after-got rest e es d h = rw (h, after) refl

decode_all-block_bytes :
    (es : List Entry) (prev : Bytes) (fuel : ℕ)
    → All IsStorable es
    → All HasPath es
    → IsSorted es
    → All (Behind prev) es
    → length (block_bytes prev es) ≤ fuel
    → decode_all (suc fuel) (decoder prev (block_bytes prev es)) ≡ some es
unfolding decode_all block_bytes
decode_all-block_bytes [] prev fuel w n s f h = rw (next-nil prev) refl
decode_all-block_bytes (e ∷ es) prev zero w n s f h = absurd (
    omega (
      arith,
      length-append (entry_bytes e prev) (block_bytes e.path es),
      entry_bytes-length e prev,
    ))
decode_all-block_bytes (e ∷ es) prev (suc fuel) w n s f h =
    ap (after (decode_all (suc fuel)))
      (next-entry_bytes e prev (block_bytes e.path es) w.0 (n.0, f.0))
    ∙ after-got (decode_all (suc fuel)) e es (decoder e.path (block_bytes e.path es)) (
        decode_all-block_bytes es e.path fuel w.1 n.1 s.1
          (All-map (λ (g : Entry). e.path ≺ g.path) (Behind e.path) es (λ g h. inr h) s.0)
          (omega (
            arith,
            length-append (entry_bytes e prev) (block_bytes e.path es),
            entry_bytes-length e prev,
          )))

-- A block of storable entries with nonempty paths in strictly increasing order is decoded to these
-- entries, up to its end and without an error.
pub decode_block-block_bytes :
    (es : List Entry)
    → All IsStorable es
    → All HasPath es
    → IsSorted es
    → decode_block (block_bytes [] es) ≡ some es
unfolding decode_block reset
decode_block-block_bytes es w n s =
    let len = length (block_bytes [] es) in
    rw (arith_suc len) (
      decode_all-block_bytes es [] len w n s (All-map HasPath (Behind []) es (λ e h. inl refl) n)
        (omega arith))
  where
    arith_suc : (k : ℕ) → k + 1 ≡ suc k
    arith_suc k = omega arith
