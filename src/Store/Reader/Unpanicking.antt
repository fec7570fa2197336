-- ===== src/Store/Reader/Unpanicking.antt =====
-- What `NewReader` makes of any bytes at all.
use osfp.Base.{
  ℕ, zero, suc, ◌+◌, ◌-◌, ◌/◌, Bytes, Bool, true, false, not, ◌||◌, [], ◌∷◌, Option, none, some,
  ltb, length, drop, take, ℤ, pos, negsuc, int_eq, int_lt, add_i64, if◌then◌else◌, bytes_eq, ◌==◌,
  ◌≡◌, ◌≢◌, refl, arith,
}
use osfp.Store.Format.{
  block_header_size, max_meta_size, header_size, footer_size, footer_magic, magic, format_version,
  hash_sha256, compression_zstd,
}
use osfp.Store.Decode.{ByteReader}
use osfp.Store.Reader.{
  ReadError, damaged, panic, bad_magic, unsupported, Result, ok, err, ◌>>=◌, ◌>>◌, refuse, settled,
  read_ref, is_stray, read_refs, parse_index, unpacked, unpack, read_block, max_alloc, refused,
  read_at, read_index, read_sections, check_header, new_reader, field, byte_at, is_outside, get_le,
}

abbrev Calm {ℓ} : {A : Type ℓ} → Result A → Type ℓ
Calm r = r ≢ err panic

Calm-bind {ℓ κ} :
    {A : Type ℓ} {B : Type κ} (m : Result A) (f : A → Result B)
    → Calm m
    → ((a : A) → Calm (f a))
    → Calm (m >>= f)
Calm-bind (ok a) f h k = k a
Calm-bind (err e) f h k = λ q. h (cc q)

Calm-refuse {ℓ} :
    {A : Type ℓ} (b : Bool) (e : ReadError) (m : Result A)
    → e ≢ panic
    → (b ≡ false → Calm m)
    → Calm (refuse b e >> m)
Calm-refuse true e m h k = λ q. h (cc q)
Calm-refuse false e m h k = k refl

Calm-if {ℓ} : {A : Type ℓ} (b : Bool) (x y : Result A) → Calm x → Calm y → Calm (if b then x else y)
Calm-if true x y h k = h
Calm-if false x y h k = k

Calm-refusal : (b : Bool) (e : ReadError) → e ≢ panic → Calm (refuse b e)
Calm-refusal true e h = λ q. h (cc q)
Calm-refusal false e h = λ q. cc q

Calm-ok {ℓ} : {A : Type ℓ} (a : A) → Calm (ok a)
Calm-ok a = λ q. cc q

damage : damaged ≢ panic
damage = λ q. cc q

refused-Calm : (n : ℕ) → ltb max_alloc n ≡ false → Calm (refused n)
refused-Calm n h = rw h (λ q. cc q)

read_at-Calm :
    (file : Bytes) (offset : ℤ) (n : ℕ)
    → int_lt (pos max_alloc) (pos n) ≡ false
    → Calm (read_at file offset (pos n))
unfolding read_at
read_at-Calm file (negsuc o) n h = refused-Calm n h
read_at-Calm file (pos o) n h =
    Calm-if (ltb (length file) (o + n)) (refused n) (ok (take n (drop o file))) (refused-Calm n h)
      (λ q. cc q)

-- A section that is not outside of the limits is not of a length below zero.
not_negative : (limit offset : ℤ) (n : ℕ) → is_outside limit offset (negsuc n) ≢ false
not_negative limit offset n h = after (int_lt offset (pos header_size)) h
  where
    after :
        (b : Bool)
        → (b || true || int_lt limit offset || int_lt limit (add_i64 offset (negsuc n))) ≢ false
    after true = λ q. cc q
    after false = λ q. cc q

module _ (decompress : Bytes → Option Bytes) where
  unpacked-Calm : (n : ℕ) (o : Option Bytes) → Calm (unpacked decompress n o)
  unpacked-Calm n none = λ q. cc q
  unpacked-Calm n (some out) =
      Calm-if (length out == n) (ok out) (err damaged) (λ q. cc q) (λ q. cc q)

  unpack-Calm : (size : ℤ) (raw : Bytes) → Calm (unpack decompress size raw)
  unfolding unpack
  unpack-Calm size raw =
      Calm-refuse _ damaged _ (λ q. cc q)
        (λ _. unpacked-Calm (get_le 4 raw) (decompress (drop block_header_size raw)))

  read_block-Calm :
      (file : Bytes) (offset size : ℤ)
      → int_lt (pos max_alloc) size ≡ false
      → Calm (read_block decompress file offset size)
  unfolding read_block
  read_block-Calm file offset (negsuc n) h = λ q. cc q
  read_block-Calm file offset (pos n) h =
      Calm-refuse _ damaged _ (λ q. cc q)
        (λ _.
          Calm-bind (read_at file offset (pos n)) (unpack decompress (pos n))
            (read_at-Calm file offset n h) (unpack-Calm (pos n)))

settled-Calm {ℓ} : {A : Type ℓ} (p : A × ByteReader) → Calm (settled p)
settled-Calm (a, b) = Calm-if b.failed (err damaged) (ok (a, b)) (λ q. cc q) (λ q. cc q)

read_refs-Calm : (n : ℕ) (start end : ℤ) (b : ByteReader) → Calm (read_refs n start end b)
unfolding read_refs read_ref
read_refs-Calm zero start end b = λ q. cc q
read_refs-Calm (suc n) start end b = Calm-bind (read_ref b) _ (settled-Calm _) (λ (r, b').
    Calm-refuse (is_stray start end r) damaged _ (λ q. cc q)
      (λ _.
        Calm-bind (read_refs n start end b') (λ rs. ok (r ∷ rs)) (read_refs-Calm n start end b')
          (λ rs q. cc q)))

parse_index-Calm : (start end : ℤ) (raw : Bytes) → Calm (parse_index start end raw)
unfolding parse_index
parse_index-Calm start end raw = Calm-bind (settled _) _ (settled-Calm _) (λ (count, b).
    Calm-refuse (ltb (length raw / 3) count) damaged _ (λ q. cc q)
      (λ _. read_refs-Calm count start end b))

module _ (decompress : Bytes → Option Bytes) where
  read_index-Calm :
      (file : Bytes) (offset len start end : ℤ)
      → int_lt (pos max_alloc) len ≡ false
      → Calm (read_index decompress file offset len start end)
  unfolding read_index
  read_index-Calm file offset len start end h =
      Calm-if (int_eq len (pos 0)) (ok []) _ (λ q. cc q)
        (Calm-bind (read_block decompress file offset len) (parse_index start end)
          (read_block-Calm decompress file offset len h) (parse_index-Calm start end))

  small : (n : ℕ) → ltb max_meta_size n ≡ false → ltb max_alloc n ≡ false
  small n h = ground (arith, h)

  -- The metadata are read only once their length was tested.
  read_meta-Calm :
      (file : Bytes) (limit offset len : ℤ)
      → is_outside limit offset len ≡ false
      → int_lt (pos max_meta_size) len ≡ false
      → Calm (read_at file offset len)
  read_meta-Calm file limit offset (pos n) h k = read_at-Calm file offset n (small n k)
  read_meta-Calm file limit offset (negsuc n) h k = absurd (not_negative limit offset n h)

  or_left : (a b : Bool) → (a || b) ≡ false → a ≡ false
  or_left true b h = cc h
  or_left false b h = refl

  module _ (is_meta : Bytes → Bool) where
    read_sections-Calm :
        (file footer : Bytes)
        → int_lt (pos max_alloc) (field 5 footer) ≡ false
        → Calm (read_sections decompress is_meta file footer)
    unfolding read_sections
    read_sections-Calm file footer sized =
        let limit = pos (length file - footer_size) in
        Calm-refuse
          (is_outside limit (field 0 footer) (field 1 footer)
            || is_outside limit (field 2 footer) (field 3 footer)
            || is_outside limit (field 4 footer) (field 5 footer))
          damaged _ damage
          (λ inside.
            Calm-refuse
              (int_lt (field 6 footer) (pos 0)
                || int_lt (field 7 footer) (pos 0)
                || int_lt (field 8 footer) (pos 0))
              damaged _ damage
              (λ _.
                Calm-refuse (int_lt (pos max_meta_size) (field 1 footer)) damaged _ damage (λ fits.
                  Calm-bind (read_at file (field 0 footer) (field 1 footer)) _
                    (read_meta-Calm file limit (field 0 footer) (field 1 footer)
                      (or_left (is_outside limit (field 0 footer) (field 1 footer))
                        (is_outside limit (field 2 footer) (field 3 footer))
                        (or_left _ (is_outside limit (field 4 footer) (field 5 footer)) inside))
                      fits)
                    (λ payload. Calm-refuse (not (is_meta payload)) damaged _ damage (λ _.
                      Calm-bind
                        (read_index decompress file (field 4 footer) (field 5 footer)
                          (field 2 footer) (add_i64 (field 2 footer) (field 3 footer)))
                        _
                        (read_index-Calm file (field 4 footer) (field 5 footer) (field 2 footer)
                          (add_i64 (field 2 footer) (field 3 footer)) sized)
                        (λ index.
                          Calm-refuse (not (int_eq (pos (length index)) (field 8 footer))) damaged _
                            damage (λ _. Calm-ok _)))))))

    -- Whatever bytes a file has, if the length of the index in its footer is at most `max_alloc`, opening
    -- it never asks for a buffer of a length that is below zero or past the address space: it gives a
    -- reader, or one of the errors of the container.
    pub new_reader-no_panic :
        (file : Bytes)
        → int_lt (pos max_alloc) (field 5 (drop (length file - footer_size) file)) ≡ false
        → new_reader decompress is_meta file ≢ err panic
    unfolding new_reader check_header
    new_reader-no_panic file sized =
        let footer = drop (length file - footer_size) file in
        Calm-refuse (ltb (length file) (header_size + footer_size)) damaged _ damage (λ _.
          Calm-bind (check_header (take header_size file)) _ (header_calm (take header_size file))
            (λ _.
              Calm-refuse (not (bytes_eq (drop 104 footer) footer_magic)) damaged _ damage
                (λ _. read_sections-Calm file footer sized)))
      where
        other : unsupported ≢ panic
        other = λ q. cc q

        header_calm : (h : Bytes) → Calm (check_header h)
        header_calm h =
            Calm-refuse (not (bytes_eq (take 5 h) magic)) bad_magic _ (λ q. cc q)
              (λ _. Calm-refuse (not (byte_at 5 h == format_version)) unsupported _ other (λ _.
                Calm-refuse (not (byte_at 6 h == hash_sha256)) unsupported _ other
                  (λ _. Calm-refusal (not (byte_at 7 h == compression_zstd)) unsupported other)))
