-- ===== src/Store/RoundTrip/Steps.antt =====
-- The steps of the reader on what the writer wrote, one field at a time.
use mathlib.Core.List.{append_assoc, append-nil}
use native.Mathlib.Nat.{mod-eq_of_lt}
use osfp.Base.{
  ℕ, ◌^◌, ◌≤◌, ◌<◌, Bytes, Bool, true, false, not, [], ◌∷◌, ◌++◌, bytes_eq, length, take_append,
  drop_append, length-append, ◌≡◌, refl, arith, ℤ, IsI64, IsU64, le→ltb, Bool-cases, inl, inr,
}
use osfp.Entry.{Entry}
use osfp.Store.Varint.{put_uvarint, get_uvarint-put_uvarint, zigzag, unzigzag-zigzag, zigzag-IsU64}
use osfp.Store.Format.{max_string_size}
use osfp.Store.Encode.{has_links, put_str, put_if}
use osfp.Store.Decode.{
  ByteReader, uvarint, varint, u8, take_bytes, str, read_if, zero_hash, read_hash, read_links, Read,
  ◌>>=◌, pure, is_good,
}

-- The fields lie in the ranges of their Go types, the texts within the decoder's limit, and the
-- hash of an entry that is not hashed is zero.
pub record IsStorable (e : Entry) : Type 0 where
  pub type_fits : e.type < 256
  pub mode_fits : e.mode < 2 ^ 32
  pub uid_fits : e.uid < 2 ^ 32
  pub gid_fits : e.gid < 2 ^ 32
  pub size_fits : IsI64 e.size
  pub mtime_fits : IsI64 e.mtime
  pub hash_fits : length e.hash ≡ 32
  pub hash_zero : e.hashed ≡ false → e.hash ≡ zero_hash
  pub path_fits : length e.path ≤ max_string_size
  pub link_fits : length e.link ≤ max_string_size
  pub err_fits : length e.err ≤ max_string_size
  pub dev_fits : IsU64 e.dev
  pub ino_fits : IsU64 e.ino
  pub nlink_fits : e.nlink < 2 ^ 32

-- A reader with no error latched.
abbrev pub at : Bytes → ByteReader
at r = record { rest = r; failed = false }

-- `m` reads the bytes `p`, whatever follows them, and returns `a`.
abbrev pub Reads {ℓ} : {A : Type ℓ} → Read A → Bytes → A → Type ℓ
Reads m p a = (r : Bytes) → m (at (p ++ r)) ≡ (a, at r)

module _ {ℓ κ} {A : Type ℓ} {B : Type κ} where
  pub Reads-bind :
      (m : Read A) (f : A → Read B) (p q : Bytes) (a : A) (b : B)
      → Reads m p a
      → Reads (f a) q b
      → Reads (m >>= f) (p ++ q) b
  unfolding ◌>>=◌
  Reads-bind m f p q a b h k r = rw (append_assoc, h (q ++ r)) (k r)

  pub Reads-last :
      (m : Read A) (g : A → B) (p : Bytes) (a : A)
      → Reads m p a
      → Reads (m >>= λ x. pure (g x)) p (g a)
  unfolding ◌>>=◌ pure
  Reads-last m g p a h r = rw (h r)

pub Reads-pure {ℓ} : {A : Type ℓ} (a : A) → Reads (pure a) [] a
unfolding pure
Reads-pure a r = refl

pub Reads-good {ℓ} :
    {B : Type ℓ} (f : Bool → Read B) (q : Bytes) (b : B)
    → Reads (f true) q b
    → Reads (is_good >>= f) q b
unfolding is_good ◌>>=◌
Reads-good f q b h r = h r

pub Reads-u8 : (c : ℕ) → Reads u8 (c ∷ []) c
unfolding u8
Reads-u8 c r = refl

pub Reads-uvarint : (x : ℕ) → IsU64 x → Reads uvarint (put_uvarint x) x
unfolding uvarint
Reads-uvarint x h r = rw (get_uvarint-put_uvarint x r h)

pub Reads-varint : (x : ℤ) → IsI64 x → Reads varint (put_uvarint (zigzag x)) x
unfolding varint
Reads-varint x h r = rw (get_uvarint-put_uvarint (zigzag x) r (zigzag-IsU64 x h), unzigzag-zigzag)

pub Reads-take : (s : Bytes) → Reads (take_bytes (length s)) s s
unfolding take_bytes
Reads-take s r = rw (
  le→ltb (length (s ++ r)) (length s) (omega (arith, length-append s r)),
  take_append,
  drop_append,
)

pub Reads-str : (s : Bytes) → length s ≤ max_string_size → Reads (str max_string_size) (put_str s) s
unfolding str
Reads-str s h r =
    rw
      (
        append_assoc,
        Reads-uvarint (length s) (omega arith) (s ++ r),
        le→ltb max_string_size (length s) h,
      )
      (Reads-take s r)

pub Reads-if-str :
    (s : Bytes)
    → length s ≤ max_string_size
    → Reads
        (read_if (not (bytes_eq s [])) [] (str max_string_size))
        (put_if (not (bytes_eq s [])) (put_str s))
        s
Reads-if-str [] h = Reads-pure []
Reads-if-str (c ∷ s) h = Reads-str (c ∷ s) h

pub Reads-if-hash :
    (hashed : Bool) (hash : Bytes)
    → length hash ≡ 32
    → (hashed ≡ false → hash ≡ zero_hash)
    → Reads (read_if hashed zero_hash read_hash) (put_if hashed hash) hash
unfolding read_hash
Reads-if-hash false hash h k r = unfold pure in rw (k refl)
Reads-if-hash true hash h k r = rw (rw h at (Reads-take hash r))

pub Reads-links :
    (dev ino nlink : ℕ)
    → IsU64 dev
    → IsU64 ino
    → nlink < 2 ^ 32
    → Reads read_links
        (put_uvarint dev ++ (put_uvarint ino ++ (put_uvarint nlink ++ [])))
        (dev, ino, nlink)
unfolding read_links
Reads-links dev ino nlink hd hi hn =
    Reads-bind uvarint _ (put_uvarint dev) _ dev _ (Reads-uvarint dev hd) (
      Reads-bind uvarint _ (put_uvarint ino) _ ino _ (Reads-uvarint ino hi) (
        Reads-bind uvarint _ (put_uvarint nlink) [] nlink _ (Reads-uvarint nlink (omega arith))
          (rw (mod-eq_of_lt hn) (Reads-pure (dev, ino, nlink)))))

pub Reads-if-links :
    (e : Entry)
    → IsStorable e
    → Reads
        (read_if (has_links e) (0, 0, 0) read_links)
        (put_if (has_links e) (put_uvarint e.dev ++ (put_uvarint e.ino ++ put_uvarint e.nlink)))
        (e.dev, e.ino, e.nlink)
Reads-if-links e w = elim (Bool-cases (has_links e)) [
  | inl links ↦
      rw links
        (rw append-nil at (Reads-links e.dev e.ino e.nlink w.dev_fits w.ino_fits w.nlink_fits))
  | inr plain ↦ rw plain (no_links plain)
]
  where
    no_links :
        has_links e ≡ false → Reads {A = ℕ × ℕ × ℕ} (pure (0, 0, 0)) [] (e.dev, e.ino, e.nlink)
    no_links plain r = unfold pure in ground arith
