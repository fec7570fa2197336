-- ===== src/Store/RoundTrip/Fields.antt =====
-- The fields of an entry behind its path, and the prefix that front coding shares.
use native.Mathlib.Nat.{mod-eq_of_lt}
use osfp.Base.{
  ℕ, ◌≤◌, Bytes, Bool, true, false, ◌&&◌, [], ◌∷◌, ◌++◌, length, take, drop, ◌≡◌, refl, arith, ℤ,
  to_u64, to_u64-IsU64, from_u64-to_u64,
}
use osfp.Entry.{Entry}
use osfp.Store.Varint.{put_uvarint, zigzag}
use osfp.Store.Format.{
  flag_hashed, flag_partial, flag_link, flag_hardlink, flag_error, max_string_size,
}
use osfp.Store.Encode.{
  shared_prefix, has_links, has_link, has_err, flags_of, entry_flags, put_str, put_if,
}
use osfp.Store.Decode.{
  uvarint, varint, u8, str, read_if, has_flag, zero_hash, read_hash, read_links, read_fields, Read,
  ◌>>=◌, pure, is_good,
}
use osfp.Store.RoundTrip.Steps.{
  IsStorable, Reads, Reads-bind, Reads-last, Reads-good, Reads-u8, Reads-uvarint, Reads-varint,
  Reads-if-str, Reads-if-hash, Reads-if-links,
}

flags_back :
    (hashed partial link links err : Bool)
    → let flags = flags_of hashed partial link links err in
      (has_flag flags flag_hashed ≡ hashed)
      × (has_flag flags flag_partial ≡ partial)
      × (has_flag flags flag_link ≡ link)
      × (has_flag flags flag_hardlink ≡ links)
      × (has_flag flags flag_error ≡ err)
unfolding flags_of
flags_back hashed partial link links err = ground arith

pub shared_prefix-le : (a b : Bytes) → shared_prefix a b ≤ length a
unfolding shared_prefix
shared_prefix-le [] b = omega arith
shared_prefix-le (c ∷ a) [] = omega arith
shared_prefix-le (c ∷ a) (d ∷ b) = ground (arith, shared_prefix-le a b)

pub shared_prefix-le_right : (a b : Bytes) → shared_prefix a b ≤ length b
unfolding shared_prefix
shared_prefix-le_right [] b = omega arith
shared_prefix-le_right (c ∷ a) [] = omega arith
shared_prefix-le_right (c ∷ a) (d ∷ b) = ground (arith, shared_prefix-le_right a b)

-- The shared bytes are the same on both sides.
pub take-shared_prefix :
    (a b : Bytes) → take (shared_prefix a b) a ++ drop (shared_prefix a b) b ≡ b
unfolding shared_prefix
take-shared_prefix [] b = refl
take-shared_prefix (c ∷ a) [] = refl
take-shared_prefix (c ∷ a) (d ∷ b) = ground (arith, take-shared_prefix a b)

-- What `entry_bytes` writes behind the path, from the last field on.
abbrev err_bytes : Entry → Bytes
err_bytes e = put_if (has_err e) (put_str e.err)

abbrev links_bytes : Entry → Bytes
links_bytes e =
    put_if (has_links e) (put_uvarint e.dev ++ (put_uvarint e.ino ++ put_uvarint e.nlink))
    ++ err_bytes e

abbrev link_bytes : Entry → Bytes
link_bytes e = put_if (has_link e) (put_str e.link) ++ links_bytes e

abbrev hash_bytes : Entry → Bytes
hash_bytes e = put_if e.hashed e.hash ++ link_bytes e

abbrev size_bytes : Entry → Bytes
size_bytes e = put_uvarint (to_u64 e.size) ++ (put_uvarint (zigzag e.mtime) ++ hash_bytes e)

abbrev owner_bytes : Entry → Bytes
owner_bytes e = put_uvarint e.uid ++ (put_uvarint e.gid ++ size_bytes e)

abbrev pub field_bytes : Entry → Bytes
field_bytes e = e.type ∷ entry_flags e ∷ (put_uvarint e.mode ++ owner_bytes e)

-- The end of `read_fields`.
abbrev last_fields : Bytes → ℕ → ℕ → ℕ → ℕ → ℤ → ℤ → Bool → Bool → Bool → Bool → Bool → Read Entry
last_fields path type mode uid gid size mtime hashed partial link links err = do
  hash ← read_if hashed zero_hash read_hash
  good ← is_good
  target ← read_if link [] (str max_string_size)
  ids ← read_if links (0, 0, 0) read_links
  cause ← read_if err [] (str max_string_size)
  pure (record {
    path = path;
    type = type;
    mode = mode;
    uid = uid;
    gid = gid;
    size = size;
    mtime = mtime;
    hash = hash;
    hashed = hashed && good;
    partial = partial;
    link = target;
    dev = ids.0;
    ino = ids.1;
    nlink = ids.2;
    err = cause;
  })

and_true : (b : Bool) → (b && true) ≡ b
and_true true = refl
and_true false = refl

Reads-last_fields :
    (e : Entry)
    → IsStorable e
    → Reads
        (last_fields e.path e.type e.mode e.uid e.gid e.size e.mtime e.hashed e.partial
          (has_link e)
          (has_links e)
          (has_err e))
        (hash_bytes e)
        e
Reads-last_fields e w =
    Reads-bind _ _ (put_if e.hashed e.hash) (link_bytes e) e.hash _
      (Reads-if-hash e.hashed e.hash w.hash_fits w.hash_zero)
      (Reads-good _ (link_bytes e) _ (
        Reads-bind _ _ (put_if (has_link e) (put_str e.link)) (links_bytes e) e.link _
          (Reads-if-str e.link w.link_fits)
          (Reads-bind _ _ _ (err_bytes e) (e.dev, e.ino, e.nlink) _ (Reads-if-links e w)
            (λ r. rw (and_true e.hashed) (
              Reads-last _ (λ cause. record e { err = cause }) (err_bytes e) e.err
                (Reads-if-str e.err w.err_fits) r)))))

entry_flags_back :
    (e : Entry)
    → (has_flag (entry_flags e) flag_hashed ≡ e.hashed)
      × (has_flag (entry_flags e) flag_partial ≡ e.partial)
      × (has_flag (entry_flags e) flag_link ≡ has_link e)
      × (has_flag (entry_flags e) flag_hardlink ≡ has_links e)
      × (has_flag (entry_flags e) flag_error ≡ has_err e)
unfolding entry_flags
entry_flags_back e = flags_back e.hashed e.partial (has_link e) (has_links e) (has_err e)

pub Reads-fields : (e : Entry) → IsStorable e → Reads (read_fields e.path) (field_bytes e) e
unfolding read_fields
Reads-fields e w =
    let (is_hashed, is_partial, is_link, is_links, is_err) = entry_flags_back e in
    Reads-bind u8 _ (e.type ∷ []) (entry_flags e ∷ (put_uvarint e.mode ++ owner_bytes e)) e.type _
      (Reads-u8 e.type)
      (Reads-bind u8 _ (entry_flags e ∷ []) (put_uvarint e.mode ++ owner_bytes e) (entry_flags e) _
        (Reads-u8 (entry_flags e))
        (Reads-bind uvarint _ (put_uvarint e.mode) (owner_bytes e) e.mode _
          (Reads-uvarint e.mode (omega arith))
          (Reads-bind uvarint _ (put_uvarint e.uid) (put_uvarint e.gid ++ size_bytes e) e.uid _
            (Reads-uvarint e.uid (omega arith))
            (Reads-bind uvarint _ (put_uvarint e.gid) (size_bytes e) e.gid _
              (Reads-uvarint e.gid (omega arith))
              (Reads-bind uvarint _ (put_uvarint (to_u64 e.size))
                (put_uvarint (zigzag e.mtime) ++ hash_bytes e) (to_u64 e.size) _
                (Reads-uvarint (to_u64 e.size) (to_u64-IsU64 e.size w.size_fits))
                (Reads-bind varint _ (put_uvarint (zigzag e.mtime)) (hash_bytes e) e.mtime _
                  (Reads-varint e.mtime w.mtime_fits)
                  (rw
                    (
                      mod-eq_of_lt w.mode_fits,
                      mod-eq_of_lt w.uid_fits,
                      mod-eq_of_lt w.gid_fits,
                      from_u64-to_u64 e.size w.size_fits,
                      is_hashed,
                      is_partial,
                      is_link,
                      is_links,
                      is_err,
                    )
                    (Reads-last_fields e w))))))))
