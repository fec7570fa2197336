-- ===== src/Store/Writer/Sizes.antt =====
-- How long an encoded entry may be.
use osfp.Base.{
  ℕ, zero, suc, ◌+◌, ◌/◌, ◌≤◌, Bytes, Bool, true, false, ◌∷◌, ◌++◌, ltb, length, length-append,
  length-drop, drop, arith, Bool-cases, inl, inr,
}
use osfp.Entry.{Entry}
use osfp.Store.Format.{max_string_size}
use osfp.Store.Varint.{put_groups, put_uvarint}
use osfp.Store.Encode.{
  put_str, put_if, entry_bytes, shared_prefix, has_link, has_links, has_err, entry_flags,
}
use osfp.Store.RoundTrip.Steps.{IsStorable}

put_groups-length : (k x : ℕ) → length (put_groups k x) ≤ k + 1
unfolding put_groups
put_groups-length zero x = omega arith
put_groups-length (suc k) x = elim (Bool-cases (ltb x 128)) [
  | inl small ↦ rw small (omega arith)
  | inr large ↦ rw large (omega (arith, put_groups-length k (x / 128)))
]

pub put_uvarint-length_le : (x : ℕ) → length (put_uvarint x) ≤ 10
unfolding put_uvarint
put_uvarint-length_le x = put_groups-length 9 x

put_str-length_le : (s : Bytes) → length (put_str s) ≤ 10 + length s
put_str-length_le s =
    omega (arith, length-append (put_uvarint (length s)) s, put_uvarint-length_le (length s))

put_if-length_le : (b : Bool) (s : Bytes) → length (put_if b s) ≤ length s
put_if-length_le true s = omega arith
put_if-length_le false s = omega arith

append_le : (m n : ℕ) (s t : Bytes) → length s ≤ m → length t ≤ n → length (s ++ t) ≤ m + n
append_le m n s t h k = omega (arith, length-append s t)

cons2_le : (n a b : ℕ) (t : Bytes) → length t ≤ n → length (a ∷ b ∷ t) ≤ 2 + n
cons2_le n a b t h = omega arith

at_most : (m n : ℕ) (s : Bytes) → length s ≤ m → m ≤ n → length s ≤ n
at_most m n s h k = omega arith

string_le :
    (b : Bool) (s : Bytes) → length s ≤ max_string_size → length (put_if b (put_str s)) ≤ 65546
string_le b s h = omega (arith, put_if-length_le b (put_str s), put_str-length_le s)

-- A storable entry takes a quarter of a mebibyte at most, whatever path it is encoded behind.
pub entry_bytes-length_le :
    (e : Entry) (prev : Bytes) → IsStorable e → length (entry_bytes e prev) ≤ 262144
unfolding entry_bytes
entry_bytes-length_le e prev w =
    let suffix = drop (shared_prefix prev e.path) e.path in
    let short : length suffix ≤ 65536 =
      omega (arith, w.path_fits, length-drop (shared_prefix prev e.path) e.path) in
    at_most 196762 262144 _
      (append_le 10 _ _ _ (put_uvarint-length_le _) (
        append_le 65546 _ (put_str suffix) _ (omega (arith, put_str-length_le suffix)) (
          cons2_le _ e.type (entry_flags e) _ (
            append_le 10 _ _ _ (put_uvarint-length_le e.mode) (
              append_le 10 _ _ _ (put_uvarint-length_le e.uid) (
                append_le 10 _ _ _ (put_uvarint-length_le e.gid) (
                  append_le 10 _ _ _ (put_uvarint-length_le _) (
                    append_le 10 _ _ _ (put_uvarint-length_le _) (
                      append_le 32 _ (put_if e.hashed e.hash) _
                        (omega (arith, put_if-length_le e.hashed e.hash, w.hash_fits))
                        (append_le 65546 _ _ _ (string_le (has_link e) e.link w.link_fits) (
                          append_le 30 65546 _ _
                            (at_most
                              (length
                                (put_uvarint e.dev ++ (put_uvarint e.ino ++ put_uvarint e.nlink)))
                              30 _ (put_if-length_le (has_links e) _)
                              (append_le 10 20 _ _ (put_uvarint-length_le e.dev) (
                                append_le 10 10 _ _ (put_uvarint-length_le e.ino)
                                  (put_uvarint-length_le e.nlink))))
                            (string_le (has_err e) e.err w.err_fits))))))))))))
      (omega arith)
