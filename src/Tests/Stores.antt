-- ===== src/Tests/Stores.antt =====
-- The theorems on the container of internal/store, on small examples.
use osfp.Base.{
  ℕ, codes, false, pos, int_lt, ◌-◌, drop, [], ◌++◌, none, some, refl, ◌≡◌, inr, arith, ◌≢◌, ◌≤◌,
  replicate, length,
}
use osfp.Base.Int.{to_u64}
use osfp.Canon.{compare_key}
use osfp.Store.Writer as W
use osfp.Store.Writer.{◌and_then◌, put_le}
use osfp.Store.Writer.Offsets
use osfp.Store.Writer.Offsets.{Sound}
use osfp.Store.Writer.Sealed
use osfp.Store.Writer.Sizes
use osfp.Store.Writer.Closing.{write_all, index_section}
use osfp.Store.Container
use osfp.Store.Container.Found.{ReadsBack}
use osfp.Store.Reader.{new_reader, err, panic, max_alloc, field, get_le}
use osfp.Store.Format.{footer_size}
use osfp.Store.Reader.Unpanicking
use osfp.Store.Encode.{entry_bytes}
use osfp.Store.Writer.Sealed.{IsSealed}
use osfp.Store.RoundTrip
use osfp.Store.RoundTrip.{decoder, decode_block, block_bytes}
use osfp.Store.RoundTrip.Steps.{IsStorable}
use osfp.Store.Decode.{next, got}
use osfp.Store.Encode.{entry_bytes, append_entry, shared_prefix}
use osfp.Store.Varint.{put_uvarint, zigzag}
use osfp.Tests.{usr_ls, usr_rm, olds, olds-IsSorted, disk, plain, no_digest, any_meta, written}

pub usr_ls-IsStorable : IsStorable usr_ls
usr_ls-IsStorable = record {
  type_fits = omega arith;
  mode_fits = omega arith;
  uid_fits = omega arith;
  gid_fits = omega arith;
  size_fits = omega arith;
  mtime_fits = omega arith;
  hash_fits = refl;
  hash_zero = λ h. cc;
  path_fits = omega arith;
  link_fits = omega arith;
  err_fits = omega arith;
  dev_fits = omega arith;
  ino_fits = omega arith;
  nlink_fits = omega arith;
}

next-entry_bytes_example :
    next (decoder (codes "/usr") (entry_bytes usr_ls (codes "/usr") ++ codes "rest"))
    ≡ got usr_ls (decoder usr_ls.path (codes "rest"))
unfolding compare_key
next-entry_bytes_example =
    RoundTrip.next-entry_bytes usr_ls (codes "/usr") (codes "rest") usr_ls-IsStorable
      ((λ h. cc), inr refl)

pub usr_rm-IsStorable : IsStorable usr_rm
usr_rm-IsStorable = record {
  type_fits = omega arith;
  mode_fits = omega arith;
  uid_fits = omega arith;
  gid_fits = omega arith;
  size_fits = omega arith;
  mtime_fits = omega arith;
  hash_fits = refl;
  hash_zero = λ h. cc;
  path_fits = omega arith;
  link_fits = omega arith;
  err_fits = omega arith;
  dev_fits = omega arith;
  ino_fits = omega arith;
  nlink_fits = omega arith;
}

decode_block-block_bytes_example : decode_block (block_bytes [] olds) ≡ some olds
decode_block-block_bytes_example =
    RoundTrip.decode_block-block_bytes olds (usr_ls-IsStorable, (usr_rm-IsStorable, tt))
      ((λ h. cc), ((λ h. cc), tt)) olds-IsSorted

add_all-Sound_example :
    Sound false
      (W.new_writer disk plain no_digest (codes "{}")
        and_then W.add_all disk plain no_digest olds).0
add_all-Sound_example =
    Offsets.add_all-Sound disk plain no_digest (λ f p. omega arith) (codes "{}") olds

close-IsSealed_example :
    IsSealed no_digest
      (W.new_writer disk plain no_digest (codes "{}")
        and_then W.add_all disk plain no_digest olds
        and_then W.close disk plain no_digest).0.file
unfolding W.new_writer W.add_all W.add W.close W.write W.write_raw W.write_packed W.flush_block
    W.write_index compare_key append_entry entry_bytes put_uvarint shared_prefix to_u64 zigzag
close-IsSealed_example =
    Sealed.close-IsSealed disk plain no_digest (λ f p. omega arith) (λ f p h. refl) (codes "{}")
      olds refl

pub written_small :
    (length written.file ≡ 274) × (length (index_section disk plain no_digest written.index) ≡ 11)
unfolding W.new_writer W.add_all W.add W.close W.write W.write_raw W.write_packed W.flush_block
    W.write_index W.put_all put_le W.index_bytes compare_key append_entry entry_bytes put_uvarint
    shared_prefix to_u64 zigzag
written_small = (refl, refl)

write_all-ReadsBack_example :
    ((write_all disk plain no_digest (codes "{}") olds).1 ≡ none)
    × ReadsBack no_digest some any_meta
        (codes "{}")
        olds
        (write_all disk plain no_digest (codes "{}") olds).0.file
write_all-ReadsBack_example =
    Container.write_all-ReadsBack disk plain no_digest some any_meta (codes "{}") olds (λ f p. refl)
      (λ raw. refl) (λ raw h. omega arith) (λ p. refl) refl (omega arith)
      (usr_ls-IsStorable, (usr_rm-IsStorable, tt)) ((λ h. cc), ((λ h. cc), tt)) olds-IsSorted
      (omega arith) (omega (arith, written_small)) (omega (arith, written_small))

-- A file that is not a container.
no_index :
    int_lt
      (pos max_alloc)
      (field 5 (drop (length {A = ℕ} (replicate 200 0) - footer_size) (replicate 200 0)))
    ≡ false
unfolding get_le osfp.Base.Int.from_u64
no_index = refl

new_reader-no_panic_example : new_reader some any_meta (replicate 200 0) ≢ err panic
new_reader-no_panic_example =
    Unpanicking.new_reader-no_panic some any_meta (replicate 200 0) no_index

entry_bytes-length_le_example : length (entry_bytes usr_ls (codes "/usr")) ≤ 262144
entry_bytes-length_le_example = Sizes.entry_bytes-length_le usr_ls (codes "/usr") usr_ls-IsStorable
