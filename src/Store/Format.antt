-- ===== src/Store/Format.antt =====
-- internal/store/format.go: the sizes, limits and flags of the container.
use osfp.Base.{ℕ, ◌+◌, ◌*◌, ◌^◌, Bytes, codes, [], ◌∷◌, ◌++◌}

abbrev pub magic : Bytes
magic = codes "OSFP" ++ 0 ∷ []

abbrev pub footer_magic : Bytes
footer_magic = codes "OSFP" ++ 0 ∷ codes "END"

abbrev pub format_version : ℕ
format_version = 1

abbrev pub hash_sha256 : ℕ
hash_sha256 = 1

abbrev pub compression_none : ℕ
compression_none = 0

abbrev pub compression_zstd : ℕ
compression_zstd = 1

abbrev pub header_size : ℕ
header_size = 32

abbrev pub footer_size : ℕ
footer_size = 9 * 8 + 32 + 8

abbrev pub block_header_size : ℕ
block_header_size = 8

abbrev pub default_block_size : ℕ
default_block_size = 64 * 2 ^ 10

abbrev pub max_block_size : ℕ
max_block_size = 64 * 2 ^ 20

abbrev pub max_string_size : ℕ
max_string_size = 64 * 2 ^ 10

abbrev pub max_meta_size : ℕ
max_meta_size = 8 * 2 ^ 20

abbrev pub flag_hashed : ℕ
flag_hashed = 1

abbrev pub flag_partial : ℕ
flag_partial = 2

abbrev pub flag_link : ℕ
flag_link = 4

abbrev pub flag_hardlink : ℕ
flag_hardlink = 8

abbrev pub flag_error : ℕ
flag_error = 16
