-- ===== src/Entry/Kinds.antt =====
-- The kinds of a filesystem object are the letters that `ls` uses; a Go file mode gives one.
use Prim.Native.Nat.{bit_and, bit_or}
use osfp.Base.{ℕ, Bytes, codes, Bool, not, ◌==◌, if◌then◌else◌, ◌+◌, ◌^◌}

abbrev pub type_unknown : ℕ
type_unknown = 0

abbrev pub type_dir : ℕ
type_dir = b'd'

abbrev pub type_file : ℕ
type_file = b'f'

abbrev pub type_symlink : ℕ
type_symlink = b'l'

abbrev pub type_fifo : ℕ
type_fifo = b'p'

abbrev pub type_socket : ℕ
type_socket = b's'

abbrev pub type_char_device : ℕ
type_char_device = b'c'

abbrev pub type_block_device : ℕ
type_block_device = b'b'

abbrev pub type_error : ℕ
type_error = b'!'

-- `Type.String`
unfoldable pub type_string : ℕ → Bytes
type_string t =
    if t == type_dir
    then codes "directory"
    else if t == type_file
    then codes "file"
    else if t == type_symlink
    then codes "symlink"
    else if t == type_fifo
    then codes "fifo"
    else if t == type_socket
    then codes "socket"
    else if t == type_char_device
    then codes "character device"
    else if t == type_block_device
    then codes "block device"
    else if t == type_error
    then codes "unreadable"
    else codes "unknown"

-- The bits of `fs.FileMode` that the program reads.
abbrev pub mode_dir : ℕ
mode_dir = 2 ^ 31

abbrev pub mode_symlink : ℕ
mode_symlink = 2 ^ 27

abbrev pub mode_device : ℕ
mode_device = 2 ^ 26

abbrev pub mode_named_pipe : ℕ
mode_named_pipe = 2 ^ 25

abbrev pub mode_socket : ℕ
mode_socket = 2 ^ 24

abbrev pub mode_setuid : ℕ
mode_setuid = 2 ^ 23

abbrev pub mode_setgid : ℕ
mode_setgid = 2 ^ 22

abbrev pub mode_char_device : ℕ
mode_char_device = 2 ^ 21

abbrev pub mode_sticky : ℕ
mode_sticky = 2 ^ 20

abbrev pub mode_irregular : ℕ
mode_irregular = 2 ^ 19

-- `fs.ModeType`
abbrev pub mode_type : ℕ
mode_type =
    mode_dir + mode_symlink + mode_named_pipe + mode_socket + mode_device + mode_char_device
    + mode_irregular

-- `m & bit != 0`
abbrev has_bit : ℕ → ℕ → Bool
has_bit m bit = not (bit_and m bit == 0)

-- `typeOf`
unfoldable pub type_of : ℕ → ℕ
type_of m =
    if bit_and m mode_type == 0
    then type_file
    else if has_bit m mode_dir
    then type_dir
    else if has_bit m mode_symlink
    then type_symlink
    else if has_bit m mode_named_pipe
    then type_fifo
    else if has_bit m mode_socket
    then type_socket
    else if has_bit m mode_char_device
    then type_char_device
    else if has_bit m mode_device
    then type_block_device
    else type_unknown

-- `unixMode`; `m.Perm()` is the lowest nine bits
unfoldable pub unix_mode : ℕ → ℕ
unix_mode m =
    let out = bit_and m 0o777 in
    let out = if has_bit m mode_setuid then bit_or out 0o4000 else out in
    let out = if has_bit m mode_setgid then bit_or out 0o2000 else out in
    if has_bit m mode_sticky then bit_or out 0o1000 else out
