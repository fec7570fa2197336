-- ===== src/Entry.antt =====
-- internal/scan/entry.go: one filesystem object. A Go string is its bytes.
mod Kinds
pub mod Sorted
unfoldable pub use Kinds.*
use osfp.Base.{ℕ, Bytes, ℤ, Bool, ◌==◌}

-- The unit of the fingerprint, of the join and of the report.
pub record Entry : Type 0 where
  pub path : Bytes
  pub type : ℕ
  pub mode : ℕ
  pub uid : ℕ
  pub gid : ℕ
  pub size : ℤ
  pub mtime : ℤ
  pub hash : Bytes
  pub hashed : Bool
  pub partial : Bool
  pub link : Bytes
  pub dev : ℕ
  pub ino : ℕ
  pub nlink : ℕ
  pub err : Bytes

abbrev pub is_dir : Entry → Bool
is_dir e = e.type == type_dir
