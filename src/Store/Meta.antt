-- ===== src/Store/Meta.antt =====
-- internal/store/meta.go: the metadata of a fingerprint. A time is its Unix seconds.
use osfp.Base.{ℕ, Bytes, ℤ, Bool, List}
use osfp.OsDetect.Key.{Info}
use osfp.Store.Reader.{Reader}

pub record ScanOptions : Type 0 where
  pub root : Bytes
  pub mounts : Bytes
  pub max_depth : ℕ
  pub max_file_size : ℕ
  pub jobs : ℕ

pub record Meta : Type 0 where
  pub tool : Bytes
  pub tool_version : Bytes
  pub created_at : ℤ
  pub key : Bytes
  pub system : Info
  pub privileged : Bool
  pub euid : ℕ
  pub scan : ScanOptions
  pub exclusions : List Bytes
  pub entries : ℤ
  pub errors : ℤ
  pub blocks : ℤ

-- `Reader.Meta`: what the decoder makes of the payload, with the numbers of the footer.
abbrev pub meta_of : (Bytes → Meta) → Reader → Meta
meta_of decode r = record (decode r.payload) {
  entries = r.entries;
  errors = r.errors;
  blocks = r.blocks;
}
