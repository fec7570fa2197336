-- ===== src/Scan/Tree.antt =====
-- What the calls of a walk return: a finite tree, in which each path is read at most once.
use osfp.Base.{ℕ, Bytes, ℤ, Bool}

-- What `lstat` says of an object; `mode` is Go's `fs.FileMode`.
pub record Stat : Type 0 where
  pub mode : ℕ
  pub size : ℤ
  pub mtime : ℤ
  pub uid : ℕ
  pub gid : ℕ
  pub dev : ℕ
  pub ino : ℕ
  pub nlink : ℕ

-- A value, or the text of the error.
pub data Answer : Type 0 where
  answer : Bytes → Answer
  error : Bytes → Answer

-- Besides its `Stat` an object has the answer of `os.Readlink`, that of opening and hashing it, and
-- that of `fsTypeName`; a directory has that of `os.ReadDir`, in the order in which it lists: with
-- an error come the children that were read before it.
mutual
  pub data Node : Type 0 where
    node : Stat → Answer → Answer → Bytes × Bool → Listing → Node

  pub data Listing : Type 0 where
    unreadable : Bytes → Children → Listing
    listed : Children → Listing

  pub data Children : Type 0 where
    nil : Children
    child : Bytes → Found → Children → Children

  -- A listed name may be gone when it is stat'ed.
  pub data Found : Type 0 where
    gone : Bytes → Found
    there : Node → Found
