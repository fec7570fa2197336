-- ===== src/Diff/Op.antt =====
-- internal/diff/op.go: the categories of a difference and their codes.
pub mod Codes
use osfp.Base.{
  ℕ, ◌+◌, Bytes, codes, Bool, true, false, ◌&&◌, List, [], ◌∷◌, ◌++◌, Option, none, some, leb, ◌==◌,
  bytes_eq, if◌then◌else◌, map,
}
use osfp.Text.{trim_space, split_on, equal_fold}

pub data Op : Type 0 where
  op_none op_added_dir op_removed_dir op_changed_dir op_added op_removed op_changed_file
        op_changed_meta op_type_changed op_retargeted op_unreadable :
      Op

-- `AllOps`
abbrev pub all_ops : List Op
all_ops =
    op_added_dir ∷ op_removed_dir ∷ op_changed_dir ∷ op_added ∷ op_removed ∷ op_changed_file
    ∷ op_changed_meta ∷ op_type_changed ∷ op_retargeted ∷ op_unreadable ∷ []

-- `Op.String`, the table `opNames` included
unfoldable pub op_string : Op → Bytes
op_string op_added_dir = codes "+D"
op_string op_removed_dir = codes "-D"
op_string op_changed_dir = codes "~D"
op_string op_added = codes "+F"
op_string op_removed = codes "-F"
op_string op_changed_file = codes "~F"
op_string op_changed_meta = codes "%F"
op_string op_type_changed = codes "!T"
op_string op_retargeted = codes "~L"
op_string op_unreadable = codes "?E"
op_string op_none = codes "="

-- `==` on operations
abbrev pub op_index : Op → ℕ
op_index op_none = 0
op_index op_added_dir = 1
op_index op_removed_dir = 2
op_index op_changed_dir = 3
op_index op_added = 4
op_index op_removed = 5
op_index op_changed_file = 6
op_index op_changed_meta = 7
op_index op_type_changed = 8
op_index op_retargeted = 9
op_index op_unreadable = 10

abbrev pub op_eq : Op → Op → Bool
op_eq a b = op_index a == op_index b

-- The loop of `ParseOp` over the table. The codes are pairwise different, whatever their case, so
-- the order in which Go visits the map does not show.
unfoldable pub find_op : Bytes → List Op → Option Op
unfolding op_string
find_op s [] = none
find_op s (op ∷ ops) = if equal_fold s (op_string op) then some op else find_op s ops

-- `ParseOp`; `none` is the error
unfoldable pub parse_op : Bytes → Option Op
unfolding find_op trim_space
parse_op s = find_op (trim_space s) all_ops

-- `OpCodes`
unfoldable pub op_codes : List Bytes
unfolding op_string
op_codes = map op_string all_ops

-- A set of operations, Go's `map[Op]bool`.
abbrev pub OpSet : Type 0
OpSet = Op → Bool

abbrev pub no_ops : OpSet
no_ops op = false

abbrev pub add_op : Op → OpSet → OpSet
add_op op set o = if op_eq op o then true else set o

-- The loop of `ParseOps`; the number is `len(set)` or more, and 0 exactly if the set is empty.
unfoldable pub parse_fields : List Bytes → OpSet → ℕ → Option (OpSet × ℕ)
unfolding parse_op trim_space
parse_fields [] set n = some (set, n)
parse_fields (field ∷ fields) set n =
    if bytes_eq (trim_space field) [] then parse_fields fields set n else elim (parse_op field) [
      | none ↦ none
      | some op ↦ parse_fields fields (add_op op set) (n + 1)
    ]

-- `ParseOps`
unfoldable pub parse_ops : Bytes → Option OpSet
unfolding parse_fields split_on
parse_ops list = elim (parse_fields (split_on b',' list) no_ops 0) [
  | none ↦ none
  | some (set, n) ↦ if n == 0 then none else some set
]
