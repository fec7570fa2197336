-- ===== src/Diff/Op/Codes.antt =====
-- The codes of the operations and what `ParseOp` makes of them.
use osfp.Base.{Bytes, true, List, [], ◌∷◌, some, ◌≡◌, ◌≢◌, refl, arith, Bool-cases, inl, inr}
use osfp.Text.{trim_space, equal_fold}
use osfp.Diff.Op.{
  Op, op_none, op_added_dir, op_removed_dir, op_changed_dir, op_added, op_removed, op_changed_file,
  op_changed_meta, op_type_changed, op_retargeted, op_unreadable, op_string, all_ops, find_op,
  parse_op,
}

find_op_sound :
    (s : Bytes) (ops : List Op) (op : Op)
    → find_op s ops ≡ some op
    → equal_fold s (op_string op) ≡ true
unfolding find_op
find_op_sound s [] op h = cc
find_op_sound s (o ∷ ops) op h = elim (Bool-cases (equal_fold s (op_string o))) [
  | inl here ↦ ground (arith, here)
  | inr past ↦ find_op_sound s ops op (rw past at h)
]

-- A text is parsed as an operation only if it is the operation's code up to case and surrounding
-- space.
pub parse_op_sound :
    (s : Bytes) (op : Op) → parse_op s ≡ some op → equal_fold (trim_space s) (op_string op) ≡ true
unfolding parse_op
parse_op_sound s op h = find_op_sound (trim_space s) all_ops op h

-- The code of every operation that a report may show is parsed as that operation.
pub parse_op-op_string : (op : Op) → op ≢ op_none → parse_op (op_string op) ≡ some op
unfolding parse_op find_op op_string trim_space equal_fold
parse_op-op_string op_none h = absurd (h refl)
parse_op-op_string op_added_dir h = refl
parse_op-op_string op_removed_dir h = refl
parse_op-op_string op_changed_dir h = refl
parse_op-op_string op_added h = refl
parse_op-op_string op_removed h = refl
parse_op-op_string op_changed_file h = refl
parse_op-op_string op_changed_meta h = refl
parse_op-op_string op_type_changed h = refl
parse_op-op_string op_retargeted h = refl
parse_op-op_string op_unreadable h = refl
