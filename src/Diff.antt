-- ===== src/Diff.antt =====
-- internal/diff: the join of a fingerprint with a live filesystem.
pub mod Op
pub mod Classify
pub mod Ignore
pub mod Merge
