-- ===== src/Command.antt =====
-- cmd/osfp: the commands.
pub mod Atomic
pub mod Whole
pub mod Compare
pub mod Baseline
pub mod Dispatch
pub mod Version
pub mod Info
pub mod Progress
pub mod Exit
pub mod Drift
