-- ===== src/Report/Header.antt =====
-- internal/report/report.go: what a report is told at its start and at its end. A time is its Unix
-- seconds, a duration its nanoseconds.
use osfp.Base.{ℕ, Bytes, Bool, List, ℤ}
use osfp.Diff.Merge
use osfp.Scan.Settings
use osfp.Scan.Settings.{SkippedMount}
use osfp.Store.Meta.{Meta}

pub record Header : Type 0 where
  pub tool : Bytes
  pub tool_version : Bytes
  pub baseline_path : Bytes
  pub baseline : Meta
  pub system_key : Bytes
  pub system_name : Bytes
  pub scanned_at : ℤ
  pub privileged : Bool
  pub extra_exclusions : List Bytes
  pub ignore_rules : List Bytes
  pub new_dir_mode : Bytes

-- `Summary`; the mounts and the duration stand in Go's `scan.Stats`.
pub record Summary : Type 0 where
  pub diff : Merge.Stats
  pub scan : Settings.Stats
  pub skipped : List SkippedMount
  pub elapsed : ℤ
  pub expected : ℕ
