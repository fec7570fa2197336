-- ===== src/Scan.antt =====
-- internal/scan: the walk of a filesystem.
pub mod FsType
pub mod Tree
pub mod Settings
pub mod Walk
pub mod Ring
