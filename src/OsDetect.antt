-- ===== src/OsDetect.antt =====
-- internal/osdetect: which system is scanned, and the key that names its fingerprint.
pub mod Key
pub mod Spelling
pub mod Keys
pub mod Release
pub mod Host
pub mod Detect
pub mod Folding
pub mod Versions
