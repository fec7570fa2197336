-- ===== src/Store.antt =====
-- internal/store: the .osfp container.
pub mod Varint
pub mod Format
pub mod Encode
pub mod Decode
pub mod Writer
pub mod Reader
pub mod Meta
pub mod Cursor
pub mod Container
pub mod RoundTrip
