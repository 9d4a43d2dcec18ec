-- ===== src/Wire.antt =====
-- The native socket protocol (crates/cachebox-protocol/src/lib.rs).
pub mod Types
pub mod Utf8
pub mod Cursor
pub mod Encode
pub mod Decode
pub mod Agreement
pub mod Borrowed
pub mod Format
pub mod Appends
pub mod Words
pub mod RoundTrip
mod Tests
