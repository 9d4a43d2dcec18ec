-- ===== src/Client.antt =====
-- clients/rust/cachebox-client/src/lib.rs: the client of the native protocol.
pub mod Types
pub mod Stream
pub mod Requests
pub mod Matcher
pub mod Kinds
pub mod Slots
pub mod AnyOrder
pub mod Filled
pub mod Settled
pub mod InOrder
pub mod Queue
pub mod Reading
pub mod Pipelined
pub mod Loopback
mod Tests
