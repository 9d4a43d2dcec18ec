-- ===== src/Server.antt =====
-- The native server of src/server.rs, without its sockets and tasks.
pub mod Frames
pub mod Batches
pub mod Answers
pub mod Metrics
pub mod Admin
pub mod Dispatch
pub mod Views
pub mod Reads
pub mod Chunks
pub mod Cuts
pub mod Stream
pub mod Rounds
pub mod Pipeline
pub mod InTurn
pub mod Liveness
pub mod Delivery
mod Tests
mod ConnectionTests
