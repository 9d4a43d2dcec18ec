-- ===== src/Ai.antt =====
-- clients/rust/cachebox-client/src/ai.rs: cache keys of prompts and embeddings, and captured streams.
pub mod Json
pub mod Keys
pub mod Words
pub mod Steps
pub mod Parts
pub mod Cancel
pub mod Normal
pub mod Digest
pub mod Order
pub mod Capture
mod Tests
