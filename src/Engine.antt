-- ===== src/Engine.antt =====
-- The in-memory cache engine (src/engine.rs).
pub mod Types
pub mod Entry
pub mod Expiry
pub mod Tags
pub mod Hashing
pub mod Store
pub mod Read
pub mod Lease
pub mod Invariant
pub mod Expiration
pub mod View
pub mod Writes
pub mod Windows
pub mod Reads
pub mod Leases
pub mod Completions
pub mod Costs
pub mod Reachable
mod Tests
