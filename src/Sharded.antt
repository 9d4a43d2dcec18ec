-- ===== src/Sharded.antt =====
-- `ShardedEngine` of src/engine.rs.
pub mod Directory
pub mod Store
pub mod Retags
pub mod Sound
pub mod Invalidation
pub mod Budget
pub mod Start
mod Tests
