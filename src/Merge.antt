-- ===== src/Merge.antt =====
-- The three-way merge of thread sets in crates/sync-core/src/sync.rs.
pub mod Bundle
pub mod Threads
pub mod Maps
pub mod Rounds
pub mod ThreeWay
pub mod Resolutions
pub mod View
pub mod Again
pub mod Applied
pub mod Resolved
