-- ===== src/Tests.antt =====
-- Runs of the models at concrete inputs, and the theorems at inputs that meet their hypotheses.
pub mod Leasing
pub mod Tracks
pub mod Merging
pub mod History
pub mod Collection
pub mod Named
pub mod Purges
pub mod Checkouts
