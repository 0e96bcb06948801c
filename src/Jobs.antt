-- ===== src/Jobs.antt =====
-- The jobs of the desktop application, apps/desktop/src-tauri/src/jobs.rs: the leases on a Codex Home and
-- on a repository, and the life of a job.
pub mod Leases
pub mod Registry
pub mod Worlds
pub mod Tallies
pub mod Exclusion
pub mod Life
pub mod Settled
pub mod Ends
pub mod Homes
