-- ===== src/Metadata.antt =====
-- The metadata store of the server, apps/sync-server/src/metadata.rs: the SQLite tables as lists of
-- rows, and each method of `MetadataStore` as a function of the tables. A method that fails returns
-- no tables, since its transaction is rolled back.
pub mod Tables
pub mod Revisions
pub mod Commits
mod Swap
pub mod Commit
pub mod Retry
pub mod History
pub mod Undo
pub mod RoundTrip
pub mod Reachability
pub mod Closure
pub mod Gc
pub mod Collect
pub mod Safety
pub mod Upload
pub mod Plan
pub mod Names
pub mod Purge
pub mod Purging
pub mod Doomed
pub mod Spared
pub mod Swept
pub mod Naming
pub mod Final
