-- ===== src/Lib.antt =====
-- Codex Session Sync: a desktop application keeps snapshots of local Codex sessions and shares them, by
-- namespaces of revisions, through a server.
--
-- The parts and their files. Paths are from the root of the repository.
-- - Protocol: digests, crates/sync-core/src/protocol.rs.
-- - Metadata: the server's tables and operations, apps/sync-server/src/metadata.rs. Tables has the rows,
--   Names the operations on namespaces, Revisions what is read and checked of a revision, Commits
--   `commit_revision` and `commit_revision_root`, History the truncation of a history and its restore,
--   Purge and Purging its purge, Reachability the set of objects that are kept (`reachable_objects`), Gc
--   the uploads, the plan and the queue of the garbage collector, with the loop `process_gc_entries` of
--   apps/sync-server/src/api.rs. The other modules hold proofs.
-- - Tracking: the desktop's record of what each Codex home has integrated, `TrackingStore` of
--   crates/sync-core/src/sync.rs. Rows has the tables, Store the operations, Swap and Reconcile proofs.
-- - Merge: the three-way merge of threads, crates/sync-core/src/sync.rs. Bundle has the data and
--   `remote_thread_view`, Threads and Resolutions the merge and the resolution of its conflicts.
-- - Jobs: the leases and background jobs of apps/desktop/src-tauri/src/jobs.rs. Leases and Life have the
--   operations; Registry, Worlds, Tallies, Exclusion, Homes, Settled and
--   Ends what threads can bring about with them.
-- - Checkout: the transaction that replaces the files of a Codex home, with its journal, and its recovery,
--   crates/sync-core/src/checkout.rs. Journal has the data and the validation of a journal, World the calls
--   to the system, Machine the parameters, Apply, Databases and Transact the steps of a checkout from the
--   first journal on (`transact`, the rest of `checkout_local_snapshot_internal`), Rollback and Recovery
--   `rollback_checkout` and `recover_checkout_operation`. Layout says which part of the operation a path is
--   and what can be put back; Rules, Calls, Journaling and Loops are rules for programs; Undo, Undone,
--   Rolled and Rewound are about the rollback, Idle about one of files that were not touched, Sound, Concluded,
--   Recovered and Resumed about the recovery, Installed and Applied about the swaps, Phases, Early, Late,
--   Writing and Atomic about the checkout; Crash and Restores have the outcomes.
-- - Tests: concrete runs, and each theorem at concrete inputs.
--
-- How they interact. A desktop job takes leases, merges what the server has with what a Codex home has,
-- commits the outcome as a revision under the head and the epoch that it read, and records in the tracking
-- store what it integrated. A commit, a truncation and a compare-and-set are each one transaction, which
-- an error rolls back; so an operation is a function from a state to a result, and an error has no state.
-- Calls that threads make under one mutex are steps of a relation on states (Jobs.Worlds, Jobs.Settled).
--
-- A checkout acts on a `World`: the files, the journal on the disk, its temporary file, the journal in
-- memory, the tracking database, and a list of fates. Each call that changes something takes the next fate: it
-- works, it reports an error and changes nothing, or the process stops before it. All crash points and all
-- errors are so covered; a run has no fuel. What a theorem needs of the paths is `Layout` and `Planned`:
-- each path has one part in the operation, and the places for backups and failed states are free.
--
-- Numbers. u64, i64 and usize are natural numbers with the source's checks and wrap-around written out.
-- An i64 column that is read by `as u64` is kept as that u64.
-- Fuel. `walk` has the source's own bound of 100 000 revisions as its fuel. `close` has a round for each
-- edge, which is enough: a round adds the target of an edge that was not yet collected.
--
-- Parameters. UUID versions and RFC 3339 parsing (`Externals`), the digest of a plan, the digests of
-- bundles and conflicts (`Digests`), fresh identifiers, the clock, and what a checkout asks of SQLite, of
-- the scan and of the digest (`Machine`).
-- Not modelled: HTTP, the migration of schemas, the object stores, the part of a checkout before its
-- journal, a file that a failing call leaves half written, the scanner of Codex homes and the user
-- interface.
pub mod Checkout
pub mod Jobs
pub mod Merge
pub mod Metadata
pub mod Prelude
pub mod Protocol
pub mod Tests
pub mod Tracking
