-- ===== src/Checkout.antt =====
-- The checkout transaction of crates/sync-core/src/checkout.rs, its journal and its recovery.
pub mod Journal
pub mod World
pub mod Writing
pub mod Atomic
pub mod Crash
pub mod Restores
pub mod Machine
pub mod Apply
pub mod Databases
pub mod Rollback
pub mod Recovery
pub mod Transact
pub mod Rules
pub mod Calls
pub mod Layout
pub mod Undo
pub mod Undone
pub mod Loops
pub mod Rolled
pub mod Rewound
pub mod Idle
pub mod Installed
pub mod Applied
pub mod Phases
pub mod Early
pub mod Late
pub mod Journaling
pub mod Sound
pub mod Concluded
pub mod Recovered
pub mod Resumed
