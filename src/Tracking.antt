-- ===== src/Tracking.antt =====
-- `TrackingStore` of crates/sync-core/src/sync.rs: which revision each Codex home has integrated of each
-- namespace, and which namespace is active in a home. A call is one immediate transaction of SQLite, so an
-- error leaves the database as it was. Keys of homes come resolved (`codex_home_key`), `now` is the clock.
use codex_session_sync.Prelude.{nat_eq, string_eq, option_eq}
pub mod Rows
pub mod Store
pub mod Swap
pub mod Reconcile
