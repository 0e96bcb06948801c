-- ===== src/Protocol.antt =====
-- Validation of the wire protocol, crates/sync-core/src/protocol.rs.
pub mod Sha256
