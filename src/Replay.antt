-- ===== src/Replay.antt =====
-- internal/trusttask/replay.go: the guard against a document that is executed twice.
pub mod Guard
pub mod Final
pub mod Lease
mod Examples
