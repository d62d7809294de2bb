-- ===== src/Upgrade.antt =====
-- internal/upgrade/runner.go and internal/model/upgrade.go: batches of image upgrades.
pub mod Rows
pub mod Task
pub mod Run
pub mod Effects
pub mod FailFast
pub mod Resume
pub mod Success
mod Examples
