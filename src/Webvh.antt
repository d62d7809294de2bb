-- ===== src/Webvh.antt =====
-- internal/webvh/log.go: the validation of a did:webvh log.
pub mod Result
pub mod Json
pub mod Params
pub mod Entry
pub mod Log
pub mod Lines
pub mod Chain
pub mod Updates
pub mod Authority
pub mod Order
pub mod Identity
mod Examples
