-- ===== src/Tags.antt =====
-- internal/ghcr/client.go: the list of an image's tags.
pub mod Sorting
pub mod Semver
pub mod Listing
pub mod Listed
mod Examples
