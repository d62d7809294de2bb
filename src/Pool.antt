-- ===== src/Pool.antt =====
-- internal/pool: the inventory of prebuilt VTAs. A batch groups setup sessions that wait for an
-- administrator; the claims on them are the reservations of the module Connection.
pub mod Rows
pub mod Identifiers
pub mod Filling
pub mod Admission
pub mod Addition
pub mod Frame
pub mod Repeated
pub mod Bounded
pub mod Lengths
pub mod Fits
pub mod Claims
pub mod Cleanup
pub mod Worker
pub mod Reserved
pub mod Protected
pub mod Noted
pub mod Teardown
mod Requests
mod Examples
