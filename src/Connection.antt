-- ===== src/Connection.antt =====
-- internal/connection/store.go: the reservations ("mobile connections") by which a wallet claims a
-- VTA. `Rules` and the modules of operations hold the code; the others hold what is proved of it.
pub mod Rules
pub mod Reserve
pub mod Claim
pub mod Provision
pub mod Settle
pub mod Lifecycle
pub mod Moves
pub mod Table
pub mod Valid
pub mod Grows
pub mod Steps
pub mod Settled
pub mod Change
pub mod History
pub mod Claimed
pub mod Results
pub mod Duplicate
mod Examples
