-- ===== src/Wallet.antt =====
-- internal/walletauth/store.go: the logins that wallets get from released reservations.
pub mod Bindings
pub mod Polls
pub mod Exclusive
pub mod Revoked
pub mod Materialized
mod Examples
