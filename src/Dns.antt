-- ===== src/Dns.antt =====
-- internal/dnscheck/checker.go: the checks of the records that the owner of a domain creates.
pub mod Answers
pub mod Hosts
pub mod Addresses
pub mod Verdict
pub mod Parallel
pub mod Txt
mod Examples
