-- ===== src/Keys.antt =====
-- internal/didresolver/didkey.go: base58btc and the keys of did:key.
pub mod Base58
pub mod Digits
pub mod Alphabet
pub mod RoundTrip
pub mod DidKey
pub mod Canonical
mod Examples
