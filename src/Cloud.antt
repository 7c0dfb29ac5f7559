-- ===== src/Cloud.antt =====
-- The client side of the cloud: crates/tusk-sync.
pub mod Crypto
pub mod Wrap
pub mod SecretKey
pub mod Provider
pub mod Spaces
pub mod Service
