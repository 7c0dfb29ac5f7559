-- ===== src/Vault.antt =====
-- crates/tusk-core/src/vault.rs: the files of records, and the operations on them.
pub mod Paths
pub mod Store
pub mod Files
pub mod Reads
pub mod Supersede
