-- ===== src/Gate.antt =====
-- crates/tusk-core/src/gate.rs: which candidates become records.
pub mod Words
pub mod Commit
pub mod Submit
pub mod Review
pub mod Graduate
