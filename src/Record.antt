-- ===== src/Record.antt =====
-- crates/tusk-core/src/record.rs
pub mod Kind
pub mod Fields
pub mod Markdown
mod Rows
pub mod Roundtrip
