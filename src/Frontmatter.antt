-- ===== src/Frontmatter.antt =====
-- crates/tusk-core/src/frontmatter.rs: the codec of the header of record files.
pub mod Quoting
pub mod Lists
pub mod Parser
pub mod Printer
pub mod Roundtrip
