-- ===== src/Tools.antt =====
-- crates/tusk-mcp/src/tools.rs: the tools that agents call.
pub mod Args
pub mod Handlers
pub mod Search
pub mod Dispatch
pub mod Guards
pub mod Reads
pub mod Searches
pub mod Found
pub mod Corrections
