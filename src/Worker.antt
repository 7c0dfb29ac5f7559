-- ===== src/Worker.antt =====
-- The sync worker: crates/tuskd/src/sync_worker.rs and the state that it keeps.
pub mod State
pub mod Scan
pub mod Pull
pub mod Push
pub mod Cycle
