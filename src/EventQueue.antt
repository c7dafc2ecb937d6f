-- ===== src/EventQueue.antt =====
-- crates/piperine-solver/src/analyses/events.rs: one typed queue for every time at which the
-- transient analysis must land.
pub mod Kinds
pub mod Entry
pub mod Queue
pub mod Drain
pub mod Rollback
mod Examples
