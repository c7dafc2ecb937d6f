-- ===== src/Digital.antt =====
-- piperine-solver/src/digital: logic values, events, run state and scheduler.
pub mod Logic
pub mod Event
pub mod State
pub mod Interface
pub mod Scheduler
pub mod Dag
pub mod Topology
pub mod Circuit
mod Examples
