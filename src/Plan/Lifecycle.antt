-- ===== src/Plan/Lifecycle.antt =====
-- crates/laminaria-plan/src/obligation_lifecycle.rs: the graph that resolution, execution and
-- publication share.
pub mod Types
pub mod Checks
pub mod Reachable
pub mod History
pub mod Resolve
pub mod Operate
pub mod Publication
pub mod Publishable
pub mod Histories
pub mod Sequences
pub mod Steps
mod Keeps
mod Kept
pub mod Atomic
pub mod Turns
mod Demanded
pub mod Promise
mod Explaining
