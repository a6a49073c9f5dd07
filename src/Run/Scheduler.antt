-- ===== src/Run/Scheduler.antt =====
-- crates/laminaria-run/src/resource_scheduler.rs: the scheduler of physical work.
pub mod Types
pub mod State
pub mod Admit
pub mod Operations
pub mod Start
pub mod Cycle
pub mod Execute
pub mod Valid
pub mod Change
pub mod Ends
pub mod Admitting
pub mod Releasing
pub mod Cancelling
pub mod Ending
pub mod Committing
pub mod Starting
pub mod Beginning
pub mod New
pub mod Steps
pub mod Guarantees
pub mod Refusing
pub mod Reserving
