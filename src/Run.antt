-- ===== src/Run.antt =====
-- crates/laminaria-run/src: admission of physical work to the machine's resources, and its commits.
pub mod Resources
pub mod Commit
pub mod Scheduler
pub mod Samples
pub mod Examples
