-- ===== src/Plan.antt =====
-- crates/laminaria-plan/src: dependency obligations and their lifecycle up to publication.
pub mod Obligations
pub mod Lifecycle
pub mod PhysicalWork
mod Samples
mod Examples
