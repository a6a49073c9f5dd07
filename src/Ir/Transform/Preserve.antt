-- ===== src/Ir/Transform/Preserve.antt =====
-- What `anf_insert` does to the runs of a program.
pub mod Trace
pub mod Sim
mod Rename
pub mod Room
mod Walked
mod Body
pub mod Ids
mod Graft
mod Caller
mod Same
mod Stmts
mod Facts
mod Accepted
pub mod Program
