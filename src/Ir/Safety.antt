-- ===== src/Ir/Safety.antt =====
-- Running what `validate.rs` accepted by `interpreter.rs`: no error, no panic, and `i32` values.
mod Keeps
pub mod Calls
pub mod Runs
