-- ===== src/Ir.antt =====
-- crates/laminaria-ir/src: the owned IR, its interpreter, validator and inlining transforms.
pub mod Types
pub mod Locals
pub mod Interpreter
pub mod Validate
pub mod Safety
pub mod Transform
mod Samples
mod Examples
