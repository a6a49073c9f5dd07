-- ===== src/Ir/Transform/Result.antt =====
-- crates/laminaria-ir/src/transform/mod.rs: the ways in which a transform refuses.
use laminaria_rust_nim_toolc.Prelude.{ℕ, String}
use laminaria_rust_nim_toolc.Ir.Validate.{ProgramValidationError}

pub data TransformError : Type 0 where
  unknown_caller unknown_callee : String → TransformError
  unsupported_callee_shape : (callee : String) → TransformError
  would_duplicate_effect would_drop_effect : (callee : String) (param_index : ℕ) → TransformError
  would_reorder_effects : (callee : String) (earlier_arg later_arg : ℕ) → TransformError
  would_reorder_relative_to_callee_call : (callee : String) (param_index : ℕ) → TransformError
  postcondition_violated : ProgramValidationError → TransformError

pub data Result (A : Type 0) : Type 0 where
  ok : A → Result A
  err : TransformError → Result A
  panic : Result A

infixl 5 ◌>>=◌
abbrev pub ◌>>=◌ : {A B : Type 0} → Result A → (A → Result B) → Result B
ok value >>= next = next value
err reason >>= next = err reason
panic >>= next = panic
