-- ===== src/Ir/Validate.antt =====
-- crates/laminaria-ir/src/validate.rs: the checks between a candidate program and a validated one.
-- The set of bound locals is passed on and handed back, as the source does by `&mut`.
pub mod WellFormed
pub mod Exact
use laminaria_rust_nim_toolc.Prelude.{
  ℕ, ℤ, pos, negsuc, String, Bool, true, false, List, [], ◌∷◌, Option, none, some, length, ltb,
  if◌then◌else◌, ◌==◌,
}
use laminaria_rust_nim_toolc.Ir.Types.{
  LocalId, IntWidth, i32, Expr, Exprs, Stmt, int_lit, param, local, wrapping_add, wrapping_sub,
  wrapping_mul, not_eq_zero, call, let_in, nil, cons, let_then, if_else, return, count_exprs,
  FnFact, Program, get_fact,
}

pub data ProgramValidationError : Type 0 where
  unbound_local : (function : String) → LocalId → ProgramValidationError
  param_out_of_range : (function : String) (index param_count : ℕ) → ProgramValidationError
  unknown_callee : (function callee : String) → ProgramValidationError
  arity_mismatch : (function callee : String) (expected got : ℕ) → ProgramValidationError
  value_out_of_range : (function : String) → ℤ → IntWidth → ProgramValidationError
  condition_used_as_value : (function : String) → ProgramValidationError
  value_used_as_condition : (function : String) → ProgramValidationError

pub data Checked (A : Type 0) : Type 0 where
  ok : A → Checked A
  err : ProgramValidationError → Checked A

infixl 5 ◌>>=◌
abbrev pub ◌>>=◌ : {A B : Type 0} → Checked A → (A → Checked B) → Checked B
ok a >>= f = f a
err e >>= f = err e

abbrev pub guard : Bool → ProgramValidationError → Checked (Unit {0})
guard true e = ok tt
guard false e = err e

-- `BTreeSet<LocalId>`
abbrev pub Bound : Type 0
Bound = LocalId → Bool

abbrev pub put : LocalId → Bool → Bound → Bound
put x b bound y = if x == y then b else bound y

-- The set after `f`, with `x` taken out again if this call put it in.
abbrev pub with_bound : Bound → LocalId → (Bound → Checked Bound) → Checked Bound
with_bound bound x f =
    f (put x true bound) >>= λ after. ok (if bound x then after else put x false after)

-- `i32::MIN <= value && value <= i32::MAX`
abbrev pub fits : IntWidth → ℤ → Bool
fits i32 (pos n) = ltb n 0x80000000
fits i32 (negsuc n) = ltb n 0x80000000

abbrev pub is_condition : Expr → Bool
is_condition (int_lit v w p) = false
is_condition (not_eq_zero e p) = true
is_condition _ = false

abbrev pub arity_of : String → String → Option FnFact → Checked ℕ
arity_of fn callee none = err (unknown_callee fn callee)
arity_of fn callee (some fact) = ok (length fact.params)

-- `program.functions.get(callee_name)`, and the callee's parameter count
abbrev pub callee_arity : Program → String → String → Checked ℕ
callee_arity program fn callee = arity_of fn callee (get_fact program callee)

module _ (program : Program) (fn : String) (param_count : ℕ) where
  unfoldable mutual
    -- The flag says that the expression is the condition of an `if`.
    pub validate_expr : Expr → Bool → Bound → Checked Bound
    validate_expr (int_lit v w p) cond bound =
        guard (fits w v) (value_out_of_range fn v w) >>= λ _. ok bound
    validate_expr (param i p) cond bound =
        guard (ltb i param_count) (param_out_of_range fn i param_count) >>= λ _. ok bound
    validate_expr (local x p) cond bound = guard (bound x) (unbound_local fn x) >>= λ _. ok bound
    validate_expr (wrapping_add a b p) cond bound =
        validate_expr a false bound >>= validate_expr b false
    validate_expr (wrapping_sub a b p) cond bound =
        validate_expr a false bound >>= validate_expr b false
    validate_expr (wrapping_mul a b p) cond bound =
        validate_expr a false bound >>= validate_expr b false
    validate_expr (not_eq_zero e p) cond bound =
        guard cond (condition_used_as_value fn) >>= λ _. validate_expr e false bound
    validate_expr (call callee args p) cond bound = callee_arity program fn callee >>= λ expected.
        guard (expected == count_exprs args) (arity_mismatch fn callee expected (count_exprs args))
        >>= λ _. validate_args args bound
    validate_expr (let_in x v b p) cond bound =
        validate_expr v false bound >>= λ after. with_bound after x (validate_expr b false)

    pub validate_args : Exprs → Bound → Checked Bound
    validate_args nil bound = ok bound
    validate_args (cons e es) bound = validate_expr e false bound >>= validate_args es

  unfoldable pub validate_stmt : Stmt → Bound → Checked Bound
  validate_stmt (let_then x v b p) bound =
      validate_expr v false bound >>= λ after. with_bound after x (validate_stmt b)
  validate_stmt (if_else c t e p) bound =
      guard (is_condition c) (value_used_as_condition fn) >>= λ _.
      validate_expr c true bound >>= λ after. validate_stmt t after >>= validate_stmt e
  validate_stmt (return e p) bound = validate_expr e false bound

unfoldable pub validate_fn : Program → String → FnFact → Checked Bound
validate_fn program name fact =
    validate_stmt program name (length fact.params) fact.body (λ _. false)

-- The loop over the functions, in key order.
unfoldable pub validate_all : Program → List (String × FnFact) → Checked (Unit {0})
validate_all program [] = ok tt
validate_all program ((name, fact) ∷ rest) =
    validate_fn program name fact >>= λ _. validate_all program rest

-- A program that passed; only `validate_program` makes one.
pub record ValidatedProgram : Type 0 where
  pub program : Program

unfoldable pub validate_program : Program → Checked ValidatedProgram
validate_program program =
    validate_all program program.functions >>= λ _. ok (record { program = program })
