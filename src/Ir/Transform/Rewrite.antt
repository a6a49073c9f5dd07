-- ===== src/Ir/Transform/Rewrite.antt =====
-- crates/laminaria-ir/src/transform/mod.rs: substitution for parameters, the walk that replaces the
-- calls, and the new program.
use laminaria_rust_nim_toolc.Prelude.{
  ℕ, suc, String, List, [], ◌∷◌, Option, none, some, if◌then◌else◌, str_eq,
}
use laminaria_rust_nim_toolc.Ir.Types.{
  LocalId, Provenance, Expr, Exprs, Stmt, int_lit, param, local, wrapping_add, wrapping_sub,
  wrapping_mul, not_eq_zero, call, let_in, nil, cons, let_then, if_else, return, get_expr?, FnFact,
  Program, get_fact, insert_fact,
}
use laminaria_rust_nim_toolc.Ir.Validate.{Checked, validate_program}
use laminaria_rust_nim_toolc.Ir.Transform.Result.{
  Result, ok, err, panic, ◌>>=◌, unknown_caller, unknown_callee, unsupported_callee_shape,
  postcondition_violated,
}

-- A callee can be inlined if its body is one `Return`.
abbrev pub as_simple_return_expr : Stmt → Option Expr
as_simple_return_expr (let_then x v b p) = none
as_simple_return_expr (if_else c t e p) = none
as_simple_return_expr (return e p) = some e

-- Every parameter of the tree replaced by what `at` gives for it, which may be nothing: a panic.
-- The source has this walk twice.
module _ (at : ℕ → Option Expr) where
  unfoldable mutual
    pub substitute_params : Expr → Result Expr
    substitute_params (int_lit v w p) = ok (int_lit v w p)
    substitute_params (param i p) = elim (at i) [ none ↦ panic | some e ↦ ok e ]
    substitute_params (local x p) = ok (local x p)
    substitute_params (wrapping_add a b p) =
        substitute_params a >>= λ a'. substitute_params b >>= λ b'. ok (wrapping_add a' b' p)
    substitute_params (wrapping_sub a b p) =
        substitute_params a >>= λ a'. substitute_params b >>= λ b'. ok (wrapping_sub a' b' p)
    substitute_params (wrapping_mul a b p) =
        substitute_params a >>= λ a'. substitute_params b >>= λ b'. ok (wrapping_mul a' b' p)
    substitute_params (not_eq_zero e p) = substitute_params e >>= λ e'. ok (not_eq_zero e' p)
    substitute_params (call f args p) = substitute_in_args args >>= λ args'. ok (call f args' p)
    substitute_params (let_in x v b p) =
        substitute_params v >>= λ v'. substitute_params b >>= λ b'. ok (let_in x v' b' p)

    pub substitute_in_args : Exprs → Result Exprs
    substitute_in_args nil = ok nil
    substitute_in_args (cons e es) =
        substitute_params e >>= λ e'. substitute_in_args es >>= λ es'. ok (cons e' es')

-- `Param(i)` becomes a copy of `args[i]`.
unfoldable pub substitute_params_verbatim : Expr → Exprs → Result Expr
substitute_params_verbatim body args = substitute_params (get_expr? args) body

abbrev pub local_at : List LocalId → Provenance → ℕ → Option Expr
local_at [] p i = none
local_at (x ∷ xs) p ℕ.zero = some (local x p)
local_at (x ∷ xs) p (suc i) = local_at xs p i

-- `Param(i)` becomes a reference to `locals[i]`.
unfoldable pub substitute_params_with_locals : Expr → List LocalId → Provenance → Result Expr
substitute_params_with_locals body locals p = substitute_params (local_at locals p) body

-- What stands for one call of the callee: from its rewritten arguments, the call's provenance and
-- the counter.
abbrev pub Replace : Type 0
Replace = Exprs → Provenance → ℕ → Result (Expr × ℕ)

module _ (callee : String) (replace : Replace) where
  unfoldable mutual
    pub rewrite_calls_in_expr : Expr → ℕ → Result (Expr × ℕ)
    rewrite_calls_in_expr (int_lit v w p) n = ok (int_lit v w p, n)
    rewrite_calls_in_expr (param i p) n = ok (param i p, n)
    rewrite_calls_in_expr (local x p) n = ok (local x p, n)
    rewrite_calls_in_expr (wrapping_add a b p) n = rewrite_calls_in_expr a n >>= λ (a', n1).
        rewrite_calls_in_expr b n1 >>= λ (b', n2). ok (wrapping_add a' b' p, n2)
    rewrite_calls_in_expr (wrapping_sub a b p) n = rewrite_calls_in_expr a n >>= λ (a', n1).
        rewrite_calls_in_expr b n1 >>= λ (b', n2). ok (wrapping_sub a' b' p, n2)
    rewrite_calls_in_expr (wrapping_mul a b p) n = rewrite_calls_in_expr a n >>= λ (a', n1).
        rewrite_calls_in_expr b n1 >>= λ (b', n2). ok (wrapping_mul a' b' p, n2)
    rewrite_calls_in_expr (not_eq_zero e p) n =
        rewrite_calls_in_expr e n >>= λ (e', n1). ok (not_eq_zero e' p, n1)
    rewrite_calls_in_expr (call f args p) n = rewrite_calls_in_args args n >>= λ (args', n1).
        if str_eq f callee then replace args' p n1 else ok (call f args' p, n1)
    rewrite_calls_in_expr (let_in x v b p) n = rewrite_calls_in_expr v n >>= λ (v', n1).
        rewrite_calls_in_expr b n1 >>= λ (b', n2). ok (let_in x v' b' p, n2)

    pub rewrite_calls_in_args : Exprs → ℕ → Result (Exprs × ℕ)
    rewrite_calls_in_args nil n = ok (nil, n)
    rewrite_calls_in_args (cons e es) n = rewrite_calls_in_expr e n >>= λ (e', n1).
        rewrite_calls_in_args es n1 >>= λ (es', n2). ok (cons e' es', n2)

  unfoldable pub rewrite_calls_in_stmt : Stmt → ℕ → Result (Stmt × ℕ)
  rewrite_calls_in_stmt (let_then x v b p) n = rewrite_calls_in_expr v n >>= λ (v', n1).
      rewrite_calls_in_stmt b n1 >>= λ (b', n2). ok (let_then x v' b' p, n2)
  rewrite_calls_in_stmt (if_else c t e p) n = rewrite_calls_in_expr c n >>= λ (c', n1).
      rewrite_calls_in_stmt t n1 >>= λ (t', n2).
      rewrite_calls_in_stmt e n2 >>= λ (e', n3). ok (if_else c' t' e' p, n3)
  rewrite_calls_in_stmt (return e p) n =
      rewrite_calls_in_expr e n >>= λ (e', n1). ok (return e' p, n1)

-- The caller's function with its new body, put under its own name; the result has to validate.
abbrev pub replace_body : Program → String → Option FnFact → Stmt → Result Program
replace_body program caller none body = err (unknown_caller caller)
replace_body program caller (some fact) body =
    let result = insert_fact program (record fact { body = body }) in
    elim (validate_program result) [
      | Checked.ok validated ↦ ok result
      | Checked.err e ↦ err (postcondition_violated e)
    ]

unfoldable pub apply_inlined_caller : Program → String → Stmt → Result Program
apply_inlined_caller program caller body =
    replace_body program caller (get_fact program caller) body

abbrev pub simple_callee : String → Option FnFact → Result (FnFact × Expr)
simple_callee callee none = err (unknown_callee callee)
simple_callee callee (some fact) = elim (as_simple_return_expr fact.body) [
  | none ↦ err (unsupported_callee_shape callee)
  | some body ↦ ok (fact, body)
]

abbrev pub found_caller : String → Option FnFact → Result FnFact
found_caller caller none = err (unknown_caller caller)
found_caller caller (some fact) = ok fact
