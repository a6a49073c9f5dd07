-- ===== src/Ir/Locals.antt =====
-- crates/laminaria-ir/src/types.rs: whether a tree can make a call, and the greatest local in it.
use laminaria_rust_nim_toolc.Prelude.{ℕ, max, Bool, true, false, ◌||◌, Option, none, some}
use laminaria_rust_nim_toolc.Ir.Types.{
  Expr, Exprs, Stmt, int_lit, param, local, wrapping_add, wrapping_sub, wrapping_mul, not_eq_zero,
  call, let_in, nil, cons, let_then, if_else, return,
}

unfoldable pub expr_contains_call : Expr → Bool
expr_contains_call (int_lit v w p) = false
expr_contains_call (param i p) = false
expr_contains_call (local x p) = false
expr_contains_call (wrapping_add a b p) = expr_contains_call a || expr_contains_call b
expr_contains_call (wrapping_sub a b p) = expr_contains_call a || expr_contains_call b
expr_contains_call (wrapping_mul a b p) = expr_contains_call a || expr_contains_call b
expr_contains_call (not_eq_zero e p) = expr_contains_call e
expr_contains_call (call f args p) = true
expr_contains_call (let_in x v b p) = expr_contains_call v || expr_contains_call b

unfoldable pub stmt_contains_call : Stmt → Bool
stmt_contains_call (let_then x v b p) = expr_contains_call v || stmt_contains_call b
stmt_contains_call (if_else c t e p) =
    expr_contains_call c || (stmt_contains_call t || stmt_contains_call e)
stmt_contains_call (return e p) = expr_contains_call e

abbrev pub max_opt : Option ℕ → Option ℕ → Option ℕ
max_opt (some a) (some b) = some (max a b)
max_opt (some a) none = some a
max_opt none (some b) = some b
max_opt none none = none

unfoldable mutual
  pub max_local_id_in_expr : Expr → Option ℕ
  max_local_id_in_expr (int_lit v w p) = none
  max_local_id_in_expr (param i p) = none
  max_local_id_in_expr (local x p) = some x
  max_local_id_in_expr (wrapping_add a b p) =
      max_opt (max_local_id_in_expr a) (max_local_id_in_expr b)
  max_local_id_in_expr (wrapping_sub a b p) =
      max_opt (max_local_id_in_expr a) (max_local_id_in_expr b)
  max_local_id_in_expr (wrapping_mul a b p) =
      max_opt (max_local_id_in_expr a) (max_local_id_in_expr b)
  max_local_id_in_expr (not_eq_zero e p) = max_local_id_in_expr e
  max_local_id_in_expr (call f args p) = max_local_id_in_exprs args
  max_local_id_in_expr (let_in x v b p) =
      max_opt (some x) (max_opt (max_local_id_in_expr v) (max_local_id_in_expr b))

  -- `args.iter().filter_map(max_local_id_in_expr).max()`
  pub max_local_id_in_exprs : Exprs → Option ℕ
  max_local_id_in_exprs nil = none
  max_local_id_in_exprs (cons e es) = max_opt (max_local_id_in_expr e) (max_local_id_in_exprs es)

unfoldable pub max_local_id_in_stmt : Stmt → Option ℕ
max_local_id_in_stmt (let_then x v b p) =
    max_opt (some x) (max_opt (max_local_id_in_expr v) (max_local_id_in_stmt b))
max_local_id_in_stmt (if_else c t e p) =
    max_opt (max_local_id_in_expr c) (max_opt (max_local_id_in_stmt t) (max_local_id_in_stmt e))
max_local_id_in_stmt (return e p) = max_local_id_in_expr e
