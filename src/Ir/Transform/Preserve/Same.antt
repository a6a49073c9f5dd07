-- ===== src/Ir/Transform/Preserve/Same.antt =====
-- A body that is left as it is, its calls run by one caller or the other.
use laminaria_rust_nim_toolc.Prelude.{
  ◌≡◌, refl, ap, String, ℤ, pos, List, [], is_nonzero, if◌then◌else◌, Option, none, some,
}
use laminaria_rust_nim_toolc.Ir.Types.{
  LocalId, Expr, Exprs, Stmt, int_lit, param, local, wrapping_add, wrapping_sub, wrapping_mul,
  not_eq_zero, call, let_in, nil, cons, let_then, if_else, return,
}
use laminaria_rust_nim_toolc.Ir.Interpreter.{
  Result, ok, err, panic, out_of_fuel, Locals, bind, Caller, eval_expr, eval_args, eval_stmt, lift,
  read_param, read_found, EvalState,
}
use laminaria_rust_nim_toolc.Ir.Transform.Preserve.Sim.{
  Match, Sim, Sim-pure, Sim-bind, Sim-both, Sim-if, Sim-scoped, Sim-do_call, Answers, Tied-refl,
}

module _ (hidden : String) (run run' : Caller) (params : List ℤ)
    (follows : (f : String) (vs : List ℤ) → Answers hidden (run f vs) (run' f vs)) where
  abbrev pub Equal : Locals → Locals → Type 0
  Equal c c' = c' ≡ c

  lift_same : (r : Result ℤ) → Sim hidden Equal (lift r) (lift r)
  lift_same (ok v) s s' k = (s', refl, Tied-refl hidden s s')
  lift_same (err e) s s' k = tt
  lift_same panic s s' k = tt
  lift_same out_of_fuel s s' k = tt

  found_same :
      (x : LocalId) (o o' : Option ℤ) (s s' : EvalState)
      → o' ≡ o
      → Match hidden s s' (read_found x o s) (read_found x o' s')
  found_same x none o' s s' e = tt
  found_same x (some v) o' s s' e = (s', ap (λ o. read_found x o s') e, Tied-refl hidden s s')

  mutual
    unfolding eval_expr

    expr_same : (e : Expr) → Sim hidden Equal (eval_expr run params e) (eval_expr run' params e)
    expr_same (int_lit v w p) = Sim-pure hidden Equal v
    expr_same (param i p) = lift_same (read_param params i)
    expr_same (local x p) = λ s s' k. found_same x (s.locals x) (s'.locals x) s s' (ap (λ c. c x) k)
    expr_same (wrapping_add a b p) = Sim-both hidden Equal _ _ _ _ _ (expr_same a) (expr_same b)
    expr_same (wrapping_sub a b p) = Sim-both hidden Equal _ _ _ _ _ (expr_same a) (expr_same b)
    expr_same (wrapping_mul a b p) = Sim-both hidden Equal _ _ _ _ _ (expr_same a) (expr_same b)
    expr_same (not_eq_zero e p) =
        Sim-bind hidden Equal _ _ _ _ (expr_same e)
          λ v. Sim-pure hidden Equal (if is_nonzero v then pos 1 else pos 0)
    expr_same (call f es p) =
        Sim-bind hidden Equal _ _ _ _ (args_same es)
          λ vs. Sim-do_call hidden Equal run run' f vs (follows f vs)
    expr_same (let_in x v b p) =
        Sim-scoped hidden Equal Equal x x _ _ _ _ (expr_same v) (λ w c c' k. ap (bind x (some w)) k)
          (expr_same b)

    args_same : (es : Exprs) → Sim hidden Equal (eval_args run params es) (eval_args run' params es)
    args_same nil = Sim-pure hidden Equal []
    args_same (cons e es) = Sim-both hidden Equal _ _ _ _ _ (expr_same e) (args_same es)

  pub stmt_same : (b : Stmt) → Sim hidden Equal (eval_stmt run params b) (eval_stmt run' params b)
  unfolding eval_stmt
  stmt_same (let_then x v b p) =
      Sim-scoped hidden Equal Equal x x _ _ _ _ (expr_same v) (λ w c c' k. ap (bind x (some w)) k)
        (stmt_same b)
  stmt_same (if_else c t e p) =
      Sim-bind hidden Equal _ _ _ _ (expr_same c)
        λ v. Sim-if hidden Equal (is_nonzero v) _ _ _ _ (stmt_same t) (stmt_same e)
  stmt_same (return e p) = expr_same e
