-- ===== src/Ir/Transform/Occurrences.antt =====
-- crates/laminaria-ir/src/transform/mod.rs: how often and in what order parameters are evaluated.
use laminaria_rust_nim_toolc.Prelude.{ℕ, ◌+◌, List, [], ◌∷◌, ◌++◌, if◌then◌else◌, ◌==◌}
use laminaria_rust_nim_toolc.Ir.Types.{
  Expr, Exprs, int_lit, param, local, wrapping_add, wrapping_sub, wrapping_mul, not_eq_zero, call,
  let_in, nil, cons,
}

unfoldable mutual
  pub count_param_occurrences : Expr → ℕ → ℕ
  count_param_occurrences (int_lit v w p) target = 0
  count_param_occurrences (param i p) target = if i == target then 1 else 0
  count_param_occurrences (local x p) target = 0
  count_param_occurrences (wrapping_add a b p) target =
      count_param_occurrences a target + count_param_occurrences b target
  count_param_occurrences (wrapping_sub a b p) target =
      count_param_occurrences a target + count_param_occurrences b target
  count_param_occurrences (wrapping_mul a b p) target =
      count_param_occurrences a target + count_param_occurrences b target
  count_param_occurrences (not_eq_zero e p) target = count_param_occurrences e target
  count_param_occurrences (call f args p) target = count_in_args args target
  count_param_occurrences (let_in x v b p) target =
      count_param_occurrences v target + count_param_occurrences b target

  pub count_in_args : Exprs → ℕ → ℕ
  count_in_args nil target = 0
  count_in_args (cons e es) target = count_param_occurrences e target + count_in_args es target

-- `param_evaluation_order(expr, out)`: the parameters of `expr`, in the order in which they are
-- evaluated, after those in `out`.
unfoldable mutual
  pub param_evaluation_order : Expr → List ℕ → List ℕ
  param_evaluation_order (int_lit v w p) out = out
  param_evaluation_order (param i p) out = out ++ i ∷ []
  param_evaluation_order (local x p) out = out
  param_evaluation_order (wrapping_add a b p) out =
      param_evaluation_order b (param_evaluation_order a out)
  param_evaluation_order (wrapping_sub a b p) out =
      param_evaluation_order b (param_evaluation_order a out)
  param_evaluation_order (wrapping_mul a b p) out =
      param_evaluation_order b (param_evaluation_order a out)
  param_evaluation_order (not_eq_zero e p) out = param_evaluation_order e out
  param_evaluation_order (call f args p) out = param_order_args args out
  param_evaluation_order (let_in x v b p) out =
      param_evaluation_order b (param_evaluation_order v out)

  pub param_order_args : Exprs → List ℕ → List ℕ
  param_order_args nil out = out
  param_order_args (cons e es) out = param_order_args es (param_evaluation_order e out)

pub data ObservedEvent : Type 0 where
  param_event : ℕ → ObservedEvent
  callee_call : ObservedEvent

-- `observed_event_order(expr, out)`: the parameters and the calls, in the order of evaluation.
unfoldable mutual
  pub observed_event_order : Expr → List ObservedEvent → List ObservedEvent
  observed_event_order (int_lit v w p) out = out
  observed_event_order (param i p) out = out ++ param_event i ∷ []
  observed_event_order (local x p) out = out
  observed_event_order (wrapping_add a b p) out =
      observed_event_order b (observed_event_order a out)
  observed_event_order (wrapping_sub a b p) out =
      observed_event_order b (observed_event_order a out)
  observed_event_order (wrapping_mul a b p) out =
      observed_event_order b (observed_event_order a out)
  observed_event_order (not_eq_zero e p) out = observed_event_order e out
  observed_event_order (call f args p) out = observed_order_args args out ++ callee_call ∷ []
  observed_event_order (let_in x v b p) out = observed_event_order b (observed_event_order v out)

  pub observed_order_args : Exprs → List ObservedEvent → List ObservedEvent
  observed_order_args nil out = out
  observed_order_args (cons e es) out = observed_order_args es (observed_event_order e out)
