-- ===== src/Ir/Interpreter.antt =====
-- crates/laminaria-ir/src/interpreter.rs: the reference evaluator with its effect trace.
-- The calls of `eval_function` by itself run on fuel, one unit for each level of the call stack;
-- `eval_expr` and `eval_stmt` take the evaluator of calls as an argument. An index out of bounds is
-- `panic`. On an error the state is dropped, as `?` passes the error on to the caller of the whole
-- evaluation.
pub mod Rules
pub mod Numbering
pub mod Fuel
use laminaria_rust_nim_toolc.Prelude.{
  ℕ, zero, suc, ◌+◌, ℤ, pos, String, List, [], ◌∷◌, ◌++◌, Option, none, some, length, get_elem?,
  is_nonzero, as_i32, ◌+ℤ◌, ◌-ℤ◌, ◌*ℤ◌, if◌then◌else◌, ◌==◌, str_eq,
}
use laminaria_rust_nim_toolc.Ir.Types.{
  LocalId, Expr, Exprs, Stmt, int_lit, param, local, wrapping_add, wrapping_sub, wrapping_mul,
  not_eq_zero, call, let_in, nil, cons, let_then, if_else, return, FnFact, Program, get_fact,
}

pub record CallEvent : Type 0 where
  pub fn_name : String
  pub args : List ℤ
  pub order_index : ℕ

pub record EvalOutcome : Type 0 where
  pub value : ℤ
  pub effects : List CallEvent

pub data EvalError : Type 0 where
  unknown_function : String → EvalError
  arity_mismatch : (function : String) (expected got : ℕ) → EvalError
  unbound_local : LocalId → EvalError

pub data Result (A : Type 0) : Type 0 where
  ok : A → Result A
  err : EvalError → Result A
  panic : Result A
  out_of_fuel : Result A

-- The bindings in force, by `LocalId`.
abbrev pub Locals : Type 0
Locals = LocalId → Option ℤ

abbrev pub bind : LocalId → Option ℤ → Locals → Locals
bind x v m y = if x == y then v else m y

pub record EvalState : Type 0 where
  pub locals : Locals
  pub effects : List CallEvent

abbrev pub Eval : Type 0 → Type 0
Eval A = EvalState → Result (A × EvalState)

-- `?`: a failure goes on to the end.
abbrev pub and_then :
    {A B : Type 0} → Result (A × EvalState) → (A → Eval B) → Result (B × EvalState)
and_then (ok (a, s)) f = f a s
and_then (err e) f = err e
and_then panic f = panic
and_then out_of_fuel f = out_of_fuel

infixl 5 ◌>>=◌
abbrev pub ◌>>=◌ : {A B : Type 0} → Eval A → (A → Eval B) → Eval B
◌>>=◌ m f s = and_then (m s) f

abbrev pub pure : {A : Type 0} → A → Eval A
pure a s = ok (a, s)

abbrev pub lift : {A : Type 0} → Result A → Eval A
lift r s = elim r [ ok a ↦ ok (a, s) | err e ↦ err e | panic ↦ panic | out_of_fuel ↦ out_of_fuel ]

-- `state.locals.insert(local, v)`, giving the binding that was there before
abbrev pub enter : LocalId → ℤ → Eval (Option ℤ)
enter x v s = ok (s.locals x, record s { locals = bind x (some v) s.locals })

-- The earlier binding is put back, or the local removed if it had none.
abbrev pub leave : LocalId → Option ℤ → ℤ → Eval ℤ
leave x previous v s = ok (v, record s { locals = bind x previous s.locals })

-- `state.params[n]`
abbrev pub read_param : List ℤ → ℕ → Result ℤ
read_param params n = elim (get_elem? params n) [ none ↦ panic | some v ↦ ok v ]

abbrev pub read_found : LocalId → Option ℤ → Eval ℤ
read_found x none s = err (unbound_local x)
read_found x (some v) s = ok (v, s)

-- `state.locals.get(id).copied().ok_or(..)`
abbrev pub read_local : LocalId → Eval ℤ
read_local x s = read_found x (s.locals x) s

-- The callee's events with their indices counted on from `base`.
unfoldable pub renumber : ℕ → List CallEvent → List CallEvent
renumber base [] = []
renumber base (e ∷ es) = record e { order_index = base } ∷ renumber (base + 1) es

-- The call's own event, then what the callee did.
abbrev pub push_event : String → List ℤ → Eval (Unit {0})
push_event name args s =
    let event : CallEvent = record {
      fn_name = name;
      args = args;
      order_index = length s.effects;
    } in
    ok (tt, record s { effects = s.effects ++ event ∷ [] })

abbrev pub splice : List CallEvent → Eval (Unit {0})
splice events s = ok (tt, record s { effects = s.effects ++ renumber (length s.effects) events })

-- The callee's events go into the caller's trace, and its value is the call's.
abbrev pub accept : EvalOutcome → Eval ℤ
accept outcome = do _ ← splice outcome.effects; pure outcome.value

abbrev pub Caller : Type 0
Caller = String → List ℤ → Result EvalOutcome

unfoldable pub do_call : Caller → String → List ℤ → Eval ℤ
do_call run name args = do _ ← push_event name args; outcome ← lift (run name args); accept outcome

module _ (run : Caller) (params : List ℤ) where
  unfoldable mutual
    pub eval_expr : Expr → Eval ℤ
    eval_expr (int_lit v w p) = pure v
    eval_expr (param n p) = lift (read_param params n)
    eval_expr (local x p) = read_local x
    eval_expr (wrapping_add a b p) =
        eval_expr a >>= λ x. eval_expr b >>= λ y. pure (as_i32 (as_i32 x +ℤ as_i32 y))
    eval_expr (wrapping_sub a b p) =
        eval_expr a >>= λ x. eval_expr b >>= λ y. pure (as_i32 (as_i32 x -ℤ as_i32 y))
    eval_expr (wrapping_mul a b p) =
        eval_expr a >>= λ x. eval_expr b >>= λ y. pure (as_i32 (as_i32 x *ℤ as_i32 y))
    eval_expr (not_eq_zero e p) = eval_expr e >>= λ v. pure (if is_nonzero v then pos 1 else pos 0)
    eval_expr (call f args p) = eval_args args >>= λ vs. do_call run f vs
    eval_expr (let_in x v b p) =
        eval_expr v >>= λ n. enter x n >>= λ previous. eval_expr b >>= leave x previous

    pub eval_args : Exprs → Eval (List ℤ)
    eval_args nil = pure []
    eval_args (cons e es) = eval_expr e >>= λ v. eval_args es >>= λ vs. pure (v ∷ vs)

  unfoldable pub eval_stmt : Stmt → Eval ℤ
  eval_stmt (let_then x v b p) =
      eval_expr v >>= λ n. enter x n >>= λ previous. eval_stmt b >>= leave x previous
  eval_stmt (if_else c t e p) =
      eval_expr c >>= λ v. if is_nonzero v then eval_stmt t else eval_stmt e
  eval_stmt (return e p) = eval_expr e

abbrev pub no_locals : EvalState
no_locals = record { locals = λ _. none; effects = [] }

abbrev pub finish : Result (ℤ × EvalState) → Result EvalOutcome
finish (ok (v, s)) = ok (record { value = v; effects = s.effects })
finish (err e) = err e
finish panic = panic
finish out_of_fuel = out_of_fuel

-- The body of `eval_function`, its calls run by `run`.
unfoldable pub eval_fact : Caller → Option FnFact → String → List ℤ → Result EvalOutcome
eval_fact run none name args = err (unknown_function name)
eval_fact run (some fact) name args =
    if length fact.params == length args
    then finish (eval_stmt run args fact.body no_locals)
    else err (arity_mismatch name (length fact.params) (length args))

unfoldable pub eval_function : ℕ → Program → String → List ℤ → Result EvalOutcome
unfolding eval_fact
eval_function zero program name args = out_of_fuel
eval_function (suc fuel) program name args =
    eval_fact (eval_function fuel program) (get_fact program name) name args

-- The argument of each call of one name, in order; an event without arguments is an index panic.
unfoldable pub observed_calls : List CallEvent → String → Result (List ℤ)
observed_calls [] name = ok []
observed_calls (e ∷ es) name =
    let rest = observed_calls es name in
    if str_eq e.fn_name name
    then elim e.args [
      | [] ↦ panic
      | v ∷ _ ↦ elim rest [
        | ok vs ↦ ok (v ∷ vs)
        | err x ↦ err x
        | panic ↦ panic
        | out_of_fuel ↦ out_of_fuel
      ]
    ]
    else rest
