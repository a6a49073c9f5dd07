-- ===== src/Ir/Interpreter/Fuel.antt =====
-- More fuel changes no answer: a call that is answered, by a value, an error or a panic, is answered
-- in the same way with any more fuel.
use laminaria_rust_nim_toolc.Prelude.{
  ℕ, zero, suc, ◌+◌, ◌≡◌, refl, ◌≢◌, ℤ, String, List, Option, none, some, length, Bool, true, false,
  is_nonzero, if◌then◌else◌, ◌==◌, arith,
}
use laminaria_rust_nim_toolc.Ir.Types.{
  LocalId, Expr, Exprs, Stmt, int_lit, param, local, wrapping_add, wrapping_sub, wrapping_mul,
  not_eq_zero, call, let_in, nil, cons, let_then, if_else, return, FnFact, Program, get_fact,
}
use laminaria_rust_nim_toolc.Ir.Interpreter.{
  EvalState, Result, ok, err, panic, out_of_fuel, arity_mismatch, Eval, Caller, do_call, eval_expr,
  eval_args, eval_stmt, eval_fact, eval_function, enter, leave, lift, push_event, accept, pure,
  and_then, ◌>>=◌, no_locals, finish,
}

-- The second result is the first, unless the first lacked fuel.
abbrev pub Refines : {A : Type 0} → Result A → Result A → Type 0
Refines (ok a) r = r ≡ ok a
Refines (err e) r = r ≡ err e
Refines panic r = r ≡ panic
Refines out_of_fuel r = Unit {0}

Refines-refl : {A : Type 0} (r : Result A) → Refines r r
Refines-refl (ok a) = refl
Refines-refl (err e) = refl
Refines-refl panic = refl
Refines-refl out_of_fuel = tt

Refines-eq : {A : Type 0} (r t : Result A) → Refines r t → r ≢ out_of_fuel → t ≡ r
Refines-eq (ok a) t h n = h
Refines-eq (err e) t h n = h
Refines-eq panic t h n = h
Refines-eq out_of_fuel t h n = absurd (n refl)

abbrev Improves : {A : Type 0} → Eval A → Eval A → Type 0
Improves m n = (s : EvalState) → Refines (m s) (n s)

Refines-elim :
    {A B : Type 0} (r t : Result (A × EvalState)) (f g : A → Eval B)
    → Refines r t
    → ((a : A) → Improves (f a) (g a))
    → Refines (and_then r f) (and_then t g)
Refines-elim (ok (a, s)) t f g h k = rw h (k a s)
Refines-elim (err e) t f g h k = rw h
Refines-elim panic t f g h k = rw h
Refines-elim out_of_fuel t f g h k = tt

Improves-bind :
    {A B : Type 0} (m n : Eval A) (f g : A → Eval B)
    → Improves m n
    → ((a : A) → Improves (f a) (g a))
    → Improves (m >>= f) (n >>= g)
Improves-bind m n f g h k s = Refines-elim (m s) (n s) f g (h s) k

Improves-refl : {A : Type 0} (m : Eval A) → Improves m m
Improves-refl m s = Refines-refl (m s)

Improves-lift : {A : Type 0} (r t : Result A) → Refines r t → Improves (lift r) (lift t)
Improves-lift (ok a) t h s = rw h
Improves-lift (err e) t h s = rw h
Improves-lift panic t h s = rw h
Improves-lift out_of_fuel t h s = tt

Improves-both :
    {A B C : Type 0} (m m' : Eval A) (n n' : Eval B) (f : A → B → C)
    → Improves m m'
    → Improves n n'
    → Improves (m >>= λ x. n >>= λ y. pure (f x y)) (m' >>= λ x. n' >>= λ y. pure (f x y))
Improves-both m m' n n' f h k = Improves-bind m m' _ _ h λ x. Improves-bind n n' _ _ k λ y s. refl

Improves-scoped :
    (x : LocalId) (m m' b b' : Eval ℤ)
    → Improves m m'
    → Improves b b'
    → Improves
        (m >>= λ n. enter x n >>= λ previous. b >>= leave x previous)
        (m' >>= λ n. enter x n >>= λ previous. b' >>= leave x previous)
Improves-scoped x m m' b b' h k = Improves-bind m m' _ _ h λ n.
    Improves-bind (enter x n) (enter x n) (λ previous. b >>= leave x previous)
      (λ previous. b' >>= leave x previous) (λ s. refl)
      λ previous. Improves-bind b b' (leave x previous) (leave x previous) k λ r s. refl

Improves-if :
    (b : Bool) (m m' n n' : Eval ℤ)
    → Improves m m'
    → Improves n n'
    → Improves (if b then m else n) (if b then m' else n')
Improves-if true m m' n n' h k = h
Improves-if false m m' n n' h k = k

module _ (run run' : Caller)
    (better : (name : String) (args : List ℤ) → Refines (run name args) (run' name args)) where
  do_call-Improves : (f : String) (vs : List ℤ) → Improves (do_call run f vs) (do_call run' f vs)
  unfolding do_call
  do_call-Improves f vs =
      Improves-bind (push_event f vs) (push_event f vs) _ _ (λ s. refl)
        λ _.
          Improves-bind (lift (run f vs)) (lift (run' f vs)) accept accept
            (Improves-lift (run f vs) (run' f vs) (better f vs))
            λ outcome. Improves-refl (accept outcome)

  module _ (params : List ℤ) where
    mutual
      unfolding eval_expr

      expr-Improves : (e : Expr) → Improves (eval_expr run params e) (eval_expr run' params e)
      expr-Improves (int_lit v w p) = λ s. refl
      expr-Improves (param n p) = Improves-refl _
      expr-Improves (local x p) = Improves-refl _
      expr-Improves (wrapping_add a b p) =
          Improves-both _ _ _ _ _ (expr-Improves a) (expr-Improves b)
      expr-Improves (wrapping_sub a b p) =
          Improves-both _ _ _ _ _ (expr-Improves a) (expr-Improves b)
      expr-Improves (wrapping_mul a b p) =
          Improves-both _ _ _ _ _ (expr-Improves a) (expr-Improves b)
      expr-Improves (not_eq_zero e p) = Improves-bind _ _ _ _ (expr-Improves e) λ v s. refl
      expr-Improves (call f args p) =
          Improves-bind _ _ _ _ (args-Improves args) (do_call-Improves f)
      expr-Improves (let_in x v b p) = Improves-scoped x _ _ _ _ (expr-Improves v) (expr-Improves b)

      args-Improves : (es : Exprs) → Improves (eval_args run params es) (eval_args run' params es)
      args-Improves nil = λ s. refl
      args-Improves (cons e es) = Improves-both _ _ _ _ _ (expr-Improves e) (args-Improves es)

    stmt-Improves : (b : Stmt) → Improves (eval_stmt run params b) (eval_stmt run' params b)
    unfolding eval_stmt
    stmt-Improves (let_then x v b p) = Improves-scoped x _ _ _ _ (expr-Improves v) (stmt-Improves b)
    stmt-Improves (if_else c t e p) =
        Improves-bind _ _ _ _ (expr-Improves c)
          λ v. Improves-if (is_nonzero v) _ _ _ _ (stmt-Improves t) (stmt-Improves e)
    stmt-Improves (return e p) = expr-Improves e

  finish-Refines : (r t : Result (ℤ × EvalState)) → Refines r t → Refines (finish r) (finish t)
  finish-Refines (ok (v, s)) t h = rw h
  finish-Refines (err e) t h = rw h
  finish-Refines panic t h = rw h
  finish-Refines out_of_fuel t h = tt

  fact-Refines :
      (found : Option FnFact) (name : String) (args : List ℤ)
      → Refines (eval_fact run found name args) (eval_fact run' found name args)
  unfolding eval_fact
  fact-Refines none name args = refl
  fact-Refines (some fact) name args = either (length fact.params == length args)
    where
      body :
          Refines
            (finish (eval_stmt run args fact.body no_locals))
            (finish (eval_stmt run' args fact.body no_locals))
      body = finish-Refines _ _ (stmt-Improves args fact.body no_locals)

      either :
          (b : Bool)
          → Refines
              (if b
                then finish (eval_stmt run args fact.body no_locals)
                else err (arity_mismatch name (length fact.params) (length args)))
              (if b
                then finish (eval_stmt run' args fact.body no_locals)
                else err (arity_mismatch name (length fact.params) (length args)))
      either true = body
      either false = refl

eval_function-Refines :
    (fuel extra : ℕ) (program : Program) (name : String) (args : List ℤ)
    → Refines
        (eval_function fuel program name args)
        (eval_function (fuel + extra) program name args)
unfolding eval_function
eval_function-Refines zero extra program name args = tt
eval_function-Refines (suc fuel) extra program name args = rw (the fuel extra) (
    fact-Refines (eval_function fuel program) (eval_function (fuel + extra) program)
      (eval_function-Refines fuel extra program) (get_fact program name) name args)
  where
    the : (m n : ℕ) → suc m + n ≡ suc (m + n)
    the m n = omega arith

-- A call that did not run out of fuel gives the same answer, its trace included, with any more fuel.
pub eval_function-more_fuel :
    (fuel extra : ℕ) (program : Program) (name : String) (args : List ℤ)
    → eval_function fuel program name args ≢ out_of_fuel
    → eval_function (fuel + extra) program name args ≡ eval_function fuel program name args
eval_function-more_fuel fuel extra program name args =
    Refines-eq _ _ (eval_function-Refines fuel extra program name args)
