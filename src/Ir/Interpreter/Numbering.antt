-- ===== src/Ir/Interpreter/Numbering.antt =====
-- The indices of a trace: event number i carries the index i, at every depth of calls.
use Prim.Native.Nat.add
use native.Mathlib.Nat.{add-zero}
use laminaria_rust_nim_toolc.Prelude.{
  ℕ, zero, suc, ◌+◌, ◌≡◌, refl, ℤ, String, List, [], ◌∷◌, ◌++◌, Option, none, some, length, arith,
  Bool, true, false, is_nonzero, if◌then◌else◌, Bool-cases, inl, inr, ◌==◌,
}
use laminaria_rust_nim_toolc.Ir.Types.{
  LocalId, Expr, Exprs, Stmt, int_lit, param, local, wrapping_add, wrapping_sub, wrapping_mul,
  not_eq_zero, call, let_in, nil, cons, let_then, if_else, return, FnFact, Program, get_fact,
}
use laminaria_rust_nim_toolc.Ir.Interpreter.{
  CallEvent, EvalState, EvalOutcome, Result, ok, Eval, Caller, renumber, do_call, eval_expr,
  eval_args, eval_stmt, eval_fact, eval_function, read_param, read_found, read_local, enter, leave,
  lift, push_event, accept, pure, ◌>>=◌, no_locals,
}
use laminaria_rust_nim_toolc.Ir.Interpreter.Rules.{
  partial, Ends, Ends-ok, Post, Post-bind, Post-finish,
}

-- The events carry the numbers from `base` on.
abbrev pub IsNumbered : ℕ → List CallEvent → Type 0
IsNumbered base [] = Unit {0}
IsNumbered base (e ∷ es) = (e.order_index ≡ base) × IsNumbered (base + 1) es

IsNumbered-append :
    (base : ℕ) (xs ys : List CallEvent)
    → IsNumbered base xs
    → IsNumbered (base + length xs) ys
    → IsNumbered base (xs ++ ys)
IsNumbered-append base [] ys hx hy = rw (add-zero base) at hy
IsNumbered-append base (x ∷ xs) ys hx hy =
    (hx.0, IsNumbered-append (base + 1) xs ys hx.1 (rw (the base (length xs)) at hy))
  where
    the : (b n : ℕ) → b + suc n ≡ b + 1 + n
    the b n = omega arith

renumber-IsNumbered : (base : ℕ) (es : List CallEvent) → IsNumbered base (renumber base es)
unfolding renumber
renumber-IsNumbered base [] = tt
renumber-IsNumbered base (e ∷ es) = (refl, renumber-IsNumbered (base + 1) es)

-- Every run from a numbered trace ends in a numbered trace.
abbrev Numbers : {A : Type 0} → Eval A → Type 0
Numbers m =
    (s : EvalState) → IsNumbered 0 s.effects → Post partial (λ _ t. IsNumbered 0 t.effects) (m s)

Numbers-bind :
    {A B : Type 0} (m : Eval A) (f : A → Eval B)
    → Numbers m
    → ((a : A) → Numbers (f a))
    → Numbers (m >>= f)
Numbers-bind m f hm hf s h =
    Post-bind partial m f s (λ _ t. IsNumbered 0 t.effects) (λ _ t. IsNumbered 0 t.effects) (hm s h)
      hf

Numbers-lift : {A : Type 0} (r : Result A) → Numbers (lift r)
Numbers-lift (ok a) s h = h
Numbers-lift _ s h = tt

Numbers-read_local : (x : LocalId) → Numbers (read_local x)
Numbers-read_local x s h = found (s.locals x)
  where
    found : (o : Option ℤ) → Post partial (λ _ t. IsNumbered 0 t.effects) (read_found x o s)
    found none = tt
    found (some v) = h

Numbers-accept : (outcome : EvalOutcome) → Numbers (accept outcome)
Numbers-accept outcome s h =
    IsNumbered-append 0 s.effects _ h
      (rw add.zero (renumber-IsNumbered (length s.effects) outcome.effects))

Numbers-do_call : (run : Caller) (f : String) (vs : List ℤ) → Numbers (do_call run f vs)
unfolding do_call
Numbers-do_call run f vs =
    Numbers-bind (push_event f vs) _ (λ s h. IsNumbered-append 0 s.effects _ h (omega arith, tt))
      λ _.
        Numbers-bind (lift (run f vs)) accept (Numbers-lift (run f vs))
          λ outcome. Numbers-accept outcome

Numbers-both :
    {A B C : Type 0} (m : Eval A) (n : Eval B) (f : A → B → C)
    → Numbers m
    → Numbers n
    → Numbers (m >>= λ x. n >>= λ y. pure (f x y))
Numbers-both m n f hm hn = Numbers-bind m _ hm λ x. Numbers-bind n _ hn λ y s h. h

Numbers-scoped :
    (x : LocalId) (m b : Eval ℤ)
    → Numbers m
    → Numbers b
    → Numbers (m >>= λ n. enter x n >>= λ previous. b >>= leave x previous)
Numbers-scoped x m b hm hb = Numbers-bind m _ hm λ n.
    Numbers-bind (enter x n) (λ previous. b >>= leave x previous) (λ s h. h)
      λ previous. Numbers-bind b (leave x previous) hb λ r s h. h

Numbers-if : (b : Bool) (m n : Eval ℤ) → Numbers m → Numbers n → Numbers (if b then m else n)
Numbers-if true m n hm hn = hm
Numbers-if false m n hm hn = hn

module _ (run : Caller) (params : List ℤ) where
  mutual
    unfolding eval_expr

    expr-Numbers : (e : Expr) → Numbers (eval_expr run params e)
    expr-Numbers (int_lit v w p) = λ s h. h
    expr-Numbers (param n p) = Numbers-lift (read_param params n)
    expr-Numbers (local x p) = Numbers-read_local x
    expr-Numbers (wrapping_add a b p) = Numbers-both _ _ _ (expr-Numbers a) (expr-Numbers b)
    expr-Numbers (wrapping_sub a b p) = Numbers-both _ _ _ (expr-Numbers a) (expr-Numbers b)
    expr-Numbers (wrapping_mul a b p) = Numbers-both _ _ _ (expr-Numbers a) (expr-Numbers b)
    expr-Numbers (not_eq_zero e p) = Numbers-bind _ _ (expr-Numbers e) λ v s h. h
    expr-Numbers (call f args p) = Numbers-bind _ _ (args-Numbers args) (Numbers-do_call run f)
    expr-Numbers (let_in x v b p) = Numbers-scoped x _ _ (expr-Numbers v) (expr-Numbers b)

    args-Numbers : (es : Exprs) → Numbers (eval_args run params es)
    args-Numbers nil = λ s h. h
    args-Numbers (cons e es) = Numbers-both _ _ _ (expr-Numbers e) (args-Numbers es)

  stmt-Numbers : (b : Stmt) → Numbers (eval_stmt run params b)
  unfolding eval_stmt
  stmt-Numbers (let_then x v b p) = Numbers-scoped x _ _ (expr-Numbers v) (stmt-Numbers b)
  stmt-Numbers (if_else c t e p) =
      Numbers-bind _ _ (expr-Numbers c)
        λ v. Numbers-if (is_nonzero v) _ _ (stmt-Numbers t) (stmt-Numbers e)
  stmt-Numbers (return e p) = expr-Numbers e

fact-Ends :
    (run : Caller) (found : Option FnFact) (name : String) (args : List ℤ)
    → Ends partial (λ outcome. IsNumbered 0 outcome.effects) (eval_fact run found name args)
unfolding eval_fact
fact-Ends run none name args = tt
fact-Ends run (some fact) name args = elim (Bool-cases (length fact.params == length args)) [
  | inl same ↦ rw same (
      Post-finish partial (eval_stmt run args fact.body no_locals) (λ _ t. IsNumbered 0 t.effects)
        (λ outcome. IsNumbered 0 outcome.effects) (stmt-Numbers run args fact.body no_locals tt)
        (λ v t h. h))
  | inr differ ↦ rw differ tt
]

-- In the trace of a finished call, event number i carries the order index i, whatever calls the
-- functions made and however deep.
pub eval_function-IsNumbered :
    (fuel : ℕ) (program : Program) (name : String) (args : List ℤ) (outcome : EvalOutcome)
    → eval_function fuel program name args ≡ ok outcome
    → IsNumbered 0 outcome.effects
unfolding eval_function
eval_function-IsNumbered zero program name args outcome h = cc
eval_function-IsNumbered (suc fuel) program name args outcome h =
    Ends-ok partial _ (λ outcome. IsNumbered 0 outcome.effects) outcome
      (fact-Ends (eval_function fuel program) (get_fact program name) name args) h
