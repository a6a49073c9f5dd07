-- ===== src/Ir/Safety/Runs.antt =====
-- A validated program runs without errors and without a read out of bounds, and where its call
-- graph has no cycle it also ends.
use laminaria_rust_nim_toolc.Prelude.{
  ℕ, zero, suc, ◌<◌, ◌≡◌, refl, sym, ◌∙◌, ap, ℤ, pos, String, List, [], ◌∷◌, some, length, Bool,
  true, false, is_nonzero, if◌then◌else◌, ==_iff, arith, Bool-cases, inl, inr, InI32, as_i32,
  as_i32-InI32, All, lookup, str_eq, eq_iff, subst,
}
use laminaria_rust_nim_toolc.Ir.Types.{
  Expr, Exprs, Stmt, int_lit, param, local, wrapping_add, wrapping_sub, wrapping_mul, not_eq_zero,
  call, let_in, nil, cons, let_then, if_else, return, IntWidth, i32, count_exprs, FnFact, Program,
  get_fact,
}
use laminaria_rust_nim_toolc.Ir.Interpreter.{
  EvalOutcome, Result, Eval, Caller, eval_expr, eval_args, eval_stmt, eval_fact, eval_function,
  read_param, pure, no_locals, ◌>>=◌,
}
use laminaria_rust_nim_toolc.Ir.Interpreter.Rules.{Mode, safe, total, Ends, Post-finish}
use laminaria_rust_nim_toolc.Ir.Validate.{Bound, put, ok, ValidatedProgram, validate_program}
use laminaria_rust_nim_toolc.Ir.Validate.Exact.{validate_program-WfProgram}
use laminaria_rust_nim_toolc.Ir.Validate.WellFormed.{
  InWidth, WfExpr, WfArgs, WfStmt, WfFunctions, WfProgram,
}
use laminaria_rust_nim_toolc.Ir.Safety.Calls.{
  CallsOnly, ArgsCallOnly, StmtCallsOnly, StmtCallsOnly-mono, StmtCallsOnly-anything,
}
use laminaria_rust_nim_toolc.Ir.Safety.Keeps.{
  Keeps, Keeps-bind, Keeps-pure, Keeps-both, Keeps-lift, Keeps-read_local, Keeps-scoped,
  Keeps-do_call,
}

-- As many `i32` values as the list of expressions has members.
abbrev ArgsGood : ℕ → List ℤ → Type 0
ArgsGood n vs = All InI32 vs × (length vs ≡ n)

InWidth-InI32 : (w : IntWidth) (v : ℤ) → InWidth w v → InI32 v
InWidth-InI32 i32 v h = h

read_param-Ends :
    (mode : Mode) (vs : List ℤ) (i : ℕ)
    → All InI32 vs
    → i < length vs
    → Ends mode InI32 (read_param vs i)
read_param-Ends mode [] i h lt = absurd (omega arith)
read_param-Ends mode (v ∷ vs) zero h lt = h.0
read_param-Ends mode (v ∷ vs) (suc i) h lt = read_param-Ends mode vs i h.1 (omega arith)

truth_InI32 : (v : ℤ) → InI32 (if is_nonzero v then pos 1 else pos 0)
truth_InI32 v = elim (Bool-cases (is_nonzero v)) [
  | inl t ↦ rw t (omega arith)
  | inr f ↦ rw f (omega arith)
]

module _ (mode : Mode) (program : Program) (can : String → Type 0) (run : Caller) where
  -- The functions in question answer calls with the right number of `i32` arguments by an `i32`.
  abbrev pub Serves : Type 0
  Serves =
      (name : String) (fact : FnFact) (args : List ℤ)
      → can name
      → get_fact program name ≡ some fact
      → length args ≡ length fact.params
      → All InI32 args
      → Ends mode (λ outcome. InI32 outcome.value) (run name args)

  module _ (serves : Serves) (params : List ℤ) (fits : All InI32 params) where
    wrapping :
        (bound : Bound) (m n : Eval ℤ) (f : ℤ → ℤ → ℤ)
        → Keeps mode bound InI32 m
        → Keeps mode bound InI32 n
        → Keeps mode bound InI32 (m >>= λ x. n >>= λ y. pure (as_i32 (f x y)))
    wrapping bound m n f hm hn =
        Keeps-both mode bound InI32 InI32 InI32 m n (λ x y. as_i32 (f x y)) hm hn
          λ x y _ _. as_i32-InI32 (f x y)

    mutual
      unfolding eval_expr

      expr-Keeps :
          (e : Expr) (cond : Bool) (bound : Bound)
          → WfExpr program (length params) e cond bound
          → CallsOnly can e
          → Keeps mode bound InI32 (eval_expr run params e)
      expr-Keeps (int_lit v w p) cond bound wf c =
          Keeps-pure mode bound InI32 v (InWidth-InI32 w v wf)
      expr-Keeps (param i p) cond bound wf c =
          Keeps-lift mode bound InI32 (read_param params i) (read_param-Ends mode params i fits wf)
      expr-Keeps (local x p) cond bound wf c = Keeps-read_local mode bound x wf
      expr-Keeps (wrapping_add a b p) cond bound wf c =
          wrapping bound _ _ _ (expr-Keeps a false bound wf.0 c.0)
            (expr-Keeps b false bound wf.1 c.1)
      expr-Keeps (wrapping_sub a b p) cond bound wf c =
          wrapping bound _ _ _ (expr-Keeps a false bound wf.0 c.0)
            (expr-Keeps b false bound wf.1 c.1)
      expr-Keeps (wrapping_mul a b p) cond bound wf c =
          wrapping bound _ _ _ (expr-Keeps a false bound wf.0 c.0)
            (expr-Keeps b false bound wf.1 c.1)
      expr-Keeps (not_eq_zero e p) cond bound wf c =
          Keeps-bind mode bound InI32 InI32 _ _ (expr-Keeps e false bound wf.1 c)
            λ v _. Keeps-pure mode bound InI32 _ (truth_InI32 v)
      expr-Keeps (call f args p) cond bound wf c =
          Keeps-bind mode bound (ArgsGood (count_exprs args)) InI32 _ _
            (args-Keeps args bound wf.1 c.1)
            λ vs (good, many).
              Keeps-do_call mode bound run f vs
                (serves f wf.0.0 vs c.0 wf.0.1 (many ∙ sym wf.0.2) good)
      expr-Keeps (let_in x v b p) cond bound wf c =
          Keeps-scoped mode bound x _ _ (expr-Keeps v false bound wf.0 c.0)
            (expr-Keeps b false (put x true bound) wf.1 c.1)

      args-Keeps :
          (es : Exprs) (bound : Bound)
          → WfArgs program (length params) es bound
          → ArgsCallOnly can es
          → Keeps mode bound (ArgsGood (count_exprs es)) (eval_args run params es)
      args-Keeps nil bound wf c = Keeps-pure mode bound (ArgsGood 0) [] (tt, refl)
      args-Keeps (cons e es) bound wf c =
          Keeps-both mode bound InI32 (ArgsGood (count_exprs es)) (ArgsGood (suc (count_exprs es)))
            _ _ (λ v vs. v ∷ vs) (expr-Keeps e false bound wf.0 c.0) (args-Keeps es bound wf.1 c.1)
            λ v vs fit (fits, many). ((fit, fits), ap suc many)

    Keeps-if :
        (bound : Bound) (b : Bool) (m n : Eval ℤ)
        → Keeps mode bound InI32 m
        → Keeps mode bound InI32 n
        → Keeps mode bound InI32 (if b then m else n)
    Keeps-if bound true m n hm hn = hm
    Keeps-if bound false m n hm hn = hn

    stmt-Keeps :
        (b : Stmt) (bound : Bound)
        → WfStmt program (length params) b bound
        → StmtCallsOnly can b
        → Keeps mode bound InI32 (eval_stmt run params b)
    unfolding eval_stmt
    stmt-Keeps (let_then x v b p) bound wf c =
        Keeps-scoped mode bound x _ _ (expr-Keeps v false bound wf.0 c.0)
          (stmt-Keeps b (put x true bound) wf.1 c.1)
    stmt-Keeps (if_else c t e p) bound wf can' =
        Keeps-bind mode bound InI32 InI32 _ _ (expr-Keeps c true bound wf.1.0 can'.0) λ v _.
          Keeps-if bound (is_nonzero v) _ _ (stmt-Keeps t bound wf.1.1.0 can'.1.0)
            (stmt-Keeps e bound wf.1.1.1 can'.1.1)
    stmt-Keeps (return e p) bound wf c = expr-Keeps e false bound wf c

  -- One call of a well-formed function.
  fact-Ends :
      (fact : FnFact) (name : String) (args : List ℤ)
      → Serves
      → WfStmt program (length fact.params) fact.body (λ _. false)
      → StmtCallsOnly can fact.body
      → length args ≡ length fact.params
      → All InI32 args
      → Ends mode (λ outcome. InI32 outcome.value) (eval_fact run (some fact) name args)
  unfolding eval_fact
  fact-Ends fact name args serves wf calls many fits =
      rw ((==_iff (length fact.params) (length args)).1 (sym many)) (
        Post-finish mode (eval_stmt run args fact.body no_locals)
          (λ v t. InI32 v × (t.locals ≡ no_locals.locals)) (λ outcome. InI32 outcome.value)
          (stmt-Keeps serves args fits fact.body (λ _. false) (rw many wf) calls no_locals
            (λ x h. cc))
          (λ v t good. good.0))

-- Each function calls only functions of a smaller rank.
abbrev pub IsRanked : (String → ℕ) → List (String × FnFact) → Type 0
IsRanked rank [] = Unit {0}
IsRanked rank ((name, fact) ∷ rest) =
    StmtCallsOnly (λ callee. rank callee < rank name) fact.body × IsRanked rank rest

module _ (program : Program) (name : String) (fact : FnFact) where
  WfFunctions-lookup :
      (rest : List (String × FnFact))
      → WfFunctions program rest
      → lookup name rest ≡ some fact
      → WfStmt program (length fact.params) fact.body (λ _. false)
  unfolding lookup
  WfFunctions-lookup [] wf h = cc
  WfFunctions-lookup ((j, first) ∷ rest) wf h = elim (Bool-cases (str_eq j name)) [
    | inl here ↦
        let same : some first ≡ some fact = rw here at h in
        let equal : first ≡ fact = cc in
        subst (λ f. WfStmt program (length f.params) f.body (λ _. false)) equal wf.0
    | inr later ↦ WfFunctions-lookup rest wf.1 (rw later at h)
  ]

  IsRanked-lookup :
      (rank : String → ℕ) (rest : List (String × FnFact))
      → IsRanked rank rest
      → lookup name rest ≡ some fact
      → StmtCallsOnly (λ callee. rank callee < rank name) fact.body
  unfolding lookup
  IsRanked-lookup rank [] r h = cc
  IsRanked-lookup rank ((j, first) ∷ rest) r h = elim (Bool-cases (str_eq j name)) [
    | inl here ↦
        let same : some first ≡ some fact = rw here at h in
        let equal : first ≡ fact = cc in
        subst (λ f. StmtCallsOnly (λ callee. rank callee < rank name) f.body) equal
          (subst (λ k. StmtCallsOnly (λ callee. rank callee < rank k) first.body)
            ((eq_iff j name).0 here) r.0)
    | inr later ↦ IsRanked-lookup rank rest r.1 (rw later at h)
  ]

Serves-safe :
    (program : Program)
    → WfProgram program
    → (fuel : ℕ) → Serves safe program (λ _. Unit {0}) (eval_function fuel program)
unfolding eval_function
Serves-safe program wf zero name fact args can found many fits = tt
Serves-safe program wf (suc fuel) name fact args can found many fits = rw found (
    fact-Ends safe program (λ _. Unit {0}) (eval_function fuel program) fact name args
      (Serves-safe program wf fuel)
      (WfFunctions-lookup program name fact program.functions wf found)
      (StmtCallsOnly-anything fact.body) many fits)

Serves-total :
    (program : Program) (rank : String → ℕ)
    → WfProgram program
    → IsRanked rank program.functions
    → (fuel : ℕ) → Serves total program (λ f. rank f < fuel) (eval_function fuel program)
unfolding eval_function
Serves-total program rank wf ranked zero name fact args can found many fits = absurd (omega arith)
Serves-total program rank wf ranked (suc fuel) name fact args can found many fits = rw found (
    fact-Ends total program (λ f. rank f < fuel) (eval_function fuel program) fact name args
      (Serves-total program rank wf ranked fuel)
      (WfFunctions-lookup program name fact program.functions wf found)
      (StmtCallsOnly-mono (λ f. rank f < rank name) (λ f. rank f < fuel) (λ f lt. omega arith)
        fact.body (IsRanked-lookup program name fact rank program.functions ranked found))
      many fits)

-- Whatever the fuel, a call of a declared function of a validated program with the declared number
-- of `i32` arguments gives an `i32`, or runs out of fuel: no unknown function, no arity mismatch, no
-- unbound local, and no read of a parameter that is not there.
pub validated-safe :
    (program : Program) (validated : ValidatedProgram) (fuel : ℕ) (name : String) (fact : FnFact)
    (args : List ℤ)
    → validate_program program ≡ ok validated
    → get_fact program name ≡ some fact
    → length args ≡ length fact.params
    → All InI32 args
    → Ends safe (λ outcome. InI32 outcome.value) (eval_function fuel program name args)
validated-safe program validated fuel name fact args h found many fits =
    Serves-safe program (validate_program-WfProgram program validated h) fuel name fact args tt
      found many fits

Ends-total :
    {A : Type 0} (P : A → Type 0) (r : Result A)
    → Ends total P r
    → (a : A) × (r ≡ Result.ok a) × P a
Ends-total P (Result.ok a) h = (a, refl, h)
Ends-total P (Result.err e) h = absurd h
Ends-total P Result.panic h = absurd h
Ends-total P Result.out_of_fuel h = absurd h

-- Where the functions of a validated program can be ranked so that each calls only functions of a
-- smaller rank, such a call returns an `i32` with any fuel above the rank of the function called.
pub validated-returns :
    (program : Program) (validated : ValidatedProgram) (rank : String → ℕ) (fuel : ℕ)
    (name : String) (fact : FnFact) (args : List ℤ)
    → validate_program program ≡ ok validated
    → IsRanked rank program.functions
    → rank name < fuel
    → get_fact program name ≡ some fact
    → length args ≡ length fact.params
    → All InI32 args
    → (outcome : EvalOutcome) × (eval_function fuel program name args ≡ Result.ok outcome)
      × InI32 outcome.value
validated-returns program validated rank fuel name fact args h ranked enough found many fits =
    Ends-total (λ outcome. InI32 outcome.value) (eval_function fuel program name args)
      (Serves-total program rank (validate_program-WfProgram program validated h) ranked fuel name
        fact args enough found many fits)
