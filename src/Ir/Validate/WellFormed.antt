-- ===== src/Ir/Validate/WellFormed.antt =====
-- What a valid program is, stated without the validator: scoping, parameter indices, declared
-- callees with their argument counts, literal ranges, and conditions only where an `if` asks.
use laminaria_rust_nim_toolc.Prelude.{
  ℕ, ◌<◌, ◌≡◌, ℤ, String, Bool, true, false, List, [], ◌∷◌, some, length, InI32,
}
use laminaria_rust_nim_toolc.Ir.Types.{
  IntWidth, i32, Expr, Exprs, Stmt, int_lit, param, local, wrapping_add, wrapping_sub, wrapping_mul,
  not_eq_zero, call, let_in, nil, cons, let_then, if_else, return, count_exprs, FnFact, Program,
  get_fact,
}
use laminaria_rust_nim_toolc.Ir.Validate.{Bound, put}

abbrev pub InWidth : IntWidth → ℤ → Type 0
InWidth i32 v = InI32 v

-- The program declares the callee with this number of parameters.
abbrev pub Declares : Program → String → ℕ → Type 0
Declares program callee n =
    (fact : FnFact) × (get_fact program callee ≡ some fact) × (length fact.params ≡ n)

-- Only a comparison stands as a condition.
abbrev pub IsCondition : Expr → Type 0
IsCondition (not_eq_zero e p) = Unit {0}
IsCondition _ = ⊥

module _ (program : Program) (param_count : ℕ) where
  abbrev mutual
    pub WfExpr : Expr → Bool → Bound → Type 0
    WfExpr (int_lit v w p) cond bound = InWidth w v
    WfExpr (param i p) cond bound = i < param_count
    WfExpr (local x p) cond bound = bound x ≡ true
    WfExpr (wrapping_add a b p) cond bound = WfExpr a false bound × WfExpr b false bound
    WfExpr (wrapping_sub a b p) cond bound = WfExpr a false bound × WfExpr b false bound
    WfExpr (wrapping_mul a b p) cond bound = WfExpr a false bound × WfExpr b false bound
    WfExpr (not_eq_zero e p) cond bound = (cond ≡ true) × WfExpr e false bound
    WfExpr (call f args p) cond bound = Declares program f (count_exprs args) × WfArgs args bound
    WfExpr (let_in x v b p) cond bound = WfExpr v false bound × WfExpr b false (put x true bound)

    pub WfArgs : Exprs → Bound → Type 0
    WfArgs nil bound = Unit {0}
    WfArgs (cons e es) bound = WfExpr e false bound × WfArgs es bound

  abbrev pub WfStmt : Stmt → Bound → Type 0
  WfStmt (let_then x v b p) bound = WfExpr v false bound × WfStmt b (put x true bound)
  WfStmt (if_else c t e p) bound =
      IsCondition c × (WfExpr c true bound × (WfStmt t bound × WfStmt e bound))
  WfStmt (return e p) bound = WfExpr e false bound

abbrev pub WfFunctions : Program → List (String × FnFact) → Type 0
WfFunctions program [] = Unit {0}
WfFunctions program ((name, fact) ∷ rest) =
    WfStmt program (length fact.params) fact.body (λ _. false) × WfFunctions program rest

abbrev pub WfProgram : Program → Type 0
WfProgram program = WfFunctions program program.functions
