-- ===== src/Ir/Safety/Calls.antt =====
-- Which functions a tree calls.
use laminaria_rust_nim_toolc.Prelude.{String}
use laminaria_rust_nim_toolc.Ir.Types.{
  Expr, Exprs, Stmt, int_lit, param, local, wrapping_add, wrapping_sub, wrapping_mul, not_eq_zero,
  call, let_in, nil, cons, let_then, if_else, return,
}

-- Every function that the tree calls meets the condition.
module _ (can : String → Type 0) where
  abbrev mutual
    pub CallsOnly : Expr → Type 0
    CallsOnly (int_lit v w p) = Unit {0}
    CallsOnly (param i p) = Unit {0}
    CallsOnly (local x p) = Unit {0}
    CallsOnly (wrapping_add a b p) = CallsOnly a × CallsOnly b
    CallsOnly (wrapping_sub a b p) = CallsOnly a × CallsOnly b
    CallsOnly (wrapping_mul a b p) = CallsOnly a × CallsOnly b
    CallsOnly (not_eq_zero e p) = CallsOnly e
    CallsOnly (call f args p) = can f × ArgsCallOnly args
    CallsOnly (let_in x v b p) = CallsOnly v × CallsOnly b

    pub ArgsCallOnly : Exprs → Type 0
    ArgsCallOnly nil = Unit {0}
    ArgsCallOnly (cons e es) = CallsOnly e × ArgsCallOnly es

  abbrev pub StmtCallsOnly : Stmt → Type 0
  StmtCallsOnly (let_then x v b p) = CallsOnly v × StmtCallsOnly b
  StmtCallsOnly (if_else c t e p) = CallsOnly c × (StmtCallsOnly t × StmtCallsOnly e)
  StmtCallsOnly (return e p) = CallsOnly e

module _ (P Q : String → Type 0) (weaker : (f : String) → P f → Q f) where
  mutual
    CallsOnly-mono : (e : Expr) → CallsOnly P e → CallsOnly Q e
    CallsOnly-mono (int_lit v w p) h = tt
    CallsOnly-mono (param i p) h = tt
    CallsOnly-mono (local x p) h = tt
    CallsOnly-mono (wrapping_add a b p) h = (CallsOnly-mono a h.0, CallsOnly-mono b h.1)
    CallsOnly-mono (wrapping_sub a b p) h = (CallsOnly-mono a h.0, CallsOnly-mono b h.1)
    CallsOnly-mono (wrapping_mul a b p) h = (CallsOnly-mono a h.0, CallsOnly-mono b h.1)
    CallsOnly-mono (not_eq_zero e p) h = CallsOnly-mono e h
    CallsOnly-mono (call f args p) h = (weaker f h.0, ArgsCallOnly-mono args h.1)
    CallsOnly-mono (let_in x v b p) h = (CallsOnly-mono v h.0, CallsOnly-mono b h.1)

    ArgsCallOnly-mono : (es : Exprs) → ArgsCallOnly P es → ArgsCallOnly Q es
    ArgsCallOnly-mono nil h = tt
    ArgsCallOnly-mono (cons e es) h = (CallsOnly-mono e h.0, ArgsCallOnly-mono es h.1)

  pub StmtCallsOnly-mono : (b : Stmt) → StmtCallsOnly P b → StmtCallsOnly Q b
  StmtCallsOnly-mono (let_then x v b p) h = (CallsOnly-mono v h.0, StmtCallsOnly-mono b h.1)
  StmtCallsOnly-mono (if_else c t e p) h =
      (CallsOnly-mono c h.0, (StmtCallsOnly-mono t h.1.0, StmtCallsOnly-mono e h.1.1))
  StmtCallsOnly-mono (return e p) h = CallsOnly-mono e h

mutual
  pub CallsOnly-anything : (e : Expr) → CallsOnly (λ _. Unit {0}) e
  CallsOnly-anything (int_lit v w p) = tt
  CallsOnly-anything (param i p) = tt
  CallsOnly-anything (local x p) = tt
  CallsOnly-anything (wrapping_add a b p) = (CallsOnly-anything a, CallsOnly-anything b)
  CallsOnly-anything (wrapping_sub a b p) = (CallsOnly-anything a, CallsOnly-anything b)
  CallsOnly-anything (wrapping_mul a b p) = (CallsOnly-anything a, CallsOnly-anything b)
  CallsOnly-anything (not_eq_zero e p) = CallsOnly-anything e
  CallsOnly-anything (call f args p) = (tt, ArgsCallOnly-anything args)
  CallsOnly-anything (let_in x v b p) = (CallsOnly-anything v, CallsOnly-anything b)

  ArgsCallOnly-anything : (es : Exprs) → ArgsCallOnly (λ _. Unit {0}) es
  ArgsCallOnly-anything nil = tt
  ArgsCallOnly-anything (cons e es) = (CallsOnly-anything e, ArgsCallOnly-anything es)

pub StmtCallsOnly-anything : (b : Stmt) → StmtCallsOnly (λ _. Unit {0}) b
StmtCallsOnly-anything (let_then x v b p) = (CallsOnly-anything v, StmtCallsOnly-anything b)
StmtCallsOnly-anything (if_else c t e p) =
    (CallsOnly-anything c, (StmtCallsOnly-anything t, StmtCallsOnly-anything e))
StmtCallsOnly-anything (return e p) = CallsOnly-anything e
