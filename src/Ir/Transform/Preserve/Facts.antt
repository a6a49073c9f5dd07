-- ===== src/Ir/Transform/Preserve/Facts.antt =====
-- A call of a function, from the runs of its body.
use laminaria_rust_nim_toolc.Prelude.{
  ◌≡◌, ◌≢◌, refl, sym, ap, ◌∙◌, subst, String, ℤ, List, some, true, false, Bool, length, ◌==◌,
  if◌then◌else◌, Bool-cases, inl, inr,
}
use laminaria_rust_nim_toolc.Ir.Types.{Expr, Stmt, let_then, if_else, return, FnFact}
use laminaria_rust_nim_toolc.Ir.Interpreter.{
  Caller, EvalState, EvalOutcome, eval_expr, eval_stmt, eval_fact, no_locals, finish,
}
use laminaria_rust_nim_toolc.Ir.Interpreter
use laminaria_rust_nim_toolc.Ir.Transform.Result.{}
use laminaria_rust_nim_toolc.Ir.Transform.Rewrite.{as_simple_return_expr}
use laminaria_rust_nim_toolc.Ir.Transform.Preserve.Sim.{Match, Answers}

-- Two runs from a fresh frame that match give answers that match.
finished :
    (hidden : String) (r r' : Interpreter.Result (ℤ × EvalState))
    → Match hidden no_locals no_locals r r'
    → Answers hidden (finish r) (finish r')
finished hidden (Interpreter.ok (v, t)) r' (t', e, tied) =
    (record { value = v; effects = t'.effects }, ap finish e, refl, tied.events' ∙ sym tied.events)
finished hidden (Interpreter.err e) r' h = tt
finished hidden Interpreter.panic r' h = tt
finished hidden Interpreter.out_of_fuel r' h = tt

-- A function under the same name with the same parameters.
pub fact-Answers :
    (hidden f : String) (run run' : Caller) (old new : FnFact) (vs : List ℤ)
    → new.params ≡ old.params
    → Match hidden no_locals no_locals
        (eval_stmt run vs old.body no_locals)
        (eval_stmt run' vs new.body no_locals)
    → Answers hidden (eval_fact run (some old) f vs) (eval_fact run' (some new) f vs)
unfolding eval_fact
fact-Answers hidden f run run' old new vs same h =
    subst
      (λ ps. Answers hidden (eval_fact run (some old) f vs) (
        if length ps == length vs
        then finish (eval_stmt run' vs new.body no_locals)
        else Interpreter.err (Interpreter.arity_mismatch f (length ps) (length vs))))
      (sym same) (tested (length old.params == length vs))
  where
    tested :
        (b : Bool)
        → Answers hidden
            (if b
              then finish (eval_stmt run vs old.body no_locals)
              else Interpreter.err (Interpreter.arity_mismatch f (length old.params) (length vs)))
            (if b
              then finish (eval_stmt run' vs new.body no_locals)
              else Interpreter.err (Interpreter.arity_mismatch f (length old.params) (length vs)))
    tested true = finished hidden _ _ h
    tested false = tt

pub some_injective : {A : Type 0} {a b : A} → some a ≡ some b → a ≡ b
some_injective h = cc

finish-ok :
    (r : Interpreter.Result (ℤ × EvalState)) (o : EvalOutcome)
    → finish r ≡ Interpreter.ok o
    → (t : EvalState) × (r ≡ Interpreter.ok (o.value, t)) × (t.effects ≡ o.effects)
finish-ok (Interpreter.ok (v, t)) o h =
    let same : ◌≡◌ {A = EvalOutcome} (record { value = v; effects = t.effects }) o = cc in
    (
      t,
      ap (λ (q : EvalOutcome). Interpreter.ok (q.value, t)) same,
      ap (λ (q : EvalOutcome). q.effects) same,
    )
finish-ok (Interpreter.err e) o h = cc
finish-ok Interpreter.panic o h = cc
finish-ok Interpreter.out_of_fuel o h = cc

simple_runs :
    (run : Caller) (vs : List ℤ) (b : Stmt) (raw : Expr) (s : EvalState)
    → as_simple_return_expr b ≡ some raw
    → eval_stmt run vs b s ≡ eval_expr run vs raw s
unfolding eval_stmt
simple_runs run vs (let_then x v b p) raw s h = cc
simple_runs run vs (if_else c t e p) raw s h = cc
simple_runs run vs (return e p) raw s h =
    let same : e ≡ raw = cc in ap (λ (x : Expr). eval_expr run vs x s) same

-- A call of a simple function that returns is a run of its one expression.
pub call_runs :
    (run : Caller) (fact : FnFact) (name : String) (vs : List ℤ) (raw : Expr) (o : EvalOutcome)
    → as_simple_return_expr fact.body ≡ some raw
    → eval_fact run (some fact) name vs ≡ Interpreter.ok o
    → (t : EvalState) × (eval_expr run vs raw no_locals ≡ Interpreter.ok (o.value, t))
      × (t.effects ≡ o.effects)
unfolding eval_fact
call_runs run fact name vs raw o simple h = elim (Bool-cases (length fact.params == length vs)) [
  | inl many ↦
      let (t, runs, same) = finish-ok (eval_stmt run vs fact.body no_locals) o (rw many at h) in
      (t, sym (simple_runs run vs fact.body raw no_locals simple) ∙ runs, same)
  | inr few ↦ let no : Interpreter.err _ ≡ Interpreter.ok o = rw few at h in cc
]

pub later-Answers :
    (hidden : String) (r r' r'' : Interpreter.Result EvalOutcome)
    → Answers hidden r r'
    → (r' ≢ Interpreter.out_of_fuel → r'' ≡ r')
    → Answers hidden r r''
later-Answers hidden (Interpreter.ok o) r' r'' (o', e, value, same) more =
    (o', more (λ none. cc) ∙ e, value, same)
later-Answers hidden (Interpreter.err x) r' r'' h more = tt
later-Answers hidden Interpreter.panic r' r'' h more = tt
later-Answers hidden Interpreter.out_of_fuel r' r'' h more = tt
