-- ===== src/Ir/Transform/Preserve/Accepted.antt =====
-- What `anf_insert` did, where it accepts.
use laminaria_rust_nim_toolc.Prelude.{ℕ, ◌≡◌, refl, ap, subst, String, Option, none, some, length}
use laminaria_rust_nim_toolc.Ir.Types.{Expr, Stmt, FnFact, Program, get_fact, insert_fact}
use laminaria_rust_nim_toolc.Ir.Validate.{validate_program, Checked, ValidatedProgram}
use laminaria_rust_nim_toolc.Ir.Transform.Result.{
  ok, err, unsupported_callee_shape, postcondition_violated,
}
use laminaria_rust_nim_toolc.Ir.Transform.Rename.{u32_succ, initial_next_local}
use laminaria_rust_nim_toolc.Ir.Transform.Rewrite.{
  as_simple_return_expr, simple_callee, found_caller, replace_body, apply_inlined_caller,
  rewrite_calls_in_stmt,
}
use laminaria_rust_nim_toolc.Ir.Transform.AnfInsert.{bind_and_graft, anf_insert}
use laminaria_rust_nim_toolc.Ir.Transform.Preserve.Body.{>>=-eq-ok, ok_injective}

-- What an accepted transform looked up and did, by the step of its counter.
pub record Inlined (next_id : ℕ → ℕ) (program : Program) (caller callee : String)
    (program' : Program) : Type 0 where
  pub callee_fact : FnFact
  pub body : Expr
  pub has_callee : get_fact program callee ≡ some callee_fact
  pub is_simple : as_simple_return_expr callee_fact.body ≡ some body
  pub caller_fact : FnFact
  pub has_caller : get_fact program caller ≡ some caller_fact
  pub new_body : Stmt × ℕ
  pub rewrites :
      rewrite_calls_in_stmt callee
        (bind_and_graft next_id callee body (length callee_fact.params))
        caller_fact.body
        (initial_next_local next_id caller_fact.body)
      ≡ ok new_body
  pub result : insert_fact program (record caller_fact { body = new_body.0 }) ≡ program'

simple_found :
    (callee : String) (o : Option FnFact) (r : FnFact × Expr)
    → simple_callee callee o ≡ ok r
    → (o ≡ some r.0) × (as_simple_return_expr r.0.body ≡ some r.1)
simple_found callee none r h = cc
simple_found callee (some fact) r h = found (as_simple_return_expr fact.body) refl h
  where
    found :
        (b : Option Expr)
        → as_simple_return_expr fact.body ≡ b
        → elim b [ none ↦ err (unsupported_callee_shape callee) | some e ↦ ok (fact, e) ] ≡ ok r
        → (some fact ≡ some r.0) × (as_simple_return_expr r.0.body ≡ some r.1)
    found none e h = cc
    found (some b) e h = (
      ap (λ (q : FnFact × Expr). some q.0) (ok_injective h),
      subst (λ (q : FnFact × Expr). as_simple_return_expr q.0.body ≡ some q.1) (ok_injective h) e,
    )

caller_found :
    (caller : String) (o : Option FnFact) (fact : FnFact)
    → found_caller caller o ≡ ok fact
    → o ≡ some fact
caller_found caller none fact h = cc
caller_found caller (some f) fact h = cc

replaced :
    (program program' : Program) (caller : String) (fact : FnFact) (body : Stmt)
    → replace_body program caller (some fact) body ≡ ok program'
    → insert_fact program (record fact { body = body }) ≡ program'
replaced program program' caller fact body h = validated (validate_program result) h
  where
    result : Program
    result = insert_fact program (record fact { body = body })

    validated :
        (c : Checked ValidatedProgram)
        → elim c [ Checked.ok v ↦ ok result | Checked.err e ↦ err (postcondition_violated e) ]
          ≡ ok program'
        → result ≡ program'
    validated (Checked.ok v) h = ok_injective h
    validated (Checked.err e) h = cc

pub accepted-Inlined :
    (program : Program) (caller callee : String) (program' : Program)
    → anf_insert program caller callee ≡ ok program'
    → Inlined u32_succ program caller callee program'
unfolding anf_insert apply_inlined_caller
accepted-Inlined program caller callee program' h =
    let (found, hf, rest) = >>=-eq-ok (simple_callee callee (get_fact program callee)) _ h in
    let (has, simple) = simple_found callee _ found hf in
    let (fact, hc, rest') = >>=-eq-ok (found_caller caller (get_fact program caller)) _ rest in
    let has' : get_fact program caller ≡ some fact = caller_found caller _ fact hc in
    let (new, hr, last) =
      >>=-eq-ok
        (rewrite_calls_in_stmt callee
          (bind_and_graft u32_succ callee found.1 (length found.0.params)) fact.body
          (initial_next_local u32_succ fact.body))
        _ rest' in
    record {
      callee_fact = found.0;
      body = found.1;
      has_callee = has;
      is_simple = simple;
      caller_fact = fact;
      has_caller = has';
      new_body = new;
      rewrites = hr;
      result =
          replaced program program' caller fact new.0
            (subst (λ o. replace_body program caller o new.0 ≡ ok program') has' last);
    }
