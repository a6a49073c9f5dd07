-- ===== src/Ir/Examples.antt =====
-- Tests, and the theorems about the IR at concrete programs.
use laminaria_rust_nim_toolc.Prelude.{
  insert, if◌then◌else◌, ℕ, ◌≡◌, refl, ◌↔◌, ℤ, pos, String, List, [], ◌∷◌, lookup, as_i32, ◌+ℤ◌,
  arith, InI32, some, str_eq, if◌then◌else◌,
}
use laminaria_rust_nim_toolc.Ir.Transform
use laminaria_rust_nim_toolc.Ir.Transform.Rewrite.{
  apply_inlined_caller, rewrite_calls_in_stmt, rewrite_calls_in_expr, substitute_params_with_locals,
  substitute_params,
}
use laminaria_rust_nim_toolc.Ir.Transform.AnfInsert.{anf_insert, bind_and_graft}
use laminaria_rust_nim_toolc.Ir.Transform.Preserve.Sim.{Answers}
use laminaria_rust_nim_toolc.Ir.Transform.Preserve.Program.{anf_insert-Answers}
use laminaria_rust_nim_toolc.Ir.Transform.Rename.{
  alpha_rename_for_one_graft, alpha_rename_callee_body,
}
use laminaria_rust_nim_toolc.Ir.Locals.{max_local_id_in_stmt, max_local_id_in_expr}
use laminaria_rust_nim_toolc.Ir.Types.{
  Program, call, cons, nil, insert_fact, get_fact, let_then, return, local, int_lit, i32, Stmt,
  FnFact, param, wrapping_add, Expr, let_in,
}
use laminaria_rust_nim_toolc.Ir.Interpreter.{
  ok, EvalOutcome, CallEvent, eval_function, eval_expr, eval_stmt, do_call, renumber,
}
use laminaria_rust_nim_toolc.Ir.Interpreter.Numbering.{IsNumbered, eval_function-IsNumbered}
use laminaria_rust_nim_toolc.Ir.Interpreter.Rules.{safe, Ends}
use laminaria_rust_nim_toolc.Ir.Validate.{
  validate_program, validate_all, validate_fn, validate_stmt, validate_expr,
}
use laminaria_rust_nim_toolc.Ir.Validate.Exact.{validate_program_iff}
use laminaria_rust_nim_toolc.Ir.Validate.WellFormed.{WfProgram}
use laminaria_rust_nim_toolc.Ir.Safety.Runs.{validated-safe, validated-returns, IsRanked}
use laminaria_rust_nim_toolc.Ir.Transform.Rename.{u32_succ, initial_next_local}
use laminaria_rust_nim_toolc.Ir.Transform.Preserve.Ids.{
  StmtIdsBelow, initial_next_local-StmtIdsBelow,
}
use laminaria_rust_nim_toolc.Ir.Samples.{nested, fact, prov}

event : String → List ℤ → ℕ → CallEvent
event name args i = record { fn_name = name; args = args; order_index = i }

abbrev nested_outcome : EvalOutcome
unfolding event
nested_outcome = record {
  value = pos 4;
  effects = event "double" (pos 1 ∷ []) 0 ∷ event "double" (pos 2 ∷ []) 1 ∷ [];
}

nested_runs : eval_function 2 nested "caller" [] ≡ ok nested_outcome
unfolding eval_function eval_stmt eval_expr do_call renumber nested lookup event as_i32 ◌+ℤ◌
nested_runs = refl

nested_validates :
    validate_program nested ≡ laminaria_rust_nim_toolc.Ir.Validate.ok (record { program = nested })
unfolding validate_program validate_all validate_fn validate_stmt validate_expr nested lookup
nested_validates = refl

eval_function-IsNumbered_example : IsNumbered 0 nested_outcome.effects
eval_function-IsNumbered_example =
    eval_function-IsNumbered 2 nested "caller" [] nested_outcome nested_runs

abbrev double_fact : FnFact
double_fact =
    fact "double" ("x" ∷ []) (return (wrapping_add (param 0 prov) (param 0 prov) prov) prov)

nested_has_double : get_fact nested "double" ≡ some double_fact
unfolding nested lookup
nested_has_double = refl

validate_program_iff_example :
    (validate_program nested
      ≡ laminaria_rust_nim_toolc.Ir.Validate.ok (record { program = nested }))
    ↔ WfProgram nested
validate_program_iff_example = validate_program_iff nested

validated-safe_example :
    Ends safe (λ outcome. InI32 outcome.value) (eval_function 1 nested "double" (pos 3 ∷ []))
validated-safe_example =
    validated-safe nested (record { program = nested }) 1 "double" double_fact (pos 3 ∷ [])
      nested_validates nested_has_double refl (omega arith, tt)

-- The caller calls `double`, which calls nothing.
abbrev depth : String → ℕ
depth f = if str_eq f "caller" then 1 else 0

nested-IsRanked : IsRanked depth nested.functions
unfolding nested
nested-IsRanked = ((omega arith, ((omega arith, (tt, tt)), tt)), ((tt, tt), tt))

validated-returns_example :
    (outcome : EvalOutcome) × (eval_function 1 nested "double" (pos 3 ∷ []) ≡ ok outcome)
    × InI32 outcome.value
validated-returns_example =
    validated-returns nested (record { program = nested }) depth 1 "double" double_fact (pos 3 ∷ [])
      nested_validates nested-IsRanked (omega arith) nested_has_double refl (omega arith, tt)

abbrev two_bindings : Stmt
two_bindings =
    let_then 4 (int_lit (pos 1) i32 prov)
      (let_then 2 (local 4 prov) (return (local 2 prov) prov) prov) prov

initial_next_local-StmtIdsBelow_example :
    StmtIdsBelow (initial_next_local u32_succ two_bindings) two_bindings
initial_next_local-StmtIdsBelow_example =
    initial_next_local-StmtIdsBelow two_bindings
      (omega arith, (tt, (omega arith, (omega arith, omega arith))))

abbrev accepted : Transform.Result.Result Program → Program
accepted (Transform.Result.ok p) = p
accepted (Transform.Result.err e) = nested
accepted Transform.Result.panic = nested

-- twice(a) = let x9 = a in x9 +% x9, and caller() = let x4 = 3 in twice(x4) +% twice(twice(x4)).
abbrev twice_expr : Expr
twice_expr = let_in 9 (param 0 prov) (wrapping_add (local 9 prov) (local 9 prov) prov) prov

abbrev twice_fact : FnFact
twice_fact = fact "twice" ("a" ∷ []) (return twice_expr prov)

abbrev twice : Expr → Expr
twice e = call "twice" (cons e nil) prov

abbrev caller_fact : FnFact
caller_fact = fact "caller" [] (
    let_then 4 (int_lit (pos 3) i32 prov)
      (return (wrapping_add (twice (local 4 prov)) (twice (twice (local 4 prov))) prov) prov) prov)

abbrev three_calls : Program
three_calls = record { functions = ("caller", caller_fact) ∷ ("twice", twice_fact) ∷ [] }

has_caller : get_fact three_calls "caller" ≡ some caller_fact
unfolding lookup
has_caller = refl

has_twice : get_fact three_calls "twice" ≡ some twice_fact
unfolding lookup
has_twice = refl

abbrev inlined : Program
inlined = accepted (anf_insert three_calls "caller" "twice")

three_calls_inline : anf_insert three_calls "caller" "twice" ≡ Transform.Result.ok inlined
unfolding anf_insert apply_inlined_caller rewrite_calls_in_stmt rewrite_calls_in_expr bind_and_graft
    alpha_rename_for_one_graft alpha_rename_callee_body substitute_params_with_locals
    substitute_params initial_next_local max_local_id_in_stmt max_local_id_in_expr validate_program
    validate_all validate_fn validate_stmt validate_expr insert_fact insert lookup
three_calls_inline = refl

-- The three calls take six ids from 5 on.
anf_insert-Answers_example :
    Answers "twice" (eval_function 2 three_calls "caller" []) (eval_function 2 inlined "caller" [])
anf_insert-Answers_example =
    anf_insert-Answers three_calls inlined "caller" "twice" caller_fact twice_fact twice_expr 5
      three_calls_inline has_caller refl has_twice refl (refl, (tt, (tt, tt)))
      (omega arith, (tt, (((omega arith), tt), ((omega arith, tt), tt)))) (omega arith) 2 "caller"
      []

-- A caller whose second local has the greatest id there is: the counter wraps to 0, and the first
-- argument's binding takes the place of the caller's own local 0.
abbrev add_fact : FnFact
add_fact =
    fact "add" ("a" ∷ "b" ∷ []) (return (wrapping_add (param 0 prov) (param 1 prov) prov) prov)

abbrev last_id_body : Stmt
last_id_body =
    let_then 0 (int_lit (pos 5) i32 prov)
      (let_then 0xffffffff (int_lit (pos 1) i32 prov)
        (return (call "add" (cons (int_lit (pos 7) i32 prov) (cons (local 0 prov) nil)) prov) prov)
        prov)
      prov

abbrev last_id : Program
last_id = record { functions = ("add", add_fact) ∷ ("caller", fact "caller" [] last_id_body) ∷ [] }

abbrev value_of : laminaria_rust_nim_toolc.Ir.Interpreter.Result EvalOutcome → ℤ
value_of (ok outcome) = outcome.value
value_of _ = pos 0

last_id_before : value_of (eval_function 2 last_id "caller" []) ≡ pos 12
unfolding eval_function eval_stmt eval_expr do_call renumber lookup as_i32 ◌+ℤ◌
last_id_before = refl

last_id_after :
    value_of (eval_function 2 (accepted (anf_insert last_id "caller" "add")) "caller" []) ≡ pos 14
unfolding anf_insert apply_inlined_caller rewrite_calls_in_stmt rewrite_calls_in_expr bind_and_graft
    alpha_rename_for_one_graft alpha_rename_callee_body substitute_params_with_locals
    substitute_params initial_next_local max_local_id_in_stmt max_local_id_in_expr validate_program
    validate_all validate_fn validate_stmt validate_expr insert_fact insert lookup eval_function
    eval_stmt eval_expr do_call renumber as_i32 ◌+ℤ◌
last_id_after = refl
