-- ===== src/Ir/Transform/Preserve/Program.antt =====
-- A program against what `anf_insert` makes of it.
use laminaria_rust_nim_toolc.Ir.Transform.Preserve.Facts.{
  fact-Answers, call_runs, later-Answers, some_injective,
}
use laminaria_rust_nim_toolc.Ir.Transform.Preserve.Accepted.{Inlined, accepted-Inlined}
use laminaria_rust_nim_toolc.Prelude.{
  ℕ, zero, suc, ◌+◌, ◌<◌, ◌≡◌, refl, sym, ap, ◌∙◌, subst, arith, String, ℤ, List, Option, none,
  some, true, false, Bool, length, if◌then◌else◌, lookup-insert, str_eq, eq_iff,
}
use laminaria_rust_nim_toolc.Ir.Types.{Expr, FnFact, Program, get_fact, insert_fact}
use laminaria_rust_nim_toolc.Ir.Interpreter.{Caller, eval_fact, eval_function, no_locals}
use laminaria_rust_nim_toolc.Ir.Interpreter
use laminaria_rust_nim_toolc.Ir.Interpreter.Fuel.{eval_function-more_fuel}
use laminaria_rust_nim_toolc.Ir.Transform.Result.{ok}
use laminaria_rust_nim_toolc.Ir.Transform.Rename.{u32_succ, initial_next_local}
use laminaria_rust_nim_toolc.Ir.Transform.Rewrite.{as_simple_return_expr, rewrite_calls_in_stmt}
use laminaria_rust_nim_toolc.Ir.Transform.AnfInsert.{anf_insert, bind_and_graft}
use laminaria_rust_nim_toolc.Ir.Transform.Preserve.Ids.{
  StmtIdsBelow, plus_one-StmtIdsBelow, initial_fits,
}
use laminaria_rust_nim_toolc.Ir.Transform.Preserve.Room.{lets, stmt_ids_needed}
use laminaria_rust_nim_toolc.Ir.Transform.Preserve.Walked.{stmt_fits}
use laminaria_rust_nim_toolc.Ir.Transform.Preserve.Rename.{plus_one, NoShadow}
use laminaria_rust_nim_toolc.Ir.Transform.Preserve.Sim.{Answers}
use laminaria_rust_nim_toolc.Ir.Transform.Preserve.Graft.{Inlines}
use laminaria_rust_nim_toolc.Ir.Transform.Preserve.Same.{stmt_same}
use laminaria_rust_nim_toolc.Ir.Transform.Preserve.Stmts.{stmt_follows}

module _ (program program' : Program) (caller callee : String)
    (inlined : Inlined plus_one program caller callee program')
    (named : inlined.caller_fact.name ≡ caller)
    (no_shadow : NoShadow (λ _. false) inlined.body) where
  abbrev new_fact : FnFact
  new_fact = record inlined.caller_fact { body = inlined.new_body.0 }

  has_new :
      (f : String)
      → get_fact program' f ≡ (if str_eq caller f then some new_fact else get_fact program f)
  unfolding insert_fact
  has_new f =
      ap (λ p. get_fact p f) (sym inlined.result)
      ∙ lookup-insert inlined.caller_fact.name f new_fact program.functions
      ∙ ap (λ k. if str_eq k f then some new_fact else get_fact program f) named

  -- The callee's own calls run one level down.
  abbrev earlier : ℕ → Caller
  earlier zero = λ f vs. Interpreter.out_of_fuel
  earlier (suc k) = eval_function k program

  abbrev AnswersAt : ℕ → Type 0
  AnswersAt k =
      (f : String) (vs : List ℤ)
      → Answers callee (eval_function k program f vs) (eval_function k program' f vs)

  inlines :
      (k : ℕ) (params : List ℤ)
      → Inlines callee
          (earlier k)
          (eval_function k program)
          (eval_function k program')
          params
          inlined.body
          (length inlined.callee_fact.params)
  unfolding eval_function
  inlines zero params vs o h = cc
  inlines (suc k) params vs o h =
      call_runs (eval_function k program) inlined.callee_fact callee vs inlined.body o
        inlined.is_simple
        (subst (λ q. eval_fact (eval_function k program) q callee vs ≡ Interpreter.ok o)
          inlined.has_callee h)

  caller-Answers :
      (k : ℕ) (f : String) (vs : List ℤ)
      → AnswersAt k
      → ((f : String) (vs : List ℤ)
          → Answers callee (earlier k f vs) (eval_function k program' f vs))
      → caller ≡ f
      → Answers callee
          (eval_fact (eval_function k program) (get_fact program f) f vs)
          (eval_fact (eval_function k program') (some new_fact) f vs)
  caller-Answers k f vs answers answers0 here =
      let fact = inlined.caller_fact in
      let first = initial_next_local plus_one fact.body in
      let (later, sim) =
        stmt_follows callee (earlier k) (eval_function k program) (eval_function k program') vs
          inlined.body (length inlined.callee_fact.params) first answers0 answers (inlines k vs)
          no_shadow fact.body first inlined.new_body (omega arith) (plus_one-StmtIdsBelow fact.body)
          inlined.rewrites in
      subst
        (λ q.
          Answers callee (eval_fact (eval_function k program) q f vs)
            (eval_fact (eval_function k program') (some new_fact) f vs))
        (sym (subst (λ g. get_fact program g ≡ some fact) here inlined.has_caller))
        (fact-Answers callee f (eval_function k program) (eval_function k program') fact new_fact vs
          refl (sim no_locals no_locals (λ x lt. refl)))

  other-Answers :
      (k : ℕ) (f : String) (vs : List ℤ) (q : Option FnFact)
      → AnswersAt k
      → Answers callee
          (eval_fact (eval_function k program) q f vs)
          (eval_fact (eval_function k program') q f vs)
  unfolding eval_fact
  other-Answers k f vs none answers = tt
  other-Answers k f vs (some fact) answers =
      fact-Answers callee f (eval_function k program) (eval_function k program') fact fact vs refl (
        stmt_same callee (eval_function k program) (eval_function k program') vs answers fact.body
          no_locals no_locals refl)

  one_level :
      (k : ℕ)
      → AnswersAt k
      → ((f : String) (vs : List ℤ)
          → Answers callee (earlier k f vs) (eval_function k program' f vs))
      → AnswersAt (suc k)
  unfolding eval_function
  one_level k answers answers0 f vs =
      subst
        (λ q.
          Answers callee (eval_fact (eval_function k program) (get_fact program f) f vs)
            (eval_fact (eval_function k program') q f vs))
        (sym (has_new f)) (chosen (str_eq caller f) refl)
    where
      chosen :
          (b : Bool)
          → str_eq caller f ≡ b
          → Answers callee (eval_fact (eval_function k program) (get_fact program f) f vs) (
              eval_fact
                (eval_function k program')
                (if b then some new_fact else get_fact program f)
                f
                vs)
      chosen true here = caller-Answers k f vs answers answers0 ((eq_iff caller f).0 here)
      chosen false other = other-Answers k f vs (get_fact program f) answers

  Answers-earlier :
      (k : ℕ)
      → AnswersAt k
      → (f : String) (vs : List ℤ)
      → Answers callee (eval_function k program f vs) (eval_function (suc k) program' f vs)
  Answers-earlier k answers f vs =
      later-Answers callee (eval_function k program f vs) (eval_function k program' f vs)
        (eval_function (suc k) program' f vs) (answers f vs)
        λ enough.
          subst (λ n. eval_function n program' f vs ≡ eval_function k program' f vs) (suc_lem k)
            (eval_function-more_fuel k 1 program' f vs enough)
    where
      suc_lem : (n : ℕ) → n + 1 ≡ suc n
      suc_lem n = omega arith

  all_levels : (k : ℕ) → AnswersAt k
  unfolding eval_function
  all_levels zero = λ f vs. tt
  all_levels (suc zero) = one_level zero (all_levels zero) (λ f vs. tt)
  all_levels (suc (suc k)) =
      one_level (suc k) (all_levels (suc k)) (Answers-earlier k (all_levels k))

-- With room for the ids, the counter of a `u32` does what one of plain numbers does.
abbrev plain_counter :
    (program program' : Program) (caller callee : String) (first : ℕ)
    (inlined : Inlined u32_succ program caller callee program')
    → StmtIdsBelow first inlined.caller_fact.body
    → first
        + stmt_ids_needed callee
            (lets inlined.body + length inlined.callee_fact.params)
            inlined.caller_fact.body
      < 0x100000000
    → Inlined plus_one program caller callee program'
plain_counter program program' caller callee first inlined below fits =
    let body = inlined.caller_fact.body in
    let count = length inlined.callee_fact.params in
    let needed = stmt_ids_needed callee (lets inlined.body + count) body in
    let (start, le) = initial_fits first body below (omega arith) in
    let walked =
      stmt_fits callee inlined.body count body (initial_next_local plus_one body)
        (initial_next_local plus_one body + needed) (omega arith) (omega arith) in
    record {
      callee_fact = inlined.callee_fact;
      body = inlined.body;
      has_callee = inlined.has_callee;
      is_simple = inlined.is_simple;
      caller_fact = inlined.caller_fact;
      has_caller = inlined.has_caller;
      new_body = inlined.new_body;
      rewrites =
          sym walked.0
          ∙ ap
              (rewrite_calls_in_stmt callee (bind_and_graft u32_succ callee inlined.body count)
                body)
              (sym start)
          ∙ inlined.rewrites;
      result = inlined.result;
    }

-- Where `anf_insert` accepts, the caller's function carries its own name, no `let` in the callee's
-- expression rebinds an id that is in scope there, and the ids from `first` on, above all of the
-- caller's locals, last below 2^32 for one per `let` of the callee's expression and one per parameter
-- at each call of the callee in the caller's body, every call that returns in the old program returns
-- with the same fuel in the new one, with the same value and the same events in the same order, those
-- of the inlined callee and all order indices left out.
pub anf_insert-Answers :
    (program program' : Program) (caller callee : String) (fact callee_fact : FnFact) (raw : Expr)
    (first : ℕ)
    → anf_insert program caller callee ≡ ok program'
    → get_fact program caller ≡ some fact
    → fact.name ≡ caller
    → get_fact program callee ≡ some callee_fact
    → as_simple_return_expr callee_fact.body ≡ some raw
    → NoShadow (λ _. false) raw
    → StmtIdsBelow first fact.body
    → first + stmt_ids_needed callee (lets raw + length callee_fact.params) fact.body < 0x100000000
    → (fuel : ℕ) (name : String) (args : List ℤ)
    → Answers callee (eval_function fuel program name args) (eval_function fuel program' name args)
anf_insert-Answers program program' caller callee fact callee_fact raw first h has named has_callee
      simple no_shadow below fits =
    let inlined = accepted-Inlined program caller callee program' h in
    let the_caller = some_injective (sym has ∙ inlined.has_caller) in
    let the_callee = some_injective (sym has_callee ∙ inlined.has_callee) in
    let the_body = some_injective (
      sym simple
      ∙ ap (λ (g : FnFact). as_simple_return_expr g.body) the_callee
      ∙ inlined.is_simple) in
    let needs : FnFact → Expr → FnFact → ℕ =
      λ g e c. first + stmt_ids_needed callee (lets e + length c.params) g.body in
    let same_needs =
      ap (λ g. needs g raw callee_fact) the_caller
      ∙ ap (λ e. needs inlined.caller_fact e callee_fact) the_body
      ∙ ap (needs inlined.caller_fact inlined.body) the_callee in
    all_levels program program' caller callee
      (plain_counter program program' caller callee first inlined
        (subst (λ (g : FnFact). StmtIdsBelow first g.body) the_caller below)
        (subst (λ n. n < 0x100000000) same_needs fits))
      (subst (λ (g : FnFact). g.name ≡ caller) the_caller named)
      (subst (NoShadow (λ _. false)) the_body no_shadow)
