-- ===== src/Ir/Transform/CheckedInline.antt =====
-- crates/laminaria-ir/src/transform/checked_inline.rs: inlining by copying the arguments, where a
-- check says that no call-containing argument is duplicated, dropped or moved.
use laminaria_rust_nim_toolc.Prelude.{
  ℕ, suc, ◌+◌, String, Bool, List, [], ◌∷◌, Option, none, some, length, ltb, if◌then◌else◌, ◌==◌,
  false, true,
}
use laminaria_rust_nim_toolc.Ir.Types.{Expr, Exprs, nil, cons, count_exprs, Program, get_fact}
use laminaria_rust_nim_toolc.Ir.Locals.{expr_contains_call}
use laminaria_rust_nim_toolc.Ir.Transform.Result.{
  Result, ok, err, ◌>>=◌, unsupported_callee_shape, would_duplicate_effect, would_drop_effect,
  would_reorder_effects, would_reorder_relative_to_callee_call,
}
use laminaria_rust_nim_toolc.Ir.Transform.Rename.{
  u32_succ, alpha_rename_for_one_graft, initial_next_local,
}
use laminaria_rust_nim_toolc.Ir.Transform.Occurrences.{
  count_param_occurrences, param_evaluation_order, ObservedEvent, param_event, callee_call,
  observed_event_order,
}
use laminaria_rust_nim_toolc.Ir.Transform.Rewrite.{
  simple_callee, found_caller, substitute_params_verbatim, Replace, rewrite_calls_in_stmt,
  apply_inlined_caller,
}

-- `iter().position(..)`
abbrev pub position {ℓ} : {A : Type ℓ} → (A → Bool) → List A → Option ℕ
position test [] = none
position test (x ∷ xs) =
    let rest = position test xs in
    if test x then some 0 else elim rest [ none ↦ none | some i ↦ some (suc i) ]

-- The indices, from `i` on, of the arguments that contain a call.
unfoldable pub effectful_from : ℕ → Exprs → List ℕ
effectful_from i nil = []
effectful_from i (cons e es) =
    let rest = effectful_from (i + 1) es in if expr_contains_call e then i ∷ rest else rest

module _ (callee : String) where
  -- Each effectful parameter occurs exactly once.
  unfoldable pub check_occurrences : Expr → List ℕ → Result (Unit {0})
  check_occurrences body [] = ok tt
  check_occurrences body (i ∷ is) =
      let rest = check_occurrences body is in
      if ltb 1 (count_param_occurrences body i)
      then err (would_duplicate_effect callee i)
      else if count_param_occurrences body i == 0
      then err (would_drop_effect callee i)
      else rest

  -- `if let (Some(pe), Some(pl)) = .. { if pe > pl { return Err(..) } }`
  abbrev pub check_pair : ℕ → ℕ → Option ℕ → Option ℕ → Result (Unit {0})
  check_pair i j (some pe) (some pl) =
      if ltb pl pe then err (would_reorder_effects callee i j) else ok tt
  check_pair i j _ _ = ok tt

  -- The loop over the neighbours among the effectful indices.
  unfoldable pub check_order : List ℕ → List ℕ → Result (Unit {0})
  check_order order [] = ok tt
  check_order order (i ∷ []) = ok tt
  check_order order (i ∷ j ∷ is) =
      check_pair i j (position (λ p. p == i) order) (position (λ p. p == j) order) >>= λ _.
      check_order order (j ∷ is)

  abbrev pub is_callee_call : ObservedEvent → Bool
  is_callee_call (param_event i) = false
  is_callee_call callee_call = true

  abbrev pub is_param : ℕ → ObservedEvent → Bool
  is_param i (param_event p) = p == i
  is_param i callee_call = false

  abbrev pub check_before : ℕ → ℕ → Option ℕ → Result (Unit {0})
  check_before first_call i none = ok tt
  check_before first_call i (some pp) =
      if ltb first_call pp then err (would_reorder_relative_to_callee_call callee i) else ok tt

  unfoldable pub check_calls_from : ℕ → List ObservedEvent → List ℕ → Result (Unit {0})
  check_calls_from first_call events [] = ok tt
  check_calls_from first_call events (i ∷ is) =
      check_before first_call i (position (is_param i) events) >>= λ _.
      check_calls_from first_call events is

  -- No effectful parameter behind the body's own first call.
  unfoldable pub check_calls : List ObservedEvent → List ℕ → Result (Unit {0})
  check_calls events is = elim (position is_callee_call events) [
    | none ↦ ok tt
    | some first_call ↦ check_calls_from first_call events is
  ]

  unfoldable pub check_site : Expr → Exprs → Result (Unit {0})
  check_site body args = check_occurrences body (effectful_from 0 args) >>= λ _.
      check_order (param_evaluation_order body []) (effectful_from 0 args) >>= λ _.
      check_calls (observed_event_order body []) (effectful_from 0 args)

  module _ (raw_callee_body : Expr) (param_count : ℕ) where
    abbrev pub copy_graft : Replace
    copy_graft args p next =
        let (body, after) = alpha_rename_for_one_graft u32_succ raw_callee_body next in
        check_site body args >>= λ _.
        substitute_params_verbatim body args >>= λ result. ok (result, after)

    -- The closure that `checked_inline` hands to the walk.
    unfoldable pub check_and_graft : Replace
    check_and_graft args p next =
        if count_exprs args == param_count
        then copy_graft args p next
        else err (unsupported_callee_shape callee)

unfoldable pub checked_inline : Program → String → String → Result Program
checked_inline program caller callee =
    simple_callee callee (get_fact program callee) >>= λ (callee_fact, body).
    found_caller caller (get_fact program caller) >>= λ caller_fact.
    rewrite_calls_in_stmt callee (check_and_graft callee body (length callee_fact.params))
      caller_fact.body (initial_next_local u32_succ caller_fact.body)
    >>= λ (new_body, next). apply_inlined_caller program caller new_body
