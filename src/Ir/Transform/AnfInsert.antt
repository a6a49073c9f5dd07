-- ===== src/Ir/Transform/AnfInsert.antt =====
-- crates/laminaria-ir/src/transform/anf_insert.rs: inlining by binding every argument first.
use laminaria_rust_nim_toolc.Prelude.{
  ℕ, zero, suc, String, List, [], ◌∷◌, length, if◌then◌else◌, ◌==◌,
}
use laminaria_rust_nim_toolc.Ir.Types.{
  LocalId, Provenance, Expr, Exprs, let_in, nil, cons, count_exprs, Program, get_fact,
}
use laminaria_rust_nim_toolc.Ir.Transform.Result.{
  Result, ok, err, panic, ◌>>=◌, unsupported_callee_shape,
}
use laminaria_rust_nim_toolc.Ir.Transform.Rename.{
  u32_succ, alpha_rename_for_one_graft, initial_next_local,
}
use laminaria_rust_nim_toolc.Ir.Transform.Rewrite.{
  simple_callee, found_caller, substitute_params_with_locals, Replace, rewrite_calls_in_stmt,
  apply_inlined_caller,
}

-- `count` ids from `next` on.
abbrev pub fresh_locals : (ℕ → ℕ) → ℕ → ℕ → List LocalId
fresh_locals next_id zero next = []
fresh_locals next_id (suc count) next = next ∷ fresh_locals next_id count (next_id next)

-- The counter after them.
abbrev pub after_locals : (ℕ → ℕ) → ℕ → ℕ → ℕ
after_locals next_id zero next = next
after_locals next_id (suc count) next = after_locals next_id count (next_id next)

-- `Let(l0, args[0], Let(l1, args[1], .., body))`, which the source builds from the last argument on.
abbrev pub wrap_lets : List LocalId → Exprs → Expr → Provenance → Result Expr
wrap_lets [] args body p = ok body
wrap_lets (x ∷ xs) nil body p = panic
wrap_lets (x ∷ xs) (cons e es) body p = wrap_lets xs es body p >>= λ inner. ok (let_in x e inner p)

module _ (next_id : ℕ → ℕ) (callee : String) (raw_callee_body : Expr) (param_count : ℕ) where
  -- One call of the callee: its body renamed afresh, and a binding for each argument around it.
  abbrev pub graft : Replace
  graft args p next =
      let (body, after) = alpha_rename_for_one_graft next_id raw_callee_body next in
      let locals = fresh_locals next_id param_count after in
      substitute_params_with_locals body locals p >>= λ substituted.
      wrap_lets locals args substituted p >>= λ result.
      ok (result, after_locals next_id param_count after)

  -- The closure that `anf_insert` hands to the walk.
  unfoldable pub bind_and_graft : Replace
  bind_and_graft args p next =
      if count_exprs args == param_count
      then graft args p next
      else err (unsupported_callee_shape callee)

unfoldable pub anf_insert : Program → String → String → Result Program
anf_insert program caller callee =
    simple_callee callee (get_fact program callee) >>= λ (callee_fact, body).
    found_caller caller (get_fact program caller) >>= λ caller_fact.
    rewrite_calls_in_stmt callee (bind_and_graft u32_succ callee body (length callee_fact.params))
      caller_fact.body (initial_next_local u32_succ caller_fact.body)
    >>= λ (new_body, next). apply_inlined_caller program caller new_body
