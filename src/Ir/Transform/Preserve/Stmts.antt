-- ===== src/Ir/Transform/Preserve/Stmts.antt =====
-- The caller's whole body against its rewritten form.
use laminaria_rust_nim_toolc.Prelude.{ℕ, ◌≤◌, ◌≡◌, arith, subst, String, ℤ, List, false, is_nonzero}
use laminaria_rust_nim_toolc.Ir.Types.{Expr, Stmt, let_then, if_else, return}
use laminaria_rust_nim_toolc.Ir.Interpreter.{Caller, eval_stmt}
use laminaria_rust_nim_toolc.Ir.Transform.Result.{Result, ok}
use laminaria_rust_nim_toolc.Ir.Transform.Rewrite.{rewrite_calls_in_expr, rewrite_calls_in_stmt}
use laminaria_rust_nim_toolc.Ir.Transform.AnfInsert.{bind_and_graft}
use laminaria_rust_nim_toolc.Ir.Transform.Preserve.Ids.{StmtIdsBelow}
use laminaria_rust_nim_toolc.Ir.Transform.Preserve.Rename.{plus_one, NoShadow}
use laminaria_rust_nim_toolc.Ir.Transform.Preserve.Sim.{Sim, Sim-bind, Sim-if, Sim-scoped, Answers}
use laminaria_rust_nim_toolc.Ir.Transform.Preserve.Body.{>>=-eq-ok, ok_injective}
use laminaria_rust_nim_toolc.Ir.Transform.Preserve.Graft.{Inlines}
use laminaria_rust_nim_toolc.Ir.Transform.Preserve.Caller.{
  Agree, Agree-bind, both_rewritten, expr-Follows,
}

module _ (callee : String) (run0 run run' : Caller) (params : List ℤ) (raw : Expr) (count bound : ℕ)
    (follows0 : (f : String) (vs : List ℤ) → Answers callee (run0 f vs) (run' f vs))
    (follows : (f : String) (vs : List ℤ) → Answers callee (run f vs) (run' f vs))
    (inlines : Inlines callee run0 run run' params raw count)
    (no_shadow : NoShadow (λ _. false) raw) where
  abbrev replace_in : Expr → ℕ → Result (Expr × ℕ)
  replace_in = rewrite_calls_in_expr callee (bind_and_graft plus_one callee raw count)

  abbrev rewritten : Stmt → ℕ → Result (Stmt × ℕ)
  rewritten = rewrite_calls_in_stmt callee (bind_and_graft plus_one callee raw count)

  abbrev Rewritten : Stmt → ℕ → Stmt × ℕ → Type 0
  Rewritten b n r =
      (n ≤ r.1) × Sim callee (Agree bound) (eval_stmt run params b) (eval_stmt run' params r.0)

  pub stmt_follows :
      (b : Stmt) (n : ℕ) (r : Stmt × ℕ)
      → bound ≤ n
      → StmtIdsBelow bound b
      → rewritten b n ≡ ok r
      → Rewritten b n r
  unfolding eval_stmt rewrite_calls_in_stmt
  stmt_follows (let_then x v b p) n r le below h =
      let (v', b', hv, hb, eq) =
        both_rewritten (replace_in v n) (rewritten b) (λ v b. let_then x v b p) h in
      let (lv, sv) =
        expr-Follows callee run0 run run' params raw count bound follows0 follows inlines no_shadow
          v n v' le below.1.0 hv in
      let (lb, sb) = stmt_follows b v'.1 b' (omega arith) below.1.1 hb in
      subst (Rewritten (let_then x v b p) n) eq (
        omega arith,
        Sim-scoped callee (Agree bound) (Agree bound) x x _ _ _ _ sv
            (λ w c c' k. Agree-bind bound x w c c' k) sb,
      )
  stmt_follows (if_else c t e p) n r le below h =
      let (c', hc, rest) = >>=-eq-ok (replace_in c n) _ h in
      let (lc, sc) =
        expr-Follows callee run0 run run' params raw count bound follows0 follows inlines no_shadow
          c n c' le below.0 hc in
      let (t', e', ht, he, eq) =
        both_rewritten (rewritten t c'.1) (rewritten e) (λ t e. if_else c'.0 t e p) rest in
      let (lt, st) = stmt_follows t c'.1 t' (omega arith) below.1.0 ht in
      let (le', se) = stmt_follows e t'.1 e' (omega arith) below.1.1 he in
      subst (Rewritten (if_else c t e p) n) eq (
        omega arith,
        Sim-bind callee (Agree bound) _ _ _ _ sc
            λ v. Sim-if callee (Agree bound) (is_nonzero v) _ _ _ _ st se,
      )
  stmt_follows (return e p) n r le below h =
      let (e', he, last) = >>=-eq-ok (replace_in e n) _ h in
      subst (Rewritten (return e p) n) (ok_injective last) (
        expr-Follows callee run0 run run' params raw count bound follows0 follows inlines no_shadow
          e n e' le below he)
