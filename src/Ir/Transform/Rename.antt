-- ===== src/Ir/Transform/Rename.antt =====
-- crates/laminaria-ir/src/transform/mod.rs: fresh ids for the locals of a callee's body.
use laminaria_rust_nim_toolc.Prelude.{ℕ, ◌+◌, ◌%◌, Option, none, some, if◌then◌else◌, ◌==◌}
use laminaria_rust_nim_toolc.Ir.Types.{
  LocalId, Expr, Exprs, Stmt, int_lit, param, local, wrapping_add, wrapping_sub, wrapping_mul,
  not_eq_zero, call, let_in, nil, cons,
}
use laminaria_rust_nim_toolc.Ir.Locals.{max_local_id_in_stmt}

-- The table from old ids to new ones, and the next id that is free.
pub record Renaming : Type 0 where
  pub remap : LocalId → Option LocalId
  pub next_local : ℕ

-- `remap.get(id).copied().unwrap_or(*id)`
abbrev pub or_self : LocalId → Option LocalId → LocalId
or_self x none = x
or_self x (some y) = y

abbrev pub look : Renaming → LocalId → LocalId
look r x = or_self x (r.remap x)

-- The source counts ids in a `u32`: the one after the last is 0 (built with overflow checks, the
-- addition panics there instead).
abbrev pub u32_succ : ℕ → ℕ
u32_succ n = (n + 1) % 0x100000000

-- The step of the counter is a parameter: `u32_succ` in the transforms.
module _ (next_id : ℕ → ℕ) where
  -- The new id for a binder, which the table has from then on.
  abbrev pub allocate : LocalId → Renaming → Renaming
  allocate x r = record {
    remap = λ y. if x == y then some r.next_local else r.remap y;
    next_local = next_id r.next_local;
  }

  unfoldable mutual
    pub alpha_rename_callee_body : Expr → Renaming → Expr × Renaming
    alpha_rename_callee_body (int_lit v w p) r = (int_lit v w p, r)
    alpha_rename_callee_body (param i p) r = (param i p, r)
    alpha_rename_callee_body (local x p) r = (local (look r x) p, r)
    alpha_rename_callee_body (wrapping_add a b p) r =
        let (a', r1) = alpha_rename_callee_body a r in
        let (b', r2) = alpha_rename_callee_body b r1 in (wrapping_add a' b' p, r2)
    alpha_rename_callee_body (wrapping_sub a b p) r =
        let (a', r1) = alpha_rename_callee_body a r in
        let (b', r2) = alpha_rename_callee_body b r1 in (wrapping_sub a' b' p, r2)
    alpha_rename_callee_body (wrapping_mul a b p) r =
        let (a', r1) = alpha_rename_callee_body a r in
        let (b', r2) = alpha_rename_callee_body b r1 in (wrapping_mul a' b' p, r2)
    alpha_rename_callee_body (not_eq_zero e p) r =
        let (e', r1) = alpha_rename_callee_body e r in (not_eq_zero e' p, r1)
    alpha_rename_callee_body (call f args p) r =
        let (args', r1) = alpha_rename_args args r in (call f args' p, r1)
    alpha_rename_callee_body (let_in x v b p) r =
        let (v', r1) = alpha_rename_callee_body v r in
        let (b', r2) = alpha_rename_callee_body b (allocate x r1) in
        (let_in r1.next_local v' b' p, r2)

    pub alpha_rename_args : Exprs → Renaming → Exprs × Renaming
    alpha_rename_args nil r = (nil, r)
    alpha_rename_args (cons e es) r =
        let (e', r1) = alpha_rename_callee_body e r in
        let (es', r2) = alpha_rename_args es r1 in (cons e' es', r2)

  -- The id after the greatest of the caller's body.
  unfoldable pub initial_next_local : Stmt → ℕ
  initial_next_local b = elim (max_local_id_in_stmt b) [ none ↦ 0 | some m ↦ next_id m ]

  -- A fresh table for each call site; the counter goes on.
  unfoldable pub alpha_rename_for_one_graft : Expr → ℕ → Expr × ℕ
  alpha_rename_for_one_graft body next =
      let (body', r) =
        alpha_rename_callee_body body (record { remap = λ _. none; next_local = next }) in
      (body', r.next_local)
