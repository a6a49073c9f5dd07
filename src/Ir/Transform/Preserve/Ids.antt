-- ===== src/Ir/Transform/Preserve/Ids.antt =====
-- The counter starts above every local that the caller's body mentions.
use laminaria_rust_nim_toolc.Prelude.{ℕ, ◌<◌, ◌≤◌, ◌≡◌, refl, subst, sym, Option, none, some, arith}
use laminaria_rust_nim_toolc.Ir.Types.{
  Expr, Exprs, Stmt, int_lit, param, local, wrapping_add, wrapping_sub, wrapping_mul, not_eq_zero,
  call, let_in, nil, cons, let_then, if_else, return,
}
use laminaria_rust_nim_toolc.Ir.Locals.{
  max_opt, max_local_id_in_expr, max_local_id_in_exprs, max_local_id_in_stmt,
}
use laminaria_rust_nim_toolc.Ir.Transform.Rename.{u32_succ, initial_next_local}
use laminaria_rust_nim_toolc.Ir.Transform.Preserve.Rename.{plus_one}

module _ (n : ℕ) where
  -- Every local that the tree binds or reads is below `n`.
  abbrev mutual
    pub IdsBelow : Expr → Type 0
    IdsBelow (int_lit v w p) = Unit {0}
    IdsBelow (param i p) = Unit {0}
    IdsBelow (local x p) = x < n
    IdsBelow (wrapping_add a b p) = IdsBelow a × IdsBelow b
    IdsBelow (wrapping_sub a b p) = IdsBelow a × IdsBelow b
    IdsBelow (wrapping_mul a b p) = IdsBelow a × IdsBelow b
    IdsBelow (not_eq_zero e p) = IdsBelow e
    IdsBelow (call f args p) = ArgsIdsBelow args
    IdsBelow (let_in x v b p) = (x < n) × (IdsBelow v × IdsBelow b)

    pub ArgsIdsBelow : Exprs → Type 0
    ArgsIdsBelow nil = Unit {0}
    ArgsIdsBelow (cons e es) = IdsBelow e × ArgsIdsBelow es

  abbrev pub StmtIdsBelow : Stmt → Type 0
  StmtIdsBelow (let_then x v b p) = (x < n) × (IdsBelow v × StmtIdsBelow b)
  StmtIdsBelow (if_else c t e p) = IdsBelow c × (StmtIdsBelow t × StmtIdsBelow e)
  StmtIdsBelow (return e p) = IdsBelow e

  abbrev OptBelow : Option ℕ → Type 0
  OptBelow none = Unit {0}
  OptBelow (some m) = m < n

  max_opt-OptBelow : (a b : Option ℕ) → OptBelow (max_opt a b) → OptBelow a × OptBelow b
  max_opt-OptBelow (some a) (some b) h = (omega arith, omega arith)
  max_opt-OptBelow (some a) none h = (h, tt)
  max_opt-OptBelow none (some b) h = (tt, h)
  max_opt-OptBelow none none h = (tt, tt)

  OptBelow-max_opt : (a b : Option ℕ) → OptBelow a → OptBelow b → OptBelow (max_opt a b)
  OptBelow-max_opt (some a) (some b) h k = omega arith
  OptBelow-max_opt (some a) none h k = h
  OptBelow-max_opt none (some b) h k = k
  OptBelow-max_opt none none h k = tt

  mutual
    unfolding max_local_id_in_expr

    expr_below : (e : Expr) → OptBelow (max_local_id_in_expr e) → IdsBelow e
    expr_below (int_lit v w p) h = tt
    expr_below (param i p) h = tt
    expr_below (local x p) h = h
    expr_below (wrapping_add a b p) h =
        let (ha, hb) = max_opt-OptBelow _ _ h in (expr_below a ha, expr_below b hb)
    expr_below (wrapping_sub a b p) h =
        let (ha, hb) = max_opt-OptBelow _ _ h in (expr_below a ha, expr_below b hb)
    expr_below (wrapping_mul a b p) h =
        let (ha, hb) = max_opt-OptBelow _ _ h in (expr_below a ha, expr_below b hb)
    expr_below (not_eq_zero e p) h = expr_below e h
    expr_below (call f args p) h = args_below args h
    expr_below (let_in x v b p) h =
        let (hx, rest) =
          max_opt-OptBelow (some x) (max_opt (max_local_id_in_expr v) (max_local_id_in_expr b)) h in
        let (hv, hb) = max_opt-OptBelow (max_local_id_in_expr v) (max_local_id_in_expr b) rest in
        (hx, (expr_below v hv, expr_below b hb))

    args_below : (es : Exprs) → OptBelow (max_local_id_in_exprs es) → ArgsIdsBelow es
    args_below nil h = tt
    args_below (cons e es) h =
        let (he, rest) = max_opt-OptBelow _ _ h in (expr_below e he, args_below es rest)

  stmt_below : (b : Stmt) → OptBelow (max_local_id_in_stmt b) → StmtIdsBelow b
  unfolding max_local_id_in_stmt
  stmt_below (let_then x v b p) h =
      let (hx, rest) =
        max_opt-OptBelow (some x) (max_opt (max_local_id_in_expr v) (max_local_id_in_stmt b)) h in
      let (hv, hb) = max_opt-OptBelow (max_local_id_in_expr v) (max_local_id_in_stmt b) rest in
      (hx, (expr_below v hv, stmt_below b hb))
  stmt_below (if_else c t e p) h =
      let (hc, rest) =
        max_opt-OptBelow (max_local_id_in_expr c)
          (max_opt (max_local_id_in_stmt t) (max_local_id_in_stmt e)) h in
      let (ht, he) = max_opt-OptBelow (max_local_id_in_stmt t) (max_local_id_in_stmt e) rest in
      (expr_below c hc, (stmt_below t ht, stmt_below e he))
  stmt_below (return e p) h = expr_below e h

  mutual
    unfolding max_local_id_in_expr

    expr_greatest : (e : Expr) → IdsBelow e → OptBelow (max_local_id_in_expr e)
    expr_greatest (int_lit v w p) h = tt
    expr_greatest (param i p) h = tt
    expr_greatest (local x p) h = h
    expr_greatest (wrapping_add a b p) h =
        OptBelow-max_opt _ _ (expr_greatest a h.0) (expr_greatest b h.1)
    expr_greatest (wrapping_sub a b p) h =
        OptBelow-max_opt _ _ (expr_greatest a h.0) (expr_greatest b h.1)
    expr_greatest (wrapping_mul a b p) h =
        OptBelow-max_opt _ _ (expr_greatest a h.0) (expr_greatest b h.1)
    expr_greatest (not_eq_zero e p) h = expr_greatest e h
    expr_greatest (call f args p) h = args_greatest args h
    expr_greatest (let_in x v b p) h =
        OptBelow-max_opt (some x) _ h.0
          (OptBelow-max_opt _ _ (expr_greatest v h.1.0) (expr_greatest b h.1.1))

    args_greatest : (es : Exprs) → ArgsIdsBelow es → OptBelow (max_local_id_in_exprs es)
    args_greatest nil h = tt
    args_greatest (cons e es) h = OptBelow-max_opt _ _ (expr_greatest e h.0) (args_greatest es h.1)

  stmt_greatest : (b : Stmt) → StmtIdsBelow b → OptBelow (max_local_id_in_stmt b)
  unfolding max_local_id_in_stmt
  stmt_greatest (let_then x v b p) h =
      OptBelow-max_opt (some x) _ h.0
        (OptBelow-max_opt _ _ (expr_greatest v h.1.0) (stmt_greatest b h.1.1))
  stmt_greatest (if_else c t e p) h =
      OptBelow-max_opt _ _ (expr_greatest c h.0)
        (OptBelow-max_opt _ _ (stmt_greatest t h.1.0) (stmt_greatest e h.1.1))
  stmt_greatest (return e p) h = expr_greatest e h

-- On plain numbers the first id is above every local of the body.
pub plus_one-StmtIdsBelow : (b : Stmt) → StmtIdsBelow (initial_next_local plus_one b) b
unfolding initial_next_local
plus_one-StmtIdsBelow b = stmt_below _ b (bound (max_local_id_in_stmt b))
  where
    bound : (o : Option ℕ) → OptBelow (elim o [ none ↦ 0 | some m ↦ plus_one m ]) o
    bound none = tt
    bound (some m) = omega arith

-- Where the body's locals leave an id of a `u32` free above them, the first id is the plain one.
pub initial_fits :
    (n : ℕ) (b : Stmt)
    → StmtIdsBelow n b
    → n < 0x100000000
    → (initial_next_local u32_succ b ≡ initial_next_local plus_one b)
      × (initial_next_local plus_one b ≤ n)
unfolding initial_next_local
initial_fits n b below fits = bound (max_local_id_in_stmt b) (stmt_greatest n b below)
  where
    bound :
        (o : Option ℕ)
        → OptBelow n o
        → (◌≡◌ {A = ℕ}
            (elim o [ none ↦ 0 | some m ↦ u32_succ m ])
            (elim o [ none ↦ 0 | some m ↦ plus_one m ]))
          × (elim o [ none ↦ 0 | some m ↦ plus_one m ] ≤ n)
    bound none h = (refl, omega arith)
    bound (some m) h = (omega arith, omega arith)

-- Where every local that a function's body binds or reads, at any depth, is below the greatest `u32`,
-- they are all below the id from which the transforms allocate.
pub initial_next_local-StmtIdsBelow :
    (b : Stmt) → StmtIdsBelow 0xffffffff b → StmtIdsBelow (initial_next_local u32_succ b) b
initial_next_local-StmtIdsBelow b below =
    subst (λ n. StmtIdsBelow n b) (sym (initial_fits 0xffffffff b below (omega arith)).0)
      (plus_one-StmtIdsBelow b)
