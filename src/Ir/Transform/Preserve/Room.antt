-- ===== src/Ir/Transform/Preserve/Room.antt =====
-- The counter of fresh ids where it stays below 2^32: the `u32` of the source counts as plain numbers
-- do.
use laminaria_rust_nim_toolc.Prelude.{
  ℕ, suc, ◌+◌, ◌<◌, ◌≡◌, refl, ap, ◌∙◌, arith, String, some, if◌then◌else◌, str_eq, ◌==◌,
}
use laminaria_rust_nim_toolc.Ir.Types.{
  Expr, Exprs, Stmt, int_lit, param, local, wrapping_add, wrapping_sub, wrapping_mul, not_eq_zero,
  call, let_in, nil, cons, let_then, if_else, return,
}
use laminaria_rust_nim_toolc.Ir.Transform.Result.{}
use laminaria_rust_nim_toolc.Ir.Transform.Rename.{
  u32_succ, Renaming, allocate, alpha_rename_callee_body, alpha_rename_args,
}
use laminaria_rust_nim_toolc.Ir.Transform.Rewrite.{}
use laminaria_rust_nim_toolc.Ir.Transform.AnfInsert.{}
use laminaria_rust_nim_toolc.Ir.Transform.Preserve.Rename.{plus_one}

-- The binders of a tree.
abbrev mutual
  pub lets : Expr → ℕ
  lets (int_lit v w p) = 0
  lets (param i p) = 0
  lets (local x p) = 0
  lets (wrapping_add a b p) = lets a + lets b
  lets (wrapping_sub a b p) = lets a + lets b
  lets (wrapping_mul a b p) = lets a + lets b
  lets (not_eq_zero e p) = lets e
  lets (call f args p) = args_lets args
  lets (let_in x v b p) = lets v + suc (lets b)

  pub args_lets : Exprs → ℕ
  args_lets nil = 0
  args_lets (cons e es) = lets e + args_lets es

-- The fresh ids that a tree takes, at `each` for a call of the callee.
module _ (callee : String) (each : ℕ) where
  abbrev mutual
    pub ids_needed : Expr → ℕ
    ids_needed (int_lit v w p) = 0
    ids_needed (param i p) = 0
    ids_needed (local x p) = 0
    ids_needed (wrapping_add a b p) = ids_needed a + ids_needed b
    ids_needed (wrapping_sub a b p) = ids_needed a + ids_needed b
    ids_needed (wrapping_mul a b p) = ids_needed a + ids_needed b
    ids_needed (not_eq_zero e p) = ids_needed e
    ids_needed (call f args p) = args_ids_needed args + (if str_eq f callee then each else 0)
    ids_needed (let_in x v b p) = ids_needed v + ids_needed b

    pub args_ids_needed : Exprs → ℕ
    args_ids_needed nil = 0
    args_ids_needed (cons e es) = ids_needed e + args_ids_needed es

  abbrev pub stmt_ids_needed : Stmt → ℕ
  stmt_ids_needed (let_then x v b p) = ids_needed v + stmt_ids_needed b
  stmt_ids_needed (if_else c t e p) = ids_needed c + (stmt_ids_needed t + stmt_ids_needed e)
  stmt_ids_needed (return e p) = ids_needed e

pub u32_succ_fits : (n : ℕ) → n + 1 < 0x100000000 → u32_succ n ≡ plus_one n
u32_succ_fits n fits = omega arith

-- Two steps that hand on a state, the second after the first.
in_turn :
    {A B C R : Type 0} (x y : A × R) (k k' : A × R → B × R) (c : A × R → B → C)
    → x ≡ y
    → k y ≡ k' y
    → ◌≡◌ {A = C × R} (c x (k x).0, (k x).1) (c y (k' y).0, (k' y).1)
in_turn x y k k' c first second =
    ap (λ z. (c z (k z).0, (k z).1)) first ∙ ap (λ z. (c y z.0, z.1)) second

mutual
  unfolding alpha_rename_callee_body

  pub rename_fits :
      (e : Expr) (r : Renaming)
      → r.next_local + lets e < 0x100000000
      → (alpha_rename_callee_body u32_succ e r ≡ alpha_rename_callee_body plus_one e r)
        × ((alpha_rename_callee_body plus_one e r).1.next_local ≡ r.next_local + lets e)
  rename_fits (int_lit v w p) r fits = (refl, omega arith)
  rename_fits (param i p) r fits = (refl, omega arith)
  rename_fits (local x p) r fits = (refl, omega arith)
  rename_fits (wrapping_add a b p) r fits =
      let (same, ends) = rename_fits a r (omega arith) in
      let (same', ends') = rename_fits b (alpha_rename_callee_body plus_one a r).1 (omega arith) in
      (
        in_turn _ _ (λ z. alpha_rename_callee_body u32_succ b z.1)
            (λ z. alpha_rename_callee_body plus_one b z.1) (λ z b'. wrapping_add z.0 b' p) same
            same',
        omega arith,
      )
  rename_fits (wrapping_sub a b p) r fits =
      let (same, ends) = rename_fits a r (omega arith) in
      let (same', ends') = rename_fits b (alpha_rename_callee_body plus_one a r).1 (omega arith) in
      (
        in_turn _ _ (λ z. alpha_rename_callee_body u32_succ b z.1)
            (λ z. alpha_rename_callee_body plus_one b z.1) (λ z b'. wrapping_sub z.0 b' p) same
            same',
        omega arith,
      )
  rename_fits (wrapping_mul a b p) r fits =
      let (same, ends) = rename_fits a r (omega arith) in
      let (same', ends') = rename_fits b (alpha_rename_callee_body plus_one a r).1 (omega arith) in
      (
        in_turn _ _ (λ z. alpha_rename_callee_body u32_succ b z.1)
            (λ z. alpha_rename_callee_body plus_one b z.1) (λ z b'. wrapping_mul z.0 b' p) same
            same',
        omega arith,
      )
  rename_fits (not_eq_zero e p) r fits =
      let (same, ends) = rename_fits e r fits in
      (ap (λ (z : Expr × Renaming). (not_eq_zero z.0 p, z.1)) same, ends)
  rename_fits (call f args p) r fits =
      let (same, ends) = rename_args_fits args r fits in
      (ap (λ (z : Exprs × Renaming). (call f z.0 p, z.1)) same, ends)
  rename_fits (let_in x v b p) r fits =
      let (same, ends) = rename_fits v r (omega arith) in
      let r1 = (alpha_rename_callee_body plus_one v r).1 in
      let next : u32_succ r1.next_local ≡ plus_one r1.next_local =
        u32_succ_fits r1.next_local (omega arith) in
      let with_next : ℕ → Renaming = λ n. record {
        remap = λ y. if x == y then some r1.next_local else r1.remap y;
        next_local = n;
      } in
      let allocated : allocate u32_succ x r1 ≡ allocate plus_one x r1 = ap with_next next in
      let (same', ends') = rename_fits b (allocate plus_one x r1) (omega arith) in
      (
        in_turn _ _ (λ z. alpha_rename_callee_body u32_succ b (allocate u32_succ x z.1))
            (λ z. alpha_rename_callee_body plus_one b (allocate plus_one x z.1))
            (λ z b'. let_in z.1.next_local z.0 b' p) same
            (ap (alpha_rename_callee_body u32_succ b) allocated ∙ same'),
        omega arith,
      )

  rename_args_fits :
      (es : Exprs) (r : Renaming)
      → r.next_local + args_lets es < 0x100000000
      → (alpha_rename_args u32_succ es r ≡ alpha_rename_args plus_one es r)
        × ((alpha_rename_args plus_one es r).1.next_local ≡ r.next_local + args_lets es)
  rename_args_fits nil r fits = (refl, omega arith)
  rename_args_fits (cons e es) r fits =
      let (same, ends) = rename_fits e r (omega arith) in
      let (same', ends') =
        rename_args_fits es (alpha_rename_callee_body plus_one e r).1 (omega arith) in
      (
        in_turn _ _ (λ z. alpha_rename_args u32_succ es z.1)
            (λ z. alpha_rename_args plus_one es z.1) (λ z es'. cons z.0 es') same same',
        omega arith,
      )
