-- ===== src/Ir/Transform/Preserve/Rename.antt =====
-- What an alpha-renaming leaves as it is: the counter does not fall, and where no binder shadows
-- another, the new names of the locals in scope stay.
use native.Mathlib.Nat.{le_refl, le_trans}
use laminaria_rust_nim_toolc.Prelude.{
  ℕ, ◌+◌, ◌≤◌, ◌≡◌, refl, ◌∙◌, subst, sym, true, false, arith, ◌==◌, ==_iff, Bool-cases, inl, inr,
}
use laminaria_rust_nim_toolc.Ir.Types.{
  LocalId, Expr, Exprs, int_lit, param, local, wrapping_add, wrapping_sub, wrapping_mul,
  not_eq_zero, call, let_in, nil, cons,
}
use laminaria_rust_nim_toolc.Ir.Validate.{Bound, put}
use laminaria_rust_nim_toolc.Ir.Transform.Rename.{
  Renaming, allocate, alpha_rename_callee_body, alpha_rename_args,
}

-- Ids as plain numbers.
abbrev pub plus_one : ℕ → ℕ
plus_one n = n + 1

abbrev mutual
  -- No binder reuses the id of a binder around it.
  pub NoShadow : Bound → Expr → Type 0
  NoShadow bound (int_lit v w p) = Unit {0}
  NoShadow bound (param i p) = Unit {0}
  NoShadow bound (local x p) = Unit {0}
  NoShadow bound (wrapping_add a b p) = NoShadow bound a × NoShadow bound b
  NoShadow bound (wrapping_sub a b p) = NoShadow bound a × NoShadow bound b
  NoShadow bound (wrapping_mul a b p) = NoShadow bound a × NoShadow bound b
  NoShadow bound (not_eq_zero e p) = NoShadow bound e
  NoShadow bound (call f args p) = ArgsNoShadow bound args
  NoShadow bound (let_in x v b p) =
      (bound x ≡ false) × (NoShadow bound v × NoShadow (put x true bound) b)

  pub ArgsNoShadow : Bound → Exprs → Type 0
  ArgsNoShadow bound nil = Unit {0}
  ArgsNoShadow bound (cons e es) = NoShadow bound e × ArgsNoShadow bound es

mutual
  unfolding alpha_rename_callee_body

  pub rename_grows :
      (e : Expr) (r : Renaming)
      → r.next_local ≤ (alpha_rename_callee_body plus_one e r).1.next_local
  rename_grows (int_lit v w p) r = le_refl _
  rename_grows (param i p) r = le_refl _
  rename_grows (local x p) r = le_refl _
  rename_grows (wrapping_add a b p) r = le_trans (rename_grows a r) (rename_grows b _)
  rename_grows (wrapping_sub a b p) r = le_trans (rename_grows a r) (rename_grows b _)
  rename_grows (wrapping_mul a b p) r = le_trans (rename_grows a r) (rename_grows b _)
  rename_grows (not_eq_zero e p) r = rename_grows e r
  rename_grows (call f args p) r = rename_args_grows args r
  rename_grows (let_in x v b p) r =
      let r1 = (alpha_rename_callee_body plus_one v r).1 in
      omega (arith, rename_grows v r, rename_grows b (allocate plus_one x r1))

  pub rename_args_grows :
      (es : Exprs) (r : Renaming) → r.next_local ≤ (alpha_rename_args plus_one es r).1.next_local
  rename_args_grows nil r = le_refl _
  rename_args_grows (cons e es) r = le_trans (rename_grows e r) (rename_args_grows es _)

-- The names of the locals in scope are the same in both tables.
abbrev pub SameNames : Bound → Renaming → Renaming → Type 0
SameNames bound r r1 = (x : LocalId) → bound x ≡ true → r1.remap x ≡ r.remap x

put_keeps : (bound : Bound) (x y : LocalId) → bound y ≡ true → put x true bound y ≡ true
put_keeps bound x y h = elim (Bool-cases (x == y)) [ inl same ↦ rw same | inr other ↦ rw other h ]

distinct : (bound : Bound) (x y : LocalId) → bound x ≡ false → bound y ≡ true → (x == y) ≡ false
distinct bound x y hx hy = elim (Bool-cases (x == y)) [
  | inl same ↦
      absurd (false_true (sym hx ∙ subst (λ z. bound z ≡ true) (sym ((==_iff x y).0 same)) hy))
  | inr other ↦ other
]
  where
    false_true : false ≡ true → ⊥
    false_true h = cc

mutual
  unfolding alpha_rename_callee_body

  pub rename_keeps :
      (e : Expr) (r : Renaming) (bound : Bound)
      → NoShadow bound e
      → SameNames bound r (alpha_rename_callee_body plus_one e r).1
  rename_keeps (int_lit v w p) r bound ns y h = refl
  rename_keeps (param i p) r bound ns y h = refl
  rename_keeps (local x p) r bound ns y h = refl
  rename_keeps (wrapping_add a b p) r bound ns y h =
      rename_keeps b _ bound ns.1 y h ∙ rename_keeps a r bound ns.0 y h
  rename_keeps (wrapping_sub a b p) r bound ns y h =
      rename_keeps b _ bound ns.1 y h ∙ rename_keeps a r bound ns.0 y h
  rename_keeps (wrapping_mul a b p) r bound ns y h =
      rename_keeps b _ bound ns.1 y h ∙ rename_keeps a r bound ns.0 y h
  rename_keeps (not_eq_zero e p) r bound ns y h = rename_keeps e r bound ns y h
  rename_keeps (call f args p) r bound ns y h = rename_args_keeps args r bound ns y h
  rename_keeps (let_in x v b p) r bound ns y h =
      let r1 = (alpha_rename_callee_body plus_one v r).1 in
      rename_keeps b (allocate plus_one x r1) (put x true bound) ns.1.1 y (put_keeps bound x y h)
      ∙ rw (distinct bound x y ns.0 h) (rename_keeps v r bound ns.1.0 y h)

  pub rename_args_keeps :
      (es : Exprs) (r : Renaming) (bound : Bound)
      → ArgsNoShadow bound es
      → SameNames bound r (alpha_rename_args plus_one es r).1
  rename_args_keeps nil r bound ns y h = refl
  rename_args_keeps (cons e es) r bound ns y h =
      rename_args_keeps es _ bound ns.1 y h ∙ rename_keeps e r bound ns.0 y h
