-- ===== src/Ir/Transform/Preserve/Caller.antt =====
-- The caller's body against the body that `anf_insert` makes of it.
use laminaria_rust_nim_toolc.Prelude.{
  ℕ, ◌≤◌, ◌<◌, ◌≡◌, refl, ◌∙◌, subst, sym, ℤ, pos, String, true, false, List, [], some, arith,
  str_eq, eq_iff, Bool-cases, inl, inr, as_i32, ◌+ℤ◌, ◌-ℤ◌, ◌*ℤ◌, ◌==◌, ==_iff, is_nonzero,
  if◌then◌else◌,
}
use laminaria_rust_nim_toolc.Ir.Types.{
  LocalId, Provenance, Expr, Exprs, int_lit, param, local, wrapping_add, wrapping_sub, wrapping_mul,
  not_eq_zero, call, let_in, nil, cons, count_exprs,
}
use laminaria_rust_nim_toolc.Ir.Interpreter.{
  Eval, Locals, bind, Caller, do_call, eval_expr, eval_args, pure, lift, read_param,
}
use laminaria_rust_nim_toolc.Ir.Interpreter
use laminaria_rust_nim_toolc.Ir.Transform.Result.{Result, ok, err, ◌>>=◌, TransformError}
use laminaria_rust_nim_toolc.Ir.Transform.Rewrite.{rewrite_calls_in_expr, rewrite_calls_in_args}
use laminaria_rust_nim_toolc.Ir.Transform.AnfInsert.{bind_and_graft}
use laminaria_rust_nim_toolc.Ir.Transform.Preserve.Ids.{IdsBelow, ArgsIdsBelow}
use laminaria_rust_nim_toolc.Ir.Transform.Preserve.Rename.{plus_one, NoShadow}
use laminaria_rust_nim_toolc.Ir.Transform.Preserve.Sim.{
  Sim, Sim-pure, Sim-bind, Sim-both, Sim-scoped, Sim-do_call, Answers, Tied-refl,
}
use laminaria_rust_nim_toolc.Ir.Transform.Preserve.Body.{
  other_local, local_follows, >>=-eq-ok, ok_injective,
}
use laminaria_rust_nim_toolc.Ir.Transform.Preserve.Graft.{
  ArgsSim, StableFrom, Inlines, graft_follows,
}

abbrev bind_eval : {A B : Type 0} → Eval A → (A → Eval B) → Eval B
bind_eval m f = laminaria_rust_nim_toolc.Ir.Interpreter.◌>>=◌ m f

abbrev binary : Eval ℤ → Eval ℤ → (ℤ → ℤ → ℤ) → Eval ℤ
binary m n op = bind_eval m λ x. bind_eval n λ y. pure (op x y)

-- The locals of the old frame are in the new one, below the first fresh id.
abbrev pub Agree : ℕ → Locals → Locals → Type 0
Agree bound c c' = (x : LocalId) → x < bound → c' x ≡ c x

pub Agree-bind :
    (bound : ℕ) (x : LocalId) (v : ℤ) (c c' : Locals)
    → Agree bound c c'
    → Agree bound (bind x (some v) c) (bind x (some v) c')
Agree-bind bound x v c c' agree y lt = elim (Bool-cases (x == y)) [
  | inl same ↦ rw same refl
  | inr other ↦ rw other (agree y lt)
]

-- Two rewrites in a row, each with the counter that the one before left.
pub both_rewritten :
    {A B C : Type 0} (m : Result (A × ℕ)) (n : ℕ → Result (B × ℕ)) (f : A → B → C) {c : C × ℕ}
    → (m >>= λ (a, k). n k >>= λ (b, j). ok (f a b, j)) ≡ ok c
    → (a : A × ℕ) × (b : B × ℕ) × (m ≡ ok a) × (n a.1 ≡ ok b) × (◌≡◌ {A = C × ℕ} (f a.0 b.0, b.1) c)
both_rewritten m n f h =
    let (a, ma, rest) = >>=-eq-ok m _ h in
    let (b, nb, last) = >>=-eq-ok (n a.1) _ rest in (a, b, ma, nb, ok_injective last)

if_rewritten :
    (count expected : ℕ) (e : TransformError) (m : Result (Expr × ℕ)) {r : Expr × ℕ}
    → (if count == expected then m else err e) ≡ ok r
    → (count ≡ expected) × (m ≡ ok r)
if_rewritten count expected e m h = elim (Bool-cases (count == expected)) [
  | inl same ↦ ((==_iff count expected).0 same, rw same at h)
  | inr other ↦ let no : err e ≡ ok _ = rw other at h in cc
]

module _ (callee : String) (run0 run run' : Caller) (params : List ℤ) (raw : Expr) (count bound : ℕ)
    (follows0 : (f : String) (vs : List ℤ) → Answers callee (run0 f vs) (run' f vs))
    (follows : (f : String) (vs : List ℤ) → Answers callee (run f vs) (run' f vs))
    (inlines : Inlines callee run0 run run' params raw count)
    (no_shadow : NoShadow (λ _. false) raw) where
  abbrev pub Rewritten : Expr → ℕ → Expr × ℕ → Type 0
  Rewritten e n r =
      (n ≤ r.1) × Sim callee (Agree bound) (eval_expr run params e) (eval_expr run' params r.0)

  abbrev pub rewritten : Expr → ℕ → Result (Expr × ℕ)
  rewritten = rewrite_calls_in_expr callee (bind_and_graft plus_one callee raw count)

  stable :
      (n : ℕ) (p : Provenance) → bound ≤ n → StableFrom callee run run' params p n (Agree bound)
  stable n p le l v c c' above agree x lt = other_local l x (some v) c' (omega arith) ∙ agree x lt

  args_sim :
      (p : Provenance) (es es' : Exprs)
      → ArgsSim callee run run' params p (Agree bound) es es'
      → Sim callee (Agree bound) (eval_args run params es) (eval_args run' params es')
  unfolding eval_args
  args_sim p nil nil h = Sim-pure callee (Agree bound) []
  args_sim p nil (cons e es) h = absurd h
  args_sim p (cons e es) nil h = absurd h
  args_sim p (cons e es) (cons e' es') h =
      Sim-both callee (Agree bound) _ _ _ _ _ h.0 (args_sim p es es' h.1)

  -- A call of another function stays a call of it.
  call_stays :
      (f : String) (es es' : Exprs) (p : Provenance)
      → ArgsSim callee run run' params p (Agree bound) es es'
      → Sim callee
          (Agree bound)
          (eval_expr run params (call f es p))
          (eval_expr run' params (call f es' p))
  unfolding eval_expr
  call_stays f es es' p sims =
      Sim-bind callee (Agree bound) _ _ _ _ (args_sim p es es' sims)
        λ vs. Sim-do_call callee (Agree bound) run run' f vs (follows f vs)

  call_grafted :
      (f : String) (es es' : Exprs) (p : Provenance) (n : ℕ) (r : Expr × ℕ)
      → str_eq f callee ≡ true
      → bound ≤ n
      → ArgsSim callee run run' params p (Agree bound) es es'
      → bind_and_graft plus_one callee raw count es' p n ≡ ok r
      → Rewritten (call f es p) n r
  unfolding eval_expr bind_and_graft
  call_grafted f es es' p n r same le sims h =
      let (many, grafted) = if_rewritten (count_exprs es') count _ _ h in
      subst
        (λ g.
          (n ≤ r.1)
          × Sim callee (Agree bound) (bind_eval (eval_args run params es) (do_call run g))
              (eval_expr run' params r.0))
        (sym ((eq_iff f callee).0 same))
        (graft_follows callee run0 run run' params raw count follows0 inlines no_shadow p es es' n r
          (Agree bound) many sims (stable n p le) grafted)

  call-Rewritten :
      (f : String) (es es' : Exprs) (p : Provenance) (n : ℕ) (r : Expr × ℕ)
      → bound ≤ n
      → ArgsSim callee run run' params p (Agree bound) es es'
      → (if str_eq f callee
          then bind_and_graft plus_one callee raw count es' p n
          else ok (call f es' p, n))
        ≡ ok r
      → Rewritten (call f es p) n r
  call-Rewritten f es es' p n r le sims h = elim (Bool-cases (str_eq f callee)) [
    | inl same ↦ call_grafted f es es' p n r same le sims (rw same at h)
    | inr other ↦
        let last : ◌≡◌ {A = Result (Expr × ℕ)} (ok (call f es' p, n)) (ok r) = rw other at h in
        subst (Rewritten (call f es p) n) (ok_injective last)
          (omega arith, call_stays f es es' p sims)
  ]

  pub lift_follows :
      (r : laminaria_rust_nim_toolc.Ir.Interpreter.Result ℤ)
      → Sim callee (Agree bound) (lift r) (lift r)
  lift_follows (laminaria_rust_nim_toolc.Ir.Interpreter.ok v) s s' k =
      (s', refl, Tied-refl callee s s')
  lift_follows (laminaria_rust_nim_toolc.Ir.Interpreter.err e) s s' k = tt
  lift_follows laminaria_rust_nim_toolc.Ir.Interpreter.panic s s' k = tt
  lift_follows laminaria_rust_nim_toolc.Ir.Interpreter.out_of_fuel s s' k = tt

  abbrev pub Follows : Expr → Type 0
  Follows e =
      (n : ℕ) (r : Expr × ℕ) → bound ≤ n → IdsBelow bound e → rewritten e n ≡ ok r → Rewritten e n r

  -- An operator on two trees.
  binary-Follows :
      (a b : Expr) (op : Expr → Expr → Expr) (at : ℤ → ℤ → ℤ) (n : ℕ) (r : Expr × ℕ)
      → ((a b : Expr) (run : Caller)
          → eval_expr run params (op a b)
            ≡ binary (eval_expr run params a) (eval_expr run params b) at)
      → Follows a
      → Follows b
      → bound ≤ n
      → IdsBelow bound a × IdsBelow bound b
      → (rewritten a n >>= λ (a', k). rewritten b k >>= λ (b', j). ok (op a' b', j)) ≡ ok r
      → Rewritten (op a b) n r
  binary-Follows a b op at n r runs fa fb le below h =
      let (a', b', ha, hb, eq) = both_rewritten (rewritten a n) (rewritten b) op h in
      let (la, sa) = fa n a' le below.0 ha in
      let (lb, sb) = fb a'.1 b' (omega arith) below.1 hb in
      subst (Rewritten (op a b) n) eq (
        omega arith,
        subst (λ m. Sim callee (Agree bound) m (eval_expr run' params (op a'.0 b'.0)))
            (sym (runs a b run))
            (subst
              (λ m.
                Sim callee (Agree bound)
                  (binary (eval_expr run params a) (eval_expr run params b) at) m)
              (sym (runs a'.0 b'.0 run')) (Sim-both callee (Agree bound) _ _ _ _ at sa sb)),
      )

  mutual
    unfolding eval_expr rewrite_calls_in_expr

    pub expr-Follows : (e : Expr) → Follows e
    expr-Follows (int_lit v w p) = λ n r le below h.
        subst (Rewritten (int_lit v w p) n) (ok_injective h)
          (omega arith, Sim-pure callee (Agree bound) v)
    expr-Follows (param i p) = λ n r le below h.
        subst (Rewritten (param i p) n) (ok_injective h)
          (omega arith, lift_follows (read_param params i))
    expr-Follows (local x p) = λ n r le below h. subst (Rewritten (local x p) n) (ok_injective h) (
      omega arith,
      λ s s' k.
          local_follows callee run run' follows [] [] params p x x s s' (λ v e. k x below ∙ e)
            (s.locals x) refl,
    )
    expr-Follows (wrapping_add a b p) = λ n r le below h.
        binary-Follows a b (λ a b. wrapping_add a b p) (λ x y. as_i32 (as_i32 x +ℤ as_i32 y)) n r
          (λ a b run. refl) (expr-Follows a) (expr-Follows b) le below h
    expr-Follows (wrapping_sub a b p) = λ n r le below h.
        binary-Follows a b (λ a b. wrapping_sub a b p) (λ x y. as_i32 (as_i32 x -ℤ as_i32 y)) n r
          (λ a b run. refl) (expr-Follows a) (expr-Follows b) le below h
    expr-Follows (wrapping_mul a b p) = λ n r le below h.
        binary-Follows a b (λ a b. wrapping_mul a b p) (λ x y. as_i32 (as_i32 x *ℤ as_i32 y)) n r
          (λ a b run. refl) (expr-Follows a) (expr-Follows b) le below h
    expr-Follows (not_eq_zero e p) = λ n r le below h.
        let (e', he, last) = >>=-eq-ok (rewritten e n) _ h in
        let (later, sim) = expr-Follows e n e' le below he in
        subst (Rewritten (not_eq_zero e p) n) (ok_injective last) (
          later,
          Sim-bind callee (Agree bound) _ _ _ _ sim
              λ v. Sim-pure callee (Agree bound) (if is_nonzero v then pos 1 else pos 0),
        )
    expr-Follows (call f es p) = λ n r le below h.
        let (es', hes, last) =
          >>=-eq-ok (rewrite_calls_in_args callee (bind_and_graft plus_one callee raw count) es n) _
            h in
        let (later, sims) = args_follow p es n es' le below hes in
        let (later', sim) = call-Rewritten f es es'.0 p es'.1 r (omega arith) sims last in
        (omega arith, sim)
    expr-Follows (let_in x v b p) = λ n r le below h.
        let (v', b', hv, hb, eq) =
          both_rewritten (rewritten v n) (rewritten b) (λ v b. let_in x v b p) h in
        let (lv, sv) = expr-Follows v n v' le below.1.0 hv in
        let (lb, sb) = expr-Follows b v'.1 b' (omega arith) below.1.1 hb in
        subst (Rewritten (let_in x v b p) n) eq (
          omega arith,
          Sim-scoped callee (Agree bound) (Agree bound) x x _ _ _ _ sv
              (λ w c c' k. Agree-bind bound x w c c' k) sb,
        )

    args_follow :
        (p : Provenance) (es : Exprs) (n : ℕ) (r : Exprs × ℕ)
        → bound ≤ n
        → ArgsIdsBelow bound es
        → rewrite_calls_in_args callee (bind_and_graft plus_one callee raw count) es n ≡ ok r
        → (n ≤ r.1) × ArgsSim callee run run' params p (Agree bound) es r.0
    args_follow p nil = λ n r le below h.
        subst
          (λ (r : Exprs × ℕ). (n ≤ r.1) × ArgsSim callee run run' params p (Agree bound) nil r.0)
          (ok_injective h) (omega arith, tt)
    args_follow p (cons e es) = λ n r le below h.
        let (e', es', he, hes, eq) =
          both_rewritten (rewritten e n)
            (rewrite_calls_in_args callee (bind_and_graft plus_one callee raw count) es) cons h in
        let (le', sim) = expr-Follows e n e' le below.0 he in
        let (les, sims) = args_follow p es e'.1 es' (omega arith) below.1 hes in
        subst
          (λ (r : Exprs × ℕ).
            (n ≤ r.1) × ArgsSim callee run run' params p (Agree bound) (cons e es) r.0)
          eq (omega arith, (sim, sims))
