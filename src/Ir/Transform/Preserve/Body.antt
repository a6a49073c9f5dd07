-- ===== src/Ir/Transform/Preserve/Body.antt =====
-- The body of a callee, run in its own frame, against its renamed copy with its parameters replaced
-- by locals, run in the frame of the caller.
use native.Mathlib.Nat.{le_trans}
use laminaria_rust_nim_toolc.Prelude.{
  ℕ, zero, suc, ◌+◌, ◌≤◌, ◌<◌, ◌≡◌, refl, ◌≢◌, ◌∙◌, ap, subst, ℤ, String, true, false, List, [],
  ◌∷◌, Option, none, some, arith, if◌then◌else◌, ◌==◌, ==_iff, Bool-cases, inl, inr, All,
  is_nonzero, pos,
}
use laminaria_rust_nim_toolc.Ir.Types.{
  LocalId, Provenance, Expr, Exprs, int_lit, param, local, wrapping_add, wrapping_sub, wrapping_mul,
  not_eq_zero, call, let_in, nil, cons,
}
use laminaria_rust_nim_toolc.Ir.Interpreter.{
  EvalState, Eval, Locals, bind, Caller, eval_expr, eval_args, read_param, read_found, read_local,
  lift, pure,
}
use laminaria_rust_nim_toolc.Ir.Validate.{Bound, put}
use laminaria_rust_nim_toolc.Ir.Transform.Result.{Result, ok, err, panic, ◌>>=◌}
use laminaria_rust_nim_toolc.Ir.Transform.Rename.{
  Renaming, or_self, look, allocate, alpha_rename_callee_body, alpha_rename_args,
}
use laminaria_rust_nim_toolc.Ir.Transform.Rewrite.{local_at, substitute_params, substitute_in_args}
use laminaria_rust_nim_toolc.Ir.Transform.Preserve.Rename.{
  plus_one, NoShadow, ArgsNoShadow, rename_grows, rename_args_grows, SameNames, rename_keeps,
}
use laminaria_rust_nim_toolc.Ir.Transform.Preserve.Sim.{
  Match, Sim, Tied-refl, Sim-pure, Sim-bind, Sim-both, Sim-mono, Sim-scoped, Sim-do_call, Answers,
}

-- The locals that stand for the parameters hold the arguments.
abbrev pub Holds : List LocalId → List ℤ → Locals → Type 0
Holds ls [] m = Unit {0}
Holds [] (v ∷ vs) m = ⊥
Holds (l ∷ ls) (v ∷ vs) m = (m l ≡ some v) × Holds ls vs m

pub other_local : (x y : LocalId) (v : Option ℤ) (m : Locals) → x ≢ y → bind x v m y ≡ m y
other_local x y v m h = elim (Bool-cases (x == y)) [
  | inl same ↦ absurd (h ((==_iff x y).0 same))
  | inr other ↦ rw other
]

look_new :
    (r : Renaming) (x y : LocalId) → (x == y) ≡ true → look (allocate plus_one x r) y ≡ r.next_local
look_new r x y h = ap (λ b. or_self y (if b then some r.next_local else r.remap y)) h

look_old :
    (r : Renaming) (x y : LocalId) → (x == y) ≡ false → look (allocate plus_one x r) y ≡ look r y
look_old r x y h = ap (λ b. or_self y (if b then some r.next_local else r.remap y)) h

pub bind_self : (x : LocalId) (v : Option ℤ) (m : Locals) → bind x v m x ≡ v
bind_self x v m = rw ((==_iff x x).1 refl)

pub Holds-bind :
    (ls : List LocalId) (vs : List ℤ) (m : Locals) (y : LocalId) (w : ℤ)
    → All (λ l. y < l) ls
    → Holds ls vs m
    → Holds ls vs (bind y (some w) m)
Holds-bind ls [] m y w above h = tt
Holds-bind [] (v ∷ vs) m y w above h = h
Holds-bind (l ∷ ls) (v ∷ vs) m y w above h =
    (other_local y l (some w) m (omega arith) ∙ h.0, Holds-bind ls vs m y w above.1 h.1)

pub above_mono : (ls : List LocalId) (n k : ℕ) → n ≤ k → All (λ l. k ≤ l) ls → All (λ l. n ≤ l) ls
above_mono [] n k le h = tt
above_mono (l ∷ ls) n k le h = (le_trans le h.0, above_mono ls n k le h.1)

pub above_suc : (ls : List LocalId) (n : ℕ) → All (λ l. n + 1 ≤ l) ls → All (λ l. n < l) ls
above_suc [] n h = tt
above_suc (l ∷ ls) n h = (omega arith, above_suc ls n h.1)

next_le : (r : Renaming) → r.next_local ≤ r.next_local + 1
next_le r = omega arith

pub >>=-eq-ok :
    {A B : Type 0} (first : Result A) (next : A → Result B) {y : B}
    → (first >>= next) ≡ ok y
    → (x : A) × (first ≡ ok x) × (next x ≡ ok y)
>>=-eq-ok (ok x) next runs = (x, refl, runs)
>>=-eq-ok (err e) next runs = cc
>>=-eq-ok panic next runs = cc

pub ok_injective : {A : Type 0} {a b : A} → ok a ≡ ok b → a ≡ b
ok_injective h = cc

both-eq-ok :
    {A B C : Type 0} (m : Result A) (n : Result B) (f : A → B → C) {c : C}
    → (m >>= λ a. n >>= λ b. ok (f a b)) ≡ ok c
    → (a : A) × (b : B) × (m ≡ ok a) × (n ≡ ok b) × (f a b ≡ c)
both-eq-ok m n f h =
    let (a, ma, rest) = >>=-eq-ok m _ h in
    let (b, nb, last) = >>=-eq-ok n _ rest in (a, b, ma, nb, ok_injective last)

module _ (hidden : String) (run run' : Caller)
    (follows : (f : String) (vs : List ℤ) → Answers hidden (run f vs) (run' f vs))
    (ls : List LocalId) (vs params : List ℤ) (prov : Provenance) where
  -- The callee's bindings under their new names, and the arguments.
  abbrev pub Frame : Bound → Renaming → Locals → Locals → Type 0
  Frame bound r c m =
      ((x : LocalId) (v : ℤ) → c x ≡ some v → (bound x ≡ true) × (m (look r x) ≡ some v))
      × Holds ls vs m

  abbrev pub Below : Bound → Renaming → Type 0
  Below bound r = (x : LocalId) → bound x ≡ true → look r x < r.next_local

  abbrev pub Above : ℕ → Type 0
  Above n = All (λ l. n ≤ l) ls

  look_same :
      (bound : Bound) (r r1 : Renaming) (x : LocalId)
      → SameNames bound r r1
      → bound x ≡ true
      → look r1 x ≡ look r x
  look_same bound r r1 x same h = ap (or_self x) (same x h)

  Frame-step :
      (bound : Bound) (r r1 : Renaming) (c m : Locals)
      → SameNames bound r r1
      → Frame bound r c m
      → Frame bound r1 c m
  Frame-step bound r r1 c m same (names, holds) = (
    λ x v e. let (h, found) = names x v e in (h, ap m (look_same bound r r1 x same h) ∙ found),
    holds,
  )

  Below-step :
      (bound : Bound) (r r1 : Renaming)
      → SameNames bound r r1
      → r.next_local ≤ r1.next_local
      → Below bound r
      → Below bound r1
  Below-step bound r r1 same le below x h = omega (arith, look_same bound r r1 x same h, below x h)

  Below-allocate :
      (bound : Bound) (r : Renaming) (x : LocalId)
      → Below bound r
      → Below (put x true bound) (allocate plus_one x r)
  Below-allocate bound r x below y = elim (Bool-cases (x == y)) [
    | inl same ↦ rw same (λ _. omega (arith, look_new r x y same))
    | inr other ↦ rw other (λ h. omega (arith, look_old r x y other, below y h))
  ]

  Frame-allocate :
      (bound : Bound) (r : Renaming) (x : LocalId) (w : ℤ) (c m : Locals)
      → Below bound r
      → All (λ l. r.next_local < l) ls
      → Frame bound r c m
      → Frame
          (put x true bound)
          (allocate plus_one x r)
          (bind x (some w) c)
          (bind r.next_local (some w) m)
  Frame-allocate bound r x w c m below above (names, holds) = (
    λ y. elim (Bool-cases (x == y)) [
      | inl same ↦ rw same λ v e. (refl, bind_self r.next_local (some w) m ∙ e)
      | inr other ↦ rw other λ v e.
          let (h, found) = names y v e in
          (h, other_local r.next_local (look r y) (some w) m (omega (arith, below y h)) ∙ found)
    ],
    Holds-bind ls vs m r.next_local w above holds,
  )

  read_bound :
      (x : LocalId) (v : ℤ) (s : EvalState)
      → s.locals x ≡ some v
      → read_local x s ≡ laminaria_rust_nim_toolc.Ir.Interpreter.ok (v, s)
  read_bound x v s h = ap (λ o. read_found x o s) h

  pub local_follows :
      (x y : LocalId) (s s' : EvalState)
      → ((v : ℤ) → s.locals x ≡ some v → s'.locals y ≡ some v)
      → (o : Option ℤ) → s.locals x ≡ o
      → Match hidden s s' (read_found x o s) (read_local y s')
  local_follows x y s s' h none e = tt
  local_follows x y s s' h (some v) e = (s', read_bound y v s' (h v e), Tied-refl hidden s s')

  -- A parameter against the local that stands for it.
  param_follows :
      (names : List LocalId) (args : List ℤ) (i : ℕ) (p : Provenance) (e : Expr) (s s' : EvalState)
      → Holds names args s'.locals
      → elim (local_at names prov i) [ none ↦ panic | some e ↦ ok e ] ≡ ok e
      → Match hidden s s' (lift (read_param args i) s) (eval_expr run' params e s')
  unfolding eval_expr
  param_follows names [] i p e s s' holds h = tt
  param_follows [] (v ∷ args) i p e s s' holds h = absurd holds
  param_follows (l ∷ names) (v ∷ args) zero p e s s' holds h =
      subst
        (λ (x : Expr).
          Match hidden s s' (lift (read_param (v ∷ args) 0) s) (eval_expr run' params x s'))
        (ok_injective h) (s', read_bound l v s' holds.0, Tied-refl hidden s s')
  param_follows (l ∷ names) (v ∷ args) (suc i) p e s s' holds h =
      param_follows names args i p e s s' holds.1 h

  abbrev pub substitute : Expr → Result Expr
  substitute = substitute_params (local_at ls prov)

  abbrev pub Stands : Bound → Renaming → Expr → Expr → Type 0
  Stands bound r e e' = Sim hidden (Frame bound r) (eval_expr run vs e) (eval_expr run' params e')

  abbrev pub Follows : Expr → Type 0
  Follows e =
      (bound : Bound) (r : Renaming) (e' : Expr)
      → NoShadow bound e
      → Below bound r
      → Above (alpha_rename_callee_body plus_one e r).1.next_local
      → substitute_params (local_at ls prov) (alpha_rename_callee_body plus_one e r).0 ≡ ok e'
      → Stands bound r e e'

  -- Two trees, the second renamed where the first left off.
  two_follow :
      {A B C : Type 0} (bound : Bound) (r r1 : Renaming) (m m' : Eval A) (n n' : Eval B)
      (f : A → B → C)
      → SameNames bound r r1
      → Sim hidden (Frame bound r) m m'
      → Sim hidden (Frame bound r1) n n'
      → Sim hidden
          (Frame bound r)
          (laminaria_rust_nim_toolc.Ir.Interpreter.◌>>=◌ m
            λ x. laminaria_rust_nim_toolc.Ir.Interpreter.◌>>=◌ n λ y. pure (f x y))
          (laminaria_rust_nim_toolc.Ir.Interpreter.◌>>=◌ m'
            λ x. laminaria_rust_nim_toolc.Ir.Interpreter.◌>>=◌ n' λ y. pure (f x y))
  two_follow bound r r1 m m' n n' f same hm hn = Sim-both hidden (Frame bound r) m m' n n' f hm (
      Sim-mono hidden (Frame bound r) (Frame bound r1) n n'
        (λ c c' k. Frame-step bound r r1 c c' same k) hn)

  mutual
    unfolding eval_expr alpha_rename_callee_body substitute_params

    pub body-Follows : (e : Expr) → Follows e
    body-Follows (int_lit v w p) = λ bound r e' ns below above h.
        subst (λ x. Stands bound r (int_lit v w p) x) (ok_injective h)
          (Sim-pure hidden (Frame bound r) v)
    body-Follows (param i p) =
        λ bound r e' ns below above h s s' k. param_follows ls vs i p e' s s' k.1 h
    body-Follows (local x p) = λ bound r e' ns below above h.
        subst (λ z. Stands bound r (local x p) z) (ok_injective h)
          λ s s' k. local_follows x (look r x) s s' (λ v e. (k.0 x v e).1) (s.locals x) refl
    body-Follows (wrapping_add a b p) = λ bound r e' ns below above h.
        let r1 = (alpha_rename_callee_body plus_one a r).1 in
        let (a', b', ha, hb, eq) =
          both-eq-ok (substitute (alpha_rename_callee_body plus_one a r).0)
            (substitute (alpha_rename_callee_body plus_one b r1).0) (λ a b. wrapping_add a b p) h in
        let same = rename_keeps a r bound ns.0 in
        subst (λ x. Stands bound r (wrapping_add a b p) x) eq
          (two_follow bound r r1 _ _ _ _ _ same
            (body-Follows a bound r a' ns.0 below (above_mono ls _ _ (rename_grows b r1) above) ha)
            (body-Follows b bound r1 b' ns.1 (Below-step bound r r1 same (rename_grows a r) below)
              above hb))
    body-Follows (wrapping_sub a b p) = λ bound r e' ns below above h.
        let r1 = (alpha_rename_callee_body plus_one a r).1 in
        let (a', b', ha, hb, eq) =
          both-eq-ok (substitute (alpha_rename_callee_body plus_one a r).0)
            (substitute (alpha_rename_callee_body plus_one b r1).0) (λ a b. wrapping_sub a b p) h in
        let same = rename_keeps a r bound ns.0 in
        subst (λ x. Stands bound r (wrapping_sub a b p) x) eq
          (two_follow bound r r1 _ _ _ _ _ same
            (body-Follows a bound r a' ns.0 below (above_mono ls _ _ (rename_grows b r1) above) ha)
            (body-Follows b bound r1 b' ns.1 (Below-step bound r r1 same (rename_grows a r) below)
              above hb))
    body-Follows (wrapping_mul a b p) = λ bound r e' ns below above h.
        let r1 = (alpha_rename_callee_body plus_one a r).1 in
        let (a', b', ha, hb, eq) =
          both-eq-ok (substitute (alpha_rename_callee_body plus_one a r).0)
            (substitute (alpha_rename_callee_body plus_one b r1).0) (λ a b. wrapping_mul a b p) h in
        let same = rename_keeps a r bound ns.0 in
        subst (λ x. Stands bound r (wrapping_mul a b p) x) eq
          (two_follow bound r r1 _ _ _ _ _ same
            (body-Follows a bound r a' ns.0 below (above_mono ls _ _ (rename_grows b r1) above) ha)
            (body-Follows b bound r1 b' ns.1 (Below-step bound r r1 same (rename_grows a r) below)
              above hb))
    body-Follows (not_eq_zero e p) = λ bound r e' ns below above h.
        let (inner, he, last) =
          >>=-eq-ok (substitute (alpha_rename_callee_body plus_one e r).0) _ h in
        subst (λ x. Stands bound r (not_eq_zero e p) x) (ok_injective last)
          (Sim-bind hidden (Frame bound r) _ _ _ _ (body-Follows e bound r inner ns below above he)
            λ v. Sim-pure hidden (Frame bound r) (if is_nonzero v then pos 1 else pos 0))
    body-Follows (call f args p) = λ bound r e' ns below above h.
        let (args', ha, last) =
          >>=-eq-ok (substitute_in_args (local_at ls prov) (alpha_rename_args plus_one args r).0) _
            h in
        subst (λ x. Stands bound r (call f args p) x) (ok_injective last)
          (Sim-bind hidden (Frame bound r) _ _ _ _
            (args_follow args bound r args' ns below above ha)
            λ ws. Sim-do_call hidden (Frame bound r) run run' f ws (follows f ws))
    body-Follows (let_in x v b p) = λ bound r e' ns below above h.
        let r1 = (alpha_rename_callee_body plus_one v r).1 in
        let inner = put x true bound in
        let (v', b', hv, hb, eq) =
          both-eq-ok (substitute (alpha_rename_callee_body plus_one v r).0)
            (substitute (alpha_rename_callee_body plus_one b (allocate plus_one x r1)).0)
            (λ v b. let_in r1.next_local v b p) h in
        let same = rename_keeps v r bound ns.1.0 in
        let below1 = Below-step bound r r1 same (rename_grows v r) below in
        let above1 = above_mono ls _ _ (rename_grows b (allocate plus_one x r1)) above in
        subst (λ z. Stands bound r (let_in x v b p) z) eq
          (Sim-scoped hidden (Frame bound r) (Frame inner (allocate plus_one x r1)) x r1.next_local
            _ _ _ _
            (body-Follows v bound r v' ns.1.0 below (above_mono ls _ _ (next_le r1) above1) hv)
            (λ w c c' k.
              Frame-allocate bound r1 x w c c' below1 (above_suc ls r1.next_local above1)
                (Frame-step bound r r1 c c' same k))
            (body-Follows b inner (allocate plus_one x r1) b' ns.1.1
              (Below-allocate bound r1 x below1) above hb))

    args_follow :
        (es : Exprs) (bound : Bound) (r : Renaming) (es' : Exprs)
        → ArgsNoShadow bound es
        → Below bound r
        → Above (alpha_rename_args plus_one es r).1.next_local
        → substitute_in_args (local_at ls prov) (alpha_rename_args plus_one es r).0 ≡ ok es'
        → Sim hidden (Frame bound r) (eval_args run vs es) (eval_args run' params es')
    args_follow nil = λ bound r es' ns below above h.
        subst (λ x. Sim hidden (Frame bound r) (eval_args run vs nil) (eval_args run' params x))
          (ok_injective h) (Sim-pure hidden (Frame bound r) [])
    args_follow (cons e es) = λ bound r es' ns below above h.
        let r1 = (alpha_rename_callee_body plus_one e r).1 in
        let (a', b', ha, hb, eq) =
          both-eq-ok (substitute (alpha_rename_callee_body plus_one e r).0)
            (substitute_in_args (local_at ls prov) (alpha_rename_args plus_one es r1).0) cons h in
        let same = rename_keeps e r bound ns.0 in
        subst
          (λ x. Sim hidden (Frame bound r) (eval_args run vs (cons e es)) (eval_args run' params x))
          eq
          (two_follow bound r r1 _ _ _ _ _ same
            (body-Follows e bound r a' ns.0 below
              (above_mono ls _ _ (rename_args_grows es r1) above) ha)
            (args_follow es bound r1 b' ns.1 (Below-step bound r r1 same (rename_grows e r) below)
              above hb))
