-- ===== src/Ir/Safety/Keeps.antt =====
-- The steps of the evaluator, in a state that binds what it has to bind: the value is good and the
-- locals are as before.
use laminaria_rust_nim_toolc.Prelude.{
  ◌≡◌, refl, sym, ap, fun_ext, ◌∙◌, subst, ℤ, String, true, List, Option, some, ◌==◌, ==_iff,
  Bool-cases, inl, inr, InI32,
}
use laminaria_rust_nim_toolc.Ir.Types.{LocalId}
use laminaria_rust_nim_toolc.Ir.Interpreter.{
  EvalState, Result, Eval, Locals, bind, Caller, do_call, enter, leave, lift, push_event, accept,
  pure, ◌>>=◌, read_found, read_local,
}
use laminaria_rust_nim_toolc.Ir.Interpreter.Rules.{
  Mode, Ends, Post, Post-bind, Post-mono, Post-lift,
}
use laminaria_rust_nim_toolc.Ir.Validate.{Bound, put}

-- Each bound local has a value, and it is an `i32`.
abbrev pub Binds : Bound → Locals → Type 0
Binds bound locals = (x : LocalId) → bound x ≡ true → (v : ℤ) × (locals x ≡ some v) × InI32 v

bind_back : (x : LocalId) (v : Option ℤ) (m : Locals) → bind x (m x) (bind x v m) ≡ m
bind_back x v m = fun_ext λ y. elim (Bool-cases (x == y)) [
  | inl same ↦ rw same (ap m ((==_iff x y).0 same))
  | inr other ↦ rw other
]

Binds-put :
    (bound : Bound) (locals : Locals) (x : LocalId) (v : ℤ)
    → Binds bound locals
    → InI32 v
    → Binds (put x true bound) (bind x (some v) locals)
Binds-put bound locals x v h fits y = elim (Bool-cases (x == y)) [
  | inl same ↦ rw same (λ _. (v, refl, fits))
  | inr other ↦ rw other (h y)
]

module _ (mode : Mode) where
  abbrev pub Keeps : {A : Type 0} → Bound → (A → Type 0) → Eval A → Type 0
  Keeps bound Good m =
      (s : EvalState)
      → Binds bound s.locals
      → Post mode (λ a t. Good a × (t.locals ≡ s.locals)) (m s)

  pub Keeps-bind :
      {A B : Type 0} (bound : Bound) (Good : A → Type 0) (Good' : B → Type 0) (m : Eval A)
      (f : A → Eval B)
      → Keeps bound Good m
      → ((a : A) → Good a → Keeps bound Good' (f a))
      → Keeps bound Good' (m >>= f)
  Keeps-bind bound Good Good' m f hm hf s b =
      Post-bind mode m f s (λ a t. Good a × (t.locals ≡ s.locals))
        (λ a t. Good' a × (t.locals ≡ s.locals)) (hm s b)
        λ a t (good, same).
          Post-mono mode (f a t) (λ a u. Good' a × (u.locals ≡ t.locals)) _
            (hf a good t (subst (Binds bound) (sym same) b))
            λ a' u (good', same'). (good', same' ∙ same)

  pub Keeps-pure :
      {A : Type 0} (bound : Bound) (Good : A → Type 0) (a : A) → Good a → Keeps bound Good (pure a)
  Keeps-pure bound Good a good s b = (good, refl)

  pub Keeps-both :
      {A B C : Type 0} (bound : Bound) (P : A → Type 0) (Q : B → Type 0) (R : C → Type 0)
      (m : Eval A) (n : Eval B) (f : A → B → C)
      → Keeps bound P m
      → Keeps bound Q n
      → ((a : A) (b : B) → P a → Q b → R (f a b))
      → Keeps bound R (m >>= λ x. n >>= λ y. pure (f x y))
  Keeps-both bound P Q R m n f hm hn good =
      Keeps-bind bound P R m _ hm
        λ x px. Keeps-bind bound Q R n _ hn λ y qy. Keeps-pure bound R (f x y) (good x y px qy)

  pub Keeps-lift :
      {A : Type 0} (bound : Bound) (Good : A → Type 0) (r : Result A)
      → Ends mode Good r
      → Keeps bound Good (lift r)
  Keeps-lift bound Good r h s b =
      Post-mono mode (lift r s) (λ a t. Good a × (t ≡ s)) _ (Post-lift mode r s Good h)
        λ a t (good, same). (good, ap (λ (u : EvalState). u.locals) same)

  pub Keeps-read_local :
      (bound : Bound) (x : LocalId) → bound x ≡ true → Keeps bound InI32 (read_local x)
  Keeps-read_local bound x is_bound s b =
      let (v, found, fits) = b x is_bound in
      subst (λ o. Post mode (λ a t. InI32 a × (t.locals ≡ s.locals)) (read_found x o s)) (sym found)
        (fits, refl)

  pub Keeps-scoped :
      (bound : Bound) (x : LocalId) (m b : Eval ℤ)
      → Keeps bound InI32 m
      → Keeps (put x true bound) InI32 b
      → Keeps bound InI32 (m >>= λ n. enter x n >>= λ previous. b >>= leave x previous)
  Keeps-scoped bound x m b hm hb = Keeps-bind bound InI32 InI32 m _ hm λ n fits s binds.
      let inside : EvalState = record s { locals = bind x (some n) s.locals } in
      Post-bind mode b (leave x (s.locals x)) inside (λ v t. InI32 v × (t.locals ≡ inside.locals))
        (λ v t. InI32 v × (t.locals ≡ s.locals))
        (hb inside (Binds-put bound s.locals x n binds fits))
        λ v t (good, same). (good, ap (bind x (s.locals x)) same ∙ bind_back x (some n) s.locals)

  pub Keeps-do_call :
      (bound : Bound) (run : Caller) (f : String) (vs : List ℤ)
      → Ends mode (λ outcome. InI32 outcome.value) (run f vs)
      → Keeps bound InI32 (do_call run f vs)
  unfolding do_call
  Keeps-do_call bound run f vs h =
      Keeps-bind bound (λ _. Unit {0}) InI32 (push_event f vs) _ (λ s b. (tt, refl))
        λ _ _.
          Keeps-bind bound (λ outcome. InI32 outcome.value) InI32 (lift (run f vs)) accept
            (Keeps-lift bound (λ outcome. InI32 outcome.value) (run f vs) h)
            λ outcome fits s b. (fits, refl)
