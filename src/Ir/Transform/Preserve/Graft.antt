-- ===== src/Ir/Transform/Preserve/Graft.antt =====
-- One call of the callee against what `anf_insert` puts in its place.
use laminaria_rust_nim_toolc.Prelude.{
  ℕ, zero, suc, ◌+◌, ◌≤◌, ◌≡◌, refl, ◌∙◌, ap, subst, sym, fun_ext, ℤ, String, false, List, [], ◌∷◌,
  ◌++◌, none, some, arith, All, eq_iff,
}
use laminaria_rust_nim_toolc.Ir.Types.{
  LocalId, Provenance, Expr, Exprs, let_in, nil, cons, count_exprs,
}
use laminaria_rust_nim_toolc.Ir.Interpreter.{
  EvalState, EvalOutcome, Eval, Locals, bind, Caller, do_call, eval_expr, eval_args, pure,
  no_locals, and_then, ◌>>=◌, lift, accept,
}
use laminaria_rust_nim_toolc.Ir.Interpreter
use laminaria_rust_nim_toolc.Ir.Transform.Result.{ok}
use laminaria_rust_nim_toolc.Ir.Transform.Rename.{Renaming, alpha_rename_for_one_graft}
use laminaria_rust_nim_toolc.Ir.Transform.Rewrite.{substitute_params_with_locals}
use laminaria_rust_nim_toolc.Ir.Transform.AnfInsert.{fresh_locals, after_locals, wrap_lets, graft}
use laminaria_rust_nim_toolc.Ir.Transform.Preserve.Trace.{erase, erase-nil, erase_called_hidden}
use laminaria_rust_nim_toolc.Ir.Transform.Preserve.Rename.{plus_one, NoShadow, rename_grows}
use laminaria_rust_nim_toolc.Ir.Transform.Preserve.Sim.{
  Match, Sim, Sim-mono, Sim-bound, Answers, pushed,
}
use laminaria_rust_nim_toolc.Ir.Transform.Preserve.Body.{
  Holds, bind_self, other_local, above_mono, >>=-eq-ok, ok_injective, body-Follows,
}

and_then_twice :
    {A B C D : Type 0} (r : Interpreter.Result (A × EvalState)) (n : Eval B) (f : A → B → C)
    (k : C → Eval D)
    → ((t : Interpreter.Result (B × EvalState)) (a : A)
        → and_then (and_then t (λ b. pure (f a b))) k ≡ and_then t (λ b. k (f a b)))
    → and_then (and_then r (λ a. n >>= λ b. pure (f a b))) k
      ≡ and_then r (λ a. n >>= λ b. k (f a b))
and_then_twice (Interpreter.ok (a, t)) n f k inner = inner (n t) a
and_then_twice (Interpreter.err e) n f k inner = refl
and_then_twice Interpreter.panic n f k inner = refl
and_then_twice Interpreter.out_of_fuel n f k inner = refl

and_then-pure :
    {B C D : Type 0} (r : Interpreter.Result (B × EvalState)) (f : B → C) (k : C → Eval D)
    → and_then (and_then r (λ b. pure (f b))) k ≡ and_then r (λ b. k (f b))
and_then-pure (Interpreter.ok (b, t)) f k = refl
and_then-pure (Interpreter.err e) f k = refl
and_then-pure Interpreter.panic f k = refl
and_then-pure Interpreter.out_of_fuel f k = refl

regroup :
    {A B C D : Type 0} (m : Eval A) (n : Eval B) (f : A → B → C) (k : C → Eval D)
    → ((m >>= λ a. n >>= λ b. pure (f a b)) >>= k) ≡ (m >>= λ a. n >>= λ b. k (f a b))
regroup m n f k = fun_ext λ s. and_then_twice (m s) n f k (λ t a. and_then-pure t (f a) k)

module _ (hidden : String) (run run' : Caller) (params : List ℤ) (prov : Provenance) where
  -- The arguments, one by one, against their rewritten forms.
  abbrev pub ArgsSim : (Locals → Locals → Type 0) → Exprs → Exprs → Type 0
  ArgsSim K nil nil = Unit {0}
  ArgsSim K nil (cons e es) = ⊥
  ArgsSim K (cons e es) nil = ⊥
  ArgsSim K (cons e es) (cons e' es') =
      Sim hidden K (eval_expr run params e) (eval_expr run' params e') × ArgsSim K es es'

  pub ArgsSim-mono :
      (K K' : Locals → Locals → Type 0) (es es' : Exprs)
      → ((c c' : Locals) → K c c' → K' c c')
      → ArgsSim K' es es'
      → ArgsSim K es es'
  ArgsSim-mono K K' nil nil weaker h = tt
  ArgsSim-mono K K' nil (cons e es) weaker h = h
  ArgsSim-mono K K' (cons e es) nil weaker h = h
  ArgsSim-mono K K' (cons e es) (cons e' es') weaker h =
      (Sim-mono hidden K K' _ _ weaker h.0, ArgsSim-mono K K' es es' weaker h.1)

  -- A binding of an id from `n` on does not disturb the relation.
  abbrev pub StableFrom : ℕ → (Locals → Locals → Type 0) → Type 0
  StableFrom n K = (l : LocalId) (v : ℤ) (c c' : Locals) → n ≤ l → K c c' → K c (bind l (some v) c')

  wrap_follows :
      (es es' : Exprs) (count next : ℕ) (K : Locals → Locals → Type 0) (k : List ℤ → Eval ℤ)
      (body result : Expr)
      → count_exprs es' ≡ count
      → ArgsSim K es es'
      → StableFrom next K
      → wrap_lets (fresh_locals plus_one count next) es' body prov ≡ ok result
      → ((vs : List ℤ)
          → Sim hidden
              (λ c c'. K c c' × Holds (fresh_locals plus_one count next) vs c')
              (k vs)
              (eval_expr run' params body))
      → Sim hidden K (eval_args run params es >>= k) (eval_expr run' params result)
  unfolding eval_expr
  wrap_follows nil (cons e' es') count next K k body result many sims stable h inner = absurd sims
  wrap_follows (cons e es) nil count next K k body result many sims stable h inner = absurd sims
  wrap_follows nil nil (suc count) next K k body result many sims stable h inner =
      absurd (omega arith)
  wrap_follows nil nil zero next K k body result many sims stable h inner =
      subst (λ x. Sim hidden K (k []) (eval_expr run' params x)) (ok_injective h)
        (Sim-mono hidden K (λ c c'. K c c' × Unit {0}) _ _ (λ c c' r. (r, tt)) (inner []))
  wrap_follows (cons e es) (cons e' es') zero next K k body result many sims stable h inner =
      absurd (omega arith)
  wrap_follows (cons e es) (cons e' es') (suc count) next K k body result many sims stable h inner =
      let (rest, hr, last) =
        >>=-eq-ok (wrap_lets (fresh_locals plus_one count (next + 1)) es' body prov) _ h in
      let K1 : ℤ → Locals → Locals → Type 0 = λ v c c'. K c c' × (c' next ≡ some v) in
      subst (λ x. Sim hidden K (eval_args run params (cons e es) >>= k) (eval_expr run' params x))
        (ok_injective last)
        (subst (λ m. Sim hidden K m (eval_expr run' params (let_in next e' rest prov)))
          (sym (regroup (eval_expr run params e) (eval_args run params es) (λ v vs. v ∷ vs) k))
          (Sim-bound hidden K K1 next _ _ (λ v. eval_args run params es >>= λ vs. k (v ∷ vs)) _
            sims.0 (λ v c c' r. (stable next v c c' (omega arith) r, bind_self next (some v) c'))
            λ v.
              wrap_follows es es' count (next + 1) (K1 v) (λ vs. k (v ∷ vs)) body rest (omega arith)
                (ArgsSim-mono (K1 v) K es es' (λ c c' r. r.0) sims.1)
                (λ l w c c' le r. (
                  stable l w c c' (omega arith) r.0,
                  other_local l next (some w) c' (omega arith) ∙ r.1,
                ))
                hr
                λ vs. Sim-mono hidden _ _ _ _ (λ c c' r. (r.0.0, (r.0.1, r.1))) (inner (v ∷ vs))))

fresh-above : (count next : ℕ) → All (λ l. next ≤ l) (fresh_locals plus_one count next)
fresh-above zero next = tt
fresh-above (suc count) next = (
  omega arith,
  above_mono (fresh_locals plus_one count (next + 1)) next (next + 1) (omega arith)
      (fresh-above count (next + 1)),
)

after_locals-grows : (count next : ℕ) → next ≤ after_locals plus_one count next
after_locals-grows zero next = omega arith
after_locals-grows (suc count) next = omega (arith, after_locals-grows count (next + 1))

module _ (callee : String) (run0 run run' : Caller) (params : List ℤ) (raw : Expr) (count : ℕ) where
  -- A call that returns is a run of the body in a frame of its own.
  abbrev pub Inlines : Type 0
  Inlines =
      (vs : List ℤ) (o : EvalOutcome)
      → run callee vs ≡ Interpreter.ok o
      → (t : EvalState) × (eval_expr run0 vs raw no_locals ≡ Interpreter.ok (o.value, t))
        × (t.effects ≡ o.effects)

  module _ (follows : (f : String) (vs : List ℤ) → Answers callee (run0 f vs) (run' f vs))
      (inlines : Inlines) (no_shadow : NoShadow (λ _. false) raw) (prov : Provenance) where
    body_stands :
        (ls : List LocalId) (vs : List ℤ) (next : ℕ) (e : Expr) (s s' : EvalState)
        → All (λ l. (alpha_rename_for_one_graft plus_one raw next).1 ≤ l) ls
        → substitute_params_with_locals (alpha_rename_for_one_graft plus_one raw next).0 ls prov
          ≡ ok e
        → Holds ls vs s'.locals
        → Match callee s s' (do_call run callee vs s) (eval_expr run' params e s')
    unfolding do_call alpha_rename_for_one_graft substitute_params_with_locals
    body_stands ls vs next e s s' above h holds = answer (run callee vs) refl
      where
        start : Renaming
        start = record { remap = λ _. none; next_local = next }

        body :
            Match callee no_locals s' (eval_expr run0 vs raw no_locals) (eval_expr run' params e s')
        body =
            body-Follows callee run0 run' follows ls vs params prov raw (λ _. false) start e
              no_shadow (λ x b. cc) above h no_locals s' ((λ x v found. cc), holds)

        answer :
            (r : Interpreter.Result EvalOutcome)
            → run callee vs ≡ r
            → Match callee s s'
                (and_then (lift r (pushed callee callee vs s)) accept)
                (eval_expr run' params e s')
        answer (Interpreter.ok o) found =
            let (t, runs, same) = inlines vs o found in
            let (t', e', tied) =
              subst (λ r. Match callee no_locals s' r (eval_expr run' params e s')) runs body in
            (
              t',
              e',
              record {
                locals = refl;
                locals' = tied.locals';
                added = tied.added;
                events =
                    erase_called_hidden callee callee vs _ _ s.effects o.effects
                      ((eq_iff callee callee).1 refl)
                    ∙ ap (λ l. erase callee s.effects ++ l)
                        (ap (erase callee) (sym same)
                          ∙ tied.events
                          ∙ ap (λ l. l ++ tied.added) (erase-nil callee));
                events' = tied.events';
              },
            )
        answer (Interpreter.err x) found = tt
        answer Interpreter.panic found = tt
        answer Interpreter.out_of_fuel found = tt

    pub graft_follows :
        (es es' : Exprs) (next : ℕ) (result : Expr × ℕ) (K : Locals → Locals → Type 0)
        → count_exprs es' ≡ count
        → ArgsSim callee run run' params prov K es es'
        → StableFrom callee run run' params prov next K
        → graft plus_one callee raw count es' prov next ≡ ok result
        → (next ≤ result.1)
          × Sim callee K
              (eval_args run params es >>= do_call run callee)
              (eval_expr run' params result.0)
    unfolding alpha_rename_for_one_graft
    graft_follows es es' next result K many sims stable h =
        let (body, after) = alpha_rename_for_one_graft plus_one raw next in
        let ls = fresh_locals plus_one count after in
        let (sub, hs, rest) = >>=-eq-ok (substitute_params_with_locals body ls prov) _ h in
        let (wrapped, hw, last) = >>=-eq-ok (wrap_lets ls es' sub prov) _ rest in
        let later : next ≤ after =
          rename_grows raw (record { remap = λ _. none; next_local = next }) in
        subst
          (λ r.
            (next ≤ r.1)
            × Sim callee K (eval_args run params es >>= do_call run callee)
                (eval_expr run' params r.0))
          (ok_injective last)
          (
            omega (arith, later, after_locals-grows count after),
            wrap_follows callee run run' params prov es es' count after K (do_call run callee) sub
                wrapped many sims (λ l v c c' le r. stable l v c c' (omega arith) r) hw
                λ vs s s' k. body_stands ls vs next sub s s' (fresh-above count after) hs k.1,
          )
