-- ===== src/Ir/Transform/Preserve/Sim.antt =====
-- When one evaluation follows another: where the first returns, so does the second, with the same
-- value; both put their locals back, and both add the same events, the hidden function's left out.
use laminaria_rust_nim_toolc.Prelude.{
  ◌≡◌, refl, sym, ap, ◌∙◌, subst, ℤ, String, List, [], ◌∷◌, ◌++◌, Option, some, true, false, length,
  append_assoc, append-nil, if◌then◌else◌, Bool, fun_ext, Bool-cases, inl, inr, ◌==◌, ==_iff,
}
use laminaria_rust_nim_toolc.Ir.Types.{LocalId}
use laminaria_rust_nim_toolc.Ir.Interpreter.{
  renumber, EvalState, EvalOutcome, Result, ok, err, panic, out_of_fuel, Eval, Locals, bind, Caller,
  do_call, enter, leave, lift, accept, pure, and_then, ◌>>=◌,
}
use laminaria_rust_nim_toolc.Ir.Transform.Preserve.Trace.{erase, seen, call_event, erase_called}

pub bind_back : (x : LocalId) (v : Option ℤ) (m : Locals) → bind x (m x) (bind x v m) ≡ m
bind_back x v m = fun_ext λ y. elim (Bool-cases (x == y)) [
  | inl same ↦ rw same (ap m ((==_iff x y).0 same))
  | inr other ↦ rw other
]

module _ (hidden : String) where
  -- From `s` to `t` and from `s'` to `t'` the same events were added.
  pub record Tied (s s' t t' : EvalState) : Type 0 where
    pub locals : t.locals ≡ s.locals
    pub locals' : t'.locals ≡ s'.locals
    pub added : List (String × List ℤ)
    pub events : erase hidden t.effects ≡ erase hidden s.effects ++ added
    pub events' : erase hidden t'.effects ≡ erase hidden s'.effects ++ added

  abbrev pub Match :
      {A : Type 0}
      → EvalState
      → EvalState
      → Result (A × EvalState)
      → Result (A × EvalState)
      → Type 0
  Match s s' (ok (v, t)) r = (t' : EvalState) × (r ≡ ok (v, t')) × Tied s s' t t'
  Match s s' (err e) r = Unit {0}
  Match s s' panic r = Unit {0}
  Match s s' out_of_fuel r = Unit {0}

  -- The locals of the two states are related by `K` at the start.
  abbrev pub Sim : {A : Type 0} → (Locals → Locals → Type 0) → Eval A → Eval A → Type 0
  Sim K m n = (s s' : EvalState) → K s.locals s'.locals → Match s s' (m s) (n s')

  pub Tied-refl : (s s' : EvalState) → Tied s s' s s'
  Tied-refl s s' = record {
    locals = refl;
    locals' = refl;
    added = [];
    events = sym (append-nil _);
    events' = sym (append-nil _);
  }

  Tied-trans : (s s' t t' u u' : EvalState) → Tied s s' t t' → Tied t t' u u' → Tied s s' u u'
  Tied-trans s s' t t' u u' a b = record {
    locals = b.locals ∙ a.locals;
    locals' = b.locals' ∙ a.locals';
    added = a.added ++ b.added;
    events = b.events ∙ ap (λ l. l ++ b.added) a.events ∙ append_assoc _ a.added b.added;
    events' = b.events' ∙ ap (λ l. l ++ b.added) a.events' ∙ append_assoc _ a.added b.added;
  }

  Match-extend :
      {A : Type 0} (s s' t t' : EvalState) (r r' : Result (A × EvalState))
      → Tied s s' t t'
      → Match t t' r r'
      → Match s s' r r'
  Match-extend s s' t t' (ok (w, u)) r' tied (u', e, tied') =
      (u', e, Tied-trans s s' t t' u u' tied tied')
  Match-extend s s' t t' (err e) r' tied h = tt
  Match-extend s s' t t' panic r' tied h = tt
  Match-extend s s' t t' out_of_fuel r' tied h = tt

  Match-then :
      {A B : Type 0} (s s' : EvalState) (r r' : Result (A × EvalState)) (f f' : A → Eval B)
      → Match s s' r r'
      → ((v : A) (t t' : EvalState) → Tied s s' t t' → Match t t' (f v t) (f' v t'))
      → Match s s' (and_then r f) (and_then r' f')
  Match-then s s' (ok (v, t)) r' f f' (t', e, tied) k =
      rw e (Match-extend s s' t t' (f v t) (f' v t') tied (k v t t' tied))
  Match-then s s' (err e) r' f f' h k = tt
  Match-then s s' panic r' f f' h k = tt
  Match-then s s' out_of_fuel r' f f' h k = tt

  moved :
      (K : Locals → Locals → Type 0) (s s' t t' : EvalState)
      → Tied s s' t t'
      → K s.locals s'.locals
      → K t.locals t'.locals
  moved K s s' t t' tied k =
      subst (λ c. K c t'.locals) (sym tied.locals) (subst (K s.locals) (sym tied.locals') k)

  pub Sim-pure : {A : Type 0} (K : Locals → Locals → Type 0) (a : A) → Sim K (pure a) (pure a)
  Sim-pure K a s s' k = (s', refl, Tied-refl s s')

  pub Sim-bind :
      {A B : Type 0} (K : Locals → Locals → Type 0) (m m' : Eval A) (f f' : A → Eval B)
      → Sim K m m'
      → ((v : A) → Sim K (f v) (f' v))
      → Sim K (m >>= f) (m' >>= f')
  Sim-bind K m m' f f' hm hf s s' k =
      Match-then s s' (m s) (m' s') f f' (hm s s' k)
        λ v t t' tied. hf v t t' (moved K s s' t t' tied k)

  pub Sim-both :
      {A B C : Type 0} (K : Locals → Locals → Type 0) (m m' : Eval A) (n n' : Eval B)
      (f : A → B → C)
      → Sim K m m'
      → Sim K n n'
      → Sim K (m >>= λ x. n >>= λ y. pure (f x y)) (m' >>= λ x. n' >>= λ y. pure (f x y))
  Sim-both K m m' n n' f hm hn =
      Sim-bind K m m' _ _ hm λ x. Sim-bind K n n' _ _ hn λ y. Sim-pure K (f x y)

  pub Sim-if :
      (K : Locals → Locals → Type 0) (b : Bool) (m m' n n' : Eval ℤ)
      → Sim K m m'
      → Sim K n n'
      → Sim K (if b then m else n) (if b then m' else n')
  Sim-if K true m m' n n' hm hn = hm
  Sim-if K false m m' n n' hm hn = hn

  pub Sim-mono :
      {A : Type 0} (K K' : Locals → Locals → Type 0) (m m' : Eval A)
      → ((c c' : Locals) → K c c' → K' c c')
      → Sim K' m m'
      → Sim K m m'
  Sim-mono K K' m m' weaker h s s' k = h s s' (weaker s.locals s'.locals k)

  abbrev pub inside : LocalId → ℤ → EvalState → EvalState
  inside x v s = record s { locals = bind x (some v) s.locals }

  -- The new evaluation has a binding around it that the old one has not.
  left_right :
      (y : LocalId) (v : ℤ) (t t' : EvalState) (r r' : Result (ℤ × EvalState))
      → Match t (inside y v t') r r'
      → Match t t' r (and_then r' (leave y (t'.locals y)))
  left_right y v t t' (ok (w, u)) r' (u', e, tied) = rw e (
    record u' { locals = bind y (t'.locals y) u'.locals },
    refl,
    record {
      locals = tied.locals;
      locals' = ap (bind y (t'.locals y)) tied.locals' ∙ bind_back y (some v) t'.locals;
      added = tied.added;
      events = tied.events;
      events' = tied.events';
    },
  )
  left_right y v t t' (err e) r' h = tt
  left_right y v t t' panic r' h = tt
  left_right y v t t' out_of_fuel r' h = tt

  left_both :
      (x y : LocalId) (v : ℤ) (t t' : EvalState) (r r' : Result (ℤ × EvalState))
      → Match (inside x v t) (inside y v t') r r'
      → Match t t' (and_then r (leave x (t.locals x))) (and_then r' (leave y (t'.locals y)))
  left_both x y v t t' (ok (w, u)) r' (u', e, tied) = rw e (
    record u' { locals = bind y (t'.locals y) u'.locals },
    refl,
    record {
      locals = ap (bind x (t.locals x)) tied.locals ∙ bind_back x (some v) t.locals;
      locals' = ap (bind y (t'.locals y)) tied.locals' ∙ bind_back y (some v) t'.locals;
      added = tied.added;
      events = tied.events;
      events' = tied.events';
    },
  )
  left_both x y v t t' (err e) r' h = tt
  left_both x y v t t' panic r' h = tt
  left_both x y v t t' out_of_fuel r' h = tt

  abbrev pub scoped : LocalId → Eval ℤ → Eval ℤ → Eval ℤ
  scoped x m b = m >>= λ n. enter x n >>= λ previous. b >>= leave x previous

  pub Sim-scoped :
      (K K' : Locals → Locals → Type 0) (x y : LocalId) (m m' b b' : Eval ℤ)
      → Sim K m m'
      → ((v : ℤ) (c c' : Locals) → K c c' → K' (bind x (some v) c) (bind y (some v) c'))
      → Sim K' b b'
      → Sim K (scoped x m b) (scoped y m' b')
  Sim-scoped K K' x y m m' b b' hm grow hb s s' k =
      Match-then s s' (m s) (m' s') _ _ (hm s s' k) λ v t t' tied.
        left_both x y v t t' (b (inside x v t)) (b' (inside y v t'))
          (hb (inside x v t) (inside y v t') (grow v t.locals t'.locals (moved K s s' t t' tied k)))

  pub Sim-bound :
      (K : Locals → Locals → Type 0) (K' : ℤ → Locals → Locals → Type 0) (y : LocalId)
      (m m' : Eval ℤ) (f : ℤ → Eval ℤ) (b' : Eval ℤ)
      → Sim K m m'
      → ((v : ℤ) (c c' : Locals) → K c c' → K' v c (bind y (some v) c'))
      → ((v : ℤ) → Sim (K' v) (f v) b')
      → Sim K (m >>= f) (scoped y m' b')
  Sim-bound K K' y m m' f b' hm grow hb s s' k =
      Match-then s s' (m s) (m' s') _ _ (hm s s' k) λ v t t' tied.
        left_right y v t t' (f v t) (b' (inside y v t'))
          (hb v t (inside y v t') (grow v t.locals t'.locals (moved K s s' t t' tied k)))

  -- Where the first call returns, the second returns the same value and shows the same events.
  abbrev pub Answers : Result EvalOutcome → Result EvalOutcome → Type 0
  Answers (ok o) r =
      (o' : EvalOutcome) × (r ≡ ok o')
      × (o'.value ≡ o.value)
      × (erase hidden o'.effects ≡ erase hidden o.effects)
  Answers (err e) r = Unit {0}
  Answers panic r = Unit {0}
  Answers out_of_fuel r = Unit {0}

  abbrev pub pushed : String → List ℤ → EvalState → EvalState
  pushed f vs s = record s { effects = s.effects ++ call_event f vs (length s.effects) ∷ [] }

  answered :
      (f : String) (vs : List ℤ) (s s' : EvalState) (r r' : Result EvalOutcome)
      → Answers r r'
      → Match s s' ((lift r >>= accept) (pushed f vs s)) ((lift r' >>= accept) (pushed f vs s'))
  answered f vs s s' (ok o) r' (o', e, value, same) =
      let before = pushed f vs s' in
      let after : EvalState = record before {
        effects = before.effects ++ renumber (length before.effects) o'.effects;
      } in
      rw e (
        after,
        ap (λ v. ok (v, after)) value,
        record {
          locals = refl;
          locals' = refl;
          added = seen hidden f vs ++ erase hidden o.effects;
          events = erase_called hidden f vs _ _ s.effects o.effects;
          events' =
              erase_called hidden f vs _ _ s'.effects o'.effects
              ∙ ap (λ l. erase hidden s'.effects ++ (seen hidden f vs ++ l)) same;
        },
      )
  answered f vs s s' (err e) r' h = tt
  answered f vs s s' panic r' h = tt
  answered f vs s s' out_of_fuel r' h = tt

  pub Sim-do_call :
      (K : Locals → Locals → Type 0) (run run' : Caller) (f : String) (vs : List ℤ)
      → Answers (run f vs) (run' f vs)
      → Sim K (do_call run f vs) (do_call run' f vs)
  unfolding do_call
  Sim-do_call K run run' f vs h s s' k = answered f vs s s' (run f vs) (run' f vs) h
