-- ===== src/Ir/Interpreter/Rules.antt =====
-- What a run may end in, and the rules by which a postcondition passes through the evaluator's
-- steps.
use laminaria_rust_nim_toolc.Prelude.{◌≡◌, subst, ℤ}
use laminaria_rust_nim_toolc.Ir.Interpreter.{
  EvalState, Eval, EvalOutcome, Result, ok, err, panic, out_of_fuel, and_then, ◌>>=◌, lift, finish,
}

-- Which failures are allowed: all, only a lack of fuel, or none.
pub data Mode : Type 0 where
  partial safe total : Mode

abbrev pub MayFail : Mode → Type 0
MayFail partial = Unit {0}
MayFail safe = ⊥
MayFail total = ⊥

abbrev pub MayRunOut : Mode → Type 0
MayRunOut partial = Unit {0}
MayRunOut safe = Unit {0}
MayRunOut total = ⊥

abbrev pub Ends : {A : Type 0} → Mode → (A → Type 0) → Result A → Type 0
Ends mode Q (ok a) = Q a
Ends mode Q (err e) = MayFail mode
Ends mode Q panic = MayFail mode
Ends mode Q out_of_fuel = MayRunOut mode

abbrev pub Post : {A : Type 0} → Mode → (A → EvalState → Type 0) → Result (A × EvalState) → Type 0
Post mode Q (ok (a, s)) = Q a s
Post mode Q (err e) = MayFail mode
Post mode Q panic = MayFail mode
Post mode Q out_of_fuel = MayRunOut mode

module _ (mode : Mode) {A B : Type 0} where
  Post-elim :
      (r : Result (A × EvalState)) (f : A → Eval B) (Q : A → EvalState → Type 0)
      (R : B → EvalState → Type 0)
      → Post mode Q r
      → ((a : A) (t : EvalState) → Q a t → Post mode R (f a t))
      → Post mode R (and_then r f)
  Post-elim (ok (a, t)) f Q R h k = k a t h
  Post-elim (err e) f Q R h k = h
  Post-elim panic f Q R h k = h
  Post-elim out_of_fuel f Q R h k = h

  pub Post-bind :
      (m : Eval A) (f : A → Eval B) (s : EvalState) (Q : A → EvalState → Type 0)
      (R : B → EvalState → Type 0)
      → Post mode Q (m s)
      → ((a : A) (t : EvalState) → Q a t → Post mode R (f a t))
      → Post mode R ((m >>= f) s)
  Post-bind m f s Q R h k = Post-elim (m s) f Q R h k

pub Post-mono :
    (mode : Mode) {A : Type 0} (r : Result (A × EvalState)) (Q R : A → EvalState → Type 0)
    → Post mode Q r
    → ((a : A) (t : EvalState) → Q a t → R a t)
    → Post mode R r
Post-mono mode (ok (a, t)) Q R h k = k a t h
Post-mono mode (err e) Q R h k = h
Post-mono mode panic Q R h k = h
Post-mono mode out_of_fuel Q R h k = h

pub Post-lift :
    {A : Type 0} (mode : Mode) (r : Result A) (s : EvalState) (P : A → Type 0)
    → Ends mode P r
    → Post mode (λ a t. P a × (t ≡ s)) (lift r s)
Post-lift mode (ok a) s P h = (h, λ i. s)
Post-lift mode (err e) s P h = h
Post-lift mode panic s P h = h
Post-lift mode out_of_fuel s P h = h

pub Post-finish :
    (mode : Mode) (r : Result (ℤ × EvalState)) (Q : ℤ → EvalState → Type 0)
    (P : EvalOutcome → Type 0)
    → Post mode Q r
    → ((v : ℤ) (t : EvalState) → Q v t → P (record { value = v; effects = t.effects }))
    → Ends mode P (finish r)
Post-finish mode (ok (v, t)) Q P h k = k v t h
Post-finish mode (err e) Q P h k = h
Post-finish mode panic Q P h k = h
Post-finish mode out_of_fuel Q P h k = h

-- Reading a result off.
pub Ends-ok :
    {A : Type 0} (mode : Mode) (r : Result A) (P : A → Type 0) (a : A)
    → Ends mode P r
    → r ≡ ok a
    → P a
Ends-ok mode r P a h e = subst (Ends mode P) e h
