-- ===== src/Ir/Validate/Exact.antt =====
-- The validator accepts exactly the well-formed programs, and hands the set of bound locals back as
-- it was given.
use laminaria_rust_nim_toolc.Prelude.{
  ℕ, ◌≡◌, refl, sym, fun_ext, ap, ◌∙◌, ◌↔◌, ℤ, String, Bool, true, false, List, [], ◌∷◌, Option,
  none, some, length, ltb, ltb→lt, lt→ltb, if◌then◌else◌, ◌==◌, ==_iff, subst, Bool-cases, inl, inr,
}
use laminaria_rust_nim_toolc.Ir.Types.{
  LocalId, IntWidth, i32, Expr, Exprs, Stmt, int_lit, param, local, wrapping_add, wrapping_sub,
  wrapping_mul, not_eq_zero, call, let_in, nil, cons, let_then, if_else, return, count_exprs,
  FnFact, Program, get_fact,
}
use laminaria_rust_nim_toolc.Ir.Validate.{
  ProgramValidationError, Checked, ok, err, ◌>>=◌, guard, Bound, put, with_bound, fits,
  is_condition, callee_arity, arity_of, validate_expr, validate_args, validate_stmt, validate_fn,
  validate_all, validate_program, ValidatedProgram, arity_mismatch,
}
use laminaria_rust_nim_toolc.Ir.Validate.WellFormed.{
  IsCondition, InWidth, Declares, WfExpr, WfArgs, WfStmt, WfFunctions, WfProgram,
}

>>=-eq-ok :
    {A B : Type 0} (first : Checked A) (next : A → Checked B) {y : B}
    → (first >>= next) ≡ ok y
    → (x : A) × (first ≡ ok x) × (next x ≡ ok y)
>>=-eq-ok (ok x) next runs = (x, refl, runs)
>>=-eq-ok (err e) next runs = cc

ok_injective : {a b : Bound} → ok a ≡ ok b → a ≡ b
ok_injective h = cc

guard-eq-ok :
    {B : Type 0} (t : Bool) (e : ProgramValidationError) (f : Checked B) {b : B}
    → (guard t e >>= λ _. f) ≡ ok b
    → (t ≡ true) × (f ≡ ok b)
guard-eq-ok true e f h = (refl, h)
guard-eq-ok false e f h = cc

pub put_self : (bound : Bound) (x : LocalId) → bound x ≡ true → put x true bound ≡ bound
put_self bound x h = fun_ext λ y. elim (Bool-cases (x == y)) [
  | inl same ↦ rw same (sym h ∙ subst (λ z. bound x ≡ bound z) ((==_iff x y).0 same) refl)
  | inr other ↦ rw other
]

put_back : (bound : Bound) (x : LocalId) → bound x ≡ false → put x false (put x true bound) ≡ bound
put_back bound x h = fun_ext λ y. elim (Bool-cases (x == y)) [
  | inl same ↦ rw same (sym h ∙ subst (λ z. bound x ≡ bound z) ((==_iff x y).0 same) refl)
  | inr other ↦ rw other
]

-- `with_bound` undoes its own insertion and no other.
with_bound_restores :
    (bound : Bound) (x : LocalId)
    → (if bound x then put x true bound else put x false (put x true bound)) ≡ bound
with_bound_restores bound x = elim (Bool-cases (bound x)) [
  | inl old ↦ rw old (put_self bound x old)
  | inr new ↦ rw new (put_back bound x new)
]

fits_iff : (w : IntWidth) (v : ℤ) → (fits w v ≡ true) ↔ InWidth w v
fits_iff i32 (ℤ.pos n) = (ltb→lt n _, lt→ltb n _)
fits_iff i32 (ℤ.negsuc n) = (ltb→lt n _, lt→ltb n _)

arity_of-Declares :
    (program : Program) (fn callee : String) (n : ℕ) (o : Option FnFact)
    → get_fact program callee ≡ o
    → arity_of fn callee o ≡ ok n
    → Declares program callee n
arity_of-Declares program fn callee n none found h = cc
arity_of-Declares program fn callee n (some fact) found h = (fact, found, cc)

Declares-arity_of :
    (program : Program) (fn callee : String) (n : ℕ)
    → Declares program callee n
    → callee_arity program fn callee ≡ ok n
Declares-arity_of program fn callee n (fact, found, same) = rw (found, same)

-- The check passes just where the predicate holds, and then gives the same set back.
abbrev Decides : (Bound → Checked Bound) → (Bound → Type 0) → Type 0
Decides f P =
    (bound : Bound)
    → ((after : Bound) → f bound ≡ ok after → P bound × (after ≡ bound))
      × (P bound → f bound ≡ ok bound)

Decides-then :
    (f g : Bound → Checked Bound) (P Q : Bound → Type 0)
    → Decides f P
    → Decides g Q
    → Decides (λ bound. f bound >>= g) (λ bound. P bound × Q bound)
Decides-then f g P Q df dg bound = (
  λ after h.
      let (middle, first, second) = >>=-eq-ok (f bound) g h in
      let (p, same) = (df bound).0 middle first in
      let (q, back) = (dg bound).0 after (subst (λ b. g b ≡ ok after) same second) in
      ((p, q), back),
  λ (p, q). rw ((df bound).1 p) ((dg bound).1 q),
)

is_condition_iff : (c : Expr) → (is_condition c ≡ true) ↔ IsCondition c
is_condition_iff (not_eq_zero e p) = (λ _. tt, λ _. refl)
is_condition_iff (int_lit v w p) = (λ h. cc, λ h. absurd h)
is_condition_iff (param i p) = (λ h. cc, λ h. absurd h)
is_condition_iff (local x p) = (λ h. cc, λ h. absurd h)
is_condition_iff (wrapping_add a b p) = (λ h. cc, λ h. absurd h)
is_condition_iff (wrapping_sub a b p) = (λ h. cc, λ h. absurd h)
is_condition_iff (wrapping_mul a b p) = (λ h. cc, λ h. absurd h)
is_condition_iff (call f args p) = (λ h. cc, λ h. absurd h)
is_condition_iff (let_in x v b p) = (λ h. cc, λ h. absurd h)

Decides-guard :
    (t : Bool) (e : ProgramValidationError) (T : Type 0) (f : Bound → Checked Bound)
    (P : Bound → Type 0)
    → (t ≡ true) ↔ T
    → Decides f P
    → Decides (λ bound. guard t e >>= λ _. f bound) (λ bound. T × P bound)
Decides-guard t e T f P iff df bound = (
  λ after h.
      let (passed, rest) = guard-eq-ok t e (f bound) h in
      let (p, back) = (df bound).0 after rest in ((iff.0 passed, p), back),
  λ (holds, p). rw (iff.1 holds) ((df bound).1 p),
)

Decides-test :
    (t : Bound → Bool) (e : ProgramValidationError) (T : Bound → Type 0)
    → ((bound : Bound) → (t bound ≡ true) ↔ T bound)
    → Decides (λ bound. guard (t bound) e >>= λ _. ok bound) T
Decides-test t e T iff bound = (
  λ after h.
      let (passed, rest) = guard-eq-ok (t bound) e (ok bound) h in ((iff bound).0 passed, cc),
  λ holds. rw ((iff bound).1 holds),
)

Decides-scoped :
    (x : LocalId) (f g : Bound → Checked Bound) (P Q : Bound → Type 0)
    → Decides f P
    → Decides g Q
    → Decides
        (λ bound. f bound >>= λ after. with_bound after x g)
        (λ bound. P bound × Q (put x true bound))
Decides-scoped x f g P Q df dg =
    Decides-then f (λ b. with_bound b x g) P _ df
      λ bound. (
        λ after h.
            let (inner, first, second) = >>=-eq-ok (g (put x true bound)) _ h in
            let (q, same) = (dg (put x true bound)).0 inner first in
            (
              q,
              sym (ok_injective second)
                  ∙ ap (λ b. if bound x then b else put x false b) same
                  ∙ with_bound_restores bound x,
            ),
        λ q. rw ((dg (put x true bound)).1 q) (ap ok (with_bound_restores bound x)),
      )

module _ (program : Program) (fn : String) (n : ℕ) where
  call-Decides :
      (callee : String) (count : ℕ) (f : Bound → Checked Bound) (P : Bound → Type 0)
      → Decides f P
      → Decides
          (λ bound. callee_arity program fn callee >>= λ expected.
            guard (expected == count) (arity_mismatch fn callee expected count) >>= λ _. f bound)
          (λ bound. Declares program callee count × P bound)
  call-Decides callee count f P df bound = (
    λ after h.
        let (expected, found, rest) = >>=-eq-ok (callee_arity program fn callee) _ h in
        let (same, last) = guard-eq-ok (expected == count) _ (f bound) rest in
        let (p, back) = (df bound).0 after last in
        let declared = arity_of-Declares program fn callee expected _ refl found in
        (((declared.0, declared.1, declared.2 ∙ (==_iff expected count).0 same), p), back),
    λ (declared, p).
        rw (Declares-arity_of program fn callee count declared, (==_iff count count).1 refl)
          ((df bound).1 p),
  )

  mutual
    unfolding validate_expr

    expr-Decides :
        (e : Expr) (cond : Bool)
        → Decides (validate_expr program fn n e cond) (WfExpr program n e cond)
    expr-Decides (int_lit v w p) cond = Decides-test (λ _. fits w v) _ _ (λ _. fits_iff w v)
    expr-Decides (param i p) cond = Decides-test (λ _. ltb i n) _ _ (λ _. (ltb→lt i n, lt→ltb i n))
    expr-Decides (local x p) cond = Decides-test (λ bound. bound x) _ _ (λ _. (λ h. h, λ h. h))
    expr-Decides (wrapping_add a b p) cond =
        Decides-then _ _ _ _ (expr-Decides a false) (expr-Decides b false)
    expr-Decides (wrapping_sub a b p) cond =
        Decides-then _ _ _ _ (expr-Decides a false) (expr-Decides b false)
    expr-Decides (wrapping_mul a b p) cond =
        Decides-then _ _ _ _ (expr-Decides a false) (expr-Decides b false)
    expr-Decides (not_eq_zero e p) cond =
        Decides-guard cond _ (cond ≡ true) _ _ (λ h. h, λ h. h) (expr-Decides e false)
    expr-Decides (call f args p) cond = call-Decides f (count_exprs args) _ _ (args-Decides args)
    expr-Decides (let_in x v b p) cond =
        Decides-scoped x _ _ _ _ (expr-Decides v false) (expr-Decides b false)

    args-Decides : (es : Exprs) → Decides (validate_args program fn n es) (WfArgs program n es)
    args-Decides nil = λ bound. (λ after h. (tt, cc), λ _. refl)
    args-Decides (cons e es) = Decides-then _ _ _ _ (expr-Decides e false) (args-Decides es)

  stmt-Decides : (b : Stmt) → Decides (validate_stmt program fn n b) (WfStmt program n b)
  unfolding validate_stmt
  stmt-Decides (let_then x v b p) = Decides-scoped x _ _ _ _ (expr-Decides v false) (stmt-Decides b)
  stmt-Decides (if_else c t e p) =
      Decides-guard (is_condition c) _ (IsCondition c) _ _ (is_condition_iff c) (
        Decides-then _ _ _ _ (expr-Decides c true)
          (Decides-then _ _ _ _ (stmt-Decides t) (stmt-Decides e)))
  stmt-Decides (return e p) = expr-Decides e false

functions_iff :
    (program : Program) (rest : List (String × FnFact))
    → (validate_all program rest ≡ ok tt) ↔ WfFunctions program rest
unfolding validate_all validate_fn
functions_iff program [] = (λ _. tt, λ _. refl)
functions_iff program ((name, fact) ∷ rest) =
    let body = stmt-Decides program name (length fact.params) fact.body (λ _. false) in
    (
      λ h.
          let (after, first, second) = >>=-eq-ok (validate_fn program name fact) _ h in
          ((body.0 after first).0, (functions_iff program rest).0 second),
      λ (one, others). rw (body.1 one) ((functions_iff program rest).1 others),
    )

-- `validate_program` accepts a program exactly when every function of it is well formed: its locals
-- are used in their scope, its parameter indices are declared, each call names a declared function
-- with the right number of arguments, each literal is an `i32`, and a condition stands where an `if`
-- asks for one and nowhere else. What it returns is the program itself.
pub validate_program_iff :
    (program : Program)
    → (validate_program program ≡ ok (record { program = program })) ↔ WfProgram program
unfolding validate_program
validate_program_iff program = (
  λ h.
      let (u, checked, _) = >>=-eq-ok (validate_all program program.functions) _ h in
      (functions_iff program program.functions).0 checked,
  λ wf. rw ((functions_iff program program.functions).1 wf),
)

-- A validated program is the program that was checked.
pub validate_program-WfProgram :
    (program : Program) (validated : ValidatedProgram)
    → validate_program program ≡ ok validated
    → WfProgram program
unfolding validate_program
validate_program-WfProgram program validated h =
    let (u, checked, _) = >>=-eq-ok (validate_all program program.functions) _ h in
    (functions_iff program program.functions).0 checked
