-- ===== src/Ir/Transform/Preserve/Walked.antt =====
-- The walk over the calls, where its counter stays below 2^32.
use laminaria_rust_nim_toolc.Prelude.{
  ℕ, zero, suc, ◌+◌, ◌≤◌, ◌<◌, ◌≡◌, refl, ap, ◌∙◌, arith, String, Bool, true, false, List, ◌∷◌,
  none, if◌then◌else◌, str_eq, ◌==◌,
}
use laminaria_rust_nim_toolc.Ir.Types.{
  LocalId, Provenance, Expr, Exprs, Stmt, int_lit, param, local, wrapping_add, wrapping_sub,
  wrapping_mul, not_eq_zero, call, let_in, nil, cons, let_then, if_else, return, count_exprs,
}
use laminaria_rust_nim_toolc.Ir.Transform.Result.{
  Result, ok, err, panic, ◌>>=◌, unsupported_callee_shape,
}
use laminaria_rust_nim_toolc.Ir.Transform.Rename.{u32_succ, alpha_rename_for_one_graft}
use laminaria_rust_nim_toolc.Ir.Transform.Rewrite.{
  substitute_params_with_locals, rewrite_calls_in_expr, rewrite_calls_in_args,
  rewrite_calls_in_stmt,
}
use laminaria_rust_nim_toolc.Ir.Transform.AnfInsert.{
  fresh_locals, after_locals, wrap_lets, graft, bind_and_graft,
}
use laminaria_rust_nim_toolc.Ir.Transform.Preserve.Rename.{plus_one}
use laminaria_rust_nim_toolc.Ir.Transform.Preserve.Room.{
  lets, ids_needed, args_ids_needed, stmt_ids_needed, u32_succ_fits, rename_fits,
}

locals_fit :
    (count next : ℕ)
    → next + count < 0x100000000
    → (fresh_locals u32_succ count next ≡ fresh_locals plus_one count next)
      × ((after_locals u32_succ count next ≡ after_locals plus_one count next)
          × (after_locals plus_one count next ≡ next + count))
locals_fit zero next fits = (refl, (refl, omega arith))
locals_fit (suc count) next fits =
    let step = u32_succ_fits next (omega arith) in
    let (same, (after, ends)) = locals_fit count (next + 1) (omega arith) in
    (
      ap (λ n. next ∷ fresh_locals u32_succ count n) step ∙ ap (λ l. next ∷ l) same,
      (ap (after_locals u32_succ count) step ∙ after, omega (arith, ends)),
    )

-- The counter of a result is at most `n`.
pub EndsBy : {A : Type 0} → ℕ → Result (A × ℕ) → Type 0
EndsBy n (ok (a, m)) = m ≤ n
EndsBy n (err e) = Unit {0}
EndsBy n panic = Unit {0}

ok-EndsBy : {A : Type 0} (r : Result A) (m n : ℕ) → m ≤ n → EndsBy n (r >>= λ a. ok (a, m))
unfolding EndsBy
ok-EndsBy (ok a) m n le = le
ok-EndsBy (err e) m n le = tt
ok-EndsBy panic m n le = tt

>>=-EndsBy :
    {A B : Type 0} (r : Result A) (k : A → Result (B × ℕ)) (n : ℕ)
    → ((a : A) → EndsBy n (k a))
    → EndsBy n (r >>= k)
unfolding EndsBy
>>=-EndsBy (ok a) k n h = h a
>>=-EndsBy (err e) k n h = tt
>>=-EndsBy panic k n h = tt

-- A second step after a first, both the same for either counter.
then_fits :
    {A B : Type 0} (between top : ℕ) (x y : Result (A × ℕ)) (k k' : A × ℕ → Result (B × ℕ))
    → x ≡ y
    → EndsBy between y
    → ((a : A) (m : ℕ) → m ≤ between → (k (a, m) ≡ k' (a, m)) × EndsBy top (k' (a, m)))
    → ((x >>= k) ≡ (y >>= k')) × EndsBy top (y >>= k')
unfolding EndsBy
then_fits between top x (ok (a, m)) k k' same ends h =
    let (same', ends') = h a m ends in (ap (λ r. r >>= k) same ∙ same', ends')
then_fits between top x (err e) k k' same ends h = (ap (λ r. r >>= k) same, tt)
then_fits between top x panic k k' same ends h = (ap (λ r. r >>= k) same, tt)

abbrev ok_with : {A B : Type 0} → (A → B) → A × ℕ → Result (B × ℕ)
ok_with f (a, n) = ok (f a, n)

abbrev both_with : {A B C : Type 0} → (A → B → C) → (ℕ → Result (B × ℕ)) → A × ℕ → Result (C × ℕ)
both_with f g (a, n) = g n >>= ok_with (f a)

last_fits :
    {A B : Type 0} (top : ℕ) (x y : Result (A × ℕ)) (f : A → B)
    → x ≡ y
    → EndsBy top y
    → ((x >>= ok_with f) ≡ (y >>= ok_with f)) × EndsBy top (y >>= ok_with f)
unfolding EndsBy
last_fits top x y f same ends =
    then_fits top top x y (ok_with f) (ok_with f) same ends (λ a m le. (refl, le))

both_fit :
    {A B C : Type 0} (between top : ℕ) (x y : Result (A × ℕ)) (g g' : ℕ → Result (B × ℕ))
    (f : A → B → C)
    → x ≡ y
    → EndsBy between y
    → ((m : ℕ) → m ≤ between → (g m ≡ g' m) × EndsBy top (g' m))
    → ((x >>= both_with f g) ≡ (y >>= both_with f g')) × EndsBy top (y >>= both_with f g')
both_fit between top x y g g' f same ends h =
    then_fits between top x y (both_with f g) (both_with f g') same ends
      λ a m le. let (same', ends') = h m le in last_fits top (g m) (g' m) (f a) same' ends'

module _ (callee : String) (raw : Expr) (count : ℕ) where
  graft_fits :
      (args : Exprs) (p : Provenance) (next top : ℕ)
      → next + (lets raw + count) ≤ top
      → top < 0x100000000
      → (graft u32_succ callee raw count args p next ≡ graft plus_one callee raw count args p next)
        × EndsBy top (graft plus_one callee raw count args p next)
  unfolding alpha_rename_for_one_graft
  graft_fits args p next top le fits =
      let (renamed, ends) =
        rename_fits raw (record { remap = λ _. none; next_local = next }) (omega arith) in
      let (body, after) = alpha_rename_for_one_graft plus_one raw next in
      let (same, (later, last)) = locals_fit count after (omega arith) in
      let grafted : Expr × ℕ → List LocalId → ℕ → Result (Expr × ℕ) = λ b ls n.
        substitute_params_with_locals b.0 ls p >>= λ substituted.
        wrap_lets ls args substituted p >>= λ result. ok (result, n) in
      (
        ap
              (λ r.
                grafted (r.0, r.1.next_local) (fresh_locals u32_succ count r.1.next_local)
                  (after_locals u32_succ count r.1.next_local))
              renamed
            ∙ ap (λ ls. grafted (body, after) ls (after_locals u32_succ count after)) same
            ∙ ap (grafted (body, after) (fresh_locals plus_one count after)) later,
        >>=-EndsBy (substitute_params_with_locals body (fresh_locals plus_one count after) p) _ top
            (λ sub.
              ok-EndsBy (wrap_lets (fresh_locals plus_one count after) args sub p)
                (after_locals plus_one count after) top (omega arith)),
      )

  abbrev needs : Expr → ℕ
  needs = ids_needed callee (lets raw + count)

  abbrev args_need : Exprs → ℕ
  args_need = args_ids_needed callee (lets raw + count)

  abbrev wrapped : Expr → ℕ → Result (Expr × ℕ)
  wrapped = rewrite_calls_in_expr callee (bind_and_graft u32_succ callee raw count)

  abbrev plain : Expr → ℕ → Result (Expr × ℕ)
  plain = rewrite_calls_in_expr callee (bind_and_graft plus_one callee raw count)

  abbrev wrapped_args : Exprs → ℕ → Result (Exprs × ℕ)
  wrapped_args = rewrite_calls_in_args callee (bind_and_graft u32_succ callee raw count)

  abbrev plain_args : Exprs → ℕ → Result (Exprs × ℕ)
  plain_args = rewrite_calls_in_args callee (bind_and_graft plus_one callee raw count)

  abbrev wrapped_stmt : Stmt → ℕ → Result (Stmt × ℕ)
  wrapped_stmt = rewrite_calls_in_stmt callee (bind_and_graft u32_succ callee raw count)

  abbrev plain_stmt : Stmt → ℕ → Result (Stmt × ℕ)
  plain_stmt = rewrite_calls_in_stmt callee (bind_and_graft plus_one callee raw count)

  call_fits :
      (is_callee fitting : Bool) (f : String) (args : Exprs) (p : Provenance) (next top : ℕ)
      → next + (if is_callee then lets raw + count else 0) ≤ top
      → top < 0x100000000
      → ((if is_callee
            then if fitting
              then graft u32_succ callee raw count args p next
              else err (unsupported_callee_shape callee)
            else ok (call f args p, next))
          ≡ (if is_callee
              then if fitting
                then graft plus_one callee raw count args p next
                else err (unsupported_callee_shape callee)
              else ok (call f args p, next)))
        × EndsBy top (
            if is_callee
            then if fitting
              then graft plus_one callee raw count args p next
              else err (unsupported_callee_shape callee)
            else ok (call f args p, next))
  unfolding EndsBy
  call_fits true true f args p next top le fits = graft_fits args p next top le fits
  call_fits true false f args p next top le fits = (refl, tt)
  call_fits false fitting f args p next top le fits = (refl, omega arith)

  mutual
    unfolding rewrite_calls_in_expr bind_and_graft EndsBy

    expr_fits :
        (e : Expr) (n top : ℕ)
        → n + needs e ≤ top
        → top < 0x100000000
        → (wrapped e n ≡ plain e n) × EndsBy top (plain e n)
    expr_fits (int_lit v w p) n top le fits = (refl, omega arith)
    expr_fits (param i p) n top le fits = (refl, omega arith)
    expr_fits (local x p) n top le fits = (refl, omega arith)
    expr_fits (wrapping_add a b p) n top le fits =
        let (same, ends) = expr_fits a n (n + needs a) (omega arith) (omega arith) in
        both_fit (n + needs a) top (wrapped a n) (plain a n) (wrapped b) (plain b)
          (λ a' b'. wrapping_add a' b' p) same ends (λ m le'. expr_fits b m top (omega arith) fits)
    expr_fits (wrapping_sub a b p) n top le fits =
        let (same, ends) = expr_fits a n (n + needs a) (omega arith) (omega arith) in
        both_fit (n + needs a) top (wrapped a n) (plain a n) (wrapped b) (plain b)
          (λ a' b'. wrapping_sub a' b' p) same ends (λ m le'. expr_fits b m top (omega arith) fits)
    expr_fits (wrapping_mul a b p) n top le fits =
        let (same, ends) = expr_fits a n (n + needs a) (omega arith) (omega arith) in
        both_fit (n + needs a) top (wrapped a n) (plain a n) (wrapped b) (plain b)
          (λ a' b'. wrapping_mul a' b' p) same ends (λ m le'. expr_fits b m top (omega arith) fits)
    expr_fits (not_eq_zero e p) n top le fits =
        let (same, ends) = expr_fits e n top le fits in
        last_fits top (wrapped e n) (plain e n) (λ e'. not_eq_zero e' p) same ends
    expr_fits (call f args p) n top le fits =
        let (same, ends) = args_fit args n (n + args_need args) (omega arith) (omega arith) in
        then_fits (n + args_need args) top (wrapped_args args n) (plain_args args n) _ _ same ends
          λ args' m le'.
            call_fits (str_eq f callee) (count_exprs args' == count) f args' p m top (omega arith)
              fits
    expr_fits (let_in x v b p) n top le fits =
        let (same, ends) = expr_fits v n (n + needs v) (omega arith) (omega arith) in
        both_fit (n + needs v) top (wrapped v n) (plain v n) (wrapped b) (plain b)
          (λ v' b'. let_in x v' b' p) same ends (λ m le'. expr_fits b m top (omega arith) fits)

    args_fit :
        (es : Exprs) (n top : ℕ)
        → n + args_need es ≤ top
        → top < 0x100000000
        → (wrapped_args es n ≡ plain_args es n) × EndsBy top (plain_args es n)
    args_fit nil n top le fits = (refl, omega arith)
    args_fit (cons e es) n top le fits =
        let (same, ends) = expr_fits e n (n + needs e) (omega arith) (omega arith) in
        both_fit (n + needs e) top (wrapped e n) (plain e n) (wrapped_args es) (plain_args es) cons
          same ends (λ m le'. args_fit es m top (omega arith) fits)

  pub stmt_fits :
      (b : Stmt) (n top : ℕ)
      → n + stmt_ids_needed callee (lets raw + count) b ≤ top
      → top < 0x100000000
      → (wrapped_stmt b n ≡ plain_stmt b n) × EndsBy top (plain_stmt b n)
  unfolding rewrite_calls_in_stmt
  stmt_fits (let_then x v b p) n top le fits =
      let (same, ends) = expr_fits v n (n + needs v) (omega arith) (omega arith) in
      both_fit (n + needs v) top (wrapped v n) (plain v n) (wrapped_stmt b) (plain_stmt b)
        (λ v' b'. let_then x v' b' p) same ends (λ m le'. stmt_fits b m top (omega arith) fits)
  stmt_fits (if_else c t e p) n top le fits =
      let next = n + needs c in
      let next' = next + stmt_ids_needed callee (lets raw + count) t in
      let (same, ends) = expr_fits c n next (omega arith) (omega arith) in
      then_fits next top (wrapped c n) (plain c n) _ _ same ends λ c' m le'.
        let (same', ends') = stmt_fits t m next' (omega arith) (omega arith) in
        both_fit next' top (wrapped_stmt t m) (plain_stmt t m) (wrapped_stmt e) (plain_stmt e)
          (λ t' e'. if_else c' t' e' p) same' ends' (λ k le''. stmt_fits e k top (omega arith) fits)
  stmt_fits (return e p) n top le fits =
      let (same, ends) = expr_fits e n top le fits in
      last_fits top (wrapped e n) (plain e n) (λ e'. return e' p) same ends
