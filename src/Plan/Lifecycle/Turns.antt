-- ===== src/Plan/Lifecycle/Turns.antt =====
-- The walk over the obligations ends before its fuel does.
use laminaria_rust_nim_toolc.Prelude.{
  ℕ, zero, suc, ◌+◌, ◌≤◌, ◌≡◌, refl, sym, subst, arith, Bool, false, String, List, [], ◌∷◌, any,
  lookup, str_eq, eq_iff, if◌then◌else◌, length, Bool-cases, inl, inr,
}
use laminaria_rust_nim_toolc.Plan.Obligations.{Obligation}
use laminaria_rust_nim_toolc.Plan.Lifecycle.Reachable.{push_all, dependencies, explore, edges}

abbrev pub found : String → List String → Bool
found x xs = any (λ y. str_eq y x) xs

-- The dependency entries of the obligations that are not reached so far.
pub weight : List String → List (String × Obligation) → ℕ
weight reached [] = 0
weight reached ((k, o) ∷ rest) =
    let others = weight reached rest in
    if found k reached then others else length o.depends_on + others

weight_mono :
    (id : String) (r : List String) (m : List (String × Obligation))
    → weight (id ∷ r) m ≤ weight r m
unfolding weight
weight_mono id r [] = omega arith
weight_mono id r ((k, o) ∷ rest) = ground (arith, weight_mono id r rest)

pub weight_drops :
    (id : String) (r : List String) (m : List (String × Obligation))
    → found id r ≡ false
    → weight (id ∷ r) m + length (dependencies (lookup id m)) ≤ weight r m
unfolding weight lookup
weight_drops id r [] h = omega arith
weight_drops id r ((k, o) ∷ rest) h = elim (Bool-cases (str_eq k id)) [
  | inl same ↦
      let here : k ≡ id = (eq_iff k id).0 same in
      let unreached : found k r ≡ false = subst (λ z. found z r ≡ false) (sym here) h in
      ground (arith, eq_iff k id, eq_iff id k, weight_mono id r rest)
  | inr other ↦ ground (arith, eq_iff k id, eq_iff id k, weight_drops id r rest h)
]

pub length-push_all :
    (xs pending : List String) → length (push_all xs pending) ≡ length xs + length pending
length-push_all [] pending = omega arith
length-push_all (x ∷ xs) pending = omega (arith, length-push_all xs (x ∷ pending))

pub explore-nil :
    (m : List (String × Obligation)) (fuel : ℕ) (r : List String) → explore m fuel [] r ≡ r
unfolding explore
explore-nil m zero r = refl
explore-nil m (suc fuel) r = refl

pub weight-edges : (m : List (String × Obligation)) → weight [] m ≡ edges m
unfolding weight edges
weight-edges [] = refl
weight-edges ((k, o) ∷ rest) = omega (arith, weight-edges rest)
