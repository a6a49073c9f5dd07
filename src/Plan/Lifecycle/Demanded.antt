-- ===== src/Plan/Lifecycle/Demanded.antt =====
-- What the walk over the obligations finds, against what a demand needs.
use laminaria_rust_nim_toolc.Prelude.{
  ℕ, zero, suc, ◌+◌, ◌≤◌, ◌≡◌, refl, sym, subst, ap, arith, Bool, true, false, ◌||◌, ◌⊎◌, inl, inr,
  ◌↔◌, String, List, [], ◌∷◌, Option, none, some, Any, mem, lookup, str_eq, eq_iff, length,
  Bool-cases,
}
use laminaria_rust_nim_toolc.Plan.Obligations.{Obligation, ObligationKind, native_executable_demand}
use laminaria_rust_nim_toolc.Plan.Lifecycle.Reachable.{
  push_all, is_demand, demands, dependencies, explore, edges, reachable_obligations,
}
use laminaria_rust_nim_toolc.Plan.Lifecycle.Turns.{
  found, weight, weight_drops, weight-edges, length-push_all, explore-nil,
}

abbrev pub IsDemand : String → String × Obligation → Type 0
IsDemand id (key, o) = (o.kind ≡ native_executable_demand) × (o.id ≡ id)

-- The ids that a demand for a native executable needs: its own, and the dependencies of the
-- obligation that such an id stands for.
pub data Demanded (obligations : List (String × Obligation)) : String → Type 0 where
  demanded : (id : String) → Any (IsDemand id) obligations → Demanded obligations id
  depended :
      (id dependency : String) (o : Obligation)
      → Demanded obligations id
      → lookup id obligations ≡ some o
      → mem dependency o.depends_on ≡ true
      → Demanded obligations dependency

mem-push_all :
    (x : String) (xs pending : List String)
    → mem x (push_all xs pending) ≡ (mem x xs || mem x pending)
mem-push_all x [] pending = refl
mem-push_all x (y ∷ xs) pending = ground (arith, mem-push_all x xs (y ∷ pending))

is_demand_iff : (k : ObligationKind) → (is_demand k ≡ true) ↔ (k ≡ native_executable_demand)
is_demand_iff k = ground arith

-- The stack at the start holds the demands.
mem-demands :
    (x : String) (m : List (String × Obligation)) (pending : List String)
    → (mem x (demands m pending) ≡ true) ↔ (Any (IsDemand x) m ⊎ (mem x pending ≡ true))
unfolding demands
mem-demands x [] pending = ground arith
mem-demands x ((k, o) ∷ rest) pending = ground (
  arith,
  is_demand_iff o.kind,
  eq_iff o.id x,
  mem-demands x rest pending,
  mem-demands x rest (o.id ∷ pending),
)

pick :
    (P : List String → Type 0) (b : Bool) (x y : List String)
    → (b ≡ true → P x)
    → (b ≡ false → P y)
    → P (elim b [ true ↦ x | false ↦ y ])
pick P true x y h k = h refl
pick P false x y h k = k refl

module _ (m : List (String × Obligation)) where
  -- What the ids of the walk have in common, if the dependencies of such an id have it too.
  module _ (P : String → Type 0)
      (inherited : (id d : String) → P id → mem d (dependencies (lookup id m)) ≡ true → P d) where
    AllIn : List String → Type 0
    AllIn xs = (x : String) → mem x xs ≡ true → P x

    explore-AllIn :
        (fuel : ℕ) (pending r : List String)
        → AllIn pending
        → AllIn r
        → AllIn (explore m fuel pending r)
    unfolding explore AllIn
    explore-AllIn zero pending r hp hr = hr
    explore-AllIn (suc fuel) [] r hp hr = hr
    explore-AllIn (suc fuel) (id ∷ pending) r hp hr =
        let deps = dependencies (lookup id m) in
        pick AllIn (found id r) _ _
          (λ seen. explore-AllIn fuel pending r (λ x h. hp x (ground (arith, h))) hr)
          λ new.
            explore-AllIn fuel (push_all deps pending) (id ∷ r)
              (λ x h. elim (Bool-cases (mem x deps)) [
                | inl there ↦ inherited id x (hp id (ground (arith, eq_iff id id))) there
                | inr other ↦ hp x (ground (arith, mem-push_all x deps pending, h, other))
              ])
              (λ x h. elim (Bool-cases (str_eq id x)) [
                | inl same ↦ subst P ((eq_iff id x).0 same) (hp id (ground (arith, eq_iff id id)))
                | inr other ↦ hr x (ground (arith, h, other))
              ])

  -- The dependencies of what is reached are reached or pending.
  Closed : List String → List String → Type 0
  Closed r pending =
      (y d : String)
      → mem y r ≡ true
      → mem d (dependencies (lookup y m)) ≡ true
      → (mem d r || mem d pending) ≡ true

  Complete : List String → List String → List String → Type 0
  Complete r pending result =
      ((x : String) → (mem x r || mem x pending) ≡ true → mem x result ≡ true) × Closed result []

  Closed-pop :
      (id : String) (r pending : List String)
      → mem id r ≡ true
      → Closed r (id ∷ pending)
      → Closed r pending
  unfolding Closed
  Closed-pop id r pending seen closed y d hy hd =
      ground (arith, eq_iff id d, closed y d hy hd, seen, ap (λ x. mem x r))

  Closed-push :
      (id : String) (r pending : List String)
      → Closed r (id ∷ pending)
      → Closed (id ∷ r) (push_all (dependencies (lookup id m)) pending)
  unfolding Closed
  Closed-push id r pending closed y d hy hd = elim (Bool-cases (str_eq id y)) [
    | inl same ↦
        let here : mem d (dependencies (lookup id m)) ≡ true =
          subst (λ z. mem d (dependencies (lookup z m)) ≡ true) (sym ((eq_iff id y).0 same)) hd in
        ground (arith, mem-push_all d (dependencies (lookup id m)) pending, here)
    | inr other ↦ ground (
      arith,
      mem-push_all d (dependencies (lookup id m)) pending,
      closed y d (ground (arith, hy, other)) hd,
    )
  ]

  explore-Complete :
      (fuel : ℕ) (pending r : List String)
      → length pending + weight r m ≤ fuel
      → Closed r pending
      → Complete r pending (explore m fuel pending r)
  unfolding explore Complete
  explore-Complete fuel [] r le closed =
      subst (Complete r []) (sym (explore-nil m fuel r)) ((λ x h. ground (arith, h)), closed)
  explore-Complete zero (id ∷ pending) r le closed = absurd (omega arith)
  explore-Complete (suc fuel) (id ∷ pending) r le closed =
      let deps = dependencies (lookup id m) in
      pick (Complete r (id ∷ pending)) (found id r) _ _
        (λ seen.
          let (all, closed') =
            explore-Complete fuel pending r (omega arith) (Closed-pop id r pending seen closed) in
          (
            λ x h. all x (elim (Bool-cases (str_eq id x)) [
              | inl same ↦
                  let here : mem x r ≡ true =
                    subst (λ z. mem z r ≡ true) ((eq_iff id x).0 same) seen in
                  ground (arith, here)
              | inr other ↦ ground (arith, h, other)
            ]),
            closed',
          ))
        (λ new.
          let (all, closed') =
            explore-Complete fuel (push_all deps pending) (id ∷ r)
              (omega (arith, weight_drops id r m new, length-push_all deps pending))
              (Closed-push id r pending closed) in
          (λ x h. all x (ground (arith, mem-push_all x deps pending, h)), closed'))

  found_some :
      (q : Option Obligation) (d : String)
      → mem d (dependencies q) ≡ true
      → (o : Obligation) × (q ≡ some o) × (mem d o.depends_on ≡ true)
  found_some none d h = absurd (ground arith)
  found_some (some o) d h = (o, refl, h)

  sound : (id : String) → mem id (reachable_obligations m) ≡ true → Demanded m id
  unfolding reachable_obligations AllIn
  sound id h =
      explore-AllIn (Demanded m)
        (λ x d px hd.
          let (o, same, listed) = found_some (lookup x m) d hd in depended x d o px same listed)
        (length (demands m []) + edges m) (demands m []) []
        (λ x hx. demanded x (ground (arith, mem-demands x m [], hx)))
        (λ x hx. absurd (ground (arith, hx))) id h

  ending : Complete [] (demands m []) (reachable_obligations m)
  unfolding reachable_obligations Closed
  ending =
      explore-Complete (length (demands m []) + edges m) (demands m []) []
        (omega (arith, weight-edges m)) (λ y d hy hd. absurd (ground (arith, hy)))

  complete : (id : String) → Demanded m id → mem id (reachable_obligations m) ≡ true
  unfolding Complete Closed
  complete id (demanded _ h) = ending.0 id (ground (arith, mem-demands id m [], h))
  complete id (depended y _ o h same listed) =
      let known : mem id (dependencies (lookup y m)) ≡ true =
        subst (λ q. mem id (dependencies q) ≡ true) (sym same) listed in
      ground (arith, ending.1 y id (complete y h) known)

-- The walk finds the ids that a demand needs, and no others.
pub reachable_obligations-Demanded :
    (m : List (String × Obligation)) (id : String)
    → (mem id (reachable_obligations m) ≡ true) ↔ Demanded m id
reachable_obligations-Demanded m id = (sound m id, complete m id)
