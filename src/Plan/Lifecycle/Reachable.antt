-- ===== src/Plan/Lifecycle/Reachable.antt =====
-- crates/laminaria-plan/src/obligation_lifecycle.rs: the obligations that the demand reaches.
use laminaria_rust_nim_toolc.Prelude.{
  ℕ, zero, suc, ◌+◌, Bool, true, false, String, List, [], ◌∷◌, Option, none, some, any, lookup,
  str_eq, if◌then◌else◌, length,
}
use laminaria_rust_nim_toolc.Plan.Obligations.{ObligationKind, Obligation}

-- `pending.extend(..)`, on a stack whose top is the head.
abbrev pub push_all : List String → List String → List String
push_all [] pending = pending
push_all (x ∷ xs) pending = push_all xs (x ∷ pending)

abbrev pub is_demand : ObligationKind → Bool
is_demand ObligationKind.native_executable_demand = true
is_demand kind = false

-- The ids of the demands, the last one on top.
unfoldable pub demands : List (String × Obligation) → List String → List String
demands [] pending = pending
demands ((k, o) ∷ rest) pending =
    demands rest (if is_demand o.kind then o.id ∷ pending else pending)

abbrev pub dependencies : Option Obligation → List String
dependencies none = []
dependencies (some o) = o.depends_on

-- How many ids the walk can push beside the demands.
unfoldable pub edges : List (String × Obligation) → ℕ
edges [] = 0
edges ((k, o) ∷ rest) = length o.depends_on + edges rest

module _ (obligations : List (String × Obligation)) where
  -- `while let Some(id) = pending.pop()`
  unfoldable pub explore : (fuel : ℕ) → (pending reachable : List String) → List String
  explore zero pending reachable = reachable
  explore (suc fuel) [] reachable = reachable
  explore (suc fuel) (id ∷ pending) reachable = elim (any (λ y. str_eq y id) reachable) [
    | true ↦ explore fuel pending reachable
    | false ↦
        explore fuel (push_all (dependencies (lookup id obligations)) pending) (id ∷ reachable)
  ]

  unfoldable pub reachable_obligations : List String
  reachable_obligations =
      let pending = demands obligations [] in
      explore (length pending + edges obligations) pending []
