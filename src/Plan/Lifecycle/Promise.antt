-- ===== src/Plan/Lifecycle/Promise.antt =====
-- What publication demands of a graph and what the manifest tells of it, without the gate.
use laminaria_rust_nim_toolc.Prelude.{
  ◌<◌, ◌≡◌, ◌⊎◌, ◌≢◌, String, List, [], ◌∷◌, Option, none, some, All, Any, lookup,
}
use laminaria_rust_nim_toolc.Plan.Obligations.{
  Obligation, ObligationState, unresolved, discharged, externalized,
}
use laminaria_rust_nim_toolc.Plan.Lifecycle.Types.{
  ProducedFact, OperationEvidence, StateTransition, ObligationDecision, ArtifactManifest,
  ProductionGraph,
}
use laminaria_rust_nim_toolc.Plan.Lifecycle.Demanded.{Demanded}

-- Each transition starts where the one before ended, with a later sequence number.
abbrev pub Chained : List StateTransition → Type 0
Chained [] = Unit {0}
Chained (t ∷ []) = Unit {0}
Chained (t ∷ u ∷ ts) = (t.to ≡ u.from) × (t.sequence < u.sequence) × Chained (u ∷ ts)

abbrev pub StartsUnresolved : List StateTransition → Type 0
StartsUnresolved [] = Unit {0}
StartsUnresolved (t ∷ ts) = t.from ≡ unresolved

abbrev pub EndsIn : ObligationState → List StateTransition → Type 0
EndsIn state [] = Unit {0}
EndsIn state (t ∷ []) = t.to ≡ state
EndsIn state (t ∷ u ∷ ts) = EndsIn state (u ∷ ts)

-- A history on record that is not empty leads from `Unresolved` to the obligation's state; with none
-- on record, the state is not one that ends an obligation's life by evidence.
abbrev pub Explained : ObligationState → Option (List StateTransition) → Type 0
Explained state none =
    (state ≢ discharged) × (state ≢ externalized) × (state ≢ ObligationState.proven_irrelevant)
Explained state (some h) = StartsUnresolved h × Chained h × EndsIn state h

abbrev pub IsClosed : ObligationState → Type 0
IsClosed state = (state ≡ discharged) ⊎ (state ≡ externalized)

abbrev pub IsOf : String → OperationEvidence → Type 0
IsOf action_id operation = operation.action_id ≡ action_id

-- A discharged obligation that requires an action has an operation of that action.
abbrev pub HasCause : List OperationEvidence → Obligation → Type 0
HasCause operations o =
    (action_id : String)
    → o.required_action ≡ some action_id
    → o.state ≡ discharged
    → Any (IsOf action_id) operations

abbrev pub IsSameFact : ProducedFact → ProducedFact → Type 0
IsSameFact fact put_out =
    (put_out.identity ≡ fact.identity)
    × (put_out.digest ≡ fact.digest)
    × (put_out.size_bytes ≡ fact.size_bytes)

abbrev pub PutsOut : ProducedFact → OperationEvidence → Type 0
PutsOut fact operation = Any (IsSameFact fact) operation.outputs

abbrev pub HasEvidence : List OperationEvidence → ProducedFact → Type 0
HasEvidence operations fact =
    (fact.digest ≢ "") × (fact.size_bytes ≢ 0) × Any (PutsOut fact) operations

abbrev pub Publishable : ProductionGraph → ProducedFact → Type 0
Publishable g fact =
    ((id : String) × Demanded g.closure.obligations id)
    × All
        (λ (id, o).
          (Demanded g.closure.obligations id → IsClosed o.state)
          × HasCause g.operations o
          × Explained o.state (lookup id g.histories))
        g.closure.obligations
    × HasEvidence g.operations fact

abbrev pub IsOnRecord : Option (List StateTransition) → List StateTransition → Type 0
IsOnRecord none told = told ≡ []
IsOnRecord (some h) told = told ≡ h

-- A decision for each obligation, in their order: its kind, its state and its history.
abbrev pub Decided : ProductionGraph → List (String × Obligation) → List ObligationDecision → Type 0
Decided g [] [] = Unit {0}
Decided g [] (d ∷ ds) = ⊥
Decided g (entry ∷ rest) [] = ⊥
Decided g ((key, o) ∷ rest) (d ∷ ds) =
    (d.obligation_id ≡ o.id)
    × (d.kind ≡ o.kind)
    × (d.state ≡ o.state)
    × IsOnRecord (lookup o.id g.histories) d.history
    × Decided g rest ds

abbrev pub IsManifest : ProductionGraph → ProducedFact → ArtifactManifest → Type 0
IsManifest g fact m =
    (m.contract_version ≡ g.contract_version)
    × (m.requested_artifact ≡ fact)
    × (m.operations ≡ g.operations)
    × (m.runtime_contracts ≡ g.runtime_contracts)
    × Decided g g.closure.obligations m.decisions
