-- ===== src/Plan/Lifecycle/Publication.antt =====
-- crates/laminaria-plan/src/obligation_lifecycle.rs: the gate to publication.
use laminaria_rust_nim_toolc.Prelude.{
  mem, Bool, true, false, not, ◌&&◌, ◌||◌, String, List, [], ◌∷◌, ◌++◌, map, Option, none, some,
  any, lookup, str_eq, if◌then◌else◌, ◌==◌, leb,
}
use laminaria_rust_nim_toolc.Plan.Obligations.{
  Obligation, ObligationState, unresolved, selected, satisfied, discharged, externalized, rejected,
  state_eq,
}
use laminaria_rust_nim_toolc.Plan.Lifecycle.Types.{
  ProducedFact, OperationEvidence, StateTransition, ObligationDecision, ArtifactManifest,
  PublicationBlocker, no_native_demand, unclosed_obligation, reachable_rejected_obligation,
  reachable_proven_irrelevant_obligation, missing_causal_operation, missing_artifact_evidence,
  invalid_history, publication_blocked, ProductionGraph, Checked, ok, err,
}
use laminaria_rust_nim_toolc.Plan.Lifecycle.Checks.{is_empty}
use laminaria_rust_nim_toolc.Plan.Lifecycle.History.{history_of}
use laminaria_rust_nim_toolc.Plan.Lifecycle.Reachable.{reachable_obligations}

-- What is wrong with the state of an obligation that the demand reaches.
abbrev pub state_blockers : String → ObligationState → List PublicationBlocker
state_blockers id rejected = reachable_rejected_obligation id ∷ []
state_blockers id ObligationState.proven_irrelevant = reachable_proven_irrelevant_obligation id ∷ []
state_blockers id discharged = []
state_blockers id externalized = []
state_blockers id unresolved = unclosed_obligation id unresolved ∷ []
state_blockers id selected = unclosed_obligation id selected ∷ []
state_blockers id satisfied = unclosed_obligation id satisfied ∷ []

-- `self.operations.iter().any(|operation| operation.action_id == *action_id)`
abbrev pub has_operation : List OperationEvidence → String → Bool
has_operation operations action_id =
    any (λ (o : OperationEvidence). str_eq o.action_id action_id) operations

abbrev pub causal_blockers :
    List OperationEvidence → String → ObligationState → Option String → List PublicationBlocker
causal_blockers operations id state none = []
causal_blockers operations id state (some action_id) =
    if state_eq state discharged && not (has_operation operations action_id)
    then missing_causal_operation id action_id ∷ []
    else []

-- `history.windows(2).any(..)`
abbrev pub breaks : List StateTransition → Bool
breaks [] = false
breaks (t ∷ []) = false
breaks (t ∷ u ∷ ts) = not (state_eq t.to u.from) || leb u.sequence t.sequence || breaks (u ∷ ts)

abbrev pub starts_wrong : List StateTransition → Bool
starts_wrong [] = false
starts_wrong (t ∷ ts) = not (state_eq t.from unresolved)

abbrev pub ends_wrong : List StateTransition → ObligationState → Bool
ends_wrong [] state = false
ends_wrong (t ∷ []) state = not (state_eq t.to state)
ends_wrong (t ∷ u ∷ ts) state = ends_wrong (u ∷ ts) state

-- The states that an obligation reaches only through a transition on record.
abbrev pub needs_history : ObligationState → Bool
needs_history discharged = true
needs_history externalized = true
needs_history ObligationState.proven_irrelevant = true
needs_history state = false

abbrev pub history_invalid : ObligationState → Option (List StateTransition) → Bool
history_invalid state none = needs_history state
history_invalid state (some h) = starts_wrong h || breaks h || ends_wrong h state

abbrev pub obligation_blockers :
    ProductionGraph → List String → String → Obligation → List PublicationBlocker
obligation_blockers g reachable id o =
    (if mem id reachable then state_blockers id o.state else [])
    ++ (causal_blockers g.operations id o.state o.required_action
        ++ (if history_invalid o.state (lookup id g.histories)
            then invalid_history id ∷ []
            else []))

unfoldable pub all_blockers :
    ProductionGraph → List String → List (String × Obligation) → List PublicationBlocker
all_blockers g reachable [] = []
all_blockers g reachable ((id, o) ∷ rest) =
    obligation_blockers g reachable id o ++ all_blockers g reachable rest

abbrev pub fact_eq : ProducedFact → ProducedFact → Bool
fact_eq a b =
    str_eq a.identity b.identity && str_eq a.digest b.digest && (a.size_bytes == b.size_bytes)

-- Some operation put out exactly this fact, which has a digest and a size.
unfoldable pub lacks_evidence : List OperationEvidence → ProducedFact → Bool
lacks_evidence operations fact =
    is_empty fact.digest
    || (fact.size_bytes == 0)
    || not (any (λ (o : OperationEvidence). any (λ x. fact_eq x fact) o.outputs) operations)

abbrev pub demand_blockers : List String → List PublicationBlocker
demand_blockers [] = no_native_demand ∷ []
demand_blockers (x ∷ xs) = []

unfoldable pub blockers : ProductionGraph → ProducedFact → List PublicationBlocker
blockers g fact =
    let reachable = reachable_obligations g.closure.obligations in
    demand_blockers reachable
    ++ (all_blockers g reachable g.closure.obligations
        ++ (if lacks_evidence g.operations fact
            then missing_artifact_evidence fact.identity ∷ []
            else []))

abbrev pub decision : ProductionGraph → String × Obligation → ObligationDecision
decision g (key, o) = record {
  obligation_id = o.id;
  kind = o.kind;
  state = o.state;
  history = history_of (lookup o.id g.histories);
}

abbrev pub manifest : ProductionGraph → ProducedFact → ArtifactManifest
manifest g fact = record {
  contract_version = g.contract_version;
  requested_artifact = fact;
  decisions = map (decision g) g.closure.obligations;
  operations = g.operations;
  runtime_contracts = g.runtime_contracts;
}

abbrev pub unless_blocked : List PublicationBlocker → ArtifactManifest → Checked ArtifactManifest
unless_blocked [] m = ok m
unless_blocked (b ∷ bs) m = err (publication_blocked (b ∷ bs))

unfoldable pub publication_manifest : ProductionGraph → ProducedFact → Checked ArtifactManifest
publication_manifest g fact = unless_blocked (blockers g fact) (manifest g fact)
