-- ===== src/Plan/Lifecycle/Operate.antt =====
-- crates/laminaria-plan/src/obligation_lifecycle.rs: the operations that discharge, externalize and prune.
use laminaria_rust_nim_toolc.Plan.Lifecycle.Types.{
  OperationEvidence, RuntimeProviderEvidence, RuntimeContractEvidence, IrrelevanceProof,
  TransitionCause, ProductionGraph, Outcome, reachability_proof, invalid_runtime_contract,
  invalid_irrelevance_proof, invalid_transition, invalid_operation_evidence, transition, ok, err,
  panic, ◌>>=◌,
}
use laminaria_rust_nim_toolc.Plan.Lifecycle.Checks.{is_empty, sequence_used, validate_operation}
use laminaria_rust_nim_toolc.Plan.Lifecycle.History.{append_transition, history_from}
use laminaria_rust_nim_toolc.Plan.Lifecycle.Reachable.{reachable_obligations}
use Prim.Native.String.{◌++◌ as append}
use laminaria_rust_nim_toolc.Prelude.{
  mem, Bool, true, false, not, ◌||◌, String, List, [], ◌∷◌, ◌++◌, Option, none, some, any, lookup,
  str_eq, if◌then◌else◌, ◌==◌, leb, length,
}
use laminaria_rust_nim_toolc.Plan.Obligations.{
  ObligationState, ObligationKind, unresolved, selected, satisfied, discharged, externalized,
  DischargeKind, Obligation, RequiredAction, action_kind_eq, put_obligation, discharge_obligation,
  externalize_obligation, Transition, preflight_runtime_contract,
}

-- A transition of the closure, within the graph.
abbrev pub within : ProductionGraph → Transition → Outcome
within g (Transition.ok closure) = ok (record g { closure = closure })
within g (Transition.err v) = err (transition v) g

-- One turn of the loop of `record_operation`.
abbrev pub discharge_one :
    OperationEvidence
    → RequiredAction
    → DischargeKind
    → String
    → ProductionGraph
    → Option Obligation
    → Outcome
discharge_one e act kind id g none = err (invalid_operation_evidence id) g
discharge_one e act kind id g (some o) =
    within g (
      discharge_obligation g.closure id act.id kind
        (append "operation " (append e.operation_id (append ": " e.detail))))
    >>= λ g'.
        append_transition g' id e.sequence o.state discharged
          (TransitionCause.action e.operation_id act.id)

abbrev pub discharge_all :
    OperationEvidence → RequiredAction → DischargeKind → List String → ProductionGraph → Outcome
discharge_all e act kind [] g = ok g
discharge_all e act kind (id ∷ ids) g =
    discharge_one e act kind id g (lookup id g.closure.obligations) >>= discharge_all e act kind ids

abbrev pub push_operation : OperationEvidence → ProductionGraph → ProductionGraph
push_operation e g = record g { operations = g.operations ++ e ∷ [] }

unfoldable pub record_operation : ProductionGraph → OperationEvidence → DischargeKind → Outcome
record_operation g e kind = elim (validate_operation g e) [
  | err x ↦ err x g
  | ok act ↦ discharge_all e act kind act.discharges g >>= λ g'. ok (push_operation e g')
]

-- A runtime contract that lacks a part.
abbrev pub is_incomplete : RuntimeContractEvidence → Bool
is_incomplete e =
    is_empty e.contract_id
    || is_empty e.operation_id
    || is_empty e.run_id
    || is_empty e.producer_identity
    || is_empty e.target_triple
    || is_empty e.loader_requirement
    || (length e.required_providers == 0)
    || any
        (λ (p : RuntimeProviderEvidence).
          is_empty p.provider_id || elim p.path [ none ↦ false | some path ↦ is_empty path ])
        e.required_providers
    || is_empty e.version_requirement
    || is_empty e.verification

abbrev pub is_runtime : ObligationKind → Bool
is_runtime ObligationKind.runtime = true
is_runtime kind = false

abbrev pub contract_evidence : RuntimeContractEvidence → String
contract_evidence e = append "runtime contract " (
    append e.contract_id (
      append ": " (
        append e.loader_requirement
          (append "; " (append e.version_requirement (append "; " e.verification))))))

-- The two transitions of a runtime obligation: in the closure and on record.
abbrev pub externalize_one :
    ProductionGraph → String → RuntimeContractEvidence → Obligation → Outcome
externalize_one g id e o =
    within g (externalize_obligation g.closure id (contract_evidence e)) >>= λ g'.
    append_transition g' id e.sequence (history_from (lookup id g'.histories) o.state) externalized
      (TransitionCause.runtime_contract e.contract_id)

abbrev pub push_contract : RuntimeContractEvidence → ProductionGraph → ProductionGraph
push_contract e g = record g { runtime_contracts = g.runtime_contracts ++ e ∷ [] }

abbrev pub externalize_found :
    ProductionGraph → String → RuntimeContractEvidence → Option Obligation → Outcome
externalize_found g id e none = err (invalid_runtime_contract id) g
externalize_found g id e (some o) =
    if not (is_runtime o.kind)
    then err (invalid_runtime_contract id) g
    else externalize_one g id e o >>= λ g'. ok (push_contract e g')

unfoldable pub externalize_runtime : ProductionGraph → String → RuntimeContractEvidence → Outcome
externalize_runtime g id e =
    if is_incomplete e || sequence_used g e.sequence
    then err (invalid_runtime_contract e.contract_id) g
    else externalize_found g id e (lookup id g.closure.obligations)

-- The staged copy replaces the graph only when all went well.
abbrev pub commit : ProductionGraph → Outcome → Outcome
commit g (ok staged) = ok staged
commit g (err e staged) = err e g
commit g panic = panic

-- The contract is not about this operation.
abbrev pub mismatches : OperationEvidence → RuntimeContractEvidence → RequiredAction → Bool
mismatches o c act =
    not (action_kind_eq act.kind preflight_runtime_contract)
    || not (str_eq c.operation_id o.operation_id)
    || not (str_eq c.run_id o.run_id)
    || not (str_eq c.producer_identity o.producer_identity)
    || leb c.sequence o.sequence

abbrev pub runtime_checked :
    ProductionGraph
    → OperationEvidence
    → RuntimeContractEvidence
    → RequiredAction
    → List String
    → Outcome
runtime_checked g o c act [] = err (invalid_runtime_contract c.contract_id) g
runtime_checked g o c act (id ∷ j ∷ ids) = err (invalid_runtime_contract c.contract_id) g
runtime_checked g o c act (id ∷ []) =
    if mismatches o c act
    then err (invalid_runtime_contract c.contract_id) g
    else commit g (externalize_runtime (push_operation o g) id c)

unfoldable pub record_runtime_operation :
    ProductionGraph → OperationEvidence → RuntimeContractEvidence → Outcome
record_runtime_operation g o c = elim (validate_operation g o) [
  | err x ↦ err x g
  | ok act ↦ runtime_checked g o c act act.discharges
]

abbrev pub irrelevant : String → Obligation → Obligation
irrelevant proof_id o = record o {
  state = ObligationState.proven_irrelevant;
  discharge_kind = some DischargeKind.proven_irrelevant;
  evidence = some (append "reachability proof " proof_id);
}

abbrev pub is_open : ObligationState → Bool
is_open unresolved = true
is_open selected = true
is_open satisfied = true
is_open state = false

abbrev pub prove_one : ProductionGraph → String → IrrelevanceProof → Obligation → Outcome
prove_one g id e o =
    append_transition (record g { closure = put_obligation id (irrelevant e.proof_id o) g.closure })
      id e.sequence (history_from (lookup id g.histories) o.state) ObligationState.proven_irrelevant
      (reachability_proof e.proof_id)

abbrev pub push_proof : IrrelevanceProof → ProductionGraph → ProductionGraph
push_proof e g = record g { irrelevance_proofs = g.irrelevance_proofs ++ e ∷ [] }

abbrev pub prove_found : ProductionGraph → String → IrrelevanceProof → Option Obligation → Outcome
prove_found g id e none = err (invalid_irrelevance_proof id) g
prove_found g id e (some o) =
    if not (is_open o.state)
    then err (invalid_transition id o.state ObligationState.proven_irrelevant) g
    else prove_one g id e o >>= λ g'. ok (push_proof e g')

abbrev pub is_unproven : IrrelevanceProof → Bool
is_unproven e =
    is_empty e.proof_id
    || is_empty e.run_id
    || is_empty e.producer_identity
    || (length e.roots == 0)
    || is_empty e.examined_edges_digest
    || not e.no_observable_side_effect
    || not e.no_external_contract

-- What the demand reaches is not pruned.
abbrev pub prove_unreachable : ProductionGraph → String → IrrelevanceProof → Outcome
prove_unreachable g id e =
    if mem id (reachable_obligations g.closure.obligations)
    then err (invalid_irrelevance_proof id) g
    else prove_found g id e (lookup id g.closure.obligations)

unfoldable pub prove_irrelevant : ProductionGraph → String → IrrelevanceProof → Outcome
prove_irrelevant g id e =
    if is_unproven e || sequence_used g e.sequence
    then err (invalid_irrelevance_proof e.proof_id) g
    else prove_unreachable g id e
