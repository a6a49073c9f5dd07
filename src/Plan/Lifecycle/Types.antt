-- ===== src/Plan/Lifecycle/Types.antt =====
-- crates/laminaria-plan/src/obligation_lifecycle.rs: the evidence, the histories and the graph.
use laminaria_rust_nim_toolc.Prelude.{ℕ, Bool, String, List, Option}
use laminaria_rust_nim_toolc.Plan.Obligations.{
  ObligationKind, ObligationState, RequiredActionKind, PositiveClosure, LifecycleViolation,
}

pub data OperationOutcome : Type 0 where
  succeeded failed cancelled partial : OperationOutcome

pub record ProducedFact : Type 0 where
  pub identity : String
  pub digest : String
  pub size_bytes : ℕ

pub record OperationEvidence : Type 0 where
  pub operation_id : String
  pub action_id : String
  pub action_kind : RequiredActionKind
  pub run_id : String
  pub producer_identity : String
  pub sequence : ℕ
  pub inputs : List String
  pub outputs : List ProducedFact
  pub outcome : OperationOutcome
  pub structurally_verified : Bool
  pub detail : String

pub record ResolutionEvidence : Type 0 where
  pub operation_id : String
  pub run_id : String
  pub producer_identity : String
  pub sequence : ℕ
  pub input_identities : List String
  pub resolved_obligations : List String
  pub outcome : OperationOutcome
  pub structurally_verified : Bool

pub record RuntimeProviderEvidence : Type 0 where
  pub provider_id : String
  pub path : Option String

pub record RuntimeContractEvidence : Type 0 where
  pub contract_id : String
  pub operation_id : String
  pub run_id : String
  pub producer_identity : String
  pub sequence : ℕ
  pub target_triple : String
  pub loader_requirement : String
  pub required_providers : List RuntimeProviderEvidence
  pub version_requirement : String
  pub verification : String

pub record IrrelevanceProof : Type 0 where
  pub proof_id : String
  pub run_id : String
  pub producer_identity : String
  pub sequence : ℕ
  pub roots : List String
  pub examined_edges_digest : String
  pub no_observable_side_effect : Bool
  pub no_external_contract : Bool

pub data TransitionCause : Type 0 where
  resolution : (operation_id : String) → TransitionCause
  action : (operation_id action_id : String) → TransitionCause
  runtime_contract : (contract_id : String) → TransitionCause
  reachability_proof : (proof_id : String) → TransitionCause

pub record StateTransition : Type 0 where
  pub sequence : ℕ
  pub from : ObligationState
  pub to : ObligationState
  pub cause : TransitionCause

pub record ObligationDecision : Type 0 where
  pub obligation_id : String
  pub kind : ObligationKind
  pub state : ObligationState
  pub history : List StateTransition

pub record ArtifactManifest : Type 0 where
  pub contract_version : ℕ
  pub requested_artifact : ProducedFact
  pub decisions : List ObligationDecision
  pub operations : List OperationEvidence
  pub runtime_contracts : List RuntimeContractEvidence

pub data PublicationBlocker : Type 0 where
  no_native_demand : PublicationBlocker
  unclosed_obligation : (obligation_id : String) → ObligationState → PublicationBlocker
  reachable_rejected_obligation : (obligation_id : String) → PublicationBlocker
  reachable_proven_irrelevant_obligation : (obligation_id : String) → PublicationBlocker
  missing_causal_operation : (obligation_id action_id : String) → PublicationBlocker
  missing_artifact_evidence : (artifact_identity : String) → PublicationBlocker
  invalid_history : (obligation_id : String) → PublicationBlocker

pub data LifecycleError : Type 0 where
  identity_mismatch : (map_key obligation_id : String) → LifecycleError
  duplicate_operation unknown_action : String → LifecycleError
  producer_identity_mismatch action_kind_mismatch action_inputs_mismatch action_outputs_mismatch :
      LifecycleError
  action_dependency_not_completed : (action_id dependency : String) → LifecycleError
  invalid_operation_evidence invalid_resolution_evidence invalid_runtime_contract
        invalid_irrelevance_proof :
      String → LifecycleError
  invalid_transition : (obligation_id : String) → (from to : ObligationState) → LifecycleError
  transition : LifecycleViolation → LifecycleError
  publication_blocked : List PublicationBlocker → LifecycleError

pub record ProductionGraph : Type 0 where
  pub contract_version : ℕ
  pub closure : PositiveClosure
  pub histories : List (String × List StateTransition)
  pub operations : List OperationEvidence
  pub resolution_operations : List ResolutionEvidence
  pub runtime_contracts : List RuntimeContractEvidence
  pub irrelevance_proofs : List IrrelevanceProof

pub data Checked (A : Type 0) : Type 0 where
  ok : A → Checked A
  err : LifecycleError → Checked A

-- What a method that takes `&mut self` leaves behind, on an error too.
pub data Outcome : Type 0 where
  ok : ProductionGraph → Outcome
  err : LifecycleError → ProductionGraph → Outcome
  panic : Outcome

infixl 5 ◌>>=◌
abbrev pub ◌>>=◌ : Outcome → (ProductionGraph → Outcome) → Outcome
ok g >>= f = f g
err e g >>= f = err e g
panic >>= f = panic
