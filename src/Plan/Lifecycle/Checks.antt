-- ===== src/Plan/Lifecycle/Checks.antt =====
-- crates/laminaria-plan/src/obligation_lifecycle.rs: what an operation has to satisfy before it is recorded.
use laminaria_rust_nim_toolc.Plan.Lifecycle.Types.{
  OperationOutcome, ProducedFact, OperationEvidence, ResolutionEvidence, RuntimeContractEvidence,
  IrrelevanceProof, ProductionGraph, Checked, succeeded, invalid_operation_evidence,
  duplicate_operation, unknown_action, action_kind_mismatch, producer_identity_mismatch,
  action_inputs_mismatch, action_outputs_mismatch, action_dependency_not_completed,
  identity_mismatch, ok, err,
}
use laminaria_rust_nim_toolc.Prelude.{
  mem, ◌≡◌, ℕ, Bool, true, false, not, ◌&&◌, ◌||◌, String, List, [], ◌∷◌, map, Option, none, some,
  any, all, str_eq, if◌then◌else◌, ◌==◌,
}
use laminaria_rust_nim_toolc.Plan.Obligations.{
  Obligation, RequiredAction, action_kind_eq, PositiveClosure, find_action,
}

abbrev pub is_empty : String → Bool
is_empty s = str_eq s ""

abbrev pub is_succeeded : OperationOutcome → Bool
is_succeeded succeeded = true
is_succeeded outcome = false

-- `as_set(a) == as_set(b)`
abbrev pub same_set : List String → List String → Bool
same_set xs ys = all (λ x. mem x ys) xs && all (λ y. mem y xs) ys

-- What is collected into a `BTreeSet`.
unfoldable pub as_set : List String → List String
as_set [] = []
as_set (x ∷ xs) = let rest = as_set xs in if mem x rest then rest else x ∷ rest

unfoldable pub sequence_used : ProductionGraph → ℕ → Bool
sequence_used g n =
    any (λ (e : OperationEvidence). e.sequence == n) g.operations
    || any (λ (e : ResolutionEvidence). e.sequence == n) g.resolution_operations
    || any (λ (e : RuntimeContractEvidence). e.sequence == n) g.runtime_contracts
    || any (λ (e : IrrelevanceProof). e.sequence == n) g.irrelevance_proofs

unfoldable pub operation_id_used : ProductionGraph → String → Bool
operation_id_used g id =
    any (λ (e : OperationEvidence). str_eq e.operation_id id) g.operations
    || any (λ (e : ResolutionEvidence). str_eq e.operation_id id) g.resolution_operations

abbrev pub dependencies_done :
    ProductionGraph → RequiredAction → List String → Checked RequiredAction
dependencies_done g act [] = ok act
dependencies_done g act (d ∷ ds) =
    if any (λ (o : OperationEvidence). str_eq o.action_id d) g.operations
    then dependencies_done g act ds
    else err (action_dependency_not_completed act.id d)

abbrev pub check_action :
    ProductionGraph → OperationEvidence → Option RequiredAction → Checked RequiredAction
check_action g e none = err (unknown_action e.action_id)
check_action g e (some act) =
    if not (action_kind_eq act.kind e.action_kind)
    then err action_kind_mismatch
    else if not (str_eq act.toolchain e.producer_identity)
    then err producer_identity_mismatch
    else if not (same_set act.inputs e.inputs)
    then err action_inputs_mismatch
    else if not (same_set act.outputs (map (λ (o : ProducedFact). o.identity) e.outputs))
        || any (λ (o : ProducedFact). is_empty o.digest || (o.size_bytes == 0)) e.outputs
    then err action_outputs_mismatch
    else dependencies_done g act act.depends_on

unfoldable pub validate_operation : ProductionGraph → OperationEvidence → Checked RequiredAction
validate_operation g e =
    if is_empty e.operation_id
      || is_empty e.run_id
      || is_empty e.producer_identity
      || is_empty e.detail
      || not (is_succeeded e.outcome)
      || not e.structurally_verified
    then err (invalid_operation_evidence e.operation_id)
    else if operation_id_used g e.operation_id || sequence_used g e.sequence
    then err (duplicate_operation e.operation_id)
    else check_action g e (find_action e.action_id g.closure.required_actions)

-- `ProductionGraph::new`
abbrev pub identities_match : List (String × Obligation) → Option (String × String)
identities_match [] = none
identities_match ((key, o) ∷ rest) =
    if str_eq key o.id then identities_match rest else some (key, o.id)

-- A graph of version `OBLIGATION_CONTRACT_VERSION`, with nothing on record.
abbrev pub nothing_recorded : PositiveClosure → ProductionGraph
nothing_recorded closure = record {
  contract_version = 2;
  closure = closure;
  histories = [];
  operations = [];
  resolution_operations = [];
  runtime_contracts = [];
  irrelevance_proofs = [];
}

abbrev new_unless : PositiveClosure → Option (String × String) → Checked ProductionGraph
new_unless closure none = ok (nothing_recorded closure)
new_unless closure (some (key, id)) = err (identity_mismatch key id)

unfoldable pub new : PositiveClosure → Checked ProductionGraph
new closure = new_unless closure (identities_match closure.obligations)

pub new-nothing_recorded :
    (closure : PositiveClosure) (g : ProductionGraph)
    → new closure ≡ ok g
    → nothing_recorded closure ≡ g
unfolding new
new-nothing_recorded closure g = from (identities_match closure.obligations)
  where
    from :
        (o : Option (String × String)) → new_unless closure o ≡ ok g → nothing_recorded closure ≡ g
    from none h = cc
    from (some (key, id)) h = cc
