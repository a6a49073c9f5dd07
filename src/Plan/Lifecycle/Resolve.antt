-- ===== src/Plan/Lifecycle/Resolve.antt =====
-- crates/laminaria-plan/src/obligation_lifecycle.rs: `record_resolution`.
use laminaria_rust_nim_toolc.Plan.Lifecycle.Types.{
  ResolutionEvidence, LifecycleError, ProductionGraph, Outcome, resolution, invalid_transition,
  invalid_resolution_evidence, duplicate_operation, ok, err, panic, ◌>>=◌,
}
use laminaria_rust_nim_toolc.Plan.Lifecycle.Checks.{
  is_empty, is_succeeded, as_set, sequence_used, operation_id_used,
}
use laminaria_rust_nim_toolc.Plan.Lifecycle.History.{append_transition}
use Prim.Native.String.{◌++◌ as append}
use laminaria_rust_nim_toolc.Prelude.{
  Bool, true, false, not, ◌&&◌, ◌||◌, String, List, [], ◌∷◌, ◌++◌, Option, none, some, lookup,
  if◌then◌else◌, ◌==◌, length,
}
use laminaria_rust_nim_toolc.Plan.Obligations.{
  ObligationKind, unresolved, discharged, is_g2_dischargeable, DischargeKind, specialized, lowered,
  Obligation, put_obligation,
}

-- The obligations that resolution itself closes.
abbrev pub is_resolver_owned : ObligationKind → Bool
is_resolver_owned ObligationKind.native_executable_demand = true
is_resolver_owned ObligationKind.package_selection = true
is_resolver_owned ObligationKind.source_module = true
is_resolver_owned ObligationKind.semantic_ffi = true
is_resolver_owned ObligationKind.lowering = true
is_resolver_owned ObligationKind.abi_target = true
is_resolver_owned ObligationKind.symbol = true
is_resolver_owned kind = false

abbrev pub is_none : Option String → Bool
is_none none = true
is_none (some x) = false

-- The first reason for which the listed obligations cannot be resolved.
abbrev pub check_resolvable : List (String × Obligation) → List String → Option LifecycleError
check_resolvable obligations [] = none
check_resolvable obligations (id ∷ ids) = elim (lookup id obligations) [
  | none ↦ some (invalid_resolution_evidence id)
  | some o ↦
      if not (is_g2_dischargeable o.state)
        || (is_none o.required_action && not (is_resolver_owned o.kind))
      then some (invalid_transition id o.state discharged)
      else check_resolvable obligations ids
]

abbrev pub resolved_kind : ObligationKind → DischargeKind
resolved_kind ObligationKind.lowering = lowered
resolved_kind kind = specialized

abbrev pub resolve_obligation : String → Obligation → Obligation
resolve_obligation operation_id o = record o {
  state = discharged;
  discharge_kind = some (resolved_kind o.kind);
  evidence = some (append "resolution operation " operation_id);
}

-- One turn of the second loop of `record_resolution`.
abbrev pub resolve_found :
    ResolutionEvidence → ProductionGraph → String → Obligation → Option String → Outcome
resolve_found e g id o (some act) =
    append_transition g id e.sequence unresolved o.state (resolution e.operation_id)
resolve_found e g id o none =
    append_transition
      (record g { closure = put_obligation id (resolve_obligation e.operation_id o) g.closure }) id
      e.sequence unresolved discharged (resolution e.operation_id)

abbrev pub resolve_one : ResolutionEvidence → ProductionGraph → String → Option Obligation → Outcome
resolve_one e g id none = panic
resolve_one e g id (some o) = resolve_found e g id o o.required_action

abbrev pub resolve_all : ResolutionEvidence → List String → ProductionGraph → Outcome
resolve_all e [] g = ok g
resolve_all e (id ∷ ids) g =
    resolve_one e g id (lookup id g.closure.obligations) >>= resolve_all e ids

abbrev pub push_resolution : ResolutionEvidence → ProductionGraph → ProductionGraph
push_resolution e g = record g { resolution_operations = g.resolution_operations ++ e ∷ [] }

abbrev pub resolve_checked : ResolutionEvidence → ProductionGraph → Option LifecycleError → Outcome
resolve_checked e g (some x) = err x g
resolve_checked e g none =
    resolve_all e e.resolved_obligations g >>= λ g'. ok (push_resolution e g')

abbrev pub is_unfounded : ResolutionEvidence → Bool
is_unfounded e =
    is_empty e.operation_id
    || is_empty e.run_id
    || is_empty e.producer_identity
    || not (is_succeeded e.outcome)
    || not e.structurally_verified
    || (length e.resolved_obligations == 0)

-- An obligation that is listed twice is refused before any is looked at.
abbrev pub resolve_distinct : ProductionGraph → ResolutionEvidence → Outcome
resolve_distinct g e =
    if not (length (as_set e.resolved_obligations) == length e.resolved_obligations)
    then err (invalid_resolution_evidence e.operation_id) g
    else resolve_checked e g (check_resolvable g.closure.obligations e.resolved_obligations)

abbrev pub resolve_new : ProductionGraph → ResolutionEvidence → Outcome
resolve_new g e =
    if operation_id_used g e.operation_id || sequence_used g e.sequence
    then err (duplicate_operation e.operation_id) g
    else resolve_distinct g e

unfoldable pub record_resolution : ProductionGraph → ResolutionEvidence → Outcome
record_resolution g e =
    if is_unfounded e then err (invalid_resolution_evidence e.operation_id) g else resolve_new g e
