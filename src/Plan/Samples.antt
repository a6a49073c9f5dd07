-- ===== src/Plan/Samples.antt =====
-- A closure with one demand and the final link that it depends on.
use laminaria_rust_nim_toolc.Prelude.{true, [], ◌∷◌, none, some}
use laminaria_rust_nim_toolc.Plan.Obligations.{
  cross, native_executable_demand, final_link, selected, satisfied, target, Obligation,
  link_native_executable, PositiveClosure,
}
use laminaria_rust_nim_toolc.Plan.Lifecycle.Types.{
  ProducedFact, OperationEvidence, ResolutionEvidence, RuntimeContractEvidence, ProductionGraph,
  Outcome, ok, err, panic, succeeded,
}
use laminaria_rust_nim_toolc.Plan.Lifecycle.Checks.{nothing_recorded}

abbrev demand : Obligation
demand = record {
  id = "d";
  kind = native_executable_demand;
  ecosystem = cross;
  role = target;
  depends_on = "l" ∷ [];
  state = selected;
  discharge_kind = none;
  required_action = none;
  rejection = none;
  evidence = none;
}

abbrev link : Obligation
link = record {
  id = "l";
  kind = final_link;
  ecosystem = cross;
  role = target;
  depends_on = [];
  state = satisfied;
  discharge_kind = none;
  required_action = some "link";
  rejection = none;
  evidence = none;
}

abbrev pub closure : PositiveClosure
closure = record {
  obligations = ("d", demand) ∷ ("l", link) ∷ [];
  required_actions =
      record {
        id = "link";
        kind = link_native_executable;
        target_triple = "t";
        role = target;
        toolchain = "ld";
        inputs = "o" ∷ [];
        outputs = "exe" ∷ [];
        discharges = "l" ∷ [];
        depends_on = [];
      }
      ∷ [];
  rejected_alternatives = [];
}

abbrev pub resolved : ResolutionEvidence
resolved = record {
  operation_id = "r";
  run_id = "run";
  producer_identity = "resolver";
  sequence = 1;
  input_identities = [];
  resolved_obligations = "d" ∷ "l" ∷ [];
  outcome = succeeded;
  structurally_verified = true;
}

abbrev pub executable : ProducedFact
executable = record { identity = "exe"; digest = "sha"; size_bytes = 1 }

abbrev pub linked : OperationEvidence
linked = record {
  operation_id = "op";
  action_id = "link";
  action_kind = link_native_executable;
  run_id = "run";
  producer_identity = "ld";
  sequence = 2;
  inputs = "o" ∷ [];
  outputs = executable ∷ [];
  outcome = succeeded;
  structurally_verified = true;
  detail = "linked";
}

abbrev pub contract : RuntimeContractEvidence
contract = record {
  contract_id = "c";
  operation_id = "op";
  run_id = "run";
  producer_identity = "ld";
  sequence = 3;
  target_triple = "t";
  loader_requirement = "loader";
  required_providers = [];
  version_requirement = "v";
  verification = "checked";
}

-- What an accepted call leaves behind.
abbrev pub after : Outcome → ProductionGraph
after (ok g) = g
after (err e g) = g
after panic = nothing_recorded closure
