-- ===== src/Run/Samples.antt =====
-- Concrete work: a compilation and the link that needs its object, and the schedulers on the way.
use laminaria_rust_nim_toolc.Prelude.{ℕ, true, false, String, List, [], ◌∷◌}
use native.Mathlib.Bridge.{le_by_compare, IsLe}
use laminaria_rust_nim_toolc.Plan.PhysicalWork.{
  PhysicalWorkUnit, PhysicalWorkContract, logical, a10_code_generation, a12_final_link,
  rust_object_compilation, native_executable_link, native_object, linked_artifact, lowered_module,
  external_authority, produced_by, matching_identities, codegen, link, backend_bytes,
  staged_artifact, final_artifact, content_addressed_artifact, artifact_publication_handoff,
  final_artifact_publication_handoff, declares_identity_dependencies_and_grouping,
  computes_stages_and_commits,
}
use laminaria_rust_nim_toolc.Run.Resources.{ResourceAmount, IsAmount, cpu, memory, io, external}
use laminaria_rust_nim_toolc.Run.Scheduler.Types.{
  PhysicalWorkInstance, ResourceScheduler, Outcome, disabled,
}

-- A digest that tells the empty sequence from the others.
abbrev pub sample_digest : List ℕ → String
sample_digest [] = "empty"
sample_digest (byte ∷ bytes) = "bytes"

abbrev pub code_unit : PhysicalWorkUnit
code_unit = record {
  id = logical a10_code_generation;
  execution_group = rust_object_compilation;
  inputs = record { kind = lowered_module; source = external_authority; optional = false } ∷ [];
  outputs = native_object ∷ [];
  ready = record { scope = matching_identities; requires_successful_commit = true };
  resources = record {
    minimum_cpu_slots = 1;
    compute = codegen;
    memory = backend_bytes;
    external_process_slots = 0;
  };
  side_effect = staged_artifact;
  idempotency = content_addressed_artifact;
  commit_boundary = artifact_publication_handoff;
  ownership = record {
    planner = declares_identity_dependencies_and_grouping;
    executor = computes_stages_and_commits;
  };
  terminal_outputs = [];
}

abbrev pub link_unit : PhysicalWorkUnit
link_unit = record {
  id = logical a12_final_link;
  execution_group = native_executable_link;
  inputs =
      record {
        kind = native_object;
        source = produced_by (logical a10_code_generation);
        optional = false;
      }
      ∷ [];
  outputs = linked_artifact ∷ [];
  ready = record { scope = matching_identities; requires_successful_commit = true };
  resources = record {
    minimum_cpu_slots = 1;
    compute = link;
    memory = backend_bytes;
    external_process_slots = 1;
  };
  side_effect = final_artifact;
  idempotency = content_addressed_artifact;
  commit_boundary = final_artifact_publication_handoff;
  ownership = record {
    planner = declares_identity_dependencies_and_grouping;
    executor = computes_stages_and_commits;
  };
  terminal_outputs = linked_artifact ∷ [];
}

abbrev pub sample_contract : PhysicalWorkContract
sample_contract = record { contract_version = 1; units = code_unit ∷ link_unit ∷ [] }

abbrev pub code_work : PhysicalWorkInstance
code_work = record {
  instance_id = "code";
  work_unit = logical a10_code_generation;
  execution_group = rust_object_compilation;
  dependencies = [];
  reservation = record {
    cpu_slots = 2;
    memory_bytes = 64;
    io_slots = 0;
    external_process_slots = 0;
  };
  nested_parallelism = disabled;
}

abbrev pub link_work : PhysicalWorkInstance
link_work = record {
  instance_id = "link";
  work_unit = logical a12_final_link;
  execution_group = native_executable_link;
  dependencies = "code" ∷ [];
  reservation = record {
    cpu_slots = 1;
    memory_bytes = 32;
    io_slots = 1;
    external_process_slots = 1;
  };
  nested_parallelism = disabled;
}

abbrev pub sample_budget : ResourceAmount
sample_budget = record {
  cpu_slots = 2;
  memory_bytes = 128;
  io_slots = 1;
  external_process_slots = 1;
}

pub sample_budget-IsAmount : IsAmount sample_budget
unfolding IsLe
sample_budget-IsAmount cpu = le_by_compare 3 0x100000000 tt
sample_budget-IsAmount memory = le_by_compare 129 0x10000000000000000 tt
sample_budget-IsAmount io = le_by_compare 2 0x100000000 tt
sample_budget-IsAmount external = le_by_compare 2 0x100000000 tt

-- The scheduler in a value.
abbrev pub left_by : {A : Type 0} → ResourceScheduler → Outcome A → ResourceScheduler
left_by other (Outcome.ok a s) = s
left_by other (Outcome.err e s) = s
left_by other Outcome.panic = other
left_by other Outcome.exhausted = other
