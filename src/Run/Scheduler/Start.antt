-- ===== src/Run/Scheduler/Start.antt =====
-- crates/laminaria-run/src/resource_scheduler.rs: `ResourceScheduler::new`. The locals `work` and `dependents`
-- are those fields of the scheduler under construction, which an error drops.
use laminaria_rust_nim_toolc.Prelude.{
  ℕ, ◌+◌, ◌-◌, Bool, true, false, not, ◌&&◌, ◌||◌, String, List, [], ◌∷◌, Option, none, some,
  lookup, insert, replace, keys, mem, set_insert, if◌then◌else◌, ◌==◌, ltb,
}
use laminaria_rust_nim_toolc.Plan.PhysicalWork.{
  DataKind, WorkUnitId, unit_id_eq, group_eq, InputSource, external_authority, produced_by,
  produced_by_either, WorkInput, PhysicalWorkUnit,
}
use laminaria_rust_nim_toolc.Run.Resources.{ResourceAmount, fits_within, u32_limit}
use laminaria_rust_nim_toolc.Run.Commit.{declares}
use laminaria_rust_nim_toolc.Run.Scheduler.Types.{
  NestedParallelism, disabled, accounted, PhysicalWorkInstance, SchedulerContractError, RuntimeWork,
  ResourceScheduler, Outcome, Step, ◌>>=◌, ◌>>◌, return, throw, ready, blocked, dependencies,
  dependencies_satisfied, waiting, duplicate_instance, unknown_work_unit, unknown_dependency,
  invalid_execution_group, invalid_dependency_output_kind, missing_input_dependency,
  zero_cpu_reservation, zero_memory_reservation, nested_parallelism_exceeds_cpu_reservation,
  external_process_without_io_reservation, reservation_below_work_unit_minimum,
  reservation_exceeds_budget,
}
use laminaria_rust_nim_toolc.Run.Scheduler.State.{
  find_unit, runtime_of, unit_of, set_state, pending_dependencies,
}

abbrev pub nested_cpu_slots : NestedParallelism → ℕ
nested_cpu_slots disabled = 0
nested_cpu_slots (accounted additional) = additional

-- `1_u32.saturating_add(n)`
abbrev pub saturating_succ : ℕ → ℕ
saturating_succ n = if ltb (1 + n) u32_limit then 1 + n else u32_limit - 1

-- The checks of an instance against its unit and the budget: the first that fails.
unfoldable pub check_reservation :
    PhysicalWorkUnit → ResourceAmount → PhysicalWorkInstance → Option SchedulerContractError
check_reservation unit budget i =
    if not (group_eq i.execution_group unit.execution_group)
    then some (invalid_execution_group i.instance_id unit.execution_group i.execution_group)
    else if i.reservation.cpu_slots == 0
    then some (zero_cpu_reservation i.instance_id)
    else if i.reservation.memory_bytes == 0
    then some (zero_memory_reservation i.instance_id)
    else if ltb i.reservation.cpu_slots (saturating_succ (nested_cpu_slots i.nested_parallelism))
    then some (nested_parallelism_exceeds_cpu_reservation i.instance_id)
    else if ltb 0 i.reservation.external_process_slots && i.reservation.io_slots == 0
    then some (external_process_without_io_reservation i.instance_id)
    else if ltb i.reservation.cpu_slots unit.resources.minimum_cpu_slots
        || ltb i.reservation.external_process_slots unit.resources.external_process_slots
    then some (reservation_below_work_unit_minimum i.instance_id)
    else if not (fits_within i.reservation budget)
    then some (reservation_exceeds_budget i.instance_id)
    else none

abbrev pub check_instance : ResourceScheduler → PhysicalWorkInstance → Option SchedulerContractError
check_instance s i =
    if mem i.instance_id (keys s.work)
    then some (duplicate_instance i.instance_id)
    else elim (find_unit i.work_unit s.units) [
      | none ↦ some (unknown_work_unit i.instance_id i.work_unit)
      | some unit ↦ check_reservation unit s.budget i
    ]

abbrev pub fresh : PhysicalWorkInstance → RuntimeWork
fresh i = record {
  definition = i;
  dependency_output_kinds = [];
  state = blocked;
  wait_reason = none;
}

abbrev pub add_instance : PhysicalWorkInstance → Step Unit
add_instance i s = elim (check_instance s i) [
  | some e ↦ Outcome.err e s
  | none ↦ Outcome.ok tt (record s { work = insert i.instance_id (fresh i) s.work })
]

-- A step for each element in turn.
abbrev pub for_each : {A : Type 0} → (A → Step Unit) → List A → Step Unit
for_each body [] = return tt
for_each body (x ∷ xs) = body x >> for_each body xs

abbrev pub no_dependents : List String → List (String × List String)
no_dependents [] = []
no_dependents (id ∷ ids) = (id, []) ∷ no_dependents ids

abbrev pub start_dependents : Step Unit
start_dependents s = Outcome.ok tt (record s { dependents = no_dependents (keys s.work) })

abbrev pub link : String → String → Step Unit
link id dependency s = elim (lookup dependency s.dependents) [
  | none ↦ Outcome.err (unknown_dependency id dependency) s
  | some consumers ↦
      Outcome.ok tt
        (record s { dependents = replace dependency (set_insert id consumers) s.dependents })
]

abbrev pub link_dependencies : String → Step Unit
link_dependencies id = do
  runtime ← runtime_of id
  for_each (link id) runtime.definition.dependencies

abbrev pub input_source_accepts : InputSource → WorkUnitId → Bool
input_source_accepts external_authority producer = false
input_source_accepts (produced_by expected) producer = unit_id_eq expected producer
input_source_accepts (produced_by_either first second) producer =
    unit_id_eq first producer || unit_id_eq second producer

-- A set of kinds, of which only membership and emptiness matter.
abbrev pub supplied_kinds : List WorkInput → WorkUnitId → List DataKind → List DataKind
supplied_kinds [] producer outputs = []
supplied_kinds (input ∷ inputs) producer outputs =
    let rest = supplied_kinds inputs producer outputs in
    if input_source_accepts input.source producer && declares input.kind outputs
    then input.kind ∷ rest
    else rest

abbrev pub nonempty : SchedulerContractError → List DataKind → Step Unit
nonempty e [] = throw e
nonempty e (kind ∷ kinds) = return tt

abbrev pub bind_all : String → PhysicalWorkUnit → List String → Step (List (String × List DataKind))
bind_all id consumer [] = return []
bind_all id consumer (dependency ∷ rest) = do
  producer_work ← runtime_of dependency
  producer ← unit_of producer_work.definition.work_unit
  let kinds = supplied_kinds consumer.inputs producer_work.definition.work_unit producer.outputs
  nonempty (invalid_dependency_output_kind id dependency) kinds
  bindings ← bind_all id consumer rest
  return (insert dependency kinds bindings)

abbrev pub is_supplied : WorkInput → List (String × List DataKind) → Step Bool
is_supplied input [] = return false
is_supplied input ((dependency, kinds) ∷ rest) = do
  producer ← runtime_of dependency
  if declares input.kind kinds && input_source_accepts input.source producer.definition.work_unit
      then return true
      else is_supplied input rest

abbrev pub is_external : InputSource → Bool
is_external external_authority = true
is_external source = false

abbrev pub check_supplied : String → WorkInput → Bool → Step Unit
check_supplied id input supplied =
    if supplied then return tt else throw (missing_input_dependency id input.kind)

abbrev pub check_input : String → List (String × List DataKind) → WorkInput → Step Unit
check_input id bindings input =
    if input.optional || is_external input.source
    then return tt
    else (is_supplied input bindings >>= check_supplied id input)

abbrev pub put_bindings : String → List (String × List DataKind) → Step Unit
put_bindings id bindings = do
  runtime ← runtime_of id
  λ s. Outcome.ok tt (record s {
    work = replace id (record runtime { dependency_output_kinds = bindings }) s.work;
  })

abbrev pub bind_inputs : String → Step Unit
bind_inputs id = do
  runtime ← runtime_of id
  consumer ← unit_of runtime.definition.work_unit
  bindings ← bind_all id consumer runtime.definition.dependencies
  for_each (check_input id bindings) consumer.inputs
  put_bindings id bindings

abbrev pub first_state : String → List String → Step Unit
first_state id [] = set_state id ready none dependencies_satisfied
first_state id (pending ∷ rest) =
    let reason = dependencies (pending ∷ rest) in
    set_state id blocked (some reason) (waiting reason)

abbrev pub set_first_state : String → Step Unit
set_first_state id = pending_dependencies id >>= first_state id
