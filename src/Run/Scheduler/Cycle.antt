-- ===== src/Run/Scheduler/Cycle.antt =====
-- crates/laminaria-run/src/resource_scheduler.rs: `has_dependency_cycle`, and `ResourceScheduler::new` as a
-- whole.
use laminaria_rust_nim_toolc.Prelude.{
  ℕ, zero, suc, String, List, [], ◌∷◌, Option, none, some, keys, mem, str_eq, length, if◌then◌else◌,
}
use laminaria_rust_nim_toolc.Plan.PhysicalWork.{PhysicalWorkUnit, PhysicalWorkContract}
use laminaria_rust_nim_toolc.Run.Resources.{ResourceAmount, no_resources}
use laminaria_rust_nim_toolc.Run.Commit.{empty_store}
use laminaria_rust_nim_toolc.Run.Scheduler.Types.{
  PhysicalWorkInstance, ResourceScheduler, Outcome, Step, ◌>>=◌, ◌>>◌, return, throw,
  dependency_cycle,
}
use laminaria_rust_nim_toolc.Run.Scheduler.State.{runtime_of}
use laminaria_rust_nim_toolc.Run.Scheduler.Start.{
  add_instance, for_each, start_dependents, link_dependencies, bind_inputs, set_first_state,
}

-- `visiting` and `done`.
pub record Visits : Type 0 where
  pub visiting : List String
  pub done : List String

abbrev pub without : String → List String → List String
without id [] = []
without id (x ∷ xs) = let rest = without id xs in if str_eq x id then rest else x ∷ rest

-- The sets after a visit that met no cycle; `none` for one that did.
abbrev pub Visit : Type 0
Visit = Step (Option Visits)

abbrev pub visit_each : (String → Visits → Visit) → List String → Visits → Visit
visit_each visit [] sets = return (some sets)
visit_each visit (id ∷ ids) sets = visit id sets >>= λ after. elim after [
  | none ↦ return none
  | some sets' ↦ visit_each visit ids sets'
]

abbrev pub finish : String → Option Visits → Option Visits
finish id none = none
finish id (some sets) = some (record { visiting = without id sets.visiting; done = id ∷ sets.done })

abbrev pub enter : (String → Visits → Visit) → String → Visits → Visit
enter visit id sets = do
  runtime ← runtime_of id
  after ←
      visit_each visit runtime.definition.dependencies
        (record { visiting = id ∷ sets.visiting; done = sets.done })
  return (finish id after)

abbrev pub visit : ℕ → String → Visits → Visit
visit zero id sets s = Outcome.exhausted
visit (suc fuel) id sets s =
    (if mem id sets.done
        then return (some sets)
        else if mem id sets.visiting
        then return none
        else enter (visit fuel) id sets)
      s

-- A nested visit adds an instance to `visiting`, so as many turns as there are instances, and
-- one, are enough.
abbrev pub visit_fuel : ResourceScheduler → ℕ
visit_fuel s = suc (length s.work)

abbrev pub no_visits : Visits
no_visits = record { visiting = []; done = [] }

-- Fails where `has_dependency_cycle` holds.
abbrev pub refuse_cycle : Step Unit
refuse_cycle s =
    (visit_each (visit (visit_fuel s)) (keys s.work) no_visits >>= λ after. elim after [
      | none ↦ throw dependency_cycle
      | some sets ↦ return tt
    ])
      s

abbrev pub for_all_ids : (String → Step Unit) → Step Unit
for_all_ids body s = for_each body (keys s.work) s

abbrev pub nothing_scheduled : List PhysicalWorkUnit → ResourceAmount → ResourceScheduler
nothing_scheduled units budget = record {
  budget = budget;
  allocated = no_resources;
  units = units;
  work = [];
  dependents = [];
  store = empty_store;
  transitions = [];
  next_sequence = 0;
}

unfoldable pub new :
    PhysicalWorkContract → List PhysicalWorkInstance → ResourceAmount → Outcome Unit
new contract instances budget =
    (do
      for_each add_instance instances
      start_dependents
      for_all_ids link_dependencies
      for_all_ids bind_inputs
      refuse_cycle
      for_all_ids set_first_state)
      (nothing_scheduled contract.units budget)
