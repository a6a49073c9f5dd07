-- ===== src/Run/Scheduler/Types.antt =====
-- crates/laminaria-run/src/resource_scheduler.rs: instances, their lifecycle, errors, the scheduler's state.
use laminaria_rust_nim_toolc.Prelude.{ℕ, Bool, ◌||◌, String, List, Option, none, some, ◌==◌}
use laminaria_rust_nim_toolc.Plan.PhysicalWork.{
  DataKind, ExecutionGroup, WorkUnitId, PhysicalWorkUnit,
}
use laminaria_rust_nim_toolc.Run.Resources.{ResourceAmount, ResourceDeficit}
use laminaria_rust_nim_toolc.Run.Commit.{CommitStore, CommitStoreError}

pub data NestedParallelism : Type 0 where
  disabled : NestedParallelism
  accounted : (additional_cpu_slots : ℕ) → NestedParallelism

pub record PhysicalWorkInstance : Type 0 where
  pub instance_id : String
  pub work_unit : WorkUnitId
  pub execution_group : ExecutionGroup
  pub dependencies : List String
  pub reservation : ResourceAmount
  pub nested_parallelism : NestedParallelism

pub data LifecycleState : Type 0 where
  ready running blocked committing completed failed cancelled : LifecycleState

abbrev pub state_number : LifecycleState → ℕ
state_number ready = 0
state_number running = 1
state_number blocked = 2
state_number committing = 3
state_number completed = 4
state_number failed = 5
state_number cancelled = 6

abbrev pub state_eq : LifecycleState → LifecycleState → Bool
state_eq a b = state_number a == state_number b

abbrev pub is_terminal : LifecycleState → Bool
is_terminal s = state_eq s completed || state_eq s failed || state_eq s cancelled

abbrev pub owns_resources : LifecycleState → Bool
owns_resources s = state_eq s running || state_eq s committing

pub data WaitReason : Type 0 where
  dependencies : (pending : List String) → WaitReason
  resources : (deficit : ResourceDeficit) → WaitReason

pub data TransitionReason : Type 0 where
  dependencies_satisfied resources_available admitted computation_finished commit_succeeded :
      TransitionReason
  execution_failed explicit_cancellation : (detail : String) → TransitionReason
  producer_failed : (producer : String) → TransitionReason
  upstream_cancelled : (upstream : String) → TransitionReason
  waiting : WaitReason → TransitionReason

pub record LifecycleTransition : Type 0 where
  pub sequence : ℕ
  pub instance_id : String
  pub from : Option LifecycleState
  pub to : LifecycleState
  pub reason : TransitionReason

pub data SchedulerContractError : Type 0 where
  duplicate_instance : (instance_id : String) → SchedulerContractError
  unknown_work_unit : (instance_id : String) (work_unit : WorkUnitId) → SchedulerContractError
  unknown_dependency : (instance_id dependency : String) → SchedulerContractError
  invalid_execution_group :
      (instance_id : String) (expected actual : ExecutionGroup) → SchedulerContractError
  invalid_dependency_output_kind : (instance_id dependency : String) → SchedulerContractError
  missing_input_dependency : (instance_id : String) (kind : DataKind) → SchedulerContractError
  dependency_cycle : SchedulerContractError
  zero_cpu_reservation zero_memory_reservation nested_parallelism_exceeds_cpu_reservation
        external_process_without_io_reservation reservation_below_work_unit_minimum
        reservation_exceeds_budget :
      (instance_id : String) → SchedulerContractError
  resource_accounting_overflow : SchedulerContractError
  commit_store : CommitStoreError → SchedulerContractError
  unknown_instance : (instance_id : String) → SchedulerContractError
  invalid_transition :
      (instance_id : String) (from : LifecycleState) (operation : String) → SchedulerContractError

pub record RuntimeWork : Type 0 where
  pub definition : PhysicalWorkInstance
  pub dependency_output_kinds : List (String × List DataKind)
  pub state : LifecycleState
  pub wait_reason : Option WaitReason

-- `units` lists the contract's units. A lookup takes the last with the id, as the map built from
-- the list does.
pub record ResourceScheduler : Type 0 where
  pub budget : ResourceAmount
  pub allocated : ResourceAmount
  pub units : List PhysicalWorkUnit
  pub work : List (String × RuntimeWork)
  pub dependents : List (String × List String)
  pub store : CommitStore
  pub transitions : List LifecycleTransition
  pub next_sequence : ℕ

-- What a call ends in: a value or an error, each with the scheduler left behind, a panic, or, for a
-- loop on fuel, no fuel left.
pub data Outcome (A : Type 0) : Type 0 where
  ok : A → ResourceScheduler → Outcome A
  err : SchedulerContractError → ResourceScheduler → Outcome A
  panic exhausted : Outcome A

abbrev pub Step : Type 0 → Type 0
Step A = ResourceScheduler → Outcome A

infixl 5 ◌>>=◌
abbrev pub ◌>>=◌ : {A B : Type 0} → Step A → (A → Step B) → Step B
(m >>= k) s = elim (m s) [
  | ok a s' ↦ k a s'
  | err e s' ↦ err e s'
  | panic ↦ panic
  | exhausted ↦ exhausted
]

infixl 5 ◌>>◌
abbrev pub ◌>>◌ : {A B : Type 0} → Step A → Step B → Step B
m >> k = m >>= λ _. k

abbrev pub return : {A : Type 0} → A → Step A
return a s = ok a s

abbrev pub throw : {A : Type 0} → SchedulerContractError → Step A
throw e s = err e s

-- `ok_or(error)`
abbrev pub ok_or : {A : Type 0} → Option A → SchedulerContractError → Step A
ok_or none e s = err e s
ok_or (some a) e s = ok a s

-- `unwrap`, and the indexing of a map.
abbrev pub unwrap : {A : Type 0} → Option A → Step A
unwrap none s = panic
unwrap (some a) s = ok a s
