-- ===== src/Run/Scheduler/State.antt =====
-- crates/laminaria-run/src/resource_scheduler.rs: reading and changing the state of an instance. A missing
-- key under `[..]` or `unwrap` is a panic, and so is a `debug_assert!` that fails.
use laminaria_rust_nim_toolc.Prelude.{
  ◌+◌, ◌%◌, Bool, String, List, [], ◌∷◌, ◌++◌, Option, none, some, any, lookup, replace, str_eq,
  if◌then◌else◌,
}
use laminaria_rust_nim_toolc.Plan.PhysicalWork.{WorkUnitId, unit_id_eq, PhysicalWorkUnit}
use laminaria_rust_nim_toolc.Run.Resources.{checked_sub, u64_limit}
use laminaria_rust_nim_toolc.Run.Scheduler.Types.{
  LifecycleState, WaitReason, TransitionReason, LifecycleTransition, SchedulerContractError,
  RuntimeWork, ResourceScheduler, Outcome, Step, ◌>>=◌, return, ok_or, unwrap, completed, state_eq,
  unknown_instance, invalid_transition, resource_accounting_overflow,
}

-- `units[&id]`
unfoldable pub find_unit : WorkUnitId → List PhysicalWorkUnit → Option PhysicalWorkUnit
find_unit id [] = none
find_unit id (unit ∷ units) = elim (find_unit id units) [
  | some later ↦ some later
  | none ↦ if unit_id_eq unit.id id then some unit else none
]

-- `self.work[id]`
abbrev pub runtime_of : String → Step RuntimeWork
runtime_of id s = unwrap (lookup id s.work) s

-- `self.dependents[id]`
abbrev pub dependents_of : String → Step (List String)
dependents_of id s = unwrap (lookup id s.dependents) s

abbrev pub unit_of : WorkUnitId → Step PhysicalWorkUnit
unit_of id s = unwrap (find_unit id s.units) s

abbrev pub state : ResourceScheduler → String → Option LifecycleState
state s id = elim (lookup id s.work) [ none ↦ none | some runtime ↦ some runtime.state ]

abbrev pub known_state : String → Step LifecycleState
known_state id s = ok_or (state s id) (unknown_instance id) s

abbrev pub require : Bool → SchedulerContractError → Step Unit
require test e s = if test then Outcome.ok tt s else Outcome.err e s

abbrev pub require_state : String → LifecycleState → String → Step Unit
require_state id expected operation = do
  actual ← known_state id
  require (state_eq actual expected) (invalid_transition id actual operation)

abbrev pub release : String → Step Unit
release id = do
  runtime ← runtime_of id
  λ s.
      (ok_or (checked_sub s.allocated runtime.definition.reservation) resource_accounting_overflow
          >>= λ left s'. Outcome.ok tt (record s' { allocated = left }))
        s

-- Whether an instance has a recorded transition, and so a state that counts as its last.
abbrev pub has_transition : String → List LifecycleTransition → Bool
has_transition id transitions = any (λ event. str_eq event.instance_id id) transitions

abbrev pub moved : LifecycleState → Option WaitReason → RuntimeWork → RuntimeWork
moved to wait runtime = record runtime { state = to; wait_reason = wait }

abbrev pub event :
    ResourceScheduler
    → String
    → LifecycleState
    → LifecycleState
    → TransitionReason
    → LifecycleTransition
event s id old to reason = record {
  sequence = s.next_sequence;
  instance_id = id;
  from = if has_transition id s.transitions then some old else none;
  to = to;
  reason = reason;
}

abbrev pub record_state :
    ResourceScheduler
    → String
    → RuntimeWork
    → LifecycleState
    → Option WaitReason
    → TransitionReason
    → ResourceScheduler
record_state s id runtime to wait reason = record s {
  work = replace id (moved to wait runtime) s.work;
  next_sequence = (s.next_sequence + 1) % u64_limit;
  transitions = s.transitions ++ event s id runtime.state to reason ∷ [];
}

unfoldable pub set_state :
    String → LifecycleState → Option WaitReason → TransitionReason → Step Unit
set_state id to wait reason s = elim (lookup id s.work) [
  | none ↦ Outcome.panic
  | some runtime ↦ Outcome.ok tt (record_state s id runtime to wait reason)
]

-- The dependencies that are not yet completed, in order.
abbrev pub pending_among : List String → Step (List String)
pending_among [] = return []
pending_among (dependency ∷ rest) = do
  producer ← runtime_of dependency
  pending ← pending_among rest
  return (if state_eq producer.state completed then pending else dependency ∷ pending)

abbrev pub pending_dependencies : String → Step (List String)
pending_dependencies id = do runtime ← runtime_of id; pending_among runtime.definition.dependencies
