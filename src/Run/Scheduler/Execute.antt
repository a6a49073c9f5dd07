-- ===== src/Run/Scheduler/Execute.antt =====
-- crates/laminaria-run/src/resource_scheduler.rs: what a scheduler shows, and `execute_physical_work_graph`. The
-- callback may keep a state of its own, of type `C`.
use laminaria_rust_nim_toolc.Prelude.{
  ℕ, zero, suc, Bool, false, not, ◌&&◌, ◌||◌, String, List, [], ◌∷◌, ◌++◌, Option, none, some,
  lookup, mem, set_insert, length, if◌then◌else◌, ◌==◌,
}
use laminaria_rust_nim_toolc.Plan.PhysicalWork.{DataKind, PhysicalWorkContract}
use laminaria_rust_nim_toolc.Run.Resources.{ResourceAmount}
use laminaria_rust_nim_toolc.Run.Commit.{
  CommitWrite, CommitTarget, CommittedOutput, visible, has_staging, outputs_for_writer, declares,
}
use laminaria_rust_nim_toolc.Run.Scheduler.Types.{
  PhysicalWorkInstance, LifecycleState, LifecycleTransition, WaitReason, RuntimeWork,
  ResourceScheduler, Outcome, Step, ◌>>=◌, ◌>>◌, return, ok_or, unwrap, completed, failed,
  cancelled, state_eq, is_terminal, unknown_instance,
}
use laminaria_rust_nim_toolc.Run.Scheduler.State.{runtime_of, unit_of, find_unit}
use laminaria_rust_nim_toolc.Run.Scheduler.Admit.{admit_ready}
use laminaria_rust_nim_toolc.Run.Scheduler.Operations.{stage_outputs, commit, fail}
use laminaria_rust_nim_toolc.Run.Scheduler.Cycle.{new}

abbrev pub wait_reason : ResourceScheduler → String → Option WaitReason
wait_reason s id = elim (lookup id s.work) [ none ↦ none | some runtime ↦ runtime.wait_reason ]

abbrev pub visible_output : ResourceScheduler → CommitTarget → Option CommittedOutput
visible_output s target = visible s.store target

abbrev pub has_staged_output : ResourceScheduler → String → Bool
has_staged_output s id = has_staging s.store id

abbrev pub declared_outputs : String → Step (List DataKind)
declared_outputs id s =
    (do
      runtime ← ok_or (lookup id s.work) (unknown_instance id)
      unit ← unit_of runtime.definition.work_unit
      return unit.outputs)
      s

abbrev pub with_kind : List DataKind → List CommittedOutput → List CommittedOutput
with_kind kinds [] = []
with_kind kinds (output ∷ outputs) =
    let rest = with_kind kinds outputs in
    if declares output.target.output_kind kinds then output ∷ rest else rest

abbrev pub outputs_of : RuntimeWork → List String → Step (List CommittedOutput)
outputs_of runtime [] = return []
outputs_of runtime (dependency ∷ dependencies) = do
  kinds ← unwrap (lookup dependency runtime.dependency_output_kinds)
  rest ← outputs_of runtime dependencies
  λ s. Outcome.ok (with_kind kinds (outputs_for_writer s.store dependency) ++ rest) s

abbrev pub dependency_outputs : String → Step (List CommittedOutput)
dependency_outputs id s =
    (do
      runtime ← ok_or (lookup id s.work) (unknown_instance id)
      outputs_of runtime runtime.definition.dependencies)
      s

-- What the callback returns: the writes, or the detail of a failure.
pub data Computed : Type 0 where
  writes : List CommitWrite → Computed
  failure : (detail : String) → Computed

pub record PhysicalWorkExecutionReport : Type 0 where
  pub transitions : List LifecycleTransition
  pub states : List (String × LifecycleState)
  pub executed : List String
  pub completed : List String
  pub reusable : List String
  pub invalid : List String
  pub rerun : List String
  pub never_started : List String
  pub committed_outputs : List (CommitTarget × CommittedOutput)

-- `stalled` is the error of that name, in the `Ok` of the scheduler's own errors.
pub data Execution (A : Type 0) : Type 0 where
  finished : A → Execution A
  stalled : (states : List (String × LifecycleState)) → Execution A

abbrev pub states_of : List (String × RuntimeWork) → List (String × LifecycleState)
states_of [] = []
states_of ((id, runtime) ∷ rest) = (id, runtime.state) ∷ states_of rest

abbrev pub unfinished : List (String × RuntimeWork) → Bool
unfinished [] = false
unfinished ((id, runtime) ∷ rest) = not (is_terminal runtime.state) || unfinished rest

module _ (sha256_bytes : List ℕ → String) {C : Type 0}
    (compute : PhysicalWorkInstance → List CommittedOutput → C → Computed × C) where
  abbrev pub settle_computed : String → Computed × C → Step C
  settle_computed id (writes batch, c) = do stage_outputs sha256_bytes id batch; commit id; return c
  settle_computed id (failure detail, c) = do fail id detail; return c

  abbrev pub execute_one : String → C → Step C
  execute_one id c = do
    runtime ← runtime_of id
    inputs ← dependency_outputs id
    settle_computed id (compute runtime.definition inputs c)

  abbrev pub execute_all : List String → C → Step C
  execute_all [] c = return c
  execute_all (id ∷ ids) c = execute_one id c >>= execute_all ids

  abbrev pub insert_all : List String → List String → List String
  insert_all [] set = set
  insert_all (id ∷ ids) set = insert_all ids (set_insert id set)

  -- The `while` loop, with the set of the executed instances.
  abbrev pub execute_loop : ℕ → List String → C → Step (Execution (List String))
  execute_loop zero executed c s = Outcome.exhausted
  execute_loop (suc fuel) executed c s =
      let again = λ (admitted : List String).
        execute_all admitted c >>= execute_loop fuel (insert_all admitted executed) in
      if not (unfinished s.work)
      then Outcome.ok (finished executed) s
      else (admit_ready >>= λ admitted. elim admitted [
        | [] ↦ λ s'. Outcome.ok (stalled (states_of s'.work)) s'
        | id ∷ ids ↦ again (id ∷ ids)
      ])
          s

abbrev pub ids_where :
    (String → LifecycleState → Bool) → List (String × LifecycleState) → List String
ids_where test [] = []
ids_where test ((id, state) ∷ rest) =
    let later = ids_where test rest in if test id state then id ∷ later else later

-- As many outputs are committed as the unit declares. The indexing cannot fail for an id of `work`.
abbrev pub is_reusable : ResourceScheduler → String → LifecycleState → Bool
is_reusable s id state = state_eq state completed && elim (lookup id s.work) [
  | none ↦ false
  | some runtime ↦ elim (find_unit runtime.definition.work_unit s.units) [
    | none ↦ false
    | some unit ↦ length (outputs_for_writer s.store id) == length unit.outputs
  ]
]

abbrev pub report : ResourceScheduler → List String → PhysicalWorkExecutionReport
report s executed =
    let states = states_of s.work in
    record {
      transitions = s.transitions;
      states = states;
      executed = executed;
      completed = ids_where (λ id state. state_eq state completed) states;
      reusable = ids_where (is_reusable s) states;
      invalid = ids_where (λ id state. state_eq state failed) states;
      rerun = ids_where (λ id state. state_eq state failed || state_eq state cancelled) states;
      never_started =
          ids_where (λ id state. state_eq state cancelled && not (mem id executed)) states;
      committed_outputs = s.store.committed;
    }

abbrev pub reported : Execution (List String) → Step (Execution PhysicalWorkExecutionReport)
reported (finished executed) s = Outcome.ok (finished (report s executed)) s
reported (stalled states) s = Outcome.ok (stalled states) s

-- Each turn admits an instance, which ends, so as many turns as there are instances, and one,
-- are given.
abbrev pub execute_fuel : ResourceScheduler → ℕ
execute_fuel s = suc (length s.work)

module _ (sha256_bytes : List ℕ → String) {C : Type 0}
    (compute : PhysicalWorkInstance → List CommittedOutput → C → Computed × C) where
  unfoldable pub execute_physical_work_graph :
      PhysicalWorkContract
      → List PhysicalWorkInstance
      → ResourceAmount
      → C
      → Outcome (Execution PhysicalWorkExecutionReport)
  execute_physical_work_graph contract instances budget c = elim (new contract instances budget) [
    | Outcome.ok _ s ↦ (execute_loop sha256_bytes compute (execute_fuel s) [] c >>= reported) s
    | Outcome.err e s ↦ Outcome.err e s
    | Outcome.panic ↦ Outcome.panic
    | Outcome.exhausted ↦ Outcome.exhausted
  ]
