-- ===== src/Run/Scheduler/Operations.antt =====
-- crates/laminaria-run/src/resource_scheduler.rs: staging, committing, failing and cancelling.
use laminaria_rust_nim_toolc.Prelude.{
  ℕ, zero, suc, ◌+◌, Bool, true, false, not, ◌||◌, String, List, [], ◌∷◌, Option, none, some,
  length, sum_by, replace, if◌then◌else◌,
}
use laminaria_rust_nim_toolc.Run.Commit.{
  CommitWrite, CommitTarget, CommitStore, StoreResult, stage, discard,
}
use laminaria_rust_nim_toolc.Run.Commit
use laminaria_rust_nim_toolc.Run.Scheduler.Types.{
  WaitReason, TransitionReason, RuntimeWork, ResourceScheduler, Outcome, Step, ◌>>=◌, ◌>>◌, return,
  ready, running, blocked, committing, completed, failed, cancelled, state_eq, is_terminal,
  owns_resources, dependencies, dependencies_satisfied, computation_finished, commit_succeeded,
  execution_failed, explicit_cancellation, producer_failed, upstream_cancelled, commit_store,
  invalid_transition,
}
use laminaria_rust_nim_toolc.Run.Scheduler.State.{
  runtime_of, dependents_of, unit_of, known_state, require, require_state, release, set_state,
  pending_dependencies,
}

abbrev pub put_store : CommitStore → Step Unit
put_store store s = Outcome.ok tt (record s { store = store })

-- `map_err(SchedulerContractError::CommitStore)`
abbrev pub stored : {A : Type 0} → StoreResult A → Step A
stored (StoreResult.ok a) s = Outcome.ok a s
stored (StoreResult.err e) s = Outcome.err (commit_store e) s

module _ (sha256_bytes : List ℕ → String) where
  unfoldable pub stage_outputs : String → List CommitWrite → Step (List CommitTarget)
  stage_outputs id writes = do
    require_state id running "stage_outputs"
    runtime ← runtime_of id
    unit ← unit_of runtime.definition.work_unit
    (store, targets) ← λ s. stored (stage sha256_bytes s.store id unit writes) s
    put_store store
    set_state id committing none computation_finished
    return targets

abbrev pub waits_for_dependencies : Option WaitReason → Bool
waits_for_dependencies (some (dependencies pending)) = true
waits_for_dependencies wait = false

abbrev pub put_wait : String → List String → Step Unit
put_wait id pending = do
  runtime ← runtime_of id
  λ s. Outcome.ok tt (record s {
    work = replace id (record runtime { wait_reason = some (dependencies pending) }) s.work;
  })

abbrev pub settle : String → List String → Step Unit
settle id [] = set_state id ready none dependencies_satisfied
settle id (pending ∷ rest) = put_wait id (pending ∷ rest)

abbrev pub refresh_one : String → Step Unit
refresh_one consumer = do
  runtime ← runtime_of consumer
  if not (state_eq runtime.state blocked) || not (waits_for_dependencies runtime.wait_reason)
      then return tt
      else (pending_dependencies consumer >>= settle consumer)

abbrev pub refresh_all : List String → Step Unit
refresh_all [] = return tt
refresh_all (consumer ∷ consumers) = do refresh_one consumer; refresh_all consumers

abbrev pub refresh_dependency_waiters : String → Step Unit
refresh_dependency_waiters producer = do consumers ← dependents_of producer; refresh_all consumers

unfoldable pub commit : String → Step Unit
commit id = do
  require_state id committing "commit"
  store ← λ s. stored (Commit.commit s.store id) s
  put_store store
  release id
  set_state id completed none commit_succeeded
  refresh_dependency_waiters id

-- The queue with its end first: `extend` puts the ids there one by one, `pop` takes the last.
abbrev pub extend : List String → List String → List String
extend [] queue = queue
extend (id ∷ ids) queue = extend ids (id ∷ queue)

abbrev pub cancel_reason : String → Bool → TransitionReason
cancel_reason root by_failure = if by_failure then producer_failed root else upstream_cancelled root

-- Enough turns for any queue: every instance is cancelled once at most.
abbrev pub cancel_fuel : ResourceScheduler → List String → ℕ
cancel_fuel s queue =
    suc (length queue + sum_by (λ (_ : RuntimeWork). sum_by length s.dependents) s.work)

-- `debug_assert!`
abbrev pub assert : Bool → Step Unit
assert true s = Outcome.ok tt s
assert false s = Outcome.panic

abbrev pub cancel_one : TransitionReason → String → List String → Step (List String)
cancel_one reason id queue = do
  runtime ← runtime_of id
  if is_terminal runtime.state then return queue else (do
    assert (not (owns_resources runtime.state))
    set_state id cancelled none reason
    consumers ← dependents_of id
    return (extend consumers queue))

abbrev pub cancel_queue : ℕ → TransitionReason → List String → Step Unit
cancel_queue zero reason queue s = Outcome.exhausted
cancel_queue (suc fuel) reason [] s = Outcome.ok tt s
cancel_queue (suc fuel) reason (id ∷ queue) s =
    (cancel_one reason id queue >>= cancel_queue fuel reason) s

abbrev pub cancel_descendants : String → Bool → Step Unit
cancel_descendants root by_failure = do
  consumers ← dependents_of root
  λ s.
      cancel_queue (cancel_fuel s (extend consumers [])) (cancel_reason root by_failure)
        (extend consumers []) s

abbrev pub discard_staged : String → Step Unit
discard_staged id s = put_store (discard s.store id) s

unfoldable pub fail : String → String → Step Unit
fail id detail = do
  state ← known_state id
  require (owns_resources state) (invalid_transition id state "fail")
  discard_staged id
  release id
  set_state id failed none (execution_failed detail)
  cancel_descendants id true

unfoldable pub cancel : String → String → Step Unit
cancel id detail = do
  state ← known_state id
  require (not (is_terminal state)) (invalid_transition id state "cancel")
  if owns_resources state then (discard_staged id >> release id) else return tt
  set_state id cancelled none (explicit_cancellation detail)
  cancel_descendants id false
