-- ===== src/Run/Scheduler/Steps.antt =====
-- crates/laminaria-run/src/resource_scheduler.rs: the calls on a scheduler, and the schedulers that any sequence
-- of them leads to from `new`, refused calls included.
use laminaria_rust_nim_toolc.Prelude.{ℕ, ◌≡◌, String, List}
use laminaria_rust_nim_toolc.Plan.PhysicalWork.{PhysicalWorkContract}
use laminaria_rust_nim_toolc.Run.Resources.{ResourceAmount, IsAmount}
use laminaria_rust_nim_toolc.Run.Commit.{CommitWrite}
use laminaria_rust_nim_toolc.Run.Scheduler.Types.{
  PhysicalWorkInstance, SchedulerContractError, ResourceScheduler, Outcome, Step, ◌>>=◌, return,
}
use laminaria_rust_nim_toolc.Run.Scheduler.Admit.{admit_ready}
use laminaria_rust_nim_toolc.Run.Scheduler.Operations.{stage_outputs, commit, fail, cancel}
use laminaria_rust_nim_toolc.Run.Scheduler.Cycle.{new}

pub data Call : Type 0 where
  admitting : Call
  staging : (id : String) → List CommitWrite → Call
  committing_of : (id : String) → Call
  failing : (id detail : String) → Call
  cancelling : (id detail : String) → Call

module _ (digest : List ℕ → String) where
  abbrev pub perform : Call → Step Unit
  perform admitting = admit_ready >>= λ _. return tt
  perform (staging id writes) = stage_outputs digest id writes >>= λ _. return tt
  perform (committing_of id) = commit id
  perform (failing id detail) = fail id detail
  perform (cancelling id detail) = cancel id detail

  pub data Reached : ResourceScheduler → Type 0 where
    start :
        (contract : PhysicalWorkContract) (instances : List PhysicalWorkInstance)
        (budget : ResourceAmount) (s : ResourceScheduler)
        → IsAmount budget
        → new contract instances budget ≡ Outcome.ok tt s
        → Reached s
    accepted :
        (call : Call) (s t : ResourceScheduler)
        → Reached s
        → perform call s ≡ Outcome.ok tt t
        → Reached t
    refused :
        (call : Call) (s t : ResourceScheduler) (e : SchedulerContractError)
        → Reached s
        → perform call s ≡ Outcome.err e t
        → Reached t
