-- ===== src/Run/Scheduler/Refusing.antt =====
-- A call that reports an error leaves the scheduler as it was.
use laminaria_rust_nim_toolc.Prelude.{
  ℕ, ◌≡◌, refl, sym, subst, ◌∙◌, Bool, true, false, not, String, List, Option, none, some, lookup,
  arith,
}
use laminaria_rust_nim_toolc.Run.Commit.{CommitWrite, CommitTarget, CommitStore, StoreResult, stage}
use laminaria_rust_nim_toolc.Run.Scheduler.Types.{
  LifecycleState, RuntimeWork, ResourceScheduler, SchedulerContractError, Outcome, Step, ◌>>=◌,
  return, ok_or, unknown_instance, invalid_transition, running, committing, completed, failed,
  cancelled, state_eq, is_terminal, owns_resources, computation_finished,
}
use laminaria_rust_nim_toolc.Run.Scheduler.State.{
  known_state, require, require_state, runtime_of, unit_of, set_state,
}
use laminaria_rust_nim_toolc.Run.Scheduler.Admit.{admit_ready}
use laminaria_rust_nim_toolc.Run.Scheduler.Operations.{
  put_store, stored, stage_outputs, commit, fail, cancel,
}
use laminaria_rust_nim_toolc.Run.Scheduler.Valid.{At, Valid}
use laminaria_rust_nim_toolc.Run.Scheduler.Ends.{
  Gives, Anything, Became, runtime_of-At, set_state-At, next,
}
use laminaria_rust_nim_toolc.Run.Scheduler.Admitting.{admit_ready-Gives}
use laminaria_rust_nim_toolc.Run.Scheduler.Committing.{commit_rest, commit_rest-Gives}
use laminaria_rust_nim_toolc.Run.Scheduler.Ending.{fail_owner, cancel_rest, cancel_rest-Gives}
use laminaria_rust_nim_toolc.Run.Scheduler.Steps.{
  Call, admitting, staging, committing_of, failing, cancelling, perform, Reached,
}
use laminaria_rust_nim_toolc.Run.Scheduler.Guarantees.{Reached-Valid}

-- An error comes with the scheduler that was there.
abbrev Stays : {A : Type 0} → ResourceScheduler → Outcome A → Type 0
Stays s (Outcome.ok a t) = Unit
Stays s (Outcome.err e t) = t ≡ s
Stays s Outcome.panic = Unit
Stays s Outcome.exhausted = Unit

Gives-Stays :
    {A : Type 0} (base s : ResourceScheduler) (Q : A → ResourceScheduler → Type 0) (o : Outcome A)
    → Gives base Q o
    → Stays s o
Gives-Stays base s Q (Outcome.ok a t) h = tt
Gives-Stays base s Q (Outcome.err e t) h = elim h [ ]
Gives-Stays base s Q Outcome.panic h = tt
Gives-Stays base s Q Outcome.exhausted h = tt

require-Stays :
    {B : Type 0} (s : ResourceScheduler) (test : Bool) (e : SchedulerContractError)
    (k : Unit → Step B)
    → (test ≡ true → Stays s (k tt s))
    → Stays s ((require test e >>= k) s)
require-Stays s true e k h = h refl
require-Stays s false e k h = refl

known_state-Stays :
    {B : Type 0} (s : ResourceScheduler) (id : String) (k : LifecycleState → Step B)
    → ((runtime : RuntimeWork) → At s.work id runtime → Stays s (k runtime.state s))
    → Stays s ((known_state id >>= k) s)
known_state-Stays {B = B} s id k h = found (lookup id s.work) h
  where
    found :
        (o : Option RuntimeWork)
        → ((runtime : RuntimeWork) → o ≡ some runtime → Stays s (k runtime.state s))
        → Stays s (
            ((λ (t : ResourceScheduler).
                  ok_or
                    (elim o [ none ↦ none | some runtime ↦ some runtime.state ])
                    (unknown_instance id)
                    t)
                >>= k)
              s)
    found none f = refl
    found (some runtime) f = f runtime refl

require_state-Stays :
    {B : Type 0} (s : ResourceScheduler) (id : String) (expected : LifecycleState)
    (operation : String) (k : Unit → Step B)
    → ((runtime : RuntimeWork)
        → At s.work id runtime
        → state_eq runtime.state expected ≡ true
        → Stays s (k tt s))
    → Stays s ((require_state id expected operation >>= k) s)
require_state-Stays {B = B} s id expected operation k h = found (lookup id s.work) h
  where
    found :
        (o : Option RuntimeWork)
        → ((runtime : RuntimeWork)
            → o ≡ some runtime
            → state_eq runtime.state expected ≡ true
            → Stays s (k tt s))
        → Stays s (
            (((λ (t : ResourceScheduler).
                    ok_or
                      (elim o [ none ↦ none | some runtime ↦ some runtime.state ])
                      (unknown_instance id)
                      t)
                  >>= λ actual.
                      require (state_eq actual expected) (invalid_transition id actual operation))
                >>= k)
              s)
    found none f = refl
    found (some runtime) f =
        require-Stays s (state_eq runtime.state expected)
          (invalid_transition id runtime.state operation) k (f runtime refl)

done-Stays :
    {A : Type 0} (s : ResourceScheduler) (o : Outcome A)
    → Stays s o
    → Stays {A = Unit} s (((λ (_ : ResourceScheduler). o) >>= λ _. return tt) s)
done-Stays s (Outcome.ok a t) h = tt
done-Stays s (Outcome.err e t) h = h
done-Stays s Outcome.panic h = tt
done-Stays s Outcome.exhausted h = tt

module _ (digest : List ℕ → String) where
  stored-Stays :
      (s : ResourceScheduler) (id : String) (old : RuntimeWork)
      → At s.work id old
      → (r : StoreResult (CommitStore × List CommitTarget))
      → Stays {A = List CommitTarget} s (
          (stored r >>= λ (staged : CommitStore × List CommitTarget). put_store staged.0 >>= λ _.
          set_state id committing none computation_finished >>= λ _. return staged.1)
            s)
  stored-Stays s id old there (StoreResult.err e) = refl
  stored-Stays s id old there (StoreResult.ok (store, targets)) =
      subst (λ o. Stays {A = List CommitTarget} s o)
        (sym (
          next (set_state id committing none computation_finished) (λ _. return targets)
            (record s { store = store }) _ tt
            (set_state-At (record s { store = store }) id old committing none computation_finished
              there)))
        tt

  stage_outputs-Stays :
      (s : ResourceScheduler) (id : String) (writes : List CommitWrite)
      → Valid s
      → Stays {A = List CommitTarget} s (stage_outputs digest id writes s)
  unfolding stage_outputs
  stage_outputs-Stays s id writes v =
      require_state-Stays {B = List CommitTarget} s id running "stage_outputs" _ (λ old there _.
        let (unit, found) = v.linked.unit_there id old there in
        subst (λ o. Stays {A = List CommitTarget} s o)
          (sym (
            next (runtime_of id) _ s s old (runtime_of-At s id old there)
            ∙ next (unit_of old.definition.work_unit) _ s s unit (rw (unit_of, found) refl)))
          (stored-Stays s id old there (stage digest s.store id unit writes)))

  perform-Stays :
      (call : Call) (s : ResourceScheduler) → Valid s → Stays {A = Unit} s (perform digest call s)
  unfolding commit fail cancel
  perform-Stays admitting s v =
      done-Stays s (admit_ready s)
        (Gives-Stays s s Anything (admit_ready s) (admit_ready-Gives s v))
  perform-Stays (staging id writes) s v =
      done-Stays s (stage_outputs digest id writes s) (stage_outputs-Stays s id writes v)
  perform-Stays (committing_of id) s v =
      require_state-Stays {B = Unit} s id committing "commit" _ (λ old there commits.
        Gives-Stays s s (Became id completed) (commit_rest id s)
          (commit_rest-Gives s id old v there commits))
  perform-Stays (failing id detail) s v = known_state-Stays {B = Unit} s id _ (λ old there.
      require-Stays {B = Unit} s (owns_resources old.state) _ _
        (λ owner. Gives-Stays s s (Became id failed) _ (fail_owner s id detail old v there owner)))
  perform-Stays (cancelling id detail) s v = known_state-Stays {B = Unit} s id _ (λ old there.
      require-Stays {B = Unit} s (not (is_terminal old.state)) _ _ (λ live.
        Gives-Stays s s (Became id cancelled) (cancel_rest id detail old.state s)
          (cancel_rest-Gives s id detail old v there (ground (arith, live)))))

  -- A call on a reached scheduler that reports an error leaves the scheduler as it was, with nothing
  -- staged, committed, released or recorded.
  pub refused-unchanged :
      (s t : ResourceScheduler) (call : Call) (e : SchedulerContractError)
      → Reached digest s
      → perform digest call s ≡ Outcome.err e t
      → t ≡ s
  refused-unchanged s t call e reached h =
      subst (λ o. Stays {A = Unit} s o) h (perform-Stays call s (Reached-Valid digest s reached))
