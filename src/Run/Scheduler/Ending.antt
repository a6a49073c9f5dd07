-- ===== src/Run/Scheduler/Ending.antt =====
-- `fail` and `cancel` keep the invariant.
use laminaria_rust_nim_toolc.Prelude.{
  ◌≡◌, refl, sym, subst, ◌∙◌, Bool, true, false, not, String, none, if◌then◌else◌, arith,
}
use laminaria_rust_nim_toolc.Run.Commit.{discard}
use laminaria_rust_nim_toolc.Run.Commit.Agree.{discard-IsNext}
use laminaria_rust_nim_toolc.Run.Scheduler.Types.{
  LifecycleState, TransitionReason, RuntimeWork, ResourceScheduler, Outcome, Step, ◌>>=◌, ◌>>◌,
  return, failed, cancelled, is_terminal, owns_resources, execution_failed, explicit_cancellation,
  invalid_transition,
}
use laminaria_rust_nim_toolc.Run.Scheduler.State.{
  known_state, release, set_state, record_state, moved, require,
}
use laminaria_rust_nim_toolc.Run.Scheduler.Operations.{
  discard_staged, cancel_descendants, fail, cancel,
}
use laminaria_rust_nim_toolc.Run.Scheduler.Valid.{At, Valid}
use laminaria_rust_nim_toolc.Run.Scheduler.Change.{replaced-At}
use laminaria_rust_nim_toolc.Run.Scheduler.Ends.{
  Good, Ends, Gives, Gives-Ends, Gives-map, Became, Since-Became, Anything, known_state-At,
  require-true, record_state-Good, set_state-At, next, Since-refl, known_state-Ends, require-Ends,
}
use laminaria_rust_nim_toolc.Run.Scheduler.Admitting.{quiet-IsChange}
use laminaria_rust_nim_toolc.Run.Scheduler.Releasing.{released}
use laminaria_rust_nim_toolc.Run.Scheduler.Cancelling.{IsLost, cancel_descendants-Gives}

-- What is lost stays so while its descendants are cancelled.
descendants-Became :
    (base s : ResourceScheduler) (id : String) (old : RuntimeWork) (by_failure : Bool)
    → Good base s
    → At s.work id old
    → IsLost old
    → Gives {A = Unit} base (Became id old.state) (cancel_descendants id by_failure s)
descendants-Became base s id old by_failure (v, since) there lost =
    Gives-map base s Anything (Became id old.state) (cancel_descendants id by_failure s) since
      (λ _ t later _. Since-Became s t id old there lost.0 later)
      (cancel_descendants-Gives s s id old by_failure (v, Since-refl s) there lost)

weaker :
    (s : ResourceScheduler) (id : String) (to : LifecycleState) (o : Outcome Unit)
    → Gives {A = Unit} s (Became id to) o
    → Ends {A = Unit} s Anything o
weaker s id to o h =
    Gives-Ends {A = Unit} s Anything o
      (Gives-map s s (Became id to) Anything o (Since-refl s) (λ _ t _ _. tt) h)

-- An owner loses its staging and its reservation, and is lost with its descendants.
lose_owner-Gives :
    (s : ResourceScheduler) (id : String) (old : RuntimeWork) (to : LifecycleState)
    (reason : TransitionReason) (by_failure : Bool)
    → Valid s
    → At s.work id old
    → owns_resources old.state ≡ true
    → owns_resources to ≡ false
    → IsLost (moved to none old)
    → Gives {A = Unit} s (Became id to) (
        (discard_staged id >>= λ _.
        release id >>= λ _. set_state id to none reason >>= λ _. cancel_descendants id by_failure)
          s)
lose_owner-Gives s id old to reason by_failure v there owner idle lost =
    let store = discard s.store id in
    let (allocated, e, good) =
      released s s id old to reason store (v, Since-refl s) there owner idle
        (discard-IsNext s.store id v.agreed) in
    let s' = record s { store = store; allocated = allocated } in
    subst (λ o. Gives {A = Unit} s (Became id to) o)
      (sym (
        next (release id) _ (record s { store = store }) s' tt e
        ∙ next (set_state id to none reason) _ s' _ tt
            (set_state-At s' id old to none reason there)))
      (descendants-Became s (record_state s' id old to none reason) id (moved to none old)
        by_failure good (replaced-At s.work id old (moved to none old) there) lost)

lose_idle-Gives :
    (s : ResourceScheduler) (id detail : String) (old : RuntimeWork)
    → Valid s
    → At s.work id old
    → is_terminal old.state ≡ false
    → owns_resources old.state ≡ false
    → Gives {A = Unit} s (Became id cancelled) (
        (set_state id cancelled none (explicit_cancellation detail) >>= λ _.
        cancel_descendants id false)
          s)
lose_idle-Gives s id detail old v there live idle =
    let s' = record_state s id old cancelled none (explicit_cancellation detail) in
    subst (λ o. Gives {A = Unit} s (Became id cancelled) o)
      (sym (
        next (set_state id cancelled none (explicit_cancellation detail)) _ s s' tt
          (set_state-At s id old cancelled none (explicit_cancellation detail) there)))
      (descendants-Became s s' id (moved cancelled none old) false
        (record_state-Good s s id old cancelled none (explicit_cancellation detail) s.allocated
          s.store
          (quiet-IsChange s id old cancelled none v there live (λ r. ground (arith, idle)) refl
            (λ h. ground (arith, h)))
          (v, Since-refl s))
        (replaced-At s.work id old (moved cancelled none old) there) (refl, refl))

pub fail_owner :
    (s : ResourceScheduler) (id detail : String) (old : RuntimeWork)
    → Valid s
    → At s.work id old
    → owns_resources old.state ≡ true
    → Gives {A = Unit} s (Became id failed) (
        (discard_staged id >>= λ _. release id >>= λ _.
        set_state id failed none (execution_failed detail) >>= λ _. cancel_descendants id true)
          s)
fail_owner s id detail old v there owner =
    lose_owner-Gives s id old failed (execution_failed detail) true v there owner refl (refl, refl)

pub fail-Ends :
    (s : ResourceScheduler) (id detail : String)
    → Valid s
    → Ends {A = Unit} s Anything (fail id detail s)
unfolding fail
fail-Ends s id detail v =
    known_state-Ends {B = Unit} s s Anything id _ (v, Since-refl s)
      (λ old there.
        require-Ends {B = Unit} s s Anything (owns_resources old.state) _ _ (v, Since-refl s)
          (λ owner. weaker s id failed _ (fail_owner s id detail old v there owner)))

-- What owns resources can fail.
pub fail-Gives :
    (s : ResourceScheduler) (id detail : String) (old : RuntimeWork)
    → Valid s
    → At s.work id old
    → owns_resources old.state ≡ true
    → Gives {A = Unit} s (Became id failed) (fail id detail s)
unfolding fail
fail-Gives s id detail old v there owner =
    subst (λ o. Gives {A = Unit} s (Became id failed) o)
      (sym (
        next (known_state id) _ s s old.state (known_state-At s id old there)
        ∙ next (require (owns_resources old.state) (invalid_transition id old.state "fail")) _ s s
            tt (require-true s (owns_resources old.state) _ owner)))
      (fail_owner s id detail old v there owner)

-- What `cancel` does after its test.
abbrev pub cancel_rest : String → String → LifecycleState → Step Unit
cancel_rest id detail state =
    (if owns_resources state then (discard_staged id >> release id) else return tt) >>= λ _.
    set_state id cancelled none (explicit_cancellation detail) >>= λ _. cancel_descendants id false

pub cancel_rest-Gives :
    (s : ResourceScheduler) (id detail : String) (old : RuntimeWork)
    → Valid s
    → At s.work id old
    → is_terminal old.state ≡ false
    → Gives {A = Unit} s (Became id cancelled) (cancel_rest id detail old.state s)
cancel_rest-Gives s id detail old v there live = split (owns_resources old.state) refl
  where
    split :
        (b : Bool)
        → owns_resources old.state ≡ b
        → Gives {A = Unit} s (Became id cancelled) (
            ((if b then (discard_staged id >> release id) else return tt) >>= λ _.
            set_state id cancelled none (explicit_cancellation detail) >>= λ _.
            cancel_descendants id false)
              s)
    split true owner =
        lose_owner-Gives s id old cancelled (explicit_cancellation detail) false v there owner refl
          (refl, refl)
    split false idle = lose_idle-Gives s id detail old v there live idle

pub cancel-Ends :
    (s : ResourceScheduler) (id detail : String)
    → Valid s
    → Ends {A = Unit} s Anything (cancel id detail s)
unfolding cancel
cancel-Ends s id detail v =
    known_state-Ends {B = Unit} s s Anything id _ (v, Since-refl s)
      (λ old there.
        require-Ends {B = Unit} s s Anything (not (is_terminal old.state)) _ _ (v, Since-refl s)
          (λ live.
            weaker s id cancelled _
              (cancel_rest-Gives s id detail old v there (ground (arith, live)))))

-- What has not ended can be cancelled.
pub cancel-Gives :
    (s : ResourceScheduler) (id detail : String) (old : RuntimeWork)
    → Valid s
    → At s.work id old
    → is_terminal old.state ≡ false
    → Gives {A = Unit} s (Became id cancelled) (cancel id detail s)
unfolding cancel
cancel-Gives s id detail old v there live =
    subst (λ o. Gives {A = Unit} s (Became id cancelled) o)
      (sym (
        next (known_state id) _ s s old.state (known_state-At s id old there)
        ∙ next (require (not (is_terminal old.state)) (invalid_transition id old.state "cancel")) _
            s s tt (require-true s (not (is_terminal old.state)) _ (ground (arith, live)))))
      (cancel_rest-Gives s id detail old v there live)
