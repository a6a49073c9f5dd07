-- ===== src/Run/Scheduler/Committing.antt =====
-- `stage_outputs` and `commit` keep the invariant, and committing does not fail.
use laminaria_rust_nim_toolc.Prelude.{
  ℕ, ◌≡◌, refl, sym, subst, ◌∙◌, ap, true, not, ◌||◌, String, List, [], ◌∷◌, none, some, mem,
  mem-head, mem-tail, if◌then◌else◌, arith, str_eq, eq_iff, append-nil, Bool-cases, inl, inr,
}
use laminaria_rust_nim_toolc.Plan.PhysicalWork.{PhysicalWorkUnit}
use laminaria_rust_nim_toolc.Run.Commit.{CommitWrite, CommitTarget, CommitStore, StoreResult, stage}
use laminaria_rust_nim_toolc.Run.Commit
use laminaria_rust_nim_toolc.Run.Commit.Agree.{}
use laminaria_rust_nim_toolc.Run.Commit.Calls.{stage-IsNext, staged-commit}
use laminaria_rust_nim_toolc.Run.Scheduler.Types.{
  RuntimeWork, ResourceScheduler, Outcome, Step, ◌>>=◌, return, ready, running, blocked, committing,
  completed, state_eq, dependencies, dependencies_satisfied, computation_finished, commit_succeeded,
}
use laminaria_rust_nim_toolc.Run.Scheduler.State.{
  require_state, runtime_of, dependents_of, unit_of, release, set_state, record_state, moved,
  pending_among, pending_dependencies,
}
use laminaria_rust_nim_toolc.Run.Scheduler.Operations.{
  put_store, stored, stage_outputs, waits_for_dependencies, put_wait, settle, refresh_one,
  refresh_all, refresh_dependency_waiters, commit,
}
use laminaria_rust_nim_toolc.Run.Scheduler.Valid.{At, DependsOn, IsCompleted, Valid}
use laminaria_rust_nim_toolc.Run.Scheduler.Change.{
  IsChange, changed-Valid, replaced-At, replace-work_kept,
}
use laminaria_rust_nim_toolc.Run.Scheduler.Ends.{
  Good, Ends, Anything, Known, Gives, Gives-Ends, Gives-map, Became, Since-Became, Gives-later,
  >>=-Gives, if_Gives, require_state-At, record_state-Good, set_state-At, runtime_of-At, next,
  Since-refl, Since-trans, Since-At, require_state-Ends,
}
use laminaria_rust_nim_toolc.Run.Scheduler.Admitting.{quiet-IsChange}
use laminaria_rust_nim_toolc.Run.Scheduler.Cancelling.{dependents_of-At}
use laminaria_rust_nim_toolc.Run.Scheduler.Releasing.{released}

none_pending :
    (s : ResourceScheduler) (id : String) (producer : RuntimeWork) (ids pending : List String)
    → At s.work id producer
    → (if state_eq producer.state completed then pending else id ∷ pending) ≡ []
    → (pending ≡ [] → (x : String) → mem x ids ≡ true → IsCompleted s.work x)
    → (x : String) → mem x (id ∷ ids) ≡ true
    → IsCompleted s.work x
none_pending s id producer ids pending there empty all x h runtime at =
    elim (Bool-cases (str_eq id x)) [
      | inl e ↦ ground (arith, here e, empty)
      | inr apart ↦ all (ground (arith, empty)) x (ground (arith, apart, h)) runtime at
    ]
  where
    here : str_eq id x ≡ true → runtime ≡ producer
    here e = ground (arith, eq_iff id x, e, there, at)

-- The pending ones are found, and if there is none, all are completed.
pub pending_among-found :
    (s : ResourceScheduler) (ids : List String)
    → Known s ids
    → (pending : List String) × (pending_among ids s ≡ Outcome.ok pending s)
      × (pending ≡ [] → (id : String) → mem id ids ≡ true → IsCompleted s.work id)
pending_among-found s [] known = ([], refl, λ _ id h. ground (arith, h))
pending_among-found s (id ∷ ids) known =
    let (producer, there) = known id (mem-head id ids) in
    let (pending, e, all) = pending_among-found s ids (λ x h. known x (mem-tail id x ids h)) in
    (
      (if state_eq producer.state completed then pending else id ∷ pending),
      next (runtime_of id) _ s s producer (runtime_of-At s id producer there)
          ∙ next (pending_among ids) _ s s pending e,
      λ empty. none_pending s id producer ids pending there empty all,
    )

-- A consumer that waits for dependencies waits for those that are still pending.
put_wait-Gives :
    (base s : ResourceScheduler) (id : String) (old : RuntimeWork) (pending : List String)
    → Good base s
    → At s.work id old
    → state_eq old.state blocked ≡ true
    → Gives {A = Unit} base Anything (put_wait id pending s)
put_wait-Gives base s id old pending g there waits =
    subst (λ o. Gives {A = Unit} base Anything o)
      (sym (next (runtime_of id) _ s s old (runtime_of-At s id old there)))
      (
        (
          changed-Valid s id old new s.allocated s.store s.transitions s.next_sequence change
              g.0.numbered g.0,
          Since-trans base s _ g.1 (record {
            outputs_kept = λ target output h. h;
            work_kept = replace-work_kept s.work id old new there refl change.live;
            history_kept = ([], sym (append-nil s.transitions));
          }),
        ),
        tt,
      )
  where
    new : RuntimeWork
    new = record old { wait_reason = some (dependencies pending) }

    change : IsChange s id old new s.allocated s.store
    change = record {
      there = there;
      same = refl;
      live = ground (arith, waits);
      founded = λ started. ground (arith, started, waits);
      moved_amount = λ r. refl;
      within = g.0.affordable;
      apart = λ writer _. refl;
      own_staged = λ h. ground (arith, h, waits);
      agrees = g.0.agreed;
      kept = λ target output h. h;
    }

settle-Gives :
    (base s : ResourceScheduler) (id : String) (old : RuntimeWork) (pending : List String)
    → Good base s
    → At s.work id old
    → state_eq old.state blocked ≡ true
    → (pending ≡ [] → (x : String) → DependsOn old x → IsCompleted s.work x)
    → Gives {A = Unit} base Anything (settle id pending s)
settle-Gives base s id old [] g there waits all =
    subst (λ o. Gives {A = Unit} base Anything o)
      (sym (set_state-At s id old ready none dependencies_satisfied there))
      (
        record_state-Good base s id old ready none dependencies_satisfied s.allocated s.store
            (quiet-IsChange s id old ready none g.0 there (ground (arith, waits))
              (λ r. ground (arith, waits)) refl (λ _. all refl))
            g,
        tt,
      )
settle-Gives base s id old (x ∷ pending) g there waits all =
    put_wait-Gives base s id old (x ∷ pending) g there waits

refresh_one-Gives :
    (base s : ResourceScheduler) (id : String)
    → Good base s
    → (runtime : RuntimeWork) × At s.work id runtime
    → Gives {A = Unit} base Anything (refresh_one id s)
refresh_one-Gives base s id g (old, there) =
    let (pending, e, all) =
      pending_among-found s old.definition.dependencies
        (λ x d. g.0.linked.dependency_there id old x there d) in
    subst (λ o. Gives {A = Unit} base Anything o)
      (sym (next (runtime_of id) _ s s old (runtime_of-At s id old there)))
      (if_Gives base Anything
        (not (state_eq old.state blocked) || not (waits_for_dependencies old.wait_reason)) _ _ s
        (λ _. (g, tt))
        (λ h.
          subst (λ o. Gives {A = Unit} base Anything o)
            (sym (
              next (pending_dependencies id) (settle id) s s pending
                (next (runtime_of id) _ s s old (runtime_of-At s id old there) ∙ e)))
            (settle-Gives base s id old pending g there (ground (arith, h)) all)))

refresh_all-Gives :
    (base s : ResourceScheduler) (ids : List String)
    → Good base s
    → Known base ids
    → Gives {A = Unit} base Anything (refresh_all ids s)
refresh_all-Gives base s [] g known = (g, tt)
refresh_all-Gives base s (id ∷ ids) g known =
    >>=-Gives base Anything Anything (refresh_one id) _ s
      (refresh_one-Gives base s id g (Since-At base s id (known id (mem-head id ids)) g.1))
      (λ _ s' g' _. refresh_all-Gives base s' ids g' (λ x h. known x (mem-tail id x ids h)))

refresh-Gives :
    (base s : ResourceScheduler) (id : String) (old : RuntimeWork)
    → Good base s
    → At s.work id old
    → Gives {A = Unit} base Anything (refresh_dependency_waiters id s)
refresh-Gives base s id old (v, since) there =
    let (consumers, listed) = v.linked.consumers_there id old there in
    Gives-later base s Anything _ since (
      subst (λ o. Gives {A = Unit} s Anything o)
        (sym (next (dependents_of id) _ s s consumers (dependents_of-At s id consumers listed)))
        (refresh_all-Gives s s consumers (v, Since-refl s)
          (λ x h.
            let (runtime, at, _) = v.linked.consumer_depends id consumers x listed h in
            (runtime, at))))

-- What `commit` does after its test.
abbrev pub commit_rest : String → Step Unit
commit_rest id = (λ s. stored (Commit.commit s.store id) s) >>= λ store. put_store store >>= λ _.
    release id >>= λ _.
    set_state id completed none commit_succeeded >>= λ _. refresh_dependency_waiters id

-- A committing instance completes, whatever else is staged or committed.
commit_rest-staged :
    (s : ResourceScheduler) (id : String) (old : RuntimeWork)
    → Valid s
    → At s.work id old
    → state_eq old.state committing ≡ true
    → (s' : ResourceScheduler) × Good s s'
      × At s'.work id (moved completed none old)
      × (commit_rest id s ≡ refresh_dependency_waiters id s')
commit_rest-staged s id old v there commits =
    let (outputs, staged) = v.staged id old there commits in
    let (store, e, is_next) = staged-commit s.store id outputs v.agreed staged in
    let (allocated, f, good) =
      released s s id old completed commit_succeeded store (v, Since-refl s) there
        (ground (arith, commits)) refl is_next in
    let s' = record s { store = store; allocated = allocated } in
    (
      record_state s' id old completed none commit_succeeded,
      good,
      replaced-At s.work id old (moved completed none old) there,
      next (λ t. stored (Commit.commit t.store id) t) _ s s store
            (ap (λ (r : StoreResult CommitStore). stored r s) e)
          ∙ next (release id) _ (record s { store = store }) s' tt f
          ∙ next (set_state id completed none commit_succeeded) _ s' _ tt
              (set_state-At s' id old completed none commit_succeeded there),
    )

pub commit_rest-Gives :
    (s : ResourceScheduler) (id : String) (old : RuntimeWork)
    → Valid s
    → At s.work id old
    → state_eq old.state committing ≡ true
    → Gives {A = Unit} s (Became id completed) (commit_rest id s)
commit_rest-Gives s id old v there commits =
    let (s', good, at, e) = commit_rest-staged s id old v there commits in
    subst (λ o. Gives {A = Unit} s (Became id completed) o) (sym e)
      (Gives-map s s' Anything (Became id completed) (refresh_dependency_waiters id s') good.1
        (λ _ t later _. Since-Became s' t id (moved completed none old) at refl later)
        (refresh-Gives s' s' id (moved completed none old) (good.0, Since-refl s') at))

pub commit-Ends :
    (s : ResourceScheduler) (id : String) → Valid s → Ends {A = Unit} s Anything (commit id s)
unfolding commit
commit-Ends s id v =
    require_state-Ends {B = Unit} s s Anything id committing "commit" _ (v, Since-refl s)
      (λ old there commits. Gives-Ends {A = Unit} s Anything (commit_rest id s) (
        Gives-map s s (Became id completed) Anything (commit_rest id s) (Since-refl s)
          (λ _ t _ _. tt) (commit_rest-Gives s id old v there commits)))

-- What is committing completes.
pub commit-Gives :
    (s : ResourceScheduler) (id : String) (old : RuntimeWork)
    → Valid s
    → At s.work id old
    → state_eq old.state committing ≡ true
    → Gives {A = Unit} s (Became id completed) (commit id s)
unfolding commit
commit-Gives s id old v there commits =
    subst (λ o. Gives {A = Unit} s (Became id completed) o)
      (sym (
        next (require_state id committing "commit") (λ _. commit_rest id) s s tt
          (require_state-At s id old committing "commit" there commits)))
      (commit_rest-Gives s id old v there commits)

module _ (digest : List ℕ → String) where
  stored-Ends :
      (s : ResourceScheduler) (id : String) (old : RuntimeWork) (unit : PhysicalWorkUnit)
      (writes : List CommitWrite)
      → Valid s
      → At s.work id old
      → state_eq old.state running ≡ true
      → (r : StoreResult (CommitStore × List CommitTarget))
      → stage digest s.store id unit writes ≡ r
      → Ends {A = List CommitTarget} s Anything (
          (stored r >>= λ (staged : CommitStore × List CommitTarget). put_store staged.0 >>= λ _.
          set_state id committing none computation_finished >>= λ _. return staged.1)
            s)
  stored-Ends s id old unit writes v there runs (StoreResult.err e) h = (v, Since-refl s)
  stored-Ends s id old unit writes v there runs (StoreResult.ok (store, targets)) h =
      let s' = record s { store = store } in
      let (is_next, own) = stage-IsNext digest s.store store id unit writes targets v.agreed h in
      subst (λ o. Ends {A = List CommitTarget} s Anything o)
        (sym (
          next (set_state id committing none computation_finished) (λ _. return targets) s' _ tt
            (set_state-At s' id old committing none computation_finished there)))
        (
          record_state-Good s s id old committing none computation_finished s.allocated store
              (record {
                there = there;
                same = refl;
                live = ground (arith, runs);
                founded = λ _ d. v.settled id old d there (ground (arith, runs));
                moved_amount = λ r. ground (arith, runs);
                within = v.affordable;
                apart = is_next.apart;
                own_staged = λ _. own;
                agrees = is_next.agrees;
                kept = is_next.kept;
              })
              (v, Since-refl s),
          tt,
        )

  pub stage_outputs-Ends :
      (s : ResourceScheduler) (id : String) (writes : List CommitWrite)
      → Valid s
      → Ends {A = List CommitTarget} s Anything (stage_outputs digest id writes s)
  unfolding stage_outputs
  stage_outputs-Ends s id writes v =
      require_state-Ends {B = List CommitTarget} s s Anything id running "stage_outputs" _
        (v, Since-refl s)
        (λ old there runs.
          let (unit, found) = v.linked.unit_there id old there in
          subst (λ o. Ends {A = List CommitTarget} s Anything o)
            (sym (
              next (runtime_of id) _ s s old (runtime_of-At s id old there)
              ∙ next (unit_of old.definition.work_unit) _ s s unit (rw (unit_of, found) refl)))
            (stored-Ends s id old unit writes v there runs _ refl))
