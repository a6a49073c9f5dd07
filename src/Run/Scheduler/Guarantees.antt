-- ===== src/Run/Scheduler/Guarantees.antt =====
-- What holds of every scheduler that calls lead to, and of every call on one.
use laminaria_rust_nim_toolc.Prelude.{
  ℕ, ◌≤◌, ◌≡◌, ◌⊎◌, inl, inr, refl, subst, true, false, String, List, some, sum_by, get_elem?, ◌%◌,
}
use laminaria_rust_nim_toolc.Run.Resources.{Resource, amount, u64_limit}
use laminaria_rust_nim_toolc.Run.Scheduler.Types.{
  RuntimeWork, ResourceScheduler, SchedulerContractError, LifecycleTransition, Outcome, committing,
  completed, failed, cancelled, state_eq, is_terminal, owns_resources,
}
use laminaria_rust_nim_toolc.Run.Scheduler.Admit.{admit_ready}
use laminaria_rust_nim_toolc.Run.Scheduler.Operations.{stage_outputs, commit, fail, cancel}
use laminaria_rust_nim_toolc.Run.Scheduler.Valid.{At, DependsOn, is_started, owned, Valid, Since}
use laminaria_rust_nim_toolc.Run.Scheduler.Ends.{
  Ends, Gives, Gives-Ends, Became, Anything, >>=-Ends,
}
use laminaria_rust_nim_toolc.Run.Scheduler.Admitting.{admit_ready-Gives}
use laminaria_rust_nim_toolc.Run.Scheduler.Committing.{
  stage_outputs-Ends, commit-Ends, commit-Gives,
}
use laminaria_rust_nim_toolc.Run.Scheduler.Ending.{fail-Ends, fail-Gives, cancel-Ends, cancel-Gives}
use laminaria_rust_nim_toolc.Run.Scheduler.New.{new-Valid}
use laminaria_rust_nim_toolc.Run.Scheduler.Steps.{
  Call, admitting, staging, committing_of, failing, cancelling, perform, Reached, start, accepted,
  refused,
}

-- The call ends in a value or an error: it neither panics nor runs out of fuel.
abbrev pub Returns : {A : Type 0} → Outcome A → Type 0
Returns {A} o =
    ((a : A) × (s : ResourceScheduler) × (o ≡ Outcome.ok a s))
    ⊎ ((e : SchedulerContractError) × (s : ResourceScheduler) × (o ≡ Outcome.err e s))

Ends-Returns :
    {A : Type 0} (base : ResourceScheduler) (Q : A → ResourceScheduler → Type 0) (o : Outcome A)
    → Ends base Q o
    → Returns o
Ends-Returns base Q (Outcome.ok a s) h = inl (a, s, refl)
Ends-Returns base Q (Outcome.err e s) h = inr (e, s, refl)
Ends-Returns base Q Outcome.panic h = elim h [ ]
Ends-Returns base Q Outcome.exhausted h = elim h [ ]

Gives-ok :
    {A : Type 0} (base : ResourceScheduler) (Q : A → ResourceScheduler → Type 0) (o : Outcome A)
    → Gives base Q o
    → (a : A) × (s : ResourceScheduler) × (o ≡ Outcome.ok a s) × Q a s
Gives-ok base Q (Outcome.ok a s) (g, q) = (a, s, refl, q)
Gives-ok base Q (Outcome.err e s) h = elim h [ ]
Gives-ok base Q Outcome.panic h = elim h [ ]
Gives-ok base Q Outcome.exhausted h = elim h [ ]

module _ (digest : List ℕ → String) where
  perform-Ends :
      (call : Call) (s : ResourceScheduler)
      → Valid s
      → Ends {A = Unit} s Anything (perform digest call s)
  perform-Ends admitting s v =
      >>=-Ends s Anything Anything admit_ready _ s
        (Gives-Ends s Anything (admit_ready s) (admit_ready-Gives s v)) (λ ids t g _. (g, tt))
  perform-Ends (staging id writes) s v =
      >>=-Ends s Anything Anything (stage_outputs digest id writes) _ s
        (stage_outputs-Ends digest s id writes v) (λ targets t g _. (g, tt))
  perform-Ends (committing_of id) s v = commit-Ends s id v
  perform-Ends (failing id detail) s v = fail-Ends s id detail v
  perform-Ends (cancelling id detail) s v = cancel-Ends s id detail v

  pub Reached-Valid : (s : ResourceScheduler) → Reached digest s → Valid s
  Reached-Valid _ (start contract instances budget s bounded e) =
      new-Valid contract instances budget s bounded e
  Reached-Valid _ (accepted call s t r e) =
      (subst (λ o. Ends {A = Unit} s Anything o) e (perform-Ends call s (Reached-Valid s r))).0.0
  Reached-Valid _ (refused call s t x r e) =
      (subst (λ o. Ends {A = Unit} s Anything o) e (perform-Ends call s (Reached-Valid s r))).0

  -- In every reached scheduler the allocation of each resource is the sum of the reservations of the
  -- running and committing instances, and at most the budget.
  pub allocated-sum_by :
      (s : ResourceScheduler)
      → Reached digest s
      → (r : Resource)
      → (amount r s.allocated ≡ sum_by (owned r) s.work)
        × (amount r s.allocated ≤ amount r s.budget)
  allocated-sum_by s reached r = let v = Reached-Valid s reached in (v.accounted r, v.affordable r)

  -- In every reached scheduler an instance that is ready, running, committing or completed, or waits
  -- for resources only, has no dependency that is not completed.
  pub Reached-IsCompleted :
      (s : ResourceScheduler)
      → Reached digest s
      → (id dependency : String) (runtime producer : RuntimeWork) → At s.work id runtime
      → is_started runtime ≡ true
      → DependsOn runtime dependency
      → At s.work dependency producer
      → state_eq producer.state completed ≡ true
  Reached-IsCompleted s reached id dependency runtime producer at started depends there =
      (Reached-Valid s reached).settled id runtime dependency at started depends producer there

  -- In every reached scheduler the transition at place i of the history has the sequence number i,
  -- modulo 2^64.
  pub Reached-Numbered :
      (s : ResourceScheduler)
      → Reached digest s
      → (i : ℕ) (event : LifecycleTransition) → get_elem? s.transitions i ≡ some event
      → event.sequence ≡ i % u64_limit
  Reached-Numbered s reached i event e = (Reached-Valid s reached).numbered.1 i event e

  -- Every call on a reached scheduler ends in a value or an error: no lookup of an instance, a unit
  -- or consumers misses its key, the assertion that no cancelled consumer owns resources holds, and
  -- the fuel of the cancellation is enough.
  pub perform-Returns :
      (s : ResourceScheduler) (call : Call) → Reached digest s → Returns (perform digest call s)
  perform-Returns s call reached =
      Ends-Returns s Anything (perform digest call s)
        (perform-Ends call s (Reached-Valid s reached))

  -- An accepted call on a reached scheduler keeps every visible output, the definition of every
  -- instance, the state of every instance that has ended, and the transitions on record, to which it
  -- adds.
  pub accepted-Since :
      (s t : ResourceScheduler) (call : Call)
      → Reached digest s
      → perform digest call s ≡ Outcome.ok tt t
      → Since s t
  accepted-Since s t call reached e =
      (subst (λ o. Ends {A = Unit} s Anything o) e
        (perform-Ends call s (Reached-Valid s reached))).0.1

  -- On a reached scheduler `admit_ready` gives a value: its sums and differences never overflow.
  pub admit_ready-ok :
      (s : ResourceScheduler)
      → Reached digest s
      → (ids : List String) × (t : ResourceScheduler) × (admit_ready s ≡ Outcome.ok ids t)
  admit_ready-ok s reached =
      let (ids, t, e, _) =
        Gives-ok s Anything (admit_ready s) (admit_ready-Gives s (Reached-Valid s reached)) in
      (ids, t, e)

  -- A committing instance of a reached scheduler commits without an error, and is completed then,
  -- whatever other writers have staged or committed.
  pub commit-Became :
      (s : ResourceScheduler) (id : String) (old : RuntimeWork)
      → Reached digest s
      → At s.work id old
      → state_eq old.state committing ≡ true
      → (t : ResourceScheduler) × (commit id s ≡ Outcome.ok tt t) × Became id completed tt t
  commit-Became s id old reached there commits =
      let (_, t, e, b) =
        Gives-ok s (Became id completed) (commit id s)
          (commit-Gives s id old (Reached-Valid s reached) there commits) in
      (t, e, b)

  -- A running or committing instance of a reached scheduler can fail, and is failed then.
  pub fail-Became :
      (s : ResourceScheduler) (id detail : String) (old : RuntimeWork)
      → Reached digest s
      → At s.work id old
      → owns_resources old.state ≡ true
      → (t : ResourceScheduler) × (fail id detail s ≡ Outcome.ok tt t) × Became id failed tt t
  fail-Became s id detail old reached there owner =
      let (_, t, e, b) =
        Gives-ok s (Became id failed) (fail id detail s)
          (fail-Gives s id detail old (Reached-Valid s reached) there owner) in
      (t, e, b)

  -- An instance of a reached scheduler that has not ended can be cancelled, and is cancelled then.
  pub cancel-Became :
      (s : ResourceScheduler) (id detail : String) (old : RuntimeWork)
      → Reached digest s
      → At s.work id old
      → is_terminal old.state ≡ false
      → (t : ResourceScheduler) × (cancel id detail s ≡ Outcome.ok tt t) × Became id cancelled tt t
  cancel-Became s id detail old reached there live =
      let (_, t, e, b) =
        Gives-ok s (Became id cancelled) (cancel id detail s)
          (cancel-Gives s id detail old (Reached-Valid s reached) there live) in
      (t, e, b)
