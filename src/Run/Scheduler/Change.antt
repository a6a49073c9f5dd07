-- ===== src/Run/Scheduler/Change.antt =====
-- A change of one instance, together with the allocation, the store and the history, keeps the
-- invariant.
use laminaria_rust_nim_toolc.Prelude.{
  ℕ, ◌+◌, ◌≡◌, inl, inr, refl, sym, subst, ◌∙◌, ap, true, false, String, List, ◌++◌, some, lookup,
  replace, mem, sum_by-replace, lookup-replace, lookup-replace-cases, replace-lookup-cases, arith,
  eq_iff, str_eq,
}
use laminaria_rust_nim_toolc.Plan.PhysicalWork.{PhysicalWorkUnit}
use laminaria_rust_nim_toolc.Run.Scheduler.State.{find_unit}
use laminaria_rust_nim_toolc.Run.Resources.{ResourceAmount, Resource, amount, Within}
use laminaria_rust_nim_toolc.Run.Commit.{CommitStore, StagedOutput}
use laminaria_rust_nim_toolc.Run.Commit.Agree.{Agrees, Keeps, StoresApart}
use laminaria_rust_nim_toolc.Run.Scheduler.Types.{
  LifecycleTransition, RuntimeWork, ResourceScheduler, completed, committing, state_eq, is_terminal,
}
use laminaria_rust_nim_toolc.Run.Scheduler.Valid.{
  Works, At, DependsOn, Linked, is_started, IsCompleted, Settled, owned, Accounted, Staged,
  Numbered, Valid, Since,
}

pub replaced-At :
    (work : Works) (id : String) (old new : RuntimeWork)
    → At work id old
    → At (replace id new work) id new
replaced-At work id old new h = ground (arith, eq_iff id id, lookup-replace id id old new work h)

-- Where an instance is found in the changed map, it was there with the same definition, and
-- conversely.
module _ (work : Works) (id : String) (old new : RuntimeWork) (there : At work id old)
    (same : new.definition ≡ old.definition) where
  before :
      (asked : String) (runtime : RuntimeWork)
      → At (replace id new work) asked runtime
      → (runtime' : RuntimeWork) × At work asked runtime'
        × (runtime'.definition ≡ runtime.definition)
  before asked runtime h = elim (lookup-replace-cases id asked old new runtime work there h) [
    | inl (e, f) ↦ (
      old,
      subst (λ x. At work x old) (sym e) there,
      sym same ∙ ap (λ (x : RuntimeWork). x.definition) (sym f),
    )
    | inr (_, e) ↦ (runtime, e, refl)
  ]

  after :
      (asked : String) (runtime : RuntimeWork)
      → At work asked runtime
      → (runtime' : RuntimeWork) × At (replace id new work) asked runtime'
        × (runtime'.definition ≡ runtime.definition)
  after asked runtime h = elim (replace-lookup-cases id asked old new runtime work there h) [
    | inl (e, f) ↦ (new, e, same ∙ ap (λ (x : RuntimeWork). x.definition) (sym f))
    | inr e ↦ (runtime, e, refl)
  ]

  depends :
      (a b : RuntimeWork) (dependency : String)
      → a.definition ≡ b.definition
      → DependsOn a dependency
      → DependsOn b dependency
  depends a b dependency e h = subst (λ d. mem dependency d.dependencies ≡ true) e h

  pub replace-Linked :
      (units : List PhysicalWorkUnit) (dependents : List (String × List String))
      → Linked units work dependents
      → Linked units (replace id new work) dependents
  replace-Linked units dependents linked = record {
    dependency_there = λ asked runtime dependency h d.
        let (was, at, e) = before asked runtime h in
        let (producer, there') =
          linked.dependency_there asked was dependency at
            (depends runtime was dependency (sym e) d) in
        let (now, at', _) = after dependency producer there' in (now, at');
    unit_there = λ asked runtime h.
        let (was, at, e) = before asked runtime h in
        let (unit, found) = linked.unit_there asked was at in
        (unit, subst (λ d. find_unit d.work_unit units ≡ some unit) e found);
    consumers_there = λ asked runtime h.
        let (was, at, e) = before asked runtime h in linked.consumers_there asked was at;
    consumer_depends = λ asked consumers consumer h m.
        let (was, at, d) = linked.consumer_depends asked consumers consumer h m in
        let (now, at', e) = after consumer was at in (now, at', depends was now asked (sym e) d);
  }

  -- What has completed stays so.
  replace-IsCompleted :
      (state_eq old.state completed ≡ true → state_eq new.state completed ≡ true)
      → (dependency : String) → IsCompleted work dependency
      → IsCompleted (replace id new work) dependency
  replace-IsCompleted stays dependency h runtime e =
      elim (lookup-replace-cases id dependency old new runtime work there e) [
        | inl (f, g) ↦
            subst (λ x. state_eq x.state completed ≡ true) (sym g)
              (stays (h old (subst (λ x. At work x old) (sym f) there)))
        | inr (_, f) ↦ h runtime f
      ]

  pub replace-Settled :
      (state_eq old.state completed ≡ true → state_eq new.state completed ≡ true)
      → (is_started new ≡ true
          → (dependency : String) → DependsOn new dependency
          → IsCompleted work dependency)
      → Settled work
      → Settled (replace id new work)
  replace-Settled stays started settled asked runtime dependency e s d =
      elim (lookup-replace-cases id asked old new runtime work there e) [
        | inl (f, g) ↦ replace-IsCompleted stays dependency (
            started (subst (λ x. is_started x ≡ true) g s) dependency
              (subst (λ x. DependsOn x dependency) g d))
        | inr (_, f) ↦ replace-IsCompleted stays dependency (settled asked runtime dependency f s d)
      ]

  pub replace-Accounted :
      (allocated allocated' : ResourceAmount)
      → ((r : Resource) → amount r allocated' + owned r old ≡ amount r allocated + owned r new)
      → Accounted allocated work
      → Accounted allocated' (replace id new work)
  replace-Accounted allocated allocated' change h r =
      omega (arith, change r, h r, sum_by-replace (owned r) id old new work there)

  -- The store keeps the staging of the other instances, and has that of this one where it commits.
  pub replace-Staged :
      (store store' : CommitStore)
      → ((writer : String)
          → str_eq id writer ≡ false
          → lookup writer store'.staged_by_writer ≡ lookup writer store.staged_by_writer)
      → (state_eq new.state committing ≡ true
          → (outputs : List StagedOutput) × (lookup id store'.staged_by_writer ≡ some outputs))
      → Staged store work
      → Staged store' (replace id new work)
  replace-Staged store store' others own staged asked runtime e c =
      elim (lookup-replace-cases id asked old new runtime work there e) [
        | inl (f, g) ↦
            subst
              (λ x.
                (outputs : List StagedOutput) × (lookup x store'.staged_by_writer ≡ some outputs))
              (sym f) (own (subst (λ x. state_eq x.state committing ≡ true) g c))
        | inr (apart, f) ↦
            let (outputs, at) = staged asked runtime f c in (outputs, others asked apart ∙ at)
      ]

  pub replace-work_kept :
      is_terminal old.state ≡ false
      → (asked : String) (runtime : RuntimeWork) → At work asked runtime
      → (runtime' : RuntimeWork) × At (replace id new work) asked runtime'
        × (runtime'.definition ≡ runtime.definition)
        × (is_terminal runtime.state ≡ true → runtime'.state ≡ runtime.state)
  replace-work_kept live asked runtime h =
      elim (replace-lookup-cases id asked old new runtime work there h) [
        | inl (e, f) ↦
            (new, e, same ∙ ap (λ (x : RuntimeWork). x.definition) (sym f), λ t. ground arith)
        | inr e ↦ (runtime, e, refl, λ t. refl)
      ]

-- The change of an instance `id` of `s` from `old` to `new`, with what comes with it.
pub record IsChange (s : ResourceScheduler) (id : String) (old new : RuntimeWork)
    (allocated : ResourceAmount) (store : CommitStore) : Type 0 where
  pub there : At s.work id old
  pub same : new.definition ≡ old.definition
  pub live : is_terminal old.state ≡ false
  pub founded :
      is_started new ≡ true
      → (dependency : String) → DependsOn new dependency
      → IsCompleted s.work dependency
  pub moved_amount :
      (r : Resource) → amount r allocated + owned r old ≡ amount r s.allocated + owned r new
  pub within : Within allocated s.budget
  pub apart : StoresApart s.store store id
  pub own_staged :
      state_eq new.state committing ≡ true
      → (outputs : List StagedOutput) × (lookup id store.staged_by_writer ≡ some outputs)
  pub agrees : Agrees store
  pub kept : Keeps s.store store

abbrev pub changed :
    ResourceScheduler
    → String
    → RuntimeWork
    → ResourceAmount
    → CommitStore
    → List LifecycleTransition
    → ℕ
    → ResourceScheduler
changed s id new allocated store transitions next = record s {
  work = replace id new s.work;
  allocated = allocated;
  store = store;
  transitions = transitions;
  next_sequence = next;
}

pub changed-Valid :
    (s : ResourceScheduler) (id : String) (old new : RuntimeWork) (allocated : ResourceAmount)
    (store : CommitStore) (transitions : List LifecycleTransition) (next : ℕ)
    → IsChange s id old new allocated store
    → Numbered transitions next
    → Valid s
    → Valid (changed s id new allocated store transitions next)
changed-Valid s id old new allocated store transitions next c n v = record {
  linked = replace-Linked s.work id old new c.there c.same s.units s.dependents v.linked;
  settled =
      replace-Settled s.work id old new c.there c.same (λ e. live-not_completed old c.live e)
        c.founded v.settled;
  accounted =
      replace-Accounted s.work id old new c.there c.same s.allocated allocated c.moved_amount
        v.accounted;
  affordable = c.within;
  bounded = v.bounded;
  staged =
      replace-Staged s.work id old new c.there c.same s.store store c.apart c.own_staged v.staged;
  agreed = c.agrees;
  numbered = n;
}
  where
    live-not_completed :
        (r : RuntimeWork)
        → is_terminal r.state ≡ false
        → state_eq r.state completed ≡ true
        → state_eq new.state completed ≡ true
    live-not_completed r l e = ground arith

pub changed-Since :
    (s : ResourceScheduler) (id : String) (old new : RuntimeWork) (allocated : ResourceAmount)
    (store : CommitStore) (events : List LifecycleTransition) (next : ℕ)
    → IsChange s id old new allocated store
    → Since s (changed s id new allocated store (s.transitions ++ events) next)
changed-Since s id old new allocated store events next c = record {
  outputs_kept = c.kept;
  work_kept = replace-work_kept s.work id old new c.there c.same c.live;
  history_kept = (events, refl);
}
