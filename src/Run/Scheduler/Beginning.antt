-- ===== src/Run/Scheduler/Beginning.antt =====
-- `ResourceScheduler::new` gives a scheduler with the invariant.
use laminaria_rust_nim_toolc.Prelude.{
  ◌≡◌, inl, inr, refl, sym, subst, ◌∙◌, ap, true, false, String, List, [], ◌∷◌, Option, none, some,
  lookup, replace, keys, mem, All, All-mem, mem-All, lookup-keys, lookup-replace-cases, arith,
}
use laminaria_rust_nim_toolc.Plan.PhysicalWork.{DataKind}
use laminaria_rust_nim_toolc.Run.Resources.{
  Resource, cpu, memory, io, external, ResourceAmount, no_resources, IsAmount, amount,
}
use laminaria_rust_nim_toolc.Run.Commit.{empty_store, visible_in, all_staged}
use laminaria_rust_nim_toolc.Run.Commit.Agree.{Agrees}
use laminaria_rust_nim_toolc.Run.Scheduler.Types.{
  RuntimeWork, ResourceScheduler, Outcome, Step, ◌>>=◌, unwrap, blocked, ready, committing,
  state_eq, is_terminal, owns_resources, dependencies, waiting, dependencies_satisfied,
}
use laminaria_rust_nim_toolc.Run.Scheduler.State.{runtime_of, moved, pending_dependencies}
use laminaria_rust_nim_toolc.Run.Scheduler.Start.{
  for_each, link, link_dependencies, put_bindings, first_state, set_first_state,
}
use laminaria_rust_nim_toolc.Run.Scheduler.Cycle.{new}
use laminaria_rust_nim_toolc.Run.Scheduler.Valid.{
  Numbered, Works, At, DependsOn, is_started, Valid, IsCompleted,
}
use laminaria_rust_nim_toolc.Run.Scheduler.Change.{changed-Valid}
use laminaria_rust_nim_toolc.Run.Scheduler.Ends.{
  record_state-Good, set_state-At, runtime_of-At, next, Since-refl,
}
use laminaria_rust_nim_toolc.Run.Scheduler.Committing.{pending_among-found}
use laminaria_rust_nim_toolc.Run.Scheduler.Admitting.{quiet-IsChange}
use laminaria_rust_nim_toolc.Run.Scheduler.Starting.{
  Yields, weaken-Yields, for_each-Yields, IsFresh, IsWired, There, link-Yields,
}

-- What is missing panics, so only what is there matters.
runtime_of-Yields :
    {B : Type 0} (R : B → ResourceScheduler → Type 0) (id : String) (k : RuntimeWork → Step B)
    (s : ResourceScheduler)
    → ((runtime : RuntimeWork) → At s.work id runtime → Yields R (k runtime s))
    → Yields R ((runtime_of id >>= k) s)
runtime_of-Yields {B = B} R id k s h = found (lookup id s.work) h
  where
    found :
        (o : Option RuntimeWork)
        → ((runtime : RuntimeWork) → o ≡ some runtime → Yields R (k runtime s))
        → Yields R (((λ (t : ResourceScheduler). unwrap o t) >>= k) s)
    found none f = tt
    found (some runtime) f = f runtime refl

-- All dependencies of an instance are there.
abbrev pub DependenciesThere : Works → String → Type 0
DependenciesThere work id =
    (runtime : RuntimeWork) (dependency : String)
    → At work id runtime
    → DependsOn runtime dependency
    → There work dependency

pub link_dependencies-Yields :
    (budget : ResourceAmount) (work : Works) (id : String) (s : ResourceScheduler)
    → IsFresh budget s × IsWired work s
    → Yields {A = Unit}
        (λ _ s'. (IsFresh budget s' × IsWired work s') × DependenciesThere work id)
        (link_dependencies id s)
link_dependencies-Yields budget work id s i = runtime_of-Yields {B = Unit} _ id _ s (λ runtime at.
    let there = subst (λ w. At w id runtime) i.1.same at in
    weaken-Yields
      (λ _ s'.
        (IsFresh budget s' × IsWired work s') × All (There work) runtime.definition.dependencies)
      _ (for_each (link id) runtime.definition.dependencies s)
      (for_each-Yields (link id) (λ t. IsFresh budget t × IsWired work t) (There work)
        (DependsOn runtime) runtime.definition.dependencies s
        (λ dependency t depends j. link-Yields budget work t id dependency runtime there depends j)
        (mem-All (DependsOn runtime) runtime.definition.dependencies (λ x m. m)) i)
      (λ _ s' (j, all). (
        j,
        λ other dependency at' depends.
            All-mem (There work) dependency runtime.definition.dependencies all
              (ground (arith, there, at', depends)),
      )))

-- A scheduler in which nothing has started and every dependency is there.
pub fresh-Valid :
    (budget : ResourceAmount) (s : ResourceScheduler)
    → IsAmount budget
    → IsFresh budget s
    → IsWired s.work s
    → ((id : String) → mem id (keys s.work) ≡ true → DependenciesThere s.work id)
    → Valid s
unfolding visible_in all_staged
fresh-Valid budget s bounded f w all = record {
  linked = record {
    dependency_there = λ id runtime dependency at depends.
        all id (lookup-keys id runtime s.work at) runtime dependency at depends;
    unit_there = f.unit_there;
    consumers_there = w.consumers_there;
    consumer_depends = w.consumer_depends;
  };
  settled = λ id runtime dependency at started.
      let (at_first, no_wait) = f.all_blocked id runtime at in
      idle runtime at_first no_wait started;
  accounted = λ r. ap (amount r) f.rest.1 ∙ nothing r ∙ sym (f.unowned r);
  affordable = λ r. omega (arith, ap (amount r) f.rest.1, nothing r);
  bounded = subst IsAmount (sym f.rest.0) bounded;
  staged = λ id runtime at commits.
      let (at_first, _) = f.all_blocked id runtime at in not_committing runtime at_first commits;
  agreed = subst Agrees (sym f.rest.2) none_agree;
  numbered =
      subst (λ t. Numbered t s.next_sequence) (sym f.rest.3)
        (subst (λ n. Numbered [] n) (sym f.rest.4) (refl, λ i event g. ground (arith, g)));
}
  where
    nothing : (r : Resource) → amount r no_resources ≡ 0
    nothing cpu = refl
    nothing memory = refl
    nothing io = refl
    nothing external = refl

    none_agree : Agrees empty_store
    none_agree target a b (inl (o, e, _)) q = ground (arith, e)
    none_agree target a b (inr e) q = elim e [ ]

    unstarted :
        (runtime : RuntimeWork)
        → runtime.state ≡ blocked
        → runtime.wait_reason ≡ none
        → is_started runtime ≡ true
        → ⊥
    unstarted runtime e n h = ground (arith, e, n, h)

    idle :
        {X : Type 0} (runtime : RuntimeWork)
        → runtime.state ≡ blocked
        → runtime.wait_reason ≡ none
        → is_started runtime ≡ true
        → X
    idle runtime e n h = elim (unstarted runtime e n h) [ ]

    apart : false ≡ true → ⊥
    apart h = ground (arith, h)

    not_committing :
        {X : Type 0} (runtime : RuntimeWork)
        → runtime.state ≡ blocked
        → state_eq runtime.state committing ≡ true
        → X
    not_committing runtime e h = elim (apart (subst (λ x. state_eq x committing ≡ true) e h)) [ ]

-- No instance has ended, and none owns resources.
abbrev pub IsIdle : ResourceScheduler → Type 0
IsIdle s =
    (id : String) (runtime : RuntimeWork)
    → At s.work id runtime
    → (is_terminal runtime.state ≡ false) × (owns_resources runtime.state ≡ false)

abbrev pub IsReady : ResourceScheduler → Type 0
IsReady s = Valid s × IsIdle s

replace-IsIdle :
    (work : Works) (id : String) (old new : RuntimeWork)
    → At work id old
    → (is_terminal new.state ≡ false) × (owns_resources new.state ≡ false)
    → ((x : String) (runtime : RuntimeWork)
        → At work x runtime
        → (is_terminal runtime.state ≡ false) × (owns_resources runtime.state ≡ false))
    → (x : String) (runtime : RuntimeWork) → At (replace id new work) x runtime
    → (is_terminal runtime.state ≡ false) × (owns_resources runtime.state ≡ false)
replace-IsIdle work id old new there idle h x runtime at =
    elim (lookup-replace-cases id x old new runtime work there at) [
      | inl (_, e) ↦
          subst
            (λ (y : RuntimeWork). (is_terminal y.state ≡ false) × (owns_resources y.state ≡ false))
            (sym e) idle
      | inr (_, e) ↦ h x runtime e
    ]

pub put_bindings-Yields :
    (id : String) (bindings : List (String × List DataKind)) (s : ResourceScheduler)
    → IsReady s
    → Yields {A = Unit} (λ _ s'. IsReady s') (put_bindings id bindings s)
put_bindings-Yields id bindings s (v, idle) = runtime_of-Yields {B = Unit} _ id _ s (λ old there.
    let new = record old { dependency_output_kinds = bindings } in
    (
      changed-Valid s id old new s.allocated s.store s.transitions s.next_sequence
          (record {
            there = there;
            same = refl;
            live = (idle id old there).0;
            founded = λ started d. v.settled id old d there started;
            moved_amount = λ r. refl;
            within = v.affordable;
            apart = λ writer _. refl;
            own_staged = λ commits. v.staged id old there commits;
            agrees = v.agreed;
            kept = λ target output e. e;
          })
          v.numbered v,
      replace-IsIdle s.work id old new there (idle id old there) idle,
    ))

panics :
    {A B : Type 0} (m : Step A) (k : A → Step B) (s : ResourceScheduler)
    → m s ≡ Outcome.panic
    → (m >>= k) s ≡ Outcome.panic
panics {A = A} m k s e = ap (λ (o : Outcome A). ((λ (_ : ResourceScheduler). o) >>= k) s) e

pub set_first_state-Yields :
    (id : String) (s : ResourceScheduler)
    → IsReady s
    → Yields {A = Unit} (λ _ s'. IsReady s') (set_first_state id s)
set_first_state-Yields id s (v, idle) =
    weaken-Yields (λ _ s'. IsReady s') _ (set_first_state id s) (found (lookup id s.work) refl)
      (λ _ s' r. r)
  where
    first :
        (old : RuntimeWork)
        → At s.work id old
        → (pending : List String)
        → (pending ≡ [] → (x : String) → DependsOn old x → IsCompleted s.work x)
        → Yields {A = Unit} (λ _ s'. IsReady s') (first_state id pending s)
    first old there [] all =
        subst (λ o. Yields {A = Unit} (λ _ s'. IsReady s') o)
          (sym (set_state-At s id old ready none dependencies_satisfied there))
          (
            (record_state-Good s s id old ready none dependencies_satisfied s.allocated s.store
                (quiet-IsChange s id old ready none v there (idle id old there).0
                  (λ r. ground (arith, idle id old there)) refl (λ _. all refl))
                (v, Since-refl s)).0,
            replace-IsIdle s.work id old (moved ready none old) there (refl, refl) idle,
          )
    first old there (x ∷ pending) all =
        let wait = some (dependencies (x ∷ pending)) in
        let reason = waiting (dependencies (x ∷ pending)) in
        subst (λ o. Yields {A = Unit} (λ _ s'. IsReady s') o)
          (sym (set_state-At s id old blocked wait reason there))
          (
            (record_state-Good s s id old blocked wait reason s.allocated s.store
                (quiet-IsChange s id old blocked wait v there (idle id old there).0
                  (λ r. ground (arith, idle id old there)) refl (λ h. ground (arith, h)))
                (v, Since-refl s)).0,
            replace-IsIdle s.work id old (moved blocked wait old) there (refl, refl) idle,
          )

    found :
        (o : Option RuntimeWork)
        → lookup id s.work ≡ o
        → Yields {A = Unit} (λ _ s'. IsReady s') (set_first_state id s)
    found none e =
        subst (λ o. Yields {A = Unit} (λ _ s'. IsReady s') o)
          (sym (
            panics (pending_dependencies id) (first_state id) s
              (panics (runtime_of id) _ s (rw (runtime_of, e) refl))))
          tt
    found (some old) e =
        let (pending, p, all) =
          pending_among-found s old.definition.dependencies
            (λ x d. v.linked.dependency_there id old x e d) in
        subst (λ o. Yields {A = Unit} (λ _ s'. IsReady s') o)
          (sym (
            next (pending_dependencies id) (first_state id) s s pending
              (next (runtime_of id) _ s s old (runtime_of-At s id old e) ∙ p)))
          (first old e pending all)

pub fresh-IsIdle : (budget : ResourceAmount) (s : ResourceScheduler) → IsFresh budget s → IsIdle s
fresh-IsIdle budget s f id runtime at =
    let (first, _) = f.all_blocked id runtime at in
    (ap (λ x. is_terminal x) first, ap (λ x. owns_resources x) first)
