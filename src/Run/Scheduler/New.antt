-- ===== src/Run/Scheduler/New.antt =====
-- The scheduler that `ResourceScheduler::new` gives has the invariant.
use laminaria_rust_nim_toolc.Prelude.{
  ℕ, zero, suc, ◌≡◌, refl, sym, subst, ◌∙◌, Bool, true, false, ◌||◌, ◌&&◌, String, List, [], ◌∷◌,
  Option, none, some, lookup, keys, mem, All, All-mem, mem-All, mem-keys, lookup-keys,
  if◌then◌else◌, arith,
}
use laminaria_rust_nim_toolc.Plan.PhysicalWork.{
  DataKind, WorkUnitId, PhysicalWorkUnit, PhysicalWorkContract, WorkInput,
}
use laminaria_rust_nim_toolc.Run.Resources.{ResourceAmount, IsAmount}
use laminaria_rust_nim_toolc.Run.Commit.{declares}
use laminaria_rust_nim_toolc.Run.Scheduler.Types.{
  PhysicalWorkInstance, SchedulerContractError, ResourceScheduler, Outcome, Step, ◌>>=◌, return,
  unwrap, throw, dependency_cycle,
}
use laminaria_rust_nim_toolc.Run.Scheduler.State.{runtime_of, unit_of, find_unit}
use laminaria_rust_nim_toolc.Run.Scheduler.Start.{
  add_instance, for_each, no_dependents, link_dependencies, bind_all, is_supplied, check_input,
  bind_inputs, nonempty, supplied_kinds, set_first_state, is_external, input_source_accepts,
}
use laminaria_rust_nim_toolc.Run.Scheduler.Cycle.{
  Visits, visit_each, enter, visit, visit_fuel, no_visits, refuse_cycle, for_all_ids,
  nothing_scheduled, new,
}
use laminaria_rust_nim_toolc.Run.Scheduler.Valid.{Valid}
use laminaria_rust_nim_toolc.Run.Scheduler.Starting.{
  Yields, >>=-Yields, weaken-Yields, for_each-Yields, IsFresh, IsWired, add_instance-Yields,
}
use laminaria_rust_nim_toolc.Run.Scheduler.Beginning.{
  DependenciesThere, IsReady, link_dependencies-Yields, fresh-Valid, fresh-IsIdle,
  put_bindings-Yields, set_first_state-Yields,
}

-- A step that only reads.
abbrev Reads : {A : Type 0} → Step A → Type 0
Reads m = (s : ResourceScheduler) → Yields (λ _ s'. s' ≡ s) (m s)

>>=-Reads :
    {A B : Type 0} (m : Step A) (k : A → Step B)
    → Reads m
    → ((a : A) → Reads (k a))
    → Reads (m >>= k)
>>=-Reads m k h f s =
    >>=-Yields (λ _ t. t ≡ s) (λ _ t. t ≡ s) m k s (h s)
      (λ a t e. weaken-Yields (λ _ u. u ≡ t) (λ _ u. u ≡ s) (k a t) (f a t) (λ _ u d. d ∙ e))

if_Reads : {A : Type 0} (b : Bool) (x y : Step A) → Reads x → Reads y → Reads (if b then x else y)
if_Reads true x y h k = h
if_Reads false x y h k = k

option_Reads :
    {A B : Type 0} (o : Option A) (missing : Step B) (found : A → Step B)
    → Reads missing
    → ((a : A) → Reads (found a))
    → Reads (elim o [ none ↦ missing | some a ↦ found a ])
option_Reads none missing found h k = h
option_Reads (some a) missing found h k = k a

unwrap-Reads :
    {A : Type 0} (s : ResourceScheduler) (o : Option A) → Yields (λ _ s'. s' ≡ s) (unwrap o s)
unwrap-Reads s none = tt
unwrap-Reads s (some a) = refl

runtime_of-Reads : (id : String) → Reads (runtime_of id)
runtime_of-Reads id s = unwrap-Reads s (lookup id s.work)

unit_of-Reads : (id : WorkUnitId) → Reads (unit_of id)
unit_of-Reads id s = unwrap-Reads s (find_unit id s.units)

nonempty-Reads : (e : SchedulerContractError) (kinds : List DataKind) → Reads (nonempty e kinds)
nonempty-Reads e [] s = tt
nonempty-Reads e (kind ∷ kinds) s = refl

bind_all-Reads :
    (id : String) (consumer : PhysicalWorkUnit) (ids : List String)
    → Reads (bind_all id consumer ids)
bind_all-Reads id consumer [] = λ s. refl
bind_all-Reads id consumer (x ∷ ids) =
    >>=-Reads (runtime_of x) _ (runtime_of-Reads x) (λ producer_work.
      >>=-Reads (unit_of producer_work.definition.work_unit) _ (unit_of-Reads _) (λ producer.
        >>=-Reads
          (nonempty (SchedulerContractError.invalid_dependency_output_kind id x)
            (supplied_kinds consumer.inputs producer_work.definition.work_unit producer.outputs))
          _ (nonempty-Reads _ _)
          (λ _.
            >>=-Reads (bind_all id consumer ids) _ (bind_all-Reads id consumer ids)
              (λ bindings s. refl))))

is_supplied-Reads :
    (input : WorkInput) (bindings : List (String × List DataKind))
    → Reads (is_supplied input bindings)
is_supplied-Reads input [] = λ s. refl
is_supplied-Reads input ((x, kinds) ∷ bindings) =
    >>=-Reads (runtime_of x) _ (runtime_of-Reads x) (λ producer.
      if_Reads
        (declares input.kind kinds
          && input_source_accepts input.source producer.definition.work_unit)
        (return true) (is_supplied input bindings) (λ s. refl) (is_supplied-Reads input bindings))

check_input-Reads :
    (id : String) (bindings : List (String × List DataKind)) (input : WorkInput)
    → Reads (check_input id bindings input)
check_input-Reads id bindings input =
    if_Reads (input.optional || is_external input.source) (return tt) _ (λ s. refl)
      (>>=-Reads (is_supplied input bindings) _ (is_supplied-Reads input bindings) (λ supplied.
        if_Reads supplied (return tt)
          (throw (SchedulerContractError.missing_input_dependency id input.kind)) (λ s. refl)
          (λ s. tt)))

check_all-Reads :
    (id : String) (bindings : List (String × List DataKind)) (inputs : List WorkInput)
    → Reads (for_each (check_input id bindings) inputs)
check_all-Reads id bindings [] = λ s. refl
check_all-Reads id bindings (input ∷ inputs) =
    >>=-Reads (check_input id bindings input) _ (check_input-Reads id bindings input)
      (λ _. check_all-Reads id bindings inputs)

-- A step that reads, and then one that keeps what was.
Reads-Yields :
    {A B : Type 0} (P : ResourceScheduler → Type 0) (R : B → ResourceScheduler → Type 0)
    (m : Step A) (k : A → Step B) (s : ResourceScheduler)
    → Reads m
    → P s
    → ((a : A) (t : ResourceScheduler) → P t → Yields R (k a t))
    → Yields R ((m >>= k) s)
Reads-Yields P R m k s h p f =
    >>=-Yields (λ _ t. t ≡ s) R m k s (h s) (λ a t e. f a t (subst P (sym e) p))

bind_inputs-Yields :
    (id : String) (s : ResourceScheduler)
    → IsReady s
    → Yields {A = Unit} (λ _ s'. IsReady s') (bind_inputs id s)
bind_inputs-Yields id s r =
    Reads-Yields IsReady _ (runtime_of id) _ s (runtime_of-Reads id) r (λ runtime t r'.
      Reads-Yields IsReady _ (unit_of runtime.definition.work_unit) _ t (unit_of-Reads _) r'
        (λ consumer u q.
          Reads-Yields IsReady _ (bind_all id consumer runtime.definition.dependencies) _ u
            (bind_all-Reads id consumer runtime.definition.dependencies) q
            (λ bindings v q'.
              Reads-Yields IsReady _ (for_each (check_input id bindings) consumer.inputs) _ v
                (check_all-Reads id bindings consumer.inputs) q'
                (λ _ w q''. put_bindings-Yields id bindings w q''))))

visit_each-Reads :
    (body : String → Visits → Step (Option Visits)) (ids : List String) (sets : Visits)
    → ((id : String) (sets : Visits) → Reads (body id sets))
    → Reads (visit_each body ids sets)
visit_each-Reads body [] sets h = λ s. refl
visit_each-Reads body (id ∷ ids) sets h = >>=-Reads (body id sets) _ (h id sets) (λ after.
    option_Reads after (return none) (visit_each body ids) (λ s. refl)
      (λ sets'. visit_each-Reads body ids sets' h))

visit-Reads : (fuel : ℕ) (id : String) (sets : Visits) → Reads (visit fuel id sets)
visit-Reads zero id sets s = tt
visit-Reads (suc fuel) id sets s =
    if_Reads (mem id sets.done) (return (some sets)) _ (λ t. refl)
      (if_Reads (mem id sets.visiting) (return none) (enter (visit fuel) id sets) (λ t. refl)
        (>>=-Reads (runtime_of id) _ (runtime_of-Reads id) (λ runtime.
          >>=-Reads (visit_each (visit fuel) runtime.definition.dependencies _) _
            (visit_each-Reads (visit fuel) runtime.definition.dependencies _ (visit-Reads fuel))
            (λ after t. refl))))
      s

refuse_cycle-Reads : Reads refuse_cycle
refuse_cycle-Reads s =
    >>=-Reads (visit_each (visit (visit_fuel s)) (keys s.work) no_visits) _
      (visit_each-Reads (visit (visit_fuel s)) (keys s.work) no_visits (visit-Reads (visit_fuel s)))
      (λ after.
        option_Reads after (throw dependency_cycle) (λ _. return tt) (λ t. tt) (λ _ t. refl))
      s

-- A loop keeps an invariant.
for_each-Keeps :
    {A : Type 0} (I : ResourceScheduler → Type 0) (body : A → Step Unit) (xs : List A)
    (s : ResourceScheduler)
    → ((x : A) (t : ResourceScheduler) → I t → Yields (λ _ t'. I t') (body x t))
    → I s
    → Yields (λ _ s'. I s') (for_each body xs s)
for_each-Keeps I body [] s turn i = i
for_each-Keeps I body (x ∷ xs) s turn i =
    >>=-Yields (λ _ t. I t) (λ _ t. I t) (body x) _ s (turn x s i)
      (λ _ t j. for_each-Keeps I body xs t turn j)

lookup-no_dependents :
    (id : String) (ids consumers : List String)
    → lookup id (no_dependents ids) ≡ some consumers
    → (mem id ids ≡ true) × (consumers ≡ [])
unfolding lookup
lookup-no_dependents id [] consumers h = ground (arith, h)
lookup-no_dependents id (x ∷ ids) consumers h =
    ground (arith, lookup-no_dependents id ids consumers, h)

no_dependents-lookup :
    (id : String) (ids : List String) → mem id ids ≡ true → lookup id (no_dependents ids) ≡ some []
unfolding lookup
no_dependents-lookup id [] h = ground (arith, h)
no_dependents-lookup id (x ∷ ids) h = ground (arith, no_dependents-lookup id ids, h)

unlinked : ResourceScheduler → ResourceScheduler
unlinked s = record s { dependents = no_dependents (keys s.work) }

unlinked-IsWired : (s : ResourceScheduler) → IsWired s.work (unlinked s)
unfolding unlinked
unlinked-IsWired s = record {
  same = refl;
  consumers_there = λ id runtime at.
      ([], no_dependents-lookup id (keys s.work) (lookup-keys id runtime s.work at));
  producer_there =
      λ id consumers l. mem-keys id s.work (lookup-no_dependents id (keys s.work) consumers l).0;
  consumer_depends = λ id consumers consumer l m.
      ground (arith, lookup-no_dependents id (keys s.work) consumers l, m);
}

unlinked-IsFresh :
    (budget : ResourceAmount) (s : ResourceScheduler)
    → IsFresh budget s
    → IsFresh budget (unlinked s)
unfolding unlinked
unlinked-IsFresh budget s f = record {
  all_blocked = f.all_blocked;
  unit_there = f.unit_there;
  unowned = f.unowned;
  rest = f.rest;
}

nothing-IsFresh :
    (units : List PhysicalWorkUnit) (budget : ResourceAmount)
    → IsFresh budget (nothing_scheduled units budget)
unfolding lookup
nothing-IsFresh units budget = record {
  all_blocked = λ id runtime at. ground (arith, at);
  unit_there = λ id runtime at. ground (arith, at);
  unowned = λ r. refl;
  rest = (refl, refl, refl, refl, refl);
}

-- Once the consumers are known, the invariant holds, and it stays.
linked-Yields :
    (budget : ResourceAmount) (s : ResourceScheduler)
    → IsAmount budget
    → IsFresh budget s
    → IsWired s.work s
    → Yields {A = Unit}
        (λ _ s'. IsReady s')
        ((for_all_ids link_dependencies >>= λ _.
            for_all_ids bind_inputs >>= λ _. refuse_cycle >>= λ _. for_all_ids set_first_state)
          s)
linked-Yields budget s bounded f w =
    >>=-Yields (λ _ t. IsReady t) _ (for_all_ids link_dependencies) _ s
      (weaken-Yields
        (λ _ t.
          (IsFresh budget t × IsWired s.work t) × All (DependenciesThere s.work) (keys s.work))
        _ (for_all_ids link_dependencies s)
        (for_each-Yields link_dependencies (λ t. IsFresh budget t × IsWired s.work t)
          (DependenciesThere s.work) (λ id. mem id (keys s.work) ≡ true) (keys s.work) s
          (λ id t _ i. link_dependencies-Yields budget s.work id t i)
          (mem-All (λ id. mem id (keys s.work) ≡ true) (keys s.work) (λ id m. m)) (f, w))
        (λ _ t ((f', w'), all). (
          fresh-Valid budget t bounded f' (subst (λ work. IsWired work t) (sym w'.same) w') (
              subst (λ work. (id : String) → mem id (keys work) ≡ true → DependenciesThere work id)
                (sym w'.same) (λ id m. All-mem (DependenciesThere s.work) id (keys s.work) all m)),
          fresh-IsIdle budget t f',
        )))
      (λ _ t r.
        >>=-Yields (λ _ u. IsReady u) _ (for_all_ids bind_inputs) _ t
          (for_each-Keeps IsReady bind_inputs (keys t.work) t bind_inputs-Yields r)
          (λ _ u r'. Reads-Yields IsReady _ refuse_cycle _ u refuse_cycle-Reads r' (λ _ v q.
            for_each-Keeps IsReady set_first_state (keys v.work) v set_first_state-Yields q)))

pub new-Valid :
    (contract : PhysicalWorkContract) (instances : List PhysicalWorkInstance)
    (budget : ResourceAmount) (s : ResourceScheduler)
    → IsAmount budget
    → new contract instances budget ≡ Outcome.ok tt s
    → Valid s
unfolding new unlinked
new-Valid contract instances budget s bounded e =
    (subst (λ o. Yields {A = Unit} (λ _ s'. IsReady s') o) e
      (>>=-Yields (λ _ t. IsFresh budget t) _ (for_each add_instance instances) _
        (nothing_scheduled contract.units budget)
        (for_each-Keeps (IsFresh budget) add_instance instances _
          (λ i t f. add_instance-Yields budget t i f) (nothing-IsFresh contract.units budget))
        (λ _ t f.
          linked-Yields budget (unlinked t) bounded (unlinked-IsFresh budget t f)
            (unlinked-IsWired t)))).0
