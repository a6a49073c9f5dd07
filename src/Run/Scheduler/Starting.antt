-- ===== src/Run/Scheduler/Starting.antt =====
-- `ResourceScheduler::new`: what its checks establish for the work and the consumers.
use laminaria_rust_nim_toolc.Prelude.{
  ◌≡◌, ◌⊎◌, inl, inr, refl, sym, subst, ap, Bool, true, false, String, List, [], ◌∷◌, Option, none,
  some, lookup, insert, replace, keys, mem, All, lookup-insert-cases, lookup-replace-cases,
  replace-lookup-cases, set_insert, mem-set_insert, sum_by, sum_by-insert, if◌then◌else◌, arith,
  eq_iff, str_eq, Bool-cases,
}
use laminaria_rust_nim_toolc.Plan.PhysicalWork.{PhysicalWorkUnit}
use laminaria_rust_nim_toolc.Run.Resources.{Resource, ResourceAmount, no_resources}
use laminaria_rust_nim_toolc.Run.Commit.{empty_store}
use laminaria_rust_nim_toolc.Run.Scheduler.Types.{
  PhysicalWorkInstance, SchedulerContractError, RuntimeWork, ResourceScheduler, Outcome, Step,
  ◌>>=◌, blocked,
}
use laminaria_rust_nim_toolc.Run.Scheduler.State.{find_unit}
use laminaria_rust_nim_toolc.Run.Scheduler.Start.{
  check_instance, fresh, add_instance, for_each, link, check_reservation,
}
use laminaria_rust_nim_toolc.Run.Scheduler.Valid.{Works, At, DependsOn, owned}

-- What holds where the call gives a value.
abbrev pub Yields : {A : Type 0} → (A → ResourceScheduler → Type 0) → Outcome A → Type 0
Yields Q (Outcome.ok a s) = Q a s
Yields Q (Outcome.err e s) = Unit
Yields Q Outcome.panic = Unit
Yields Q Outcome.exhausted = Unit

outcome-Yields :
    {A B : Type 0} (Q : A → ResourceScheduler → Type 0) (R : B → ResourceScheduler → Type 0)
    (o : Outcome A) (k : A → Step B) (s : ResourceScheduler)
    → Yields Q o
    → ((a : A) (s' : ResourceScheduler) → Q a s' → Yields R (k a s'))
    → Yields R (((λ (_ : ResourceScheduler). o) >>= k) s)
outcome-Yields Q R (Outcome.ok a s') k s q f = f a s' q
outcome-Yields Q R (Outcome.err e s') k s q f = tt
outcome-Yields Q R Outcome.panic k s q f = tt
outcome-Yields Q R Outcome.exhausted k s q f = tt

pub >>=-Yields :
    {A B : Type 0} (Q : A → ResourceScheduler → Type 0) (R : B → ResourceScheduler → Type 0)
    (m : Step A) (k : A → Step B) (s : ResourceScheduler)
    → Yields Q (m s)
    → ((a : A) (s' : ResourceScheduler) → Q a s' → Yields R (k a s'))
    → Yields R ((m >>= k) s)
>>=-Yields Q R m k s h f = outcome-Yields Q R (m s) k s h f

pub weaken-Yields :
    {A : Type 0} (Q R : A → ResourceScheduler → Type 0) (o : Outcome A)
    → Yields Q o
    → ((a : A) (s : ResourceScheduler) → Q a s → R a s)
    → Yields R o
weaken-Yields Q R (Outcome.ok a s) q f = f a s q
weaken-Yields Q R (Outcome.err e s) q f = tt
weaken-Yields Q R Outcome.panic q f = tt
weaken-Yields Q R Outcome.exhausted q f = tt

-- A loop keeps an invariant, and leaves what each turn leaves.
pub for_each-Yields :
    {A : Type 0} (body : A → Step Unit) (I : ResourceScheduler → Type 0) (Q P : A → Type 0)
    (xs : List A) (s : ResourceScheduler)
    → ((x : A) (t : ResourceScheduler) → P x → I t → Yields (λ _ t'. I t' × Q x) (body x t))
    → All P xs
    → I s
    → Yields (λ _ s'. I s' × All Q xs) (for_each body xs s)
for_each-Yields body I Q P [] s turn ps i = (i, tt)
for_each-Yields body I Q P (x ∷ xs) s turn (p, ps) i =
    >>=-Yields (λ _ t. I t × Q x) (λ _ t. I t × (Q x × All Q xs)) (body x) _ s (turn x s p i)
      (λ _ t (j, q).
        weaken-Yields (λ _ u. I u × All Q xs) (λ _ u. I u × (Q x × All Q xs)) (for_each body xs t)
          (for_each-Yields body I Q P xs t turn ps j) (λ _ u (k, qs). (k, (q, qs))))

-- Nothing has happened yet to the work.
pub record IsFresh (budget : ResourceAmount) (s : ResourceScheduler) : Type 0 where
  pub all_blocked :
      (id : String) (runtime : RuntimeWork)
      → At s.work id runtime
      → (runtime.state ≡ blocked) × (runtime.wait_reason ≡ none)
  pub unit_there :
      (id : String) (runtime : RuntimeWork)
      → At s.work id runtime
      → (unit : PhysicalWorkUnit) × (find_unit runtime.definition.work_unit s.units ≡ some unit)
  pub unowned : (r : Resource) → sum_by (owned r) s.work ≡ 0
  pub rest :
      (s.budget ≡ budget)
      × (s.allocated ≡ no_resources)
      × (s.store ≡ empty_store)
      × (s.transitions ≡ [])
      × (s.next_sequence ≡ 0)

check_instance-none :
    (s : ResourceScheduler) (i : PhysicalWorkInstance)
    → check_instance s i ≡ none
    → (unit : PhysicalWorkUnit) × (find_unit i.work_unit s.units ≡ some unit)
check_instance-none s i h =
    found (mem i.instance_id (keys s.work)) (find_unit i.work_unit s.units) refl h
  where
    found :
        (b : Bool) (o : Option PhysicalWorkUnit)
        → find_unit i.work_unit s.units ≡ o
        → (if b then some (SchedulerContractError.duplicate_instance i.instance_id) else elim o [
          | none ↦ some (SchedulerContractError.unknown_work_unit i.instance_id i.work_unit)
          | some unit ↦ check_reservation unit s.budget i
        ])
          ≡ none
        → (unit : PhysicalWorkUnit) × (find_unit i.work_unit s.units ≡ some unit)
    found true o e k = ground (arith, k)
    found false none e k = ground (arith, k)
    found false (some unit) e k = (unit, e)

pub add_instance-Yields :
    (budget : ResourceAmount) (s : ResourceScheduler) (i : PhysicalWorkInstance)
    → IsFresh budget s
    → Yields {A = Unit} (λ _ s'. IsFresh budget s') (add_instance i s)
add_instance-Yields budget s i h = checked (check_instance s i) refl
  where
    added :
        (id : String) (runtime : RuntimeWork)
        → At (insert i.instance_id (fresh i) s.work) id runtime
        → (runtime ≡ fresh i) ⊎ At s.work id runtime
    added id runtime at = lookup-insert-cases i.instance_id id (fresh i) runtime s.work at

    checked :
        (o : Option SchedulerContractError)
        → check_instance s i ≡ o
        → Yields {A = Unit}
            (λ _ s'. IsFresh budget s')
            (elim o [
              | some e ↦ Outcome.err e s
              | none ↦ Outcome.ok tt (record s { work = insert i.instance_id (fresh i) s.work })
            ])
    checked (some e) k = tt
    checked none k = record {
      all_blocked = λ id runtime at. elim (added id runtime at) [
        | inl e ↦ (ap (λ (x : RuntimeWork). x.state) e, ap (λ (x : RuntimeWork). x.wait_reason) e)
        | inr old ↦ h.all_blocked id runtime old
      ];
      unit_there = λ id runtime at. elim (added id runtime at) [
        | inl e ↦
            subst
              (λ (x : RuntimeWork).
                (unit : PhysicalWorkUnit) × (find_unit x.definition.work_unit s.units ≡ some unit))
              (sym e) (check_instance-none s i k)
        | inr old ↦ h.unit_there id runtime old
      ];
      unowned =
          λ r. omega (arith, sum_by-insert (owned r) i.instance_id (fresh i) s.work, h.unowned r);
      rest = h.rest;
    }

-- The consumers of `work`: every instance has some, all are there and depend on it.
pub record IsWired (work : Works) (s : ResourceScheduler) : Type 0 where
  pub same : s.work ≡ work
  pub consumers_there :
      (id : String) (runtime : RuntimeWork)
      → At work id runtime
      → (consumers : List String) × (lookup id s.dependents ≡ some consumers)
  pub producer_there :
      (id : String) (consumers : List String)
      → lookup id s.dependents ≡ some consumers
      → (runtime : RuntimeWork) × At work id runtime
  pub consumer_depends :
      (id : String) (consumers : List String) (consumer : String)
      → lookup id s.dependents ≡ some consumers
      → mem consumer consumers ≡ true
      → (runtime : RuntimeWork) × At work consumer runtime × DependsOn runtime id

abbrev pub There : Works → String → Type 0
There work id = (runtime : RuntimeWork) × At work id runtime

pub link-Yields :
    (budget : ResourceAmount) (work : Works) (s : ResourceScheduler) (id dependency : String)
    (runtime : RuntimeWork)
    → At work id runtime
    → DependsOn runtime dependency
    → IsFresh budget s × IsWired work s
    → Yields {A = Unit}
        (λ _ s'. (IsFresh budget s' × IsWired work s') × There work dependency)
        (link id dependency s)
link-Yields budget work s id dependency runtime at depends (f, w) =
    linked (lookup dependency s.dependents) refl
  where
    linked :
        (o : Option (List String))
        → lookup dependency s.dependents ≡ o
        → Yields {A = Unit}
            (λ _ s'. (IsFresh budget s' × IsWired work s') × There work dependency)
            (elim o [
              | none ↦ Outcome.err (SchedulerContractError.unknown_dependency id dependency) s
              | some consumers ↦ Outcome.ok tt (record s {
                dependents = replace dependency (set_insert id consumers) s.dependents;
              })
            ])
    linked none e = tt
    linked (some consumers) e = (
      (
        record {
          all_blocked = f.all_blocked;
          unit_there = f.unit_there;
          unowned = f.unowned;
          rest = f.rest;
        },
        record {
          same = w.same;
          consumers_there = λ x other there.
              let (cs, l) = w.consumers_there x other there in
              elim (replace-lookup-cases dependency x consumers (set_insert id consumers) cs
                s.dependents e l) [
                  | inl (now, _) ↦ (set_insert id consumers, now)
                  | inr now ↦ (cs, now)
                ];
          producer_there = λ x cs l.
              elim (lookup-replace-cases dependency x consumers (set_insert id consumers) cs
                s.dependents e l) [
                  | inl (here, _) ↦
                      subst (There work) (sym here) (w.producer_there dependency consumers e)
                  | inr (_, old) ↦ w.producer_there x cs old
                ];
          consumer_depends = λ x cs c l m.
              elim (lookup-replace-cases dependency x consumers (set_insert id consumers) cs
                s.dependents e l) [
                  | inl (here, now) ↦
                      subst (λ y. (r : RuntimeWork) × At work c r × DependsOn r y) (sym here)
                        (joined c (subst (λ y. mem c y ≡ true) now m))
                  | inr (_, old) ↦ w.consumer_depends x cs c old m
                ];
        },
      ),
      w.producer_there dependency consumers e,
    )
      where
        joined :
            (c : String)
            → mem c (set_insert id consumers) ≡ true
            → (r : RuntimeWork) × At work c r × DependsOn r dependency
        joined c m = elim (Bool-cases (str_eq id c)) [
          | inl is_id ↦
              subst (λ y. (r : RuntimeWork) × At work y r × DependsOn r dependency)
                ((eq_iff id c).0 is_id) (runtime, at, depends)
          | inr apart ↦
              w.consumer_depends dependency consumers c e
                (ground (arith, mem-set_insert id c consumers, apart, m))
        ]
