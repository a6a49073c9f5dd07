-- ===== src/Run/Scheduler/Valid.antt =====
-- The invariant of the scheduler: what it relates and what a change of one instance keeps.
use laminaria_rust_nim_toolc.Prelude.{
  ℕ, ◌%◌, ◌≡◌, Bool, true, not, ◌&&◌, ◌||◌, String, List, ◌++◌, some, lookup, mem, length,
  get_elem?, sum_by, if◌then◌else◌,
}
use laminaria_rust_nim_toolc.Plan.PhysicalWork.{PhysicalWorkUnit}
use laminaria_rust_nim_toolc.Run.Resources.{
  ResourceAmount, Resource, amount, IsAmount, Within, u64_limit,
}
use laminaria_rust_nim_toolc.Run.Commit.{CommitStore, StagedOutput}
use laminaria_rust_nim_toolc.Run.Commit.Agree.{Agrees, Keeps}
use laminaria_rust_nim_toolc.Run.Scheduler.Types.{
  LifecycleTransition, RuntimeWork, ResourceScheduler, completed, failed, cancelled, committing,
  blocked, state_eq, is_terminal, owns_resources,
}
use laminaria_rust_nim_toolc.Run.Scheduler.State.{find_unit}
use laminaria_rust_nim_toolc.Run.Scheduler.Admit.{resource_wait}

abbrev pub Works : Type 0
Works = List (String × RuntimeWork)

-- The instance is there, with this record.
abbrev pub At : Works → String → RuntimeWork → Type 0
At work id runtime = lookup id work ≡ some runtime

abbrev pub DependsOn : RuntimeWork → String → Type 0
DependsOn runtime dependency = mem dependency runtime.definition.dependencies ≡ true

-- What the indexing of the maps relies on: dependencies, units and consumers are there, and a
-- consumer depends on what it is a consumer of.
pub record Linked (units : List PhysicalWorkUnit) (work : Works)
    (dependents : List (String × List String)) : Type 0 where
  pub dependency_there :
      (id : String) (runtime : RuntimeWork) (dependency : String)
      → At work id runtime
      → DependsOn runtime dependency
      → (producer : RuntimeWork) × At work dependency producer
  pub unit_there :
      (id : String) (runtime : RuntimeWork)
      → At work id runtime
      → (unit : PhysicalWorkUnit) × (find_unit runtime.definition.work_unit units ≡ some unit)
  pub consumers_there :
      (id : String) (runtime : RuntimeWork)
      → At work id runtime
      → (consumers : List String) × (lookup id dependents ≡ some consumers)
  pub consumer_depends :
      (id : String) (consumers : List String) (consumer : String)
      → lookup id dependents ≡ some consumers
      → mem consumer consumers ≡ true
      → (runtime : RuntimeWork) × At work consumer runtime × DependsOn runtime id

-- Ready, running, committing, completed or waiting for resources only.
abbrev pub is_started : RuntimeWork → Bool
is_started runtime =
    not (state_eq runtime.state failed)
    && not (state_eq runtime.state cancelled)
    && (not (state_eq runtime.state blocked) || resource_wait runtime)

abbrev pub IsCompleted : Works → String → Type 0
IsCompleted work id =
    (runtime : RuntimeWork) → At work id runtime → state_eq runtime.state completed ≡ true

-- What has started has completed dependencies.
abbrev pub Settled : Works → Type 0
Settled work =
    (id : String) (runtime : RuntimeWork) (dependency : String)
    → At work id runtime
    → is_started runtime ≡ true
    → DependsOn runtime dependency
    → IsCompleted work dependency

-- The part of a reservation that an instance holds.
abbrev pub owned : Resource → RuntimeWork → ℕ
owned r runtime =
    if owns_resources runtime.state then amount r runtime.definition.reservation else 0

abbrev pub Accounted : ResourceAmount → Works → Type 0
Accounted allocated work = (r : Resource) → amount r allocated ≡ sum_by (owned r) work

-- What is committing has staged outputs.
abbrev pub Staged : CommitStore → Works → Type 0
Staged store work =
    (id : String) (runtime : RuntimeWork)
    → At work id runtime
    → state_eq runtime.state committing ≡ true
    → (outputs : List StagedOutput) × (lookup id store.staged_by_writer ≡ some outputs)

-- The transitions are numbered in order, modulo 2^64.
abbrev pub Numbered : List LifecycleTransition → ℕ → Type 0
Numbered transitions next =
    (next ≡ length transitions % u64_limit)
    × ((i : ℕ) (event : LifecycleTransition)
        → get_elem? transitions i ≡ some event
        → event.sequence ≡ i % u64_limit)

pub record Valid (s : ResourceScheduler) : Type 0 where
  pub linked : Linked s.units s.work s.dependents
  pub settled : Settled s.work
  pub accounted : Accounted s.allocated s.work
  pub affordable : Within s.allocated s.budget
  pub bounded : IsAmount s.budget
  pub staged : Staged s.store s.work
  pub agreed : Agrees s.store
  pub numbered : Numbered s.transitions s.next_sequence

-- What stays: visible outputs, the states that end an instance, the definitions, and the transitions
-- on record.
pub record Since (s later : ResourceScheduler) : Type 0 where
  pub outputs_kept : Keeps s.store later.store
  pub work_kept :
      (id : String) (runtime : RuntimeWork)
      → At s.work id runtime
      → (runtime' : RuntimeWork) × At later.work id runtime'
        × (runtime'.definition ≡ runtime.definition)
        × (is_terminal runtime.state ≡ true → runtime'.state ≡ runtime.state)
  pub history_kept :
      (events : List LifecycleTransition) × (later.transitions ≡ s.transitions ++ events)
