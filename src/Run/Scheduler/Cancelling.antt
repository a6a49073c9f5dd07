-- ===== src/Run/Scheduler/Cancelling.antt =====
-- The work list of `cancel_descendants`: its fuel is enough, what it cancels owns nothing, and the
-- invariant stays.
use laminaria_rust_nim_toolc.Prelude.{
  ℕ, zero, suc, ◌+◌, ◌≤◌, ◌<◌, ◌≡◌, ◌⊎◌, inl, inr, refl, sym, subst, ◌∙◌, Bool, true, false, not,
  String, List, [], ◌∷◌, none, some, lookup, mem, mem-head, mem-tail, length, sum_by,
  sum_by-replace, lookup-sum_by, if◌then◌else◌, arith, Bool-cases,
}
use laminaria_rust_nim_toolc.Run.Scheduler.Types.{
  TransitionReason, RuntimeWork, ResourceScheduler, Outcome, ◌>>=◌, return, cancelled, completed,
  state_eq, is_terminal, owns_resources,
}
use laminaria_rust_nim_toolc.Run.Scheduler.State.{
  runtime_of, dependents_of, set_state, record_state, moved,
}
use laminaria_rust_nim_toolc.Run.Scheduler.Operations.{
  extend, assert, cancel_one, cancel_queue, cancel_fuel, cancel_reason, cancel_descendants,
}
use laminaria_rust_nim_toolc.Run.Scheduler.Valid.{At, DependsOn, is_started, Valid, Since}
use laminaria_rust_nim_toolc.Run.Scheduler.Change.{replaced-At}
use laminaria_rust_nim_toolc.Run.Scheduler.Ends.{
  Good, Gives, Anything, >>=-Gives, if_Gives, record_state-Good, set_state-At, runtime_of-At, next,
  Since-refl,
}
use laminaria_rust_nim_toolc.Run.Scheduler.Admitting.{quiet-IsChange}

-- Failed or cancelled.
abbrev pub IsLost : RuntimeWork → Type 0
IsLost runtime = (is_terminal runtime.state ≡ true) × (state_eq runtime.state completed ≡ false)

-- It depends on what has failed or was cancelled.
pub record IsDoomed (s : ResourceScheduler) (id : String) : Type 0 where
  pub runtime : RuntimeWork
  pub there : At s.work id runtime
  pub producer_id : String
  pub producer : RuntimeWork
  pub producer_there : At s.work producer_id producer
  pub depends : DependsOn runtime producer_id
  pub lost : IsLost producer

abbrev pub AllDoomed : ResourceScheduler → List String → Type 0
AllDoomed s ids = (id : String) → mem id ids ≡ true → IsDoomed s id

Since-IsDoomed :
    (s s' : ResourceScheduler) (id : String) → Since s s' → IsDoomed s id → IsDoomed s' id
Since-IsDoomed s s' id since d =
    let (runtime, there, same, _) = since.work_kept id d.runtime d.there in
    let (producer, producer_there, _, kept) =
      since.work_kept d.producer_id d.producer d.producer_there in
    record {
      runtime = runtime;
      there = there;
      producer_id = d.producer_id;
      producer = producer;
      producer_there = producer_there;
      depends = subst (λ x. mem d.producer_id x.dependencies ≡ true) (sym same) d.depends;
      lost =
          subst (λ x. (is_terminal x ≡ true) × (state_eq x completed ≡ false)) (sym (kept d.lost.0))
            d.lost;
    }

-- What depends on something lost has not started.
doomed-idle :
    (s : ResourceScheduler) (id : String) (runtime : RuntimeWork)
    → Valid s
    → IsDoomed s id
    → At s.work id runtime
    → is_started runtime ≡ false
doomed-idle s id runtime v d at = elim (Bool-cases (is_started runtime)) [
  | inr idle ↦ idle
  | inl started ↦
      let same : d.runtime ≡ runtime = ground (arith, at, d.there) in
      let done =
        v.settled id runtime d.producer_id at started
          (subst (λ x. DependsOn x d.producer_id) same d.depends) d.producer d.producer_there in
      ground (arith, done, d.lost.1)
]

mem-extend :
    (x : String) (ids queue : List String)
    → mem x (extend ids queue) ≡ true
    → (mem x ids ≡ true) ⊎ (mem x queue ≡ true)
mem-extend x [] queue h = inr h
mem-extend x (id ∷ ids) queue h = ground (arith, mem-extend x ids (id ∷ queue) h)

length-extend : (ids queue : List String) → length (extend ids queue) ≡ length ids + length queue
length-extend [] queue = omega arith
length-extend (id ∷ ids) queue = omega (arith, length-extend ids (id ∷ queue))

abbrev Bounded : ℕ → ResourceScheduler → Type 0
Bounded bound s =
    (id : String) (consumers : List String)
    → lookup id s.dependents ≡ some consumers
    → length consumers ≤ bound

-- What an instance may still add to the queue, and the turns that the loop may still take.
abbrev pending : ℕ → RuntimeWork → ℕ
pending bound runtime = if is_terminal runtime.state then 0 else bound

abbrev turns : ℕ → ResourceScheduler → List String → ℕ
turns bound s queue = length queue + sum_by (pending bound) s.work

-- The queue after a turn.
record IsSmaller (bound : ℕ) (s : ResourceScheduler) (queue queue' : List String)
    (s' : ResourceScheduler) : Type 0 where
  all_doomed : AllDoomed s' queue'
  bounded : Bounded bound s'
  fewer : turns bound s' queue' < turns bound s queue

consumers-AllDoomed :
    (s : ResourceScheduler) (id : String) (runtime : RuntimeWork) (consumers : List String)
    → Valid s
    → At s.work id runtime
    → IsLost runtime
    → lookup id s.dependents ≡ some consumers
    → AllDoomed s consumers
consumers-AllDoomed s id runtime consumers v at lost there x h =
    let (consumer, found, depends) = v.linked.consumer_depends id consumers x there h in
    record {
      runtime = consumer;
      there = found;
      producer_id = id;
      producer = runtime;
      producer_there = at;
      depends = depends;
      lost = lost;
    }

extend-AllDoomed :
    (s : ResourceScheduler) (ids queue : List String)
    → AllDoomed s ids
    → AllDoomed s queue
    → AllDoomed s (extend ids queue)
extend-AllDoomed s ids queue h k x m = elim (mem-extend x ids queue m) [
  | inl e ↦ h x e
  | inr e ↦ k x e
]

pub dependents_of-At :
    (s : ResourceScheduler) (id : String) (consumers : List String)
    → lookup id s.dependents ≡ some consumers
    → dependents_of id s ≡ Outcome.ok consumers s
dependents_of-At s id consumers h = rw (dependents_of, h) refl

idle-owner :
    (runtime : RuntimeWork)
    → is_started runtime ≡ false
    → is_terminal runtime.state ≡ false
    → owns_resources runtime.state ≡ false
idle-owner runtime h l = ground arith

-- A live instance of the queue is cancelled, and its consumers join the queue.
cancels-Gives :
    (bound : ℕ) (base s : ResourceScheduler) (reason : TransitionReason) (id : String)
    (old : RuntimeWork) (queue : List String)
    → Good base s
    → AllDoomed s (id ∷ queue)
    → Bounded bound s
    → At s.work id old
    → is_terminal old.state ≡ false
    → is_started old ≡ false
    → Gives {A = List String} base (IsSmaller bound s (id ∷ queue)) (
        (assert (not (owns_resources old.state)) >>= λ _.
        set_state id cancelled none reason >>= λ _.
        dependents_of id >>= λ consumers. return (extend consumers queue))
          s)
cancels-Gives bound base s reason id old queue g doomed bounded there live idle =
    let s' = record_state s id old cancelled none reason in
    let (consumers, listed) = g.0.linked.consumers_there id old there in
    let unowned = idle-owner old idle live in
    let change =
      quiet-IsChange s id old cancelled none g.0 there live (λ r. ground (arith, unowned)) refl
        (λ h. ground (arith, h)) in
    let good = record_state-Good base s id old cancelled none reason s.allocated s.store change g in
    let (_, later) =
      record_state-Good s s id old cancelled none reason s.allocated s.store change
        (g.0, Since-refl s) in
    let at = replaced-At s.work id old (moved cancelled none old) there in
    subst (λ o. Gives {A = List String} base (IsSmaller bound s (id ∷ queue)) o)
      (sym (
        next (assert (not (owns_resources old.state))) _ s s tt (rw unowned refl)
        ∙ next (set_state id cancelled none reason) _ s s' tt
            (set_state-At s id old cancelled none reason there)
        ∙ next (dependents_of id) _ s' s' consumers (dependents_of-At s' id consumers listed)))
      (
        good,
        record {
          all_doomed =
              extend-AllDoomed s' consumers queue
                (consumers-AllDoomed s' id _ consumers good.0 at (refl, refl) listed)
                (λ x h. Since-IsDoomed s s' x later (doomed x (mem-tail id x queue h)));
          bounded = bounded;
          fewer = omega (
            arith,
            length-extend consumers queue,
            bounded id consumers listed,
            sum_by-replace (pending bound) id old (moved cancelled none old) s.work there,
            pending-live,
          );
        },
      )
  where
    pending-live : pending bound old ≡ bound
    pending-live = rw live refl

cancel_one-Gives :
    (bound : ℕ) (base s : ResourceScheduler) (reason : TransitionReason) (id : String)
    (queue : List String)
    → Good base s
    → AllDoomed s (id ∷ queue)
    → Bounded bound s
    → Gives {A = List String} base (IsSmaller bound s (id ∷ queue)) (cancel_one reason id queue s)
cancel_one-Gives bound base s reason id queue g doomed bounded =
    let d = doomed id (mem-head id queue) in
    subst (λ o. Gives {A = List String} base (IsSmaller bound s (id ∷ queue)) o)
      (sym (next (runtime_of id) _ s s d.runtime (runtime_of-At s id d.runtime d.there)))
      (if_Gives base (IsSmaller bound s (id ∷ queue)) (is_terminal d.runtime.state) _ _ s
        (λ _. (
          g,
          record {
            all_doomed = λ x h. doomed x (mem-tail id x queue h);
            bounded = bounded;
            fewer = omega arith;
          },
        ))
        (λ live.
          cancels-Gives bound base s reason id d.runtime queue g doomed bounded d.there live
            (doomed-idle s id d.runtime g.0 d d.there)))

cancel_queue-Gives :
    (fuel bound : ℕ) (base s : ResourceScheduler) (reason : TransitionReason) (queue : List String)
    → Good base s
    → AllDoomed s queue
    → Bounded bound s
    → turns bound s queue < fuel
    → Gives {A = Unit} base Anything (cancel_queue fuel reason queue s)
cancel_queue-Gives zero bound base s reason queue g doomed bounded h = omega arith
cancel_queue-Gives (suc fuel) bound base s reason [] g doomed bounded h = (g, tt)
cancel_queue-Gives (suc fuel) bound base s reason (id ∷ queue) g doomed bounded h =
    >>=-Gives base (IsSmaller bound s (id ∷ queue)) Anything (cancel_one reason id queue)
      (cancel_queue fuel reason) s (cancel_one-Gives bound base s reason id queue g doomed bounded)
      (λ queue' s' g' smaller.
        cancel_queue-Gives fuel bound base s' reason queue' g' smaller.all_doomed smaller.bounded
          (omega (arith, smaller.fewer, h)))

weigh-terminal :
    (bound : ℕ) (work : List (String × RuntimeWork))
    → sum_by (pending bound) work ≤ sum_by (λ (_ : RuntimeWork). bound) work
weigh-terminal bound [] = omega arith
weigh-terminal bound ((id, runtime) ∷ work) = ground (arith, weigh-terminal bound work)

-- Cancelling the descendants of what is lost.
pub cancel_descendants-Gives :
    (base s : ResourceScheduler) (root : String) (old : RuntimeWork) (by_failure : Bool)
    → Good base s
    → At s.work root old
    → IsLost old
    → Gives {A = Unit} base Anything (cancel_descendants root by_failure s)
cancel_descendants-Gives base s root old by_failure g there lost =
    let (consumers, listed) = g.0.linked.consumers_there root old there in
    let bound = sum_by length s.dependents in
    let queue = extend consumers [] in
    subst (λ o. Gives {A = Unit} base Anything o)
      (sym (next (dependents_of root) _ s s consumers (dependents_of-At s root consumers listed)))
      (cancel_queue-Gives (cancel_fuel s queue) bound base s (cancel_reason root by_failure) queue g
        (extend-AllDoomed s consumers []
          (consumers-AllDoomed s root old consumers g.0 there lost listed)
          (λ x h. ground (arith, h)))
        (λ id ids h. lookup-sum_by length id ids s.dependents h)
        (omega (arith, weigh-terminal bound s.work)))
