-- ===== src/Run/Scheduler/Ends.antt =====
-- How a call ends: never in a panic or out of fuel, and in a scheduler that keeps the invariant.
use laminaria_rust_nim_toolc.Prelude.{
  ℕ, ◌+◌, ◌%◌, ◌≡◌, refl, sym, subst, ◌∙◌, ap, Bool, true, false, String, List, [], ◌∷◌, ◌++◌,
  append_assoc, append-nil, Option, none, some, lookup, length-append, get_elem?-append,
  if◌then◌else◌, arith, inl, inr, mem,
}
use laminaria_rust_nim_toolc.Run.Resources.{ResourceAmount, u64_limit}
use laminaria_rust_nim_toolc.Run.Commit.{CommitStore}
use laminaria_rust_nim_toolc.Run.Scheduler.Types.{
  LifecycleState, WaitReason, TransitionReason, LifecycleTransition, SchedulerContractError,
  RuntimeWork, ResourceScheduler, Outcome, Step, ◌>>=◌, is_terminal, ok_or, unknown_instance,
  invalid_transition, state_eq,
}
use laminaria_rust_nim_toolc.Run.Scheduler.State.{
  require, require_state, runtime_of, set_state, record_state, moved, event, known_state,
}
use laminaria_rust_nim_toolc.Run.Scheduler.Valid.{At, Numbered, Valid, Since}
use laminaria_rust_nim_toolc.Run.Scheduler.Change.{IsChange, changed-Valid, changed-Since}

pub Since-refl : (s : ResourceScheduler) → Since s s
Since-refl s = record {
  outputs_kept = λ target output h. h;
  work_kept = λ id runtime h. (runtime, h, refl, λ _. refl);
  history_kept = ([], sym (append-nil s.transitions));
}

pub Since-trans : (s t u : ResourceScheduler) → Since s t → Since t u → Since s u
Since-trans s t u p q = record {
  outputs_kept = λ target output h. q.outputs_kept target output (p.outputs_kept target output h);
  work_kept = λ id runtime h.
      let (runtime', h', d, k) = p.work_kept id runtime h in
      let (runtime'', h'', d', k') = q.work_kept id runtime' h' in
      (runtime'', h'', d' ∙ d, λ e. k' (subst (λ x. is_terminal x ≡ true) (sym (k e)) e) ∙ k e);
  history_kept =
      let (events, e) = p.history_kept in
      let (events', e') = q.history_kept in
      (
        events ++ events',
        e' ∙ ap (λ x. x ++ events') e ∙ append_assoc s.transitions events events',
      );
}

-- Valid, and later than `base`.
abbrev pub Good : ResourceScheduler → ResourceScheduler → Type 0
Good base s = Valid s × Since base s

abbrev pub Ends :
    {A : Type 0} → ResourceScheduler → (A → ResourceScheduler → Type 0) → Outcome A → Type 0
Ends base Q (Outcome.ok a s) = Good base s × Q a s
Ends base Q (Outcome.err e s) = Good base s
Ends base Q Outcome.panic = ⊥
Ends base Q Outcome.exhausted = ⊥

outcome-Ends :
    {A B : Type 0} (base : ResourceScheduler) (Q : A → ResourceScheduler → Type 0)
    (R : B → ResourceScheduler → Type 0) (o : Outcome A) (k : A → Step B) (s : ResourceScheduler)
    → Ends base Q o
    → ((a : A) (s' : ResourceScheduler) → Good base s' → Q a s' → Ends base R (k a s'))
    → Ends base R (((λ (_ : ResourceScheduler). o) >>= k) s)
outcome-Ends base Q R (Outcome.ok a s') k s (g, q) f = f a s' g q
outcome-Ends base Q R (Outcome.err e s') k s h f = h
outcome-Ends base Q R Outcome.panic k s h f = h
outcome-Ends base Q R Outcome.exhausted k s h f = h

pub >>=-Ends :
    {A B : Type 0} (base : ResourceScheduler) (Q : A → ResourceScheduler → Type 0)
    (R : B → ResourceScheduler → Type 0) (m : Step A) (k : A → Step B) (s : ResourceScheduler)
    → Ends base Q (m s)
    → ((a : A) (s' : ResourceScheduler) → Good base s' → Q a s' → Ends base R (k a s'))
    → Ends base R ((m >>= k) s)
>>=-Ends base Q R m k s h f = outcome-Ends base Q R (m s) k s h f

-- A step whose end is known.
pub next :
    {A B : Type 0} (m : Step A) (k : A → Step B) (s s' : ResourceScheduler) (a : A)
    → m s ≡ Outcome.ok a s'
    → (m >>= k) s ≡ k a s'
next {A = A} m k s s' a e = ap (λ (o : Outcome A). ((λ (_ : ResourceScheduler). o) >>= k) s) e

append_Numbered :
    (events : List LifecycleTransition) (next : ℕ) (new : LifecycleTransition)
    → Numbered events next
    → new.sequence ≡ next
    → Numbered (events ++ new ∷ []) ((next + 1) % u64_limit)
append_Numbered events next new (h, k) e = (
  omega (arith, h, length-append events (new ∷ [])),
  λ i x g. elim (get_elem?-append events new x i g) [
    | inl old ↦ k i x old
    | inr (at, same) ↦
        ap (λ (x : LifecycleTransition). x.sequence) same ∙ e ∙ h ∙ ap (λ i. i % u64_limit) (sym at)
  ],
)

-- The state after a recorded change keeps the invariant.
pub record_state-Good :
    (base s : ResourceScheduler) (id : String) (old : RuntimeWork) (to : LifecycleState)
    (wait : Option WaitReason) (reason : TransitionReason) (allocated : ResourceAmount)
    (store : CommitStore)
    → IsChange s id old (moved to wait old) allocated store
    → Good base s
    → Good base
        (record_state (record s { allocated = allocated; store = store }) id old to wait reason)
record_state-Good base s id old to wait reason allocated store c (v, b) =
    let s' = record s { allocated = allocated; store = store } in
    let new = event s' id old.state to reason in
    (
      changed-Valid s id old (moved to wait old) allocated store (s.transitions ++ new ∷ [])
          ((s.next_sequence + 1) % u64_limit) c
          (append_Numbered s.transitions s.next_sequence new v.numbered refl) v,
      Since-trans base s _ b (
          changed-Since s id old (moved to wait old) allocated store (new ∷ [])
            ((s.next_sequence + 1) % u64_limit) c),
    )

pub set_state-At :
    (s : ResourceScheduler) (id : String) (old : RuntimeWork) (to : LifecycleState)
    (wait : Option WaitReason) (reason : TransitionReason)
    → At s.work id old
    → set_state id to wait reason s ≡ Outcome.ok tt (record_state s id old to wait reason)
unfolding set_state
set_state-At s id old to wait reason h = rw (set_state, h) refl

abbrev pub Anything : {A : Type 0} → A → ResourceScheduler → Type 0
Anything a s = Unit {0}

abbrev pub Known : ResourceScheduler → List String → Type 0
Known s ids = (id : String) → mem id ids ≡ true → (runtime : RuntimeWork) × At s.work id runtime

pub runtime_of-At :
    (s : ResourceScheduler) (id : String) (runtime : RuntimeWork)
    → At s.work id runtime
    → runtime_of id s ≡ Outcome.ok runtime s
runtime_of-At s id runtime h = rw (runtime_of, h) refl

-- What is there first is there later.
pub Since-At :
    (base s : ResourceScheduler) (id : String)
    → ((runtime : RuntimeWork) × At base.work id runtime)
    → Since base s
    → (runtime : RuntimeWork) × At s.work id runtime
Since-At base s id (runtime, h) since =
    let (now, there, _, _) = since.work_kept id runtime h in (now, there)

pub known_state-Ends :
    {B : Type 0} (base s : ResourceScheduler) (R : B → ResourceScheduler → Type 0) (id : String)
    (k : LifecycleState → Step B)
    → Good base s
    → ((runtime : RuntimeWork) → At s.work id runtime → Ends base R (k runtime.state s))
    → Ends base R ((known_state id >>= k) s)
known_state-Ends {B = B} base s R id k g h = found (lookup id s.work) (λ runtime e. h runtime e)
  where
    found :
        (o : Option RuntimeWork)
        → ((runtime : RuntimeWork) → o ≡ some runtime → Ends base R (k runtime.state s))
        → Ends base R (
            ((λ (t : ResourceScheduler).
                  ok_or
                    (elim o [ none ↦ none | some runtime ↦ some runtime.state ])
                    (unknown_instance id)
                    t)
                >>= k)
              s)
    found none f = g
    found (some runtime) f = f runtime refl

pub require-Ends :
    {B : Type 0} (base s : ResourceScheduler) (R : B → ResourceScheduler → Type 0) (test : Bool)
    (e : SchedulerContractError) (k : Unit → Step B)
    → Good base s
    → (test ≡ true → Ends base R (k tt s))
    → Ends base R ((require test e >>= k) s)
require-Ends base s R true e k g h = h refl
require-Ends base s R false e k g h = g

-- The state is the one required.
pub require_state-Ends :
    {B : Type 0} (base s : ResourceScheduler) (R : B → ResourceScheduler → Type 0) (id : String)
    (expected : LifecycleState) (operation : String) (k : Unit → Step B)
    → Good base s
    → ((runtime : RuntimeWork)
        → At s.work id runtime
        → state_eq runtime.state expected ≡ true
        → Ends base R (k tt s))
    → Ends base R ((require_state id expected operation >>= k) s)
require_state-Ends {B = B} base s R id expected operation k g h =
    >>=-Ends base
      (λ _ s'.
        (s' ≡ s)
        × ((runtime : RuntimeWork) × At s.work id runtime
            × (state_eq runtime.state expected ≡ true)))
      R (require_state id expected operation) k s
      (known_state-Ends {B = Unit} base s _ id _ g
        (λ runtime there. require_here runtime there (state_eq runtime.state expected) refl))
      (λ _ s' g' q. subst (λ t. Ends base R (k tt t)) (sym q.0) (h q.1.0 q.1.1 q.1.2))
  where
    require_here :
        (runtime : RuntimeWork)
        → At s.work id runtime
        → (b : Bool) → state_eq runtime.state expected ≡ b
        → Ends base
            (λ (_ : Unit {0}) s'.
              (s' ≡ s)
              × ((runtime : RuntimeWork) × At s.work id runtime
                  × (state_eq runtime.state expected ≡ true)))
            (require b (invalid_transition id runtime.state operation) s)
    require_here runtime there true e = (g, (refl, (runtime, there, e)))
    require_here runtime there false e = g

-- A call that gives a value, with no error.
abbrev pub Gives :
    {A : Type 0} → ResourceScheduler → (A → ResourceScheduler → Type 0) → Outcome A → Type 0
Gives base Q (Outcome.ok a s) = Good base s × Q a s
Gives base Q (Outcome.err e s) = ⊥
Gives base Q Outcome.panic = ⊥
Gives base Q Outcome.exhausted = ⊥

pub Gives-Ends :
    {A : Type 0} (base : ResourceScheduler) (Q : A → ResourceScheduler → Type 0) (o : Outcome A)
    → Gives base Q o
    → Ends base Q o
Gives-Ends base Q (Outcome.ok a s) h = h
Gives-Ends base Q (Outcome.err e s) h = elim h [ ]
Gives-Ends base Q Outcome.panic h = h
Gives-Ends base Q Outcome.exhausted h = h

outcome-Gives :
    {A B : Type 0} (base : ResourceScheduler) (Q : A → ResourceScheduler → Type 0)
    (R : B → ResourceScheduler → Type 0) (o : Outcome A) (k : A → Step B) (s : ResourceScheduler)
    → Gives base Q o
    → ((a : A) (s' : ResourceScheduler) → Good base s' → Q a s' → Gives base R (k a s'))
    → Gives base R (((λ (_ : ResourceScheduler). o) >>= k) s)
outcome-Gives base Q R (Outcome.ok a s') k s (g, q) f = f a s' g q
outcome-Gives base Q R (Outcome.err e s') k s h f = h
outcome-Gives base Q R Outcome.panic k s h f = h
outcome-Gives base Q R Outcome.exhausted k s h f = h

pub >>=-Gives :
    {A B : Type 0} (base : ResourceScheduler) (Q : A → ResourceScheduler → Type 0)
    (R : B → ResourceScheduler → Type 0) (m : Step A) (k : A → Step B) (s : ResourceScheduler)
    → Gives base Q (m s)
    → ((a : A) (s' : ResourceScheduler) → Good base s' → Q a s' → Gives base R (k a s'))
    → Gives base R ((m >>= k) s)
>>=-Gives base Q R m k s h f = outcome-Gives base Q R (m s) k s h f

pub if_Gives :
    {A : Type 0} (base : ResourceScheduler) (Q : A → ResourceScheduler → Type 0) (b : Bool)
    (x y : Step A) (s : ResourceScheduler)
    → (b ≡ true → Gives base Q (x s))
    → (b ≡ false → Gives base Q (y s))
    → Gives base Q ((if b then x else y) s)
if_Gives base Q true x y s h k = h refl
if_Gives base Q false x y s h k = k refl

-- The same call, said of an earlier scheduler and of more.
pub Gives-map :
    {A : Type 0} (base s : ResourceScheduler) (Q R : A → ResourceScheduler → Type 0) (o : Outcome A)
    → Since base s
    → ((a : A) (t : ResourceScheduler) → Since s t → Q a t → R a t)
    → Gives s Q o
    → Gives base R o
Gives-map base s Q R (Outcome.ok a t) since f ((v, later), q) =
    ((v, Since-trans base s t since later), f a t later q)
Gives-map base s Q R (Outcome.err e t) since f h = h
Gives-map base s Q R Outcome.panic since f h = h
Gives-map base s Q R Outcome.exhausted since f h = h

pub Gives-later :
    {A : Type 0} (base s : ResourceScheduler) (Q : A → ResourceScheduler → Type 0) (o : Outcome A)
    → Since base s
    → Gives s Q o
    → Gives base Q o
Gives-later base s Q o since = Gives-map base s Q Q o since (λ a t _ q. q)

-- The instance is there, in this state.
abbrev pub Became : String → LifecycleState → {A : Type 0} → A → ResourceScheduler → Type 0
Became id to a s = (runtime : RuntimeWork) × At s.work id runtime × (runtime.state ≡ to)

-- An instance that has ended is in the same state later.
pub Since-Became :
    (s t : ResourceScheduler) (id : String) (runtime : RuntimeWork)
    → At s.work id runtime
    → is_terminal runtime.state ≡ true
    → Since s t
    → Became id runtime.state tt t
Since-Became s t id runtime there ended since =
    let (now, at, _, same) = since.work_kept id runtime there in (now, at, same ended)

pub known_state-At :
    (s : ResourceScheduler) (id : String) (old : RuntimeWork)
    → At s.work id old
    → known_state id s ≡ Outcome.ok old.state s
known_state-At s id old h =
    ap
      (λ (o : Option RuntimeWork).
        ok_or (elim o [ none ↦ none | some runtime ↦ some runtime.state ]) (unknown_instance id) s)
      h

pub require-true :
    (s : ResourceScheduler) (test : Bool) (e : SchedulerContractError)
    → test ≡ true
    → require test e s ≡ Outcome.ok tt s
require-true s test e h = rw h refl

pub require_state-At :
    (s : ResourceScheduler) (id : String) (old : RuntimeWork) (expected : LifecycleState)
    (operation : String)
    → At s.work id old
    → state_eq old.state expected ≡ true
    → require_state id expected operation s ≡ Outcome.ok tt s
require_state-At s id old expected operation there h =
    next (known_state id) _ s s old.state (known_state-At s id old there)
    ∙ require-true s (state_eq old.state expected) _ h
