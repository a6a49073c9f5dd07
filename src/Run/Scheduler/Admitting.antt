-- ===== src/Run/Scheduler/Admitting.antt =====
-- `admit_ready` keeps the invariant, and its sums and differences are always computed.
use laminaria_rust_nim_toolc.Prelude.{
  ◌+◌, ◌≡◌, refl, sym, subst, ◌∙◌, ap, Bool, true, false, not, ◌&&◌, String, List, [], ◌∷◌, Option,
  none, some, keys, mem-keys, mem-head, mem-tail, ◌⊎◌, inl, if◌then◌else◌, arith,
}
use laminaria_rust_nim_toolc.Run.Resources.{
  ResourceAmount, ResourceDeficit, Resource, amount, Within, fits_within, fits_within_iff,
  checked_sub-Within, checked_add-IsAmount,
}
use laminaria_rust_nim_toolc.Run.Scheduler.Types.{
  RuntimeWork, ResourceScheduler, Outcome, ◌>>=◌, return, committing, ready, running, blocked,
  state_eq, waiting, resources, resources_available, admitted, LifecycleState, WaitReason,
  is_terminal,
}
use laminaria_rust_nim_toolc.Run.Scheduler.State.{runtime_of, set_state, moved}
use laminaria_rust_nim_toolc.Run.Scheduler.Admit.{
  resource_wait, available, allocate, start, waits_with, wait_for, consider, admit_one, admit_all,
  admit_ready,
}
use laminaria_rust_nim_toolc.Run.Scheduler.Valid.{
  At, DependsOn, IsCompleted, is_started, owned, Valid,
}
use laminaria_rust_nim_toolc.Run.Scheduler.Change.{IsChange, replaced-At}
use laminaria_rust_nim_toolc.Run.Scheduler.Ends.{
  Good, Gives, Anything, Known, >>=-Gives, if_Gives, record_state-Good, set_state-At, runtime_of-At,
  next, Since-refl, Since-At,
}

-- What is left of the budget.
available-Valid :
    (s : ResourceScheduler)
    → Valid s
    → (room : ResourceAmount) × (available s ≡ Outcome.ok room s)
      × ((r : Resource) → amount r room + amount r s.allocated ≡ amount r s.budget)
available-Valid s v =
    let (room, e, sums) = checked_sub-Within s.budget s.allocated v.affordable in
    (room, rw (available, e) refl, sums)

-- A change of the state alone, by which nothing is taken or given back and nothing starts.
pub quiet-IsChange :
    (s : ResourceScheduler) (id : String) (old : RuntimeWork) (to : LifecycleState)
    (wait : Option WaitReason)
    → Valid s
    → At s.work id old
    → is_terminal old.state ≡ false
    → ((r : Resource) → owned r (moved to wait old) ≡ owned r old)
    → (state_eq to committing ≡ false)
    → (is_started (moved to wait old) ≡ true
        → (dependency : String) → DependsOn old dependency
        → IsCompleted s.work dependency)
    → IsChange s id old (moved to wait old) s.allocated s.store
quiet-IsChange s id old to wait v there live same apart founded = record {
  there = there;
  same = refl;
  live = live;
  founded = founded;
  moved_amount = λ r. omega (arith, same r);
  within = v.affordable;
  apart = λ writer _. refl;
  own_staged = λ h. ground (arith, apart, h);
  agrees = v.agreed;
  kept = λ target output h. h;
}

-- Ready, or waiting for resources only.
abbrev Startable : RuntimeWork → Type 0
Startable old = (state_eq old.state ready ≡ true) ⊎ (resource_wait old ≡ true)

Startable-is_started : (old : RuntimeWork) → Startable old → is_started old ≡ true
Startable-is_started old h = ground arith

Startable-live : (old : RuntimeWork) → Startable old → is_terminal old.state ≡ false
Startable-live old h = ground arith

Startable-owned : (old : RuntimeWork) (r : Resource) → Startable old → owned r old ≡ 0
Startable-owned old r h = ground arith

wait_for-Gives :
    (base s : ResourceScheduler) (id : String) (old : RuntimeWork) (deficit : ResourceDeficit)
    → Good base s
    → At s.work id old
    → Startable old
    → Gives {A = Bool} base Anything (wait_for id old deficit s)
unfolding wait_for
wait_for-Gives base s id old deficit g there startable =
    if_Gives base Anything (waits_with old.wait_reason deficit) _ _ s (λ _. (g, tt))
      (λ _.
        subst (λ o. Gives {A = Bool} base Anything o)
          (sym (
            next {B = Bool}
              (set_state id blocked (some (resources deficit)) (waiting (resources deficit)))
              (λ _. return false) s _ tt
              (set_state-At s id old blocked (some (resources deficit))
                (waiting (resources deficit)) there)))
          (
            record_state-Good base s id old blocked _ _ s.allocated s.store
                (quiet-IsChange s id old blocked (some (resources deficit)) g.0 there
                  (Startable-live old startable) (λ r. sym (Startable-owned old r startable)) refl
                  (λ _ d. g.0.settled id old d there (Startable-is_started old startable)))
                g,
            tt,
          ))

-- What is ready or waits for resources, with the room that its reservation fits.
abbrev CanRun : ResourceScheduler → String → ResourceAmount → ResourceAmount → Type 0
CanRun s id reservation room =
    (old : RuntimeWork) × At s.work id old
    × (old.definition.reservation ≡ reservation)
    × Startable old
    × ((r : Resource) → amount r room + amount r s.allocated ≡ amount r s.budget)

run-Gives :
    (base s : ResourceScheduler) (id : String) (reservation room : ResourceAmount)
    → Good base s
    → CanRun s id reservation room
    → Within reservation room
    → Gives {A = Bool} base Anything
        ((allocate reservation >>= λ _. set_state id running none admitted >>= λ _. return true) s)
run-Gives base s id reservation room g (old, there, same, startable, sums) fits =
    let (total, e, added) =
      checked_add-IsAmount s.allocated reservation
        (λ r. omega (arith, fits r, sums r, g.0.bounded r)) in
    let s' = record s { allocated = total } in
    subst (λ o. Gives {A = Bool} base Anything o)
      (sym (
        next (allocate reservation) (λ _. set_state id running none admitted >>= λ _. return true) s
          s' tt (rw e refl)
        ∙ next (set_state id running none admitted) (λ _. return true) s' _ tt
            (set_state-At s' id old running none admitted there)))
      (
        record_state-Good base s id old running none admitted total s.store
            (record {
              there = there;
              same = refl;
              live = Startable-live old startable;
              founded = λ _ d. g.0.settled id old d there (Startable-is_started old startable);
              moved_amount =
                  λ r. omega (arith, added r, Startable-owned old r startable, ap (amount r) same);
              within = λ r. omega (arith, added r, sums r, fits r);
              apart = λ writer _. refl;
              own_staged = λ h. ground (arith, h);
              agrees = g.0.agreed;
              kept = λ target output h. h;
            })
            g,
        tt,
      )

start-Gives :
    (base s : ResourceScheduler) (id : String) (old : RuntimeWork) (room : ResourceAmount)
    → Good base s
    → At s.work id old
    → Startable old
    → ((r : Resource) → amount r room + amount r s.allocated ≡ amount r s.budget)
    → Within old.definition.reservation room
    → Gives {A = Bool} base Anything (start id old s)
unfolding start
start-Gives base s id old room g there startable sums fits =
    >>=-Gives base (λ _ s'. CanRun s' id old.definition.reservation room) Anything
      (if resource_wait old then set_state id ready none resources_available else return tt) _ s
      (if_Gives base _ (resource_wait old) (set_state id ready none resources_available) (return tt)
        s (λ _. readied) (λ _. (g, (old, there, refl, startable, sums))))
      (λ _ s' g' can. run-Gives base s' id old.definition.reservation room g' can fits)
  where
    readied :
        Gives {A = Unit} base
          (λ _ s'. CanRun s' id old.definition.reservation room)
          (set_state id ready none resources_available s)
    readied =
        subst (λ o. Gives {A = Unit} base (λ _ s'. CanRun s' id old.definition.reservation room) o)
          (sym (set_state-At s id old ready none resources_available there))
          (
            record_state-Good base s id old ready none resources_available s.allocated s.store
                (quiet-IsChange s id old ready none g.0 there (Startable-live old startable)
                  (λ r. sym (Startable-owned old r startable)) refl
                  (λ _ d. g.0.settled id old d there (Startable-is_started old startable)))
                g,
            (moved ready none old, replaced-At s.work id old _ there, refl, inl refl, sums),
          )

consider-Gives :
    (base s : ResourceScheduler) (id : String) (old : RuntimeWork)
    → Good base s
    → At s.work id old
    → Startable old
    → Gives {A = Bool} base Anything (consider id old s)
consider-Gives base s id old g there startable =
    let (room, e, sums) = available-Valid s g.0 in
    subst (λ o. Gives {A = Bool} base Anything o) (sym (next available _ s s room e))
      (if_Gives base Anything (fits_within old.definition.reservation room) _ _ s
        (λ f.
          start-Gives base s id old room g there startable sums
            ((fits_within_iff old.definition.reservation room).0 f))
        (λ _. wait_for-Gives base s id old _ g there startable))

admit_one-Gives :
    (base s : ResourceScheduler) (id : String)
    → Good base s
    → (runtime : RuntimeWork) × At s.work id runtime
    → Gives {A = Bool} base Anything (admit_one id s)
admit_one-Gives base s id g (old, there) =
    subst (λ o. Gives {A = Bool} base Anything o)
      (sym (next (runtime_of id) _ s s old (runtime_of-At s id old there)))
      (if_Gives base Anything (not (state_eq old.state ready) && not (resource_wait old)) _ _ s
        (λ _. (g, tt)) (λ h. consider-Gives base s id old g there (startable h)))
  where
    startable : (not (state_eq old.state ready) && not (resource_wait old)) ≡ false → Startable old
    startable h = ground arith

admit_all-Gives :
    (base s : ResourceScheduler) (ids : List String)
    → Good base s
    → Known base ids
    → Gives {A = List String} base Anything (admit_all ids s)
admit_all-Gives base s [] g known = (g, tt)
admit_all-Gives base s (id ∷ ids) g known =
    >>=-Gives base Anything Anything (admit_one id) _ s
      (admit_one-Gives base s id g (Since-At base s id (known id (mem-head id ids)) g.1))
      (λ taken s' g' _.
        >>=-Gives base Anything Anything (admit_all ids) _ s'
          (admit_all-Gives base s' ids g' (λ other h. known other (mem-tail id other ids h)))
          (λ rest s'' g'' _. (g'', tt)))

pub admit_ready-Gives :
    (s : ResourceScheduler) → Valid s → Gives {A = List String} s Anything (admit_ready s)
admit_ready-Gives s v =
    admit_all-Gives s s (keys s.work) (v, Since-refl s) (λ id h. mem-keys id s.work h)
