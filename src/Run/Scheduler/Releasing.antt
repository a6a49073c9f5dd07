-- ===== src/Run/Scheduler/Releasing.antt =====
-- The end of an instance that holds a reservation: the reservation is given back, and the difference
-- is always computed.
use laminaria_rust_nim_toolc.Prelude.{
  ◌≡◌, refl, ◌∙◌, true, false, String, none, lookup-sum_by, arith,
}
use laminaria_rust_nim_toolc.Run.Resources.{ResourceAmount, Within, checked_sub-Within}
use laminaria_rust_nim_toolc.Run.Commit.{CommitStore}
use laminaria_rust_nim_toolc.Run.Commit.Agree.{IsNext}
use laminaria_rust_nim_toolc.Run.Scheduler.Types.{
  LifecycleState, TransitionReason, RuntimeWork, ResourceScheduler, Outcome, is_terminal,
  owns_resources,
}
use laminaria_rust_nim_toolc.Run.Scheduler.State.{runtime_of, release, record_state}
use laminaria_rust_nim_toolc.Run.Scheduler.Valid.{At, is_started, owned, Valid}
use laminaria_rust_nim_toolc.Run.Scheduler.Ends.{Good, record_state-Good, runtime_of-At, next}

owner-live : (old : RuntimeWork) → owns_resources old.state ≡ true → is_terminal old.state ≡ false
owner-live old h = ground arith

owner-is_started : (old : RuntimeWork) → owns_resources old.state ≡ true → is_started old ≡ true
owner-is_started old h = ground arith

-- The release, and the change to a state that owns nothing.
pub released :
    (base s : ResourceScheduler) (id : String) (old : RuntimeWork) (to : LifecycleState)
    (reason : TransitionReason) (store : CommitStore)
    → Good base s
    → At s.work id old
    → owns_resources old.state ≡ true
    → owns_resources to ≡ false
    → IsNext s.store id store
    → (allocated : ResourceAmount) × (release id (record s { store = store })
        ≡ Outcome.ok tt (record s { store = store; allocated = allocated }))
      × Good base
          (record_state (record s { store = store; allocated = allocated }) id old to none reason)
released base s id old to reason store g there owner idle is_store =
    let (allocated, e, sums) =
      checked_sub-Within s.allocated old.definition.reservation (held s g.0 there) in
    (
      allocated,
      next (runtime_of id) _ _ _ old (runtime_of-At (record s { store = store }) id old there)
          ∙ rw e refl,
      record_state-Good base s id old to none reason allocated store
          (record {
            there = there;
            same = refl;
            live = owner-live old owner;
            founded = λ _ d. g.0.settled id old d there (owner-is_started old owner);
            moved_amount = λ r. ground (arith, sums r, owner, idle);
            within = λ r. omega (arith, sums r, g.0.affordable r);
            apart = is_store.apart;
            own_staged = λ h. ground (arith, h, idle);
            agrees = is_store.agrees;
            kept = is_store.kept;
          })
          g,
    )
  where
    held :
        (s : ResourceScheduler)
        → Valid s
        → At s.work id old
        → Within old.definition.reservation s.allocated
    held s v there r =
        ground (arith, v.accounted r, lookup-sum_by (owned r) id old s.work there, owner)
