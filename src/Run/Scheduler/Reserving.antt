-- ===== src/Run/Scheduler/Reserving.antt =====
-- What the checks of an instance accept.
use laminaria_rust_nim_toolc.Prelude.{
  ℕ, suc, ◌⊎◌, ◌<◌, ◌≤◌, ◌≡◌, ◌↔◌, Bool, true, not, ◌&&◌, ◌||◌, none, some, if◌then◌else◌, ◌==◌,
  ltb, arith,
}
use laminaria_rust_nim_toolc.Plan.PhysicalWork.{PhysicalWorkUnit, group_number}
use laminaria_rust_nim_toolc.Run.Resources.{
  ResourceAmount, Within, u32_limit, fits_within, fits_within_iff,
}
use laminaria_rust_nim_toolc.Run.Scheduler.Types.{
  PhysicalWorkInstance, SchedulerContractError, NestedParallelism, disabled, accounted,
}
use laminaria_rust_nim_toolc.Run.Scheduler.Start.{
  check_reservation, nested_cpu_slots, saturating_succ,
}

-- A slot for the instance and one for each of the `n` threads it may start, or the largest count that
-- the field holds, where that many slots do not fit it.
abbrev pub HasThreadSlots : NestedParallelism → ℕ → Type 0
HasThreadSlots disabled cpu = 0 < cpu
HasThreadSlots (accounted n) cpu = (n < cpu) ⊎ ((u32_limit ≤ suc n) × (u32_limit ≤ suc cpu))

-- An instance that fits its unit and the budget: the unit's group, some CPU and memory, the slots for
-- its threads, I/O for an external process, the unit's minimum, and no more than the budget.
abbrev pub IsReserved : PhysicalWorkUnit → ResourceAmount → PhysicalWorkInstance → Type 0
IsReserved unit budget i =
    (group_number i.execution_group ≡ group_number unit.execution_group)
    × (0 < i.reservation.cpu_slots)
    × (0 < i.reservation.memory_bytes)
    × HasThreadSlots i.nested_parallelism i.reservation.cpu_slots
    × (0 < i.reservation.external_process_slots → 0 < i.reservation.io_slots)
    × (unit.resources.minimum_cpu_slots ≤ i.reservation.cpu_slots)
    × (unit.resources.external_process_slots ≤ i.reservation.external_process_slots)
    × Within i.reservation budget

checks_iff :
    (g h cpu memory threads io external least_cpu least_external : ℕ) (fits : Bool)
    (a b c d e f k : SchedulerContractError)
    → ((if not (g == h)
          then some a
          else if cpu == 0
          then some b
          else if memory == 0
          then some c
          else if ltb cpu threads
          then some d
          else if ltb 0 external && io == 0
          then some e
          else if ltb cpu least_cpu || ltb external least_external
          then some f
          else if not fits
          then some k
          else none)
        ≡ none)
      ↔ ((g ≡ h)
          × (0 < cpu)
          × (0 < memory)
          × (threads ≤ cpu)
          × (0 < external → 0 < io)
          × (least_cpu ≤ cpu)
          × (least_external ≤ external)
          × (fits ≡ true))
checks_iff g h cpu memory threads io external least_cpu least_external fits a b c d e f k =
    (λ x. ground (arith, x), λ x. ground (arith, x))

saturating_succ-HasThreadSlots :
    (nested : NestedParallelism) (cpu : ℕ)
    → (saturating_succ (nested_cpu_slots nested) ≤ cpu) ↔ HasThreadSlots nested cpu
saturating_succ-HasThreadSlots disabled cpu = (λ h. ground (arith, h), λ h. ground (arith, h))
saturating_succ-HasThreadSlots (accounted n) cpu = (λ h. ground (arith, h), λ h. ground (arith, h))

-- The checks accept an instance exactly if it is of its unit's group, reserves some CPU and some
-- memory, a CPU slot for itself and one for each additional thread it declares (or the largest count
-- of a `u32` where that sum does not fit one), some I/O if it reserves an external process, at least
-- the unit's minimum CPU slots and external processes, and no more than the budget.
pub check_reservation_iff :
    (unit : PhysicalWorkUnit) (budget : ResourceAmount) (i : PhysicalWorkInstance)
    → (check_reservation unit budget i ≡ none) ↔ IsReserved unit budget i
unfolding check_reservation
check_reservation_iff unit budget i =
    let (to, back) =
      checks_iff (group_number i.execution_group) (group_number unit.execution_group)
        i.reservation.cpu_slots i.reservation.memory_bytes
        (saturating_succ (nested_cpu_slots i.nested_parallelism)) i.reservation.io_slots
        i.reservation.external_process_slots unit.resources.minimum_cpu_slots
        unit.resources.external_process_slots (fits_within i.reservation budget) _ _ _ _ _ _ _ in
    let (fit, fits) = fits_within_iff i.reservation budget in
    let (enough, test) =
      saturating_succ-HasThreadSlots i.nested_parallelism i.reservation.cpu_slots in
    (
      λ x. let (p, q, r, s, t, u, v, w) = to x in (p, q, r, enough s, t, u, v, fit w),
      λ (p, q, r, s, t, u, v, w). back (p, q, r, test s, t, u, v, fits w),
    )
