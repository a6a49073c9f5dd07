-- ===== src/Run/Scheduler/Admit.antt =====
-- crates/laminaria-run/src/resource_scheduler.rs: `admit_ready`.
use laminaria_rust_nim_toolc.Prelude.{
  Bool, true, false, not, ◌&&◌, String, List, [], ◌∷◌, Option, none, some, keys, if◌then◌else◌,
}
use laminaria_rust_nim_toolc.Run.Resources.{
  ResourceAmount, checked_add, checked_sub, fits_within, ResourceDeficit, between, deficit_eq,
}
use laminaria_rust_nim_toolc.Run.Scheduler.Types.{
  WaitReason, RuntimeWork, Step, ◌>>=◌, ◌>>◌, return, ok_or, ready, running, blocked, state_eq,
  resources, resources_available, admitted, waiting, resource_accounting_overflow, Outcome,
}
use laminaria_rust_nim_toolc.Run.Scheduler.State.{runtime_of, set_state}

abbrev pub waits_for_resources : Option WaitReason → Bool
waits_for_resources (some (resources deficit)) = true
waits_for_resources wait = false

abbrev pub resource_wait : RuntimeWork → Bool
resource_wait runtime = state_eq runtime.state blocked && waits_for_resources runtime.wait_reason

abbrev pub waits_with : Option WaitReason → ResourceDeficit → Bool
waits_with (some (resources deficit)) other = deficit_eq deficit other
waits_with wait other = false

abbrev pub available : Step ResourceAmount
available s = ok_or (checked_sub s.budget s.allocated) resource_accounting_overflow s

abbrev pub allocate : ResourceAmount → Step Unit
allocate reservation s =
    (ok_or (checked_add s.allocated reservation) resource_accounting_overflow >>= λ total s'.
    Outcome.ok tt (record s' { allocated = total }))
      s

-- It fits and runs: `true`.
unfoldable pub start : String → RuntimeWork → Step Bool
start id runtime = do
  if resource_wait runtime then set_state id ready none resources_available else return tt
  allocate runtime.definition.reservation
  set_state id running none admitted
  return true

-- It does not fit and waits: `false`.
unfoldable pub wait_for : String → RuntimeWork → ResourceDeficit → Step Bool
wait_for id runtime deficit =
    if waits_with runtime.wait_reason deficit
    then return false
    else (set_state id blocked (some (resources deficit)) (waiting (resources deficit))
        >> return false)

abbrev pub consider : String → RuntimeWork → Step Bool
consider id runtime = do
  room ← available
  if fits_within runtime.definition.reservation room
      then start id runtime
      else wait_for id runtime (between runtime.definition.reservation room)

-- Whether the instance is admitted.
abbrev pub admit_one : String → Step Bool
admit_one id = do
  runtime ← runtime_of id
  if not (state_eq runtime.state ready) && not (resource_wait runtime)
      then return false
      else consider id runtime

abbrev pub admit_all : List String → Step (List String)
admit_all [] = return []
admit_all (id ∷ ids) = do
  taken ← admit_one id
  rest ← admit_all ids
  return (if taken then id ∷ rest else rest)

abbrev pub admit_ready : Step (List String)
admit_ready s = admit_all (keys s.work) s
