-- ===== src/Run/Examples.antt =====
-- The theorems at concrete work, and runs of the scheduler.
use laminaria_rust_nim_toolc.Prelude.{
  ◌↔◌, ◌≡◌, ◌≤◌, refl, true, ℕ, get_elem?, sum_by, ◌%◌, none, some, String, List, [], ◌∷◌, lookup,
  insert, replace, set_insert, remove,
}
use laminaria_rust_nim_toolc.Run.Resources.{
  u64_limit, amount, cpu, checked_add, checked_sub, fits_within,
}
use laminaria_rust_nim_toolc.Plan.PhysicalWork.{native_object}
use laminaria_rust_nim_toolc.Run.Commit.{
  StagedOutput, CommitStore, StoreResult, CommitTarget, CommitWrite, stage, visible_in,
  insert_target, staged_sha, all_staged, first_missing, target_eq,
}
use laminaria_rust_nim_toolc.Run.Commit
use laminaria_rust_nim_toolc.Run.Scheduler.Types.{
  invalid_transition, running, ResourceScheduler, Outcome, ready, blocked, completed, failed,
  cancelled, state_eq, RuntimeWork, LifecycleTransition, computation_finished,
}
use laminaria_rust_nim_toolc.Run.Scheduler.State.{event, find_unit, set_state, state}
use laminaria_rust_nim_toolc.Run.Scheduler.Start.{check_reservation, fresh}
use laminaria_rust_nim_toolc.Run.Scheduler.Cycle.{new, nothing_scheduled}
use laminaria_rust_nim_toolc.Run.Scheduler.Admit
use laminaria_rust_nim_toolc.Run.Scheduler.Admit.{admit_ready}
use laminaria_rust_nim_toolc.Run.Scheduler.Valid.{owned, Since}
use laminaria_rust_nim_toolc.Run.Scheduler.Ends.{Became}
use laminaria_rust_nim_toolc.Run.Scheduler.Guarantees.{
  Reached-Valid, Returns, allocated-sum_by, Reached-IsCompleted, Reached-Numbered, perform-Returns,
  accepted-Since, admit_ready-ok, commit-Became, fail-Became, cancel-Became,
}
use laminaria_rust_nim_toolc.Run.Scheduler.Operations
use laminaria_rust_nim_toolc.Run.Scheduler.Operations.{stage_outputs, fail, cancel}
use laminaria_rust_nim_toolc.Run.Scheduler.Steps.{
  Call, admitting, staging, committing_of, failing, perform, Reached, start, accepted,
}
use laminaria_rust_nim_toolc.Run.Scheduler.Refusing.{refused-unchanged}
use laminaria_rust_nim_toolc.Run.Scheduler.Reserving.{IsReserved, check_reservation_iff}
use laminaria_rust_nim_toolc.Run.Commit.Targets.{InStaged}
use laminaria_rust_nim_toolc.Run.Commit.Visible.{Shows, commit-Shows}
use laminaria_rust_nim_toolc.Run.Samples.{
  code_unit, sample_digest, sample_budget-IsAmount, sample_contract, code_work, link_work,
  sample_budget, left_by,
}

abbrev first : ResourceScheduler
first =
    left_by (nothing_scheduled [] sample_budget)
      (new sample_contract (code_work ∷ link_work ∷ []) sample_budget)

first_states : (state first "code" ≡ some ready) × (state first "link" ≡ some blocked)
unfolding new lookup insert replace set_insert find_unit set_state check_reservation fits_within
first_states = (refl, refl)

first-Reached : Reached sample_digest first
unfolding new lookup insert replace set_insert find_unit set_state check_reservation fits_within
first-Reached =
    start sample_contract (code_work ∷ link_work ∷ []) sample_budget first sample_budget-IsAmount
      refl

abbrev after : ResourceScheduler → Call → ResourceScheduler
after s call = left_by s (perform sample_digest call s)

abbrev second : ResourceScheduler
second = after first admitting

second-Reached : Reached sample_digest second
unfolding new lookup insert replace set_insert find_unit set_state check_reservation fits_within
    checked_add checked_sub Admit.start Admit.wait_for
second-Reached = accepted admitting first second first-Reached refl

abbrev object_write : CommitWrite
object_write = record { output_kind = native_object; logical_key = "main.o"; bytes = 127 ∷ 69 ∷ [] }

abbrev third : ResourceScheduler
third = after second (staging "code" (object_write ∷ []))

third-Reached : Reached sample_digest third
unfolding new lookup insert replace set_insert find_unit set_state check_reservation fits_within
    checked_add checked_sub Admit.start Admit.wait_for stage_outputs stage first_missing visible_in
    staged_sha all_staged target_eq
third-Reached = accepted (staging "code" (object_write ∷ [])) second third second-Reached refl

abbrev fourth : ResourceScheduler
fourth = after third (committing_of "code")

fourth-Reached : Reached sample_digest fourth
unfolding new lookup insert replace set_insert find_unit set_state check_reservation fits_within
    checked_add checked_sub Admit.start Admit.wait_for stage_outputs stage first_missing visible_in
    staged_sha all_staged target_eq insert_target remove Operations.commit Commit.commit
fourth-Reached = accepted (committing_of "code") third fourth third-Reached refl

fourth_states : (state fourth "code" ≡ some completed) × (state fourth "link" ≡ some ready)
unfolding new lookup insert replace set_insert find_unit set_state check_reservation fits_within
    checked_add checked_sub Admit.start Admit.wait_for stage_outputs stage first_missing visible_in
    staged_sha all_staged target_eq insert_target remove Operations.commit Commit.commit
fourth_states = (refl, refl)

abbrev work_of : ResourceScheduler → String → RuntimeWork
work_of s id = elim (lookup id s.work) [ none ↦ fresh code_work | some runtime ↦ runtime ]

allocated-sum_by_example :
    (amount cpu second.allocated ≡ sum_by (owned cpu) second.work)
    × (amount cpu second.allocated ≤ amount cpu second.budget)
allocated-sum_by_example = allocated-sum_by sample_digest second second-Reached cpu

Reached-IsCompleted_example : state_eq (work_of fourth "code").state completed ≡ true
unfolding new lookup insert replace set_insert find_unit set_state check_reservation fits_within
    checked_add checked_sub Admit.start Admit.wait_for stage_outputs stage first_missing visible_in
    staged_sha all_staged target_eq insert_target remove Operations.commit Commit.commit
Reached-IsCompleted_example =
    Reached-IsCompleted sample_digest fourth fourth-Reached "link" "code" (work_of fourth "link")
      (work_of fourth "code") refl refl refl refl

perform-Returns_example : Returns (perform sample_digest (failing "code" "disk full") third)
perform-Returns_example =
    perform-Returns sample_digest third (failing "code" "disk full") third-Reached

accepted-Since_example : Since third fourth
unfolding new lookup insert replace set_insert find_unit set_state check_reservation fits_within
    checked_add checked_sub Admit.start Admit.wait_for stage_outputs stage first_missing visible_in
    staged_sha all_staged target_eq insert_target remove Operations.commit Commit.commit
accepted-Since_example =
    accepted-Since sample_digest third fourth (committing_of "code") third-Reached refl

admit_ready-ok_example :
    (ids : List String) × (t : ResourceScheduler) × (admit_ready first ≡ Outcome.ok ids t)
admit_ready-ok_example = admit_ready-ok sample_digest first first-Reached

commit-Became_example :
    (t : ResourceScheduler) × (Operations.commit "code" third ≡ Outcome.ok tt t)
    × Became "code" completed tt t
unfolding new lookup insert replace set_insert find_unit set_state check_reservation fits_within
    checked_add checked_sub Admit.start Admit.wait_for stage_outputs stage first_missing visible_in
    staged_sha all_staged target_eq insert_target remove Operations.commit Commit.commit
commit-Became_example =
    commit-Became sample_digest third "code" (work_of third "code") third-Reached refl refl

fail-Became_example :
    (t : ResourceScheduler) × (fail "code" "disk full" second ≡ Outcome.ok tt t)
    × Became "code" failed tt t
unfolding new lookup insert replace set_insert find_unit set_state check_reservation fits_within
    checked_add checked_sub Admit.start Admit.wait_for stage_outputs stage first_missing visible_in
    staged_sha all_staged target_eq insert_target remove Operations.commit Commit.commit
fail-Became_example =
    fail-Became sample_digest second "code" "disk full" (work_of second "code") second-Reached refl
      refl

cancel-Became_example :
    (t : ResourceScheduler) × (cancel "link" "stopped" first ≡ Outcome.ok tt t)
    × Became "link" cancelled tt t
unfolding new lookup insert replace set_insert find_unit set_state check_reservation fits_within
    checked_add checked_sub Admit.start Admit.wait_for stage_outputs stage first_missing visible_in
    staged_sha all_staged target_eq insert_target remove Operations.commit Commit.commit
cancel-Became_example =
    cancel-Became sample_digest first "link" "stopped" (work_of first "link") first-Reached refl
      refl

-- The transition at a place of the history, or one like the first.
abbrev event_at : ResourceScheduler → ℕ → LifecycleTransition
event_at s i = elim (get_elem? s.transitions i) [
  | none ↦ event s "" blocked blocked computation_finished
  | some found ↦ found
]

Reached-Numbered_example : (event_at third 2).sequence ≡ 2 % u64_limit
unfolding new lookup insert replace set_insert find_unit set_state check_reservation fits_within
    checked_add checked_sub Admit.start Admit.wait_for stage_outputs stage first_missing visible_in
    staged_sha all_staged target_eq insert_target remove Operations.commit Commit.commit
Reached-Numbered_example =
    Reached-Numbered sample_digest third third-Reached 2 (event_at third 2) refl

refused-unchanged_example : after second (committing_of "code") ≡ second
unfolding new lookup insert replace set_insert find_unit set_state check_reservation fits_within
    checked_add checked_sub Admit.start Admit.wait_for stage_outputs stage first_missing visible_in
    staged_sha all_staged target_eq insert_target remove Operations.commit Commit.commit
refused-unchanged_example =
    refused-unchanged sample_digest second (after second (committing_of "code"))
      (committing_of "code") (invalid_transition "code" running "commit") second-Reached refl

check_reservation_iff_example :
    (check_reservation code_unit sample_budget code_work ≡ none)
    ↔ IsReserved code_unit sample_budget code_work
check_reservation_iff_example = check_reservation_iff code_unit sample_budget code_work

abbrev staged_by_code : List StagedOutput
staged_by_code = elim (lookup "code" third.store.staged_by_writer) [
  | none ↦ []
  | some outputs ↦ outputs
]

commit-Shows_example :
    (later : CommitStore) × (Commit.commit third.store "code" ≡ StoreResult.ok later)
    × ((target : CommitTarget) (sha : String)
        → InStaged target sha staged_by_code
        → Shows target sha later.committed)
unfolding new lookup insert replace set_insert find_unit set_state check_reservation fits_within
    checked_add checked_sub Admit.start Admit.wait_for stage_outputs stage first_missing visible_in
    staged_sha all_staged target_eq insert_target remove Operations.commit Commit.commit
commit-Shows_example =
    commit-Shows third.store "code" staged_by_code
      (Reached-Valid sample_digest third third-Reached).agreed refl
