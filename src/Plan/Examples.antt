-- ===== src/Plan/Examples.antt =====
-- Tests, and the theorems about the lifecycle at a concrete graph.
use laminaria_rust_nim_toolc.Prelude.{◌≡◌, refl, ◌↔◌, lookup, insert}
use laminaria_rust_nim_toolc.Plan.Obligations.{statically_linked, find_action, discharge_obligation}
use laminaria_rust_nim_toolc.Plan.Lifecycle.Types.{ProductionGraph, ArtifactManifest, Checked, ok}
use laminaria_rust_nim_toolc.Plan.Lifecycle.Checks.{
  new, as_set, sequence_used, operation_id_used, validate_operation, nothing_recorded,
}
use laminaria_rust_nim_toolc.Plan.Lifecycle.History.{append_transition, refuses}
use laminaria_rust_nim_toolc.Plan.Lifecycle.Reachable.{
  reachable_obligations, demands, explore, edges,
}
use laminaria_rust_nim_toolc.Plan.Lifecycle.Resolve.{record_resolution}
use laminaria_rust_nim_toolc.Plan.Lifecycle.Operate.{record_operation}
use laminaria_rust_nim_toolc.Plan.Lifecycle.Publication.{
  all_blockers, lacks_evidence, blockers, publication_manifest, manifest,
}
use laminaria_rust_nim_toolc.Plan.Lifecycle.Promise.{Publishable, IsManifest}
use laminaria_rust_nim_toolc.Plan.Lifecycle.Publishable.{publication_manifest_iff}
use laminaria_rust_nim_toolc.Plan.Lifecycle.Steps.{Reached, start, accepted, resolve, operate}
use laminaria_rust_nim_toolc.Plan.Lifecycle.Histories.{AllChained, Reached-AllChained}
use laminaria_rust_nim_toolc.Plan.Lifecycle.Sequences.{AllDistinct, Reached-AllDistinct}
use laminaria_rust_nim_toolc.Plan.Samples.{closure, resolved, linked, executable, after}

abbrev first : ProductionGraph
first = nothing_recorded closure

abbrev second : ProductionGraph
second = after (record_resolution first resolved)

abbrev third : ProductionGraph
third = after (record_operation second linked statically_linked)

resolution_accepted : record_resolution first resolved ≡ ok second
unfolding record_resolution operation_id_used sequence_used as_set lookup insert append_transition
    refuses
resolution_accepted = refl

operation_accepted : record_operation second linked statically_linked ≡ ok third
unfolding record_operation record_resolution operation_id_used sequence_used as_set lookup insert
    append_transition refuses validate_operation find_action discharge_obligation
operation_accepted = refl

published : publication_manifest third executable ≡ Checked.ok (manifest third executable)
unfolding record_operation record_resolution operation_id_used sequence_used as_set lookup insert
    append_transition refuses validate_operation find_action discharge_obligation
    publication_manifest blockers all_blockers lacks_evidence reachable_obligations demands explore
    edges
published = refl

new_accepted : new closure ≡ Checked.ok first
unfolding new
new_accepted = refl

third-Reached : Reached third
third-Reached =
    accepted (operate linked statically_linked) second third
      (accepted (resolve resolved) first second (start closure first new_accepted)
        resolution_accepted)
      operation_accepted

Reached-AllChained_example : AllChained third
Reached-AllChained_example = Reached-AllChained third third-Reached

Reached-AllDistinct_example : AllDistinct third
Reached-AllDistinct_example = Reached-AllDistinct third third-Reached

publication_manifest_iff_example :
    ((m : ArtifactManifest) × (publication_manifest third executable ≡ Checked.ok m)
      × IsManifest third executable m)
    ↔ Publishable third executable
publication_manifest_iff_example = publication_manifest_iff third executable
