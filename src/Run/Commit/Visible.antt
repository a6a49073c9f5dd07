-- ===== src/Run/Commit/Visible.antt =====
-- What a writer staged is visible once it has committed.
use laminaria_rust_nim_toolc.Prelude.{
  ◌≡◌, ◌⊎◌, inl, inr, refl, sym, ◌∙◌, ap, String, List, [], ◌∷◌, Option, none, some, true, lookup,
  arith,
}
use laminaria_rust_nim_toolc.Run.Commit.{
  CommitTarget, CommittedOutput, StagedOutput, CommitStore, StoreResult, target_eq, visible_in,
  insert_target, or_insert, committed_output, publish, commit,
}
use laminaria_rust_nim_toolc.Run.Commit.Targets.{
  Committed, InStaged, lookup-InStaged, publish-keeps, visible_in-target_eq,
  visible_in-insert_target, or_insert-cases,
}
use laminaria_rust_nim_toolc.Run.Commit.Agree.{Agrees}
use laminaria_rust_nim_toolc.Run.Commit.Calls.{committed_store, commit-store}

-- The target is visible with this hash.
abbrev pub Shows : CommitTarget → String → Committed → Type 0
Shows target sha committed =
    (output : CommittedOutput) × (visible_in target committed ≡ some output)
    × (output.content_sha256 ≡ sha)

-- Something for the target is visible after an insertion under an equal target.
or_insert-Shows :
    (target asked : CommitTarget) (new : CommittedOutput) (committed : Committed)
    → target_eq target asked ≡ true
    → (output : CommittedOutput) × (visible_in asked (or_insert target new committed) ≡ some output)
or_insert-Shows target asked new committed same = inserted (visible_in target committed) refl
  where
    inserted :
        (found : Option CommittedOutput)
        → visible_in target committed ≡ found
        → (output : CommittedOutput) × (visible_in asked
              (elim found [ some x ↦ committed | none ↦ insert_target target new committed ])
            ≡ some output)
    inserted (some x) e = (x, sym (visible_in-target_eq target asked committed same) ∙ e)
    inserted none e =
        (new, ground (arith, visible_in-insert_target target asked new committed e, same))

-- All for the target has one hash, so the published has it.
publish-Shows :
    (writer : String) (outputs : List StagedOutput) (committed : Committed) (target : CommitTarget)
    (sha : String)
    → ((output : CommittedOutput)
        → visible_in target committed ≡ some output
        → output.content_sha256 ≡ sha)
    → ((other : String) → InStaged target other outputs → other ≡ sha)
    → InStaged target sha outputs
    → Shows target sha (publish writer outputs committed)
publish-Shows writer [] committed target sha before alone i = elim i [ ]
publish-Shows writer (x ∷ outputs) committed target sha before alone (inl (same, e)) =
    let (output, seen) =
      or_insert-Shows x.target target (committed_output writer x) committed same in
    (
      output,
      publish-keeps writer outputs _ target output seen,
      inserted output
          (or_insert-cases x.target target (committed_output writer x) output committed seen),
    )
  where
    inserted :
        (output : CommittedOutput)
        → (visible_in target committed ≡ some output)
          ⊎ ((target_eq x.target target ≡ true) × (output ≡ committed_output writer x))
        → output.content_sha256 ≡ sha
    inserted output (inl seen) = before output seen
    inserted output (inr (_, new)) = ap (λ (o : CommittedOutput). o.content_sha256) new ∙ e
publish-Shows writer (x ∷ outputs) committed target sha before alone (inr i) =
    publish-Shows writer outputs (or_insert x.target (committed_output writer x) committed) target
      sha still (λ other j. alone other (inr j)) i
  where
    still :
        (output : CommittedOutput)
        → visible_in target (or_insert x.target (committed_output writer x) committed) ≡ some output
        → output.content_sha256 ≡ sha
    still output seen =
        elim (or_insert-cases x.target target (committed_output writer x) output committed seen) [
          | inl old ↦ before output old
          | inr (same, new) ↦
              ap (λ (o : CommittedOutput). o.content_sha256) new
              ∙ alone x.content_sha256 (inl (same, refl))
        ]

-- In a store whose outputs agree, a writer with a staged batch commits it, and every target of the
-- batch is then visible with the hash that was staged.
pub commit-Shows :
    (store : CommitStore) (writer : String) (outputs : List StagedOutput)
    → Agrees store
    → lookup writer store.staged_by_writer ≡ some outputs
    → (later : CommitStore) × (commit store writer ≡ StoreResult.ok later)
      × ((target : CommitTarget) (sha : String)
          → InStaged target sha outputs
          → Shows target sha later.committed)
commit-Shows store writer outputs agrees staged = (
  committed_store store writer outputs,
  commit-store store writer outputs agrees staged,
  λ target sha i.
      let there = λ (other : String) (j : InStaged target other outputs).
        lookup-InStaged target other writer outputs store.staged_by_writer staged j in
      publish-Shows writer outputs store.committed target sha
        (λ output seen.
          agrees target output.content_sha256 sha (inl (output, seen, refl)) (inr (there sha i)))
        (λ other j. agrees target other sha (inr (there other j)) (inr (there sha i))) i,
)
