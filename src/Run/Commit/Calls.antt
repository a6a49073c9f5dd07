-- ===== src/Run/Commit/Calls.antt =====
-- Staging and committing keep the agreement, and a staged batch is committed without a conflict.
use laminaria_rust_nim_toolc.Prelude.{
  ℕ, ◌≡◌, ◌⊎◌, inl, inr, refl, sym, ap, subst, arith, eq_iff, lookup-remove, lookup-insert, String,
  List, [], ◌∷◌, none, some, lookup, insert, remove, map,
}
use laminaria_rust_nim_toolc.Plan.PhysicalWork.{PhysicalWorkUnit}
use laminaria_rust_nim_toolc.Run.Commit.{
  CommitWrite, CommitTarget, StagedOutput, CommitStore, StoreResult, stage, commit, stage_writes,
  reject_all, publish, stage_checked, commit_found, commit_batch,
}
use laminaria_rust_nim_toolc.Run.Commit.Targets.{
  InStaged, lookup-InStaged, remove-InStaged, insert-InStaged, publish-cases, publish-keeps,
  target_eq_refl,
}
use laminaria_rust_nim_toolc.Run.Commit.Agree.{
  HasSha, Agrees, IsNext, subset-Agrees, HasSha-accepted,
}
use laminaria_rust_nim_toolc.Run.Commit.Batch.{IsBatch, Extends, stage_writes-Extends, value_or}

-- The store with a batch of its own for the writer.
put-IsNext :
    (store : CommitStore) (writer : String) (outputs : List StagedOutput)
    → Agrees store
    → Extends store outputs
    → IsNext store writer
        (record store { staged_by_writer = insert writer outputs store.staged_by_writer })
put-IsNext store writer outputs agrees (seen, batch) = record {
  apart = λ other e. ground (arith, lookup-insert writer other outputs store.staged_by_writer, e);
  agrees = λ target a b p q. both target a b (parts target a p) (parts target b q);
  kept = λ target output e. e;
}
  where
    parts :
        (target : CommitTarget) (sha : String)
        → HasSha target sha
            (record store { staged_by_writer = insert writer outputs store.staged_by_writer })
        → InStaged target sha outputs ⊎ HasSha target sha store
    parts target sha (inl e) = inr (inl e)
    parts target sha (inr e) =
        elim (insert-InStaged target sha writer outputs store.staged_by_writer e) [
          | inl new ↦ inl new
          | inr old ↦ inr (inr old)
        ]

    both :
        (target : CommitTarget) (a b : String)
        → InStaged target a outputs ⊎ HasSha target a store
        → InStaged target b outputs ⊎ HasSha target b store
        → a ≡ b
    both target a b (inl p) (inl q) = batch.alone target a b p q
    both target a b (inl p) (inr q) = sym (batch.with_store target a b p q)
    both target a b (inr p) (inl q) = batch.with_store target b a q p
    both target a b (inr p) (inr q) = agrees target a b p q

-- What is staged is there for the writer.
pub stage-IsNext :
    (digest : List ℕ → String) (store later : CommitStore) (writer : String)
    (unit : PhysicalWorkUnit) (writes : List CommitWrite) (targets : List CommitTarget)
    → Agrees store
    → stage digest store writer unit writes ≡ StoreResult.ok (later, targets)
    → IsNext store writer later
      × ((outputs : List StagedOutput) × (lookup writer later.staged_by_writer ≡ some outputs))
unfolding stage
stage-IsNext digest store later writer unit [] targets h e = ground (arith, e)
stage-IsNext digest store later writer unit (write ∷ writes) targets h e =
    checked (stage_writes digest store writer unit [] [] (write ∷ writes)) refl e
  where
    nothing : IsBatch store [] []
    nothing = record {
      with_store = λ target sha there i _. elim i [ ];
      alone = λ target a b i _. elim i [ ];
      kinds_seen = λ target sha i. elim i [ ];
    }

    put : List StagedOutput → CommitStore
    put outputs = record store { staged_by_writer = insert writer outputs store.staged_by_writer }

    checked :
        (r : StoreResult (List StagedOutput))
        → stage_writes digest store writer unit [] [] (write ∷ writes) ≡ r
        → stage_checked digest store writer r ≡ StoreResult.ok (later, targets)
        → IsNext store writer later
          × ((outputs : List StagedOutput) × (lookup writer later.staged_by_writer ≡ some outputs))
    checked (StoreResult.err x) f k = ground (arith, k)
    checked (StoreResult.ok outputs) f k =
        subst
          (λ l.
            IsNext store writer l
            × ((outputs : List StagedOutput) × (lookup writer l.staged_by_writer ≡ some outputs)))
          (ap (λ r. (value_or {A = CommitStore × List CommitTarget} (later, targets) r).0) k)
          (
            put-IsNext store writer outputs h (
                stage_writes-Extends digest store writer unit [] [] outputs (write ∷ writes) h
                  nothing f),
            (
              outputs,
              ground (
                arith,
                lookup-insert writer writer outputs store.staged_by_writer,
                eq_iff writer writer,
              ),
            ),
          )

-- A batch that the store has is not in conflict with it.
reject_all-none :
    (store : CommitStore) (outputs : List StagedOutput)
    → Agrees store
    → ((target : CommitTarget) (sha : String)
        → InStaged target sha outputs
        → HasSha target sha store)
    → reject_all store outputs ≡ none
reject_all-none store [] h has = refl
reject_all-none store (x ∷ outputs) h has =
    rw
      (
        reject_all,
        HasSha-accepted store x.target x.content_sha256 h
            (has x.target x.content_sha256 (inl (target_eq_refl x.target, refl))),
      )
      (reject_all-none store outputs h (λ target sha i. has target sha (inr i)))

-- The store after the batch.
abbrev pub committed_store : CommitStore → String → List StagedOutput → CommitStore
committed_store store writer outputs = record {
  staged_by_writer = remove writer store.staged_by_writer;
  committed = publish writer outputs store.committed;
  committed_targets_by_writer =
      insert writer (map (λ (output : StagedOutput). output.target) outputs)
        store.committed_targets_by_writer;
}

pub commit-store :
    (store : CommitStore) (writer : String) (outputs : List StagedOutput)
    → Agrees store
    → lookup writer store.staged_by_writer ≡ some outputs
    → commit store writer ≡ StoreResult.ok (committed_store store writer outputs)
unfolding commit
commit-store store writer outputs h e =
    rw
      (
        e,
        commit_found,
        commit_batch,
        reject_all-none store outputs h (λ target sha i.
            inr (lookup-InStaged target sha writer outputs store.staged_by_writer e i)),
      )
      refl

-- A staged batch is committed, without a conflict.
pub staged-commit :
    (store : CommitStore) (writer : String) (outputs : List StagedOutput)
    → Agrees store
    → lookup writer store.staged_by_writer ≡ some outputs
    → (later : CommitStore) × (commit store writer ≡ StoreResult.ok later)
      × IsNext store writer later
staged-commit store writer outputs h e = (
  committed_store store writer outputs,
  commit-store store writer outputs h e,
  record {
    apart = λ other k. ground (arith, lookup-remove writer other store.staged_by_writer, k);
    agrees = subset-Agrees store (committed_store store writer outputs) smaller h;
    kept = λ target output k. publish-keeps writer outputs store.committed target output k;
  },
)
  where
    there :
        (target : CommitTarget) (sha : String)
        → InStaged target sha outputs
        → HasSha target sha store
    there target sha i = inr (lookup-InStaged target sha writer outputs store.staged_by_writer e i)

    smaller :
        (target : CommitTarget) (sha : String)
        → HasSha target sha (committed_store store writer outputs)
        → HasSha target sha store
    smaller target sha (inl (output, k, s)) =
        elim (publish-cases target sha writer outputs store.committed output k s) [
          | inl old ↦ inl (output, old, s)
          | inr new ↦ there target sha new
        ]
    smaller target sha (inr k) = inr (remove-InStaged target sha writer store.staged_by_writer k)
