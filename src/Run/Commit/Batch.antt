-- ===== src/Run/Commit/Batch.antt =====
-- The loop over the writes of a batch: what it stages agrees with the store and in itself.
use laminaria_rust_nim_toolc.Prelude.{
  ℕ, ◌≡◌, ◌⊎◌, inl, inr, refl, sym, ◌∙◌, ap, subst, arith, String, List, [], ◌∷◌, ◌++◌, Option,
  none, some, Bool, true, false, not, ◌||◌, str_eq, if◌then◌else◌, ◌==◌,
}
use laminaria_rust_nim_toolc.Plan.PhysicalWork.{DataKind, kind_number, PhysicalWorkUnit}
use laminaria_rust_nim_toolc.Run.Commit.{
  reject_conflicting_content, CommitWrite, CommitTarget, StagedOutput, CommitStore,
  CommitStoreError, StoreResult, target_eq, all_staged, declares, staged_output, check_write,
  stage_writes, first_missing, write_target,
}
use laminaria_rust_nim_toolc.Run.Commit.Targets.{
  InStaged, InStaged-append, InStaged-target_eq, visible_in-target_eq, target_eq-kind,
}
use laminaria_rust_nim_toolc.Run.Commit.Agree.{HasSha, Agrees, accepted-HasSha}

-- The staged part of a batch: it agrees with the store and in itself, and `seen` has its kinds.
pub record IsBatch (store : CommitStore) (seen : List DataKind) (staged : List StagedOutput)
    : Type 0 where
  pub with_store :
      (target : CommitTarget) (sha there : String)
      → InStaged target sha staged
      → HasSha target there store
      → there ≡ sha
  pub alone :
      (target : CommitTarget) (a b : String)
      → InStaged target a staged
      → InStaged target b staged
      → a ≡ b
  pub kinds_seen :
      (target : CommitTarget) (sha : String)
      → InStaged target sha staged
      → declares target.output_kind seen ≡ true

-- The batch with the agreement, whatever was seen.
abbrev pub Extends : CommitStore → List StagedOutput → Type 0
Extends store staged = (seen : List DataKind) × IsBatch store seen staged

declares-kind :
    (a b : DataKind) (kinds : List DataKind)
    → kind_number a ≡ kind_number b
    → declares a kinds ≡ declares b kinds
declares-kind a b [] h = refl
declares-kind a b (kind ∷ kinds) h =
    ap (λ n. kind_number kind == n || declares a kinds) h
    ∙ ap (λ rest. kind_number kind == kind_number b || rest) (declares-kind a b kinds h)

HasSha-target :
    (store : CommitStore) (a b : CommitTarget) (sha : String)
    → target_eq a b ≡ true
    → HasSha b sha store
    → HasSha a sha store
HasSha-target store a b sha h (inl (output, e, s)) =
    inl (output, visible_in-target_eq a b store.committed h ∙ e, s)
HasSha-target store a b sha h (inr k) =
    inr (InStaged-target_eq a b sha (all_staged store.staged_by_writer) h k)

contradiction : (b : Bool) → b ≡ true → b ≡ false → ⊥
contradiction b h k = ground (arith, h, k)

-- One more accepted output.
IsBatch-append :
    (store : CommitStore) (seen : List DataKind) (staged : List StagedOutput)
    (output : StagedOutput)
    → Agrees store
    → declares output.target.output_kind seen ≡ false
    → reject_conflicting_content store output.target output.content_sha256 ≡ none
    → IsBatch store seen staged
    → IsBatch store (output.target.output_kind ∷ seen) (staged ++ output ∷ [])
IsBatch-append store seen staged output agrees unseen accepted batch = record {
  with_store = λ target sha there i has. elim (InStaged-append target sha staged (output ∷ []) i) [
    | inl old ↦ batch.with_store target sha there old has
    | inr (inl (t, e)) ↦
        accepted-HasSha store output.target output.content_sha256 there agrees accepted
          (HasSha-target store output.target target there t has)
        ∙ e
    | inr (inr e) ↦ elim e [ ]
  ];
  alone = λ target a b i j.
      both target a b (InStaged-append target a staged (output ∷ []) i)
        (InStaged-append target b staged (output ∷ []) j);
  kinds_seen = λ target sha i. elim (InStaged-append target sha staged (output ∷ []) i) [
    | inl old ↦ ground (arith, batch.kinds_seen target sha old)
    | inr (inl (t, e)) ↦
        kind_there (kind_number output.target.output_kind) (kind_number target.output_kind)
          (declares target.output_kind seen) (target_eq-kind output.target target t)
    | inr (inr e) ↦ elim e [ ]
  ];
}
  where
    kind_there : (m n : ℕ) (b : Bool) → m ≡ n → (m == n || b) ≡ true
    kind_there m n b h = ground arith

    -- No staged output has the target of the new one.
    apart :
        (target : CommitTarget) (sha : String)
        → InStaged target sha staged
        → target_eq output.target target ≡ true
        → ⊥
    apart target sha i t =
        let same =
          declares-kind output.target.output_kind target.output_kind seen
            (target_eq-kind output.target target t) in
        contradiction (declares output.target.output_kind seen)
          (same ∙ batch.kinds_seen target sha i) unseen

    both :
        (target : CommitTarget) (a b : String)
        → InStaged target a staged ⊎ InStaged target a (output ∷ [])
        → InStaged target b staged ⊎ InStaged target b (output ∷ [])
        → a ≡ b
    both target a b (inl i) (inl j) = batch.alone target a b i j
    both target a b (inl i) (inr (inl (t, e))) = elim (apart target a i t) [ ]
    both target a b (inr (inl (t, e))) (inl j) = elim (apart target b j t) [ ]
    both target a b (inr (inl (t, e))) (inr (inl (t', e'))) = sym e ∙ e'
    both target a b i (inr (inr e)) = elim e [ ]
    both target a b (inr (inr e)) j = elim e [ ]

abbrev pub value_or : {A : Type 0} → A → StoreResult A → A
value_or other (StoreResult.ok a) = a
value_or other (StoreResult.err e) = other

module _ (digest : List ℕ → String) where
  check_write-none :
      (store : CommitStore) (writer : String) (unit : PhysicalWorkUnit) (seen : List DataKind)
      (write : CommitWrite)
      → check_write digest store writer unit seen write ≡ none
      → (declares write.output_kind seen ≡ false)
        × (reject_conflicting_content store (write_target unit write) (digest write.bytes) ≡ none)
  check_write-none store writer unit seen write h =
      tests (declares write.output_kind unit.outputs) (declares write.output_kind seen)
        (str_eq write.logical_key "") h
    where
      tests :
          (a b c : Bool)
          → (if not a
              then some (CommitStoreError.undeclared_output writer write.output_kind)
              else if b
              then some (CommitStoreError.duplicate_output writer write.output_kind)
              else if c
              then some (CommitStoreError.empty_logical_key writer write.output_kind)
              else reject_conflicting_content store (write_target unit write) (digest write.bytes))
            ≡ none
          → (b ≡ false)
            × (reject_conflicting_content store (write_target unit write) (digest write.bytes)
                ≡ none)
      tests false b c k = ground (arith, k)
      tests true true c k = ground (arith, k)
      tests true false true k = ground (arith, k)
      tests true false false k = (refl, k)

  pub stage_writes-Extends :
      (store : CommitStore) (writer : String) (unit : PhysicalWorkUnit) (seen : List DataKind)
      (staged outputs : List StagedOutput) (writes : List CommitWrite)
      → Agrees store
      → IsBatch store seen staged
      → stage_writes digest store writer unit seen staged writes ≡ StoreResult.ok outputs
      → Extends store outputs
  stage_writes-Extends store writer unit seen staged outputs [] agrees batch h =
      complete (first_missing unit.outputs seen) h
    where
      complete :
          (o : Option DataKind)
          → (elim o [
            | none ↦ StoreResult.ok staged
            | some kind ↦ StoreResult.err (CommitStoreError.missing_declared_output writer kind)
          ])
            ≡ StoreResult.ok outputs
          → Extends store outputs
      complete none e = subst (λ x. Extends store x) (ap (value_or staged) e) (seen, batch)
      complete (some kind) e = ground (arith, e)
  stage_writes-Extends store writer unit seen staged outputs (write ∷ writes) agrees batch h =
      checked (check_write digest store writer unit seen write) refl h (λ fresh.
        stage_writes-Extends store writer unit (write.output_kind ∷ seen)
          (staged ++ staged_output digest unit write ∷ []) outputs writes agrees
          (IsBatch-append store seen staged (staged_output digest unit write) agrees fresh.0 fresh.1
            batch))
    where
      checked :
          (o : Option CommitStoreError)
          → check_write digest store writer unit seen write ≡ o
          → (elim o [
            | some e ↦ StoreResult.err e
            | none ↦
                stage_writes digest store writer unit
                  (write.output_kind ∷ seen)
                  (staged ++ staged_output digest unit write ∷ [])
                  writes
          ])
            ≡ StoreResult.ok outputs
          → ((declares write.output_kind seen ≡ false)
                × (reject_conflicting_content store (write_target unit write) (digest write.bytes)
                    ≡ none)
              → stage_writes digest store writer unit
                  (write.output_kind ∷ seen)
                  (staged ++ staged_output digest unit write ∷ [])
                  writes
                ≡ StoreResult.ok outputs
              → Extends store outputs)
          → Extends store outputs
      checked none e k later = later (check_write-none store writer unit seen write e) k
      checked (some x) e k later = ground (arith, k)
