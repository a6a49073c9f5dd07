-- ===== src/Run/Commit.antt =====
-- crates/laminaria-run/src/resource_scheduler.rs: the store of staged and committed outputs. The SHA-256 of
-- a byte sequence, in hexadecimal, is the parameter `sha256_bytes`: the digest is a library's.
pub mod Targets
pub mod Agree
pub mod Batch
pub mod Calls
pub mod Visible
use laminaria_rust_nim_toolc.Prelude.{
  ℕ, suc, Bool, true, false, not, ◌&&◌, String, List, [], ◌∷◌, ◌++◌, Option, none, some, any, map,
  lookup, insert, remove, str_eq, str_ltb, if◌then◌else◌, ◌==◌, ltb,
}
use laminaria_rust_nim_toolc.Plan.PhysicalWork.{
  DataKind, kind_number, kind_eq, KeySpace, key_space_number, CommitBoundary, boundary_number,
  SideEffect, keyed_compare_and_commit, PhysicalWorkUnit,
}

pub record CommitWrite : Type 0 where
  pub output_kind : DataKind
  pub logical_key : String
  pub bytes : List ℕ

pub record CommitTarget : Type 0 where
  pub boundary : CommitBoundary
  pub key_space : Option KeySpace
  pub output_kind : DataKind
  pub logical_key : String

-- `None` is the least key space.
abbrev pub space_number : Option KeySpace → ℕ
space_number none = 0
space_number (some space) = suc (key_space_number space)

unfoldable pub target_eq : CommitTarget → CommitTarget → Bool
target_eq a b =
    boundary_number a.boundary == boundary_number b.boundary
    && space_number a.key_space == space_number b.key_space
    && kind_eq a.output_kind b.output_kind
    && str_eq a.logical_key b.logical_key

-- The derived order compares field by field.
abbrev pub target_ltb : CommitTarget → CommitTarget → Bool
target_ltb a b =
    if not (boundary_number a.boundary == boundary_number b.boundary)
    then ltb (boundary_number a.boundary) (boundary_number b.boundary)
    else if not (space_number a.key_space == space_number b.key_space)
    then ltb (space_number a.key_space) (space_number b.key_space)
    else if not (kind_eq a.output_kind b.output_kind)
    then ltb (kind_number a.output_kind) (kind_number b.output_kind)
    else str_ltb a.logical_key b.logical_key

pub record CommittedOutput : Type 0 where
  pub target : CommitTarget
  pub content_sha256 : String
  pub bytes : List ℕ
  pub writer_instance_id : String

pub record StagedOutput : Type 0 where
  pub target : CommitTarget
  pub content_sha256 : String
  pub bytes : List ℕ

pub data CommitStoreError : Type 0 where
  empty_write_set : (instance_id : String) → CommitStoreError
  missing_declared_output undeclared_output duplicate_output empty_logical_key :
      (instance_id : String) (output_kind : DataKind) → CommitStoreError
  conflicting_content :
      (target : CommitTarget) (existing_sha256 proposed_sha256 : String) → CommitStoreError
  missing_staging : (instance_id : String) → CommitStoreError

pub record CommitStore : Type 0 where
  pub staged_by_writer : List (String × List StagedOutput)
  pub committed : List (CommitTarget × CommittedOutput)
  pub committed_targets_by_writer : List (String × List CommitTarget)

abbrev pub empty_store : CommitStore
empty_store = record { staged_by_writer = []; committed = []; committed_targets_by_writer = [] }

-- `Result<A, CommitStoreError>`
pub data StoreResult (A : Type 0) : Type 0 where
  ok : A → StoreResult A
  err : CommitStoreError → StoreResult A

-- `committed.get(target)`
unfoldable pub visible_in :
    CommitTarget → List (CommitTarget × CommittedOutput) → Option CommittedOutput
visible_in target [] = none
visible_in target ((here, output) ∷ rest) =
    if target_eq here target then some output else visible_in target rest

abbrev pub visible : CommitStore → CommitTarget → Option CommittedOutput
visible store target = visible_in target store.committed

-- A new target joins the map in the order of the targets.
unfoldable pub insert_target :
    CommitTarget
    → CommittedOutput
    → List (CommitTarget × CommittedOutput)
    → List (CommitTarget × CommittedOutput)
insert_target target new [] = (target, new) ∷ []
insert_target target new ((here, output) ∷ rest) =
    if target_ltb target here
    then (target, new) ∷ (here, output) ∷ rest
    else (here, output) ∷ insert_target target new rest

-- `entry(target).or_insert(output)`
abbrev pub or_insert :
    CommitTarget
    → CommittedOutput
    → List (CommitTarget × CommittedOutput)
    → List (CommitTarget × CommittedOutput)
or_insert target new committed = elim (visible_in target committed) [
  | some output ↦ committed
  | none ↦ insert_target target new committed
]

-- The hash of the first staged output for the target.
unfoldable pub staged_sha : CommitTarget → List StagedOutput → Option String
staged_sha target [] = none
staged_sha target (output ∷ rest) =
    if target_eq output.target target then some output.content_sha256 else staged_sha target rest

unfoldable pub all_staged : List (String × List StagedOutput) → List StagedOutput
all_staged [] = []
all_staged ((writer, outputs) ∷ rest) = outputs ++ all_staged rest

abbrev pub sha_of : Option CommittedOutput → Option String → Option String
sha_of none staged = staged
sha_of (some output) staged = some output.content_sha256

abbrev pub existing_sha : CommitStore → CommitTarget → Option String
existing_sha store target =
    sha_of (visible_in target store.committed)
      (staged_sha target (all_staged store.staged_by_writer))

abbrev pub conflict : CommitTarget → String → Option String → Option CommitStoreError
conflict target proposed none = none
conflict target proposed (some existing) =
    if str_eq existing proposed then none else some (conflicting_content target existing proposed)

-- The error, if any.
abbrev pub reject_conflicting_content :
    CommitStore → CommitTarget → String → Option CommitStoreError
reject_conflicting_content store target proposed =
    conflict target proposed (existing_sha store target)

abbrev pub declares : DataKind → List DataKind → Bool
declares kind kinds = any (λ other. kind_eq other kind) kinds

abbrev pub unit_key_space : SideEffect → Option KeySpace
unit_key_space (keyed_compare_and_commit keyed) = some keyed
unit_key_space other = none

abbrev pub write_target : PhysicalWorkUnit → CommitWrite → CommitTarget
write_target unit write = record {
  boundary = unit.commit_boundary;
  key_space = unit_key_space unit.side_effect;
  output_kind = write.output_kind;
  logical_key = write.logical_key;
}

-- `declared.difference(&seen).next()`: the least declared kind that no write has.
unfoldable pub first_missing : List DataKind → List DataKind → Option DataKind
first_missing [] seen = none
first_missing (kind ∷ kinds) seen =
    let later = first_missing kinds seen in
    if declares kind seen then later else elim later [
      | none ↦ some kind
      | some other ↦ if ltb (kind_number other) (kind_number kind) then some other else some kind
    ]

module _ (sha256_bytes : List ℕ → String) where
  abbrev pub staged_output : PhysicalWorkUnit → CommitWrite → StagedOutput
  staged_output unit write = record {
    target = write_target unit write;
    content_sha256 = sha256_bytes write.bytes;
    bytes = write.bytes;
  }

  -- The error that a write is refused with, if any.
  abbrev pub check_write :
      CommitStore
      → String
      → PhysicalWorkUnit
      → List DataKind
      → CommitWrite
      → Option CommitStoreError
  check_write store writer unit seen write =
      if not (declares write.output_kind unit.outputs)
      then some (undeclared_output writer write.output_kind)
      else if declares write.output_kind seen
      then some (duplicate_output writer write.output_kind)
      else if str_eq write.logical_key ""
      then some (empty_logical_key writer write.output_kind)
      else reject_conflicting_content store (write_target unit write) (sha256_bytes write.bytes)

  -- The loop over the writes. `seen` holds the kinds of those before.
  abbrev pub stage_writes :
      CommitStore
      → String
      → PhysicalWorkUnit
      → (seen : List DataKind) → (staged : List StagedOutput) → List CommitWrite
      → StoreResult (List StagedOutput)
  stage_writes store writer unit seen staged [] = elim (first_missing unit.outputs seen) [
    | none ↦ ok staged
    | some kind ↦ err (missing_declared_output writer kind)
  ]
  stage_writes store writer unit seen staged (write ∷ writes) =
      elim (check_write store writer unit seen write) [
        | some e ↦ err e
        | none ↦
            stage_writes store writer unit (write.output_kind ∷ seen)
              (staged ++ staged_output unit write ∷ []) writes
      ]

  abbrev pub stage_checked :
      CommitStore
      → String
      → StoreResult (List StagedOutput)
      → StoreResult (CommitStore × List CommitTarget)
  stage_checked store writer (err e) = err e
  stage_checked store writer (ok staged) = ok (
    record store { staged_by_writer = insert writer staged store.staged_by_writer },
    map (λ output. output.target) staged,
  )

  -- The store with the staging, and the targets. On an error the store stays as it was.
  unfoldable pub stage :
      CommitStore
      → String
      → PhysicalWorkUnit
      → List CommitWrite
      → StoreResult (CommitStore × List CommitTarget)
  stage store writer unit [] = err (empty_write_set writer)
  stage store writer unit (write ∷ writes) =
      stage_checked store writer (stage_writes store writer unit [] [] (write ∷ writes))

-- The first conflict among the outputs of a batch.
abbrev pub reject_all : CommitStore → List StagedOutput → Option CommitStoreError
reject_all store [] = none
reject_all store (output ∷ rest) =
    elim (reject_conflicting_content store output.target output.content_sha256) [
      | some e ↦ some e
      | none ↦ reject_all store rest
    ]

abbrev pub committed_output : String → StagedOutput → CommittedOutput
committed_output writer output = record {
  target = output.target;
  content_sha256 = output.content_sha256;
  bytes = output.bytes;
  writer_instance_id = writer;
}

abbrev pub publish :
    String
    → List StagedOutput
    → List (CommitTarget × CommittedOutput)
    → List (CommitTarget × CommittedOutput)
publish writer [] committed = committed
publish writer (output ∷ rest) committed =
    publish writer rest (or_insert output.target (committed_output writer output) committed)

abbrev pub commit_batch : CommitStore → String → List StagedOutput → StoreResult CommitStore
commit_batch store writer staged = elim (reject_all store staged) [
  | some e ↦ err e
  | none ↦ ok (record {
    staged_by_writer = remove writer store.staged_by_writer;
    committed = publish writer staged store.committed;
    committed_targets_by_writer =
        insert writer (map (λ (output : StagedOutput). output.target) staged)
          store.committed_targets_by_writer;
  })
]

abbrev pub commit_found :
    CommitStore → String → Option (List StagedOutput) → StoreResult CommitStore
commit_found store writer none = err (missing_staging writer)
commit_found store writer (some staged) = commit_batch store writer staged

unfoldable pub commit : CommitStore → String → StoreResult CommitStore
commit store writer = commit_found store writer (lookup writer store.staged_by_writer)

abbrev pub discard : CommitStore → String → CommitStore
discard store writer = record store { staged_by_writer = remove writer store.staged_by_writer }

abbrev pub has_staging : CommitStore → String → Bool
has_staging store writer = elim (lookup writer store.staged_by_writer) [
  | none ↦ false
  | some staged ↦ true
]

abbrev pub visible_all :
    List (CommitTarget × CommittedOutput) → List CommitTarget → List CommittedOutput
visible_all committed [] = []
visible_all committed (target ∷ targets) = elim (visible_in target committed) [
  | none ↦ visible_all committed targets
  | some output ↦ output ∷ visible_all committed targets
]

abbrev pub targets_of : Option (List CommitTarget) → List CommitTarget
targets_of none = []
targets_of (some targets) = targets

abbrev pub outputs_for_writer : CommitStore → String → List CommittedOutput
outputs_for_writer store writer =
    visible_all store.committed (targets_of (lookup writer store.committed_targets_by_writer))
