-- ===== src/Run/Commit/Agree.antt =====
-- All that is staged or committed for one target has one hash.
use laminaria_rust_nim_toolc.Prelude.{
  ◌≡◌, ◌⊎◌, inl, inr, refl, ◌∙◌, arith, eq_iff, lookup-remove, String, Option, none, some, lookup,
  str_eq, false,
}
use mathlib.Core.Option.{some-injective}
use laminaria_rust_nim_toolc.Run.Commit.Targets.{
  InStaged, remove-InStaged, staged_sha-none, staged_sha-some,
}
use laminaria_rust_nim_toolc.Run.Commit.{
  sha_of, staged_sha, existing_sha, conflict, reject_conflicting_content, CommitTarget,
  CommittedOutput, CommitStore, visible_in, visible, all_staged, discard,
}

abbrev pub InCommitted : CommitTarget → String → CommitStore → Type 0
InCommitted target sha store =
    (output : CommittedOutput) × (visible store target ≡ some output)
    × (output.content_sha256 ≡ sha)

-- The store has an output for the target with the hash.
abbrev pub HasSha : CommitTarget → String → CommitStore → Type 0
HasSha target sha store =
    InCommitted target sha store ⊎ InStaged target sha (all_staged store.staged_by_writer)

abbrev pub Agrees : CommitStore → Type 0
Agrees store =
    (target : CommitTarget) (a b : String) → HasSha target a store → HasSha target b store → a ≡ b

-- What is visible in the first is visible in the second.
abbrev pub Keeps : CommitStore → CommitStore → Type 0
Keeps store later =
    (target : CommitTarget) (output : CommittedOutput)
    → visible store target ≡ some output
    → visible later target ≡ some output

-- The staging of the writers other than the named one is the same.
abbrev pub StoresApart : CommitStore → CommitStore → String → Type 0
StoresApart store later writer =
    (other : String)
    → str_eq writer other ≡ false
    → lookup other later.staged_by_writer ≡ lookup other store.staged_by_writer

-- What a call on the store for one writer leaves.
pub record IsNext (store : CommitStore) (writer : String) (later : CommitStore) : Type 0 where
  pub apart : StoresApart store later writer
  pub agrees : Agrees later
  pub kept : Keeps store later

-- Nothing is in the second store that is not in the first.
pub subset-Agrees :
    (store later : CommitStore)
    → ((target : CommitTarget) (sha : String) → HasSha target sha later → HasSha target sha store)
    → Agrees store
    → Agrees later
subset-Agrees store later sub h target a b p q = h target a b (sub target a p) (sub target b q)

pub discard-IsNext :
    (store : CommitStore) (writer : String)
    → Agrees store
    → IsNext store writer (discard store writer)
discard-IsNext store writer h = record {
  apart = λ other e. ground (arith, lookup-remove writer other store.staged_by_writer, e);
  agrees = subset-Agrees store (discard store writer) smaller h;
  kept = λ target output e. e;
}
  where
    smaller :
        (target : CommitTarget) (sha : String)
        → HasSha target sha (discard store writer)
        → HasSha target sha store
    smaller target sha (inl e) = inl e
    smaller target sha (inr e) = inr (remove-InStaged target sha writer store.staged_by_writer e)

-- The hash that the check compares with is in the store.
existing-HasSha :
    (store : CommitStore) (target : CommitTarget) (sha : String)
    → existing_sha store target ≡ some sha
    → HasSha target sha store
existing-HasSha store target sha h = found (visible_in target store.committed) refl h
  where
    found :
        (o : Option CommittedOutput)
        → visible_in target store.committed ≡ o
        → sha_of o (staged_sha target (all_staged store.staged_by_writer)) ≡ some sha
        → HasSha target sha store
    found none e k = inr (staged_sha-some target sha (all_staged store.staged_by_writer) k)
    found (some output) e k = inl (output, e, some-injective output.content_sha256 sha k)

-- A store with anything for the target has a hash to compare with.
missing-HasSha :
    (store : CommitStore) (target : CommitTarget) (sha : String)
    → existing_sha store target ≡ none
    → HasSha target sha store
    → ⊥
missing-HasSha store target sha h (inl (output, e, _)) = ground (arith, h, e)
missing-HasSha store target sha h (inr k) = unseen (visible_in target store.committed) h
  where
    unseen :
        (o : Option CommittedOutput)
        → sha_of o (staged_sha target (all_staged store.staged_by_writer)) ≡ none
        → ⊥
    unseen none e = staged_sha-none target sha (all_staged store.staged_by_writer) e k
    unseen (some output) e = ground (arith, e)

-- What the check lets through has the hash of all that is there for the target, and conversely.
pub accepted-HasSha :
    (store : CommitStore) (target : CommitTarget) (proposed sha : String)
    → Agrees store
    → reject_conflicting_content store target proposed ≡ none
    → HasSha target sha store
    → sha ≡ proposed
accepted-HasSha store target proposed sha h accepted has =
    compared (existing_sha store target) refl accepted
  where
    compared :
        (o : Option String)
        → existing_sha store target ≡ o
        → conflict target proposed o ≡ none
        → sha ≡ proposed
    compared none e k = elim (missing-HasSha store target sha e has) [ ]
    compared (some existing) e k =
        h target sha existing has (existing-HasSha store target existing e)
        ∙ (eq_iff existing proposed).0 (ground (arith, k))

pub HasSha-accepted :
    (store : CommitStore) (target : CommitTarget) (sha : String)
    → Agrees store
    → HasSha target sha store
    → reject_conflicting_content store target sha ≡ none
HasSha-accepted store target sha h has = compared (existing_sha store target) refl
  where
    compared : (o : Option String) → existing_sha store target ≡ o → conflict target sha o ≡ none
    compared none e = refl
    compared (some existing) e = ground (
      arith,
      h target existing sha (existing-HasSha store target existing e) has,
      eq_iff existing sha,
    )
