-- ===== src/Plan/Lifecycle/Sequences.antt =====
-- The sequence numbers and the operation ids of every graph that calls lead to.
use laminaria_rust_nim_toolc.Prelude.{
  subst, ℕ, ◌+◌, ◌≤◌, ◌≡◌, refl, arith, Bool, false, String, List, [], ◌∷◌, ◌++◌, any, insert,
  lookup, str_eq, if◌then◌else◌, ◌==◌, ==_iff, eq_iff,
}
use laminaria_rust_nim_toolc.Plan.Obligations.{PositiveClosure}
use laminaria_rust_nim_toolc.Plan.Lifecycle.Types.{
  OperationEvidence, ResolutionEvidence, RuntimeContractEvidence, IrrelevanceProof, ProductionGraph,
  Checked, err, ok, StateTransition, invalid_transition,
}
use laminaria_rust_nim_toolc.Plan.Lifecycle.Checks.{
  new, new-nothing_recorded, sequence_used, operation_id_used,
}
use laminaria_rust_nim_toolc.Plan.Lifecycle.Operate.{push_operation, push_contract, push_proof}
use laminaria_rust_nim_toolc.Plan.Lifecycle.Resolve.{push_resolution}
use laminaria_rust_nim_toolc.Plan.Lifecycle.History.{append_transition, refuses, history_of}
use laminaria_rust_nim_toolc.Plan.Lifecycle.Keeps.{if_Keeps, Unused, UnusedSequence}
use laminaria_rust_nim_toolc.Plan.Lifecycle.Kept.{IsKept, reached-keeps}
use laminaria_rust_nim_toolc.Plan.Lifecycle.Steps.{Reached}

-- How many of the records pass the test.
pub tally : {A : Type 0} → (A → Bool) → List A → ℕ
tally p [] = 0
tally p (x ∷ xs) = let rest = tally p xs in if p x then 1 + rest else rest

-- How many records, of any kind, have the sequence number.
abbrev pub sequence_uses : ProductionGraph → ℕ → ℕ
sequence_uses g n =
    tally (λ (e : OperationEvidence). e.sequence == n) g.operations
    + tally (λ (e : ResolutionEvidence). e.sequence == n) g.resolution_operations
    + tally (λ (e : RuntimeContractEvidence). e.sequence == n) g.runtime_contracts
    + tally (λ (e : IrrelevanceProof). e.sequence == n) g.irrelevance_proofs

abbrev pub operation_id_uses : ProductionGraph → String → ℕ
operation_id_uses g id =
    tally (λ (e : OperationEvidence). str_eq e.operation_id id) g.operations
    + tally (λ (e : ResolutionEvidence). str_eq e.operation_id id) g.resolution_operations

abbrev pub AllDistinct : ProductionGraph → Type 0
AllDistinct g = ((n : ℕ) → sequence_uses g n ≤ 1) × ((id : String) → operation_id_uses g id ≤ 1)

tally-none : {A : Type 0} (p : A → Bool) (xs : List A) → any p xs ≡ false → tally p xs ≡ 0
unfolding tally
tally-none p [] h = refl
tally-none p (x ∷ xs) h = ground (arith, tally-none p xs)

tally-push :
    {A : Type 0} (p : A → Bool) (xs : List A) (x : A)
    → tally p (xs ++ x ∷ []) ≡ tally p xs + (if p x then 1 else 0)
unfolding tally
tally-push p [] x = ground arith
tally-push p (y ∷ xs) x = ground (arith, tally-push p xs x)

unused-sequence_uses : (g : ProductionGraph) (n : ℕ) → UnusedSequence n g → sequence_uses g n ≡ 0
unfolding sequence_used
unused-sequence_uses g n h = ground (
  arith,
  tally-none (λ (e : OperationEvidence). e.sequence == n) g.operations,
  tally-none (λ (e : ResolutionEvidence). e.sequence == n) g.resolution_operations,
  tally-none (λ (e : RuntimeContractEvidence). e.sequence == n) g.runtime_contracts,
  tally-none (λ (e : IrrelevanceProof). e.sequence == n) g.irrelevance_proofs,
)

unused-operation_id_uses :
    (g : ProductionGraph) (id : String)
    → operation_id_used g id ≡ false
    → operation_id_uses g id ≡ 0
unfolding operation_id_used
unused-operation_id_uses g id h = ground (
  arith,
  tally-none (λ (e : OperationEvidence). str_eq e.operation_id id) g.operations,
  tally-none (λ (e : ResolutionEvidence). str_eq e.operation_id id) g.resolution_operations,
)

-- One more record with an unused number: still at most one use of each.
at_most_one :
    (n k a b : ℕ) → (a ≤ 1) → (b ≡ a + (if n == k then 1 else 0)) → (n ≡ k → a ≡ 0) → b ≤ 1
at_most_one n k a b small grown fresh = ground (arith, ==_iff n k)

at_most_one_id :
    (n k : String) (a b : ℕ)
    → (a ≤ 1)
    → (b ≡ a + (if str_eq n k then 1 else 0))
    → (n ≡ k → a ≡ 0)
    → b ≤ 1
at_most_one_id n k a b small grown fresh = ground (arith, eq_iff n k)

module _ (g : ProductionGraph) where
  pushed-operation :
      (e : OperationEvidence)
      → Unused e.sequence e.operation_id g
      → AllDistinct g
      → AllDistinct (push_operation e g)
  pushed-operation e (new, new_id) (d, d_id) = (
    λ n.
        at_most_one e.sequence n (sequence_uses g n) _ (d n)
          (omega (arith, tally-push (λ (x : OperationEvidence). x.sequence == n) g.operations e))
          (λ same. unused-sequence_uses g n (subst (λ k. UnusedSequence k g) same new)),
    λ id.
        at_most_one_id e.operation_id id (operation_id_uses g id) _ (d_id id)
          (omega (
            arith,
            tally-push (λ (x : OperationEvidence). str_eq x.operation_id id) g.operations e,
          ))
          (λ same.
            unused-operation_id_uses g id (subst (λ k. operation_id_used g k ≡ false) same new_id)),
  )

  pushed-resolution :
      (e : ResolutionEvidence)
      → Unused e.sequence e.operation_id g
      → AllDistinct g
      → AllDistinct (push_resolution e g)
  pushed-resolution e (new, new_id) (d, d_id) = (
    λ n.
        at_most_one e.sequence n (sequence_uses g n) _ (d n)
          (omega (
            arith,
            tally-push (λ (x : ResolutionEvidence). x.sequence == n) g.resolution_operations e,
          ))
          (λ same. unused-sequence_uses g n (subst (λ k. UnusedSequence k g) same new)),
    λ id.
        at_most_one_id e.operation_id id (operation_id_uses g id) _ (d_id id)
          (omega (
            arith,
            tally-push (λ (x : ResolutionEvidence). str_eq x.operation_id id)
                g.resolution_operations e,
          ))
          (λ same.
            unused-operation_id_uses g id (subst (λ k. operation_id_used g k ≡ false) same new_id)),
  )

  pushed-contract :
      (e : RuntimeContractEvidence)
      → UnusedSequence e.sequence g
      → AllDistinct g
      → AllDistinct (push_contract e g)
  pushed-contract e new (d, d_id) = (
    λ n.
        at_most_one e.sequence n (sequence_uses g n) _ (d n)
          (omega (
            arith,
            tally-push (λ (x : RuntimeContractEvidence). x.sequence == n) g.runtime_contracts e,
          ))
          (λ same. unused-sequence_uses g n (subst (λ k. UnusedSequence k g) same new)),
    d_id,
  )

  pushed-proof :
      (e : IrrelevanceProof)
      → UnusedSequence e.sequence g
      → AllDistinct g
      → AllDistinct (push_proof e g)
  pushed-proof e new (d, d_id) = (
    λ n.
        at_most_one e.sequence n (sequence_uses g n) _ (d n)
          (omega
            (arith, tally-push (λ (x : IrrelevanceProof). x.sequence == n) g.irrelevance_proofs e))
          (λ same. unused-sequence_uses g n (subst (λ k. UnusedSequence k g) same new)),
    d_id,
  )

AllDistinct-IsKept : IsKept AllDistinct
unfolding append_transition
AllDistinct-IsKept = record {
  quiet = record {
    closure_step = λ g c p. p;
    history_step = λ g id n from to cause p.
        let h = history_of (lookup id g.histories) in
        let t : StateTransition = record { sequence = n; from = from; to = to; cause = cause } in
        if_Keeps AllDistinct (refuses h from n) (err (invalid_transition id from to) g)
          (ok (record g { histories = insert id (h ++ t ∷ []) g.histories })) (λ _. p) (λ _. p);
  };
  operation_step = λ g e. pushed-operation g e;
  resolution_step = λ g e. pushed-resolution g e;
  contract_step = λ g e. pushed-contract g e;
  proof_step = λ g e. pushed-proof g e;
}

new-AllDistinct :
    (closure : PositiveClosure) (g : ProductionGraph) → new closure ≡ Checked.ok g → AllDistinct g
unfolding tally
new-AllDistinct closure g h =
    subst AllDistinct (new-nothing_recorded closure g h) ((λ n. omega arith), (λ id. omega arith))

-- In every graph that calls lead to from a new one, refused calls included, no sequence number is
-- on two records of whatever kind, and no operation id is on two operations or resolutions.
pub Reached-AllDistinct : (g : ProductionGraph) → Reached g → AllDistinct g
Reached-AllDistinct = reached-keeps AllDistinct AllDistinct-IsKept new-AllDistinct
