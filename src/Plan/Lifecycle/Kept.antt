-- ===== src/Plan/Lifecycle/Kept.antt =====
-- What every call keeps, and so every graph that calls lead to.
use laminaria_rust_nim_toolc.Prelude.{
  mem, ℕ, ◌≡◌, refl, subst, Bool, false, ◌||◌, String, List, [], ◌∷◌, Option, none, some, lookup,
  arith, not, length, ◌==◌,
}
use laminaria_rust_nim_toolc.Plan.Obligations.{
  Obligation, RequiredAction, DischargeKind, PositiveClosure, externalized, externalize_obligation,
}
use laminaria_rust_nim_toolc.Plan.Lifecycle.Types.{
  OperationEvidence, ResolutionEvidence, RuntimeContractEvidence, IrrelevanceProof, TransitionCause,
  ProductionGraph, Checked, Outcome, ok, err, panic, ◌>>=◌, LifecycleError, duplicate_operation,
  invalid_resolution_evidence, invalid_runtime_contract, invalid_irrelevance_proof,
}
use laminaria_rust_nim_toolc.Plan.Lifecycle.Checks.{
  sequence_used, operation_id_used, validate_operation, new, as_set,
}
use laminaria_rust_nim_toolc.Plan.Lifecycle.History.{append_transition, history_from}
use laminaria_rust_nim_toolc.Plan.Lifecycle.Reachable.{reachable_obligations}
use laminaria_rust_nim_toolc.Plan.Lifecycle.Resolve.{
  resolve_all, resolve_checked, record_resolution, check_resolvable, push_resolution, is_unfounded,
  resolve_distinct, resolve_new,
}
use laminaria_rust_nim_toolc.Plan.Lifecycle.Operate.{
  within, discharge_all, push_operation, record_operation, externalize_found, externalize_runtime,
  externalize_one, push_contract, prove_one, push_proof, commit, runtime_checked,
  record_runtime_operation, prove_found, prove_irrelevant, is_incomplete, is_runtime,
  contract_evidence, is_open, is_unproven, prove_unreachable, mismatches,
}
use laminaria_rust_nim_toolc.Plan.Lifecycle.Keeps.{
  Keeps, IsQuiet, >>=-Keeps, if_Keeps, resolve_all-Keeps, discharge_all-Keeps, within-Keeps, Unused,
  UnusedSequence, Unused-IsQuiet, UnusedSequence-IsQuiet, both-IsQuiet, validated-Unused,
}
use laminaria_rust_nim_toolc.Plan.Lifecycle.Steps.{
  Request, resolve, operate, operate_runtime, externalize, prune, step, Reached, start, accepted,
  refused,
}

-- What one more record of each kind does not disturb either, if its number and id are new.
pub record IsKept (P : ProductionGraph → Type 0) : Type 0 where
  pub quiet : IsQuiet P
  pub operation_step :
      (g : ProductionGraph) (e : OperationEvidence)
      → Unused e.sequence e.operation_id g
      → P g
      → P (push_operation e g)
  pub resolution_step :
      (g : ProductionGraph) (e : ResolutionEvidence)
      → Unused e.sequence e.operation_id g
      → P g
      → P (push_resolution e g)
  pub contract_step :
      (g : ProductionGraph) (e : RuntimeContractEvidence)
      → UnusedSequence e.sequence g
      → P g
      → P (push_contract e g)
  pub proof_step :
      (g : ProductionGraph) (e : IrrelevanceProof)
      → UnusedSequence e.sequence g
      → P g
      → P (push_proof e g)

Unused-split :
    (g : ProductionGraph) (n : ℕ) (id : String)
    → (operation_id_used g id || sequence_used g n) ≡ false
    → Unused n id g
Unused-split g n id h = ground arith

or_right : (a b : Bool) → (a || b) ≡ false → b ≡ false
or_right a b h = ground arith

module _ (P : ProductionGraph → Type 0) (kept : IsKept P) where
  resolve_checked-Keeps :
      (e : ResolutionEvidence) (g : ProductionGraph) (x : Option LifecycleError)
      → Unused e.sequence e.operation_id g
      → P g
      → Keeps P (resolve_checked e g x)
  resolve_checked-Keeps e g (some x) new p = p
  resolve_checked-Keeps e g none new p =
      let Q : ProductionGraph → Type 0 = λ g. P g × Unused e.sequence e.operation_id g in
      >>=-Keeps Q P (resolve_all e e.resolved_obligations g) (λ h. ok (push_resolution e h))
        (λ h q. q.0)
        (resolve_all-Keeps Q
          (both-IsQuiet P _ kept.quiet (Unused-IsQuiet e.sequence e.operation_id)) e
          e.resolved_obligations g (p, new))
        (λ h q. kept.resolution_step h e q.1 q.0)

  record_resolution-Keeps :
      (g : ProductionGraph) (e : ResolutionEvidence) → P g → Keeps P (record_resolution g e)
  unfolding record_resolution
  record_resolution-Keeps g e p =
      if_Keeps P (is_unfounded e) (err (invalid_resolution_evidence e.operation_id) g)
        (resolve_new g e) (λ _. p)
        λ _.
          if_Keeps P (operation_id_used g e.operation_id || sequence_used g e.sequence)
            (err (duplicate_operation e.operation_id) g) (resolve_distinct g e) (λ _. p)
            λ new.
              if_Keeps P
                (not (length (as_set e.resolved_obligations) == length e.resolved_obligations))
                (err (invalid_resolution_evidence e.operation_id) g)
                (resolve_checked e g
                  (check_resolvable g.closure.obligations e.resolved_obligations))
                (λ _. p)
                λ _.
                  resolve_checked-Keeps e g
                    (check_resolvable g.closure.obligations e.resolved_obligations)
                    (Unused-split g e.sequence e.operation_id new) p

  record_operation-Keeps :
      (g : ProductionGraph) (e : OperationEvidence) (kind : DischargeKind)
      → P g
      → Keeps P (record_operation g e kind)
  unfolding record_operation
  record_operation-Keeps g e kind p = checked (validate_operation g e) refl
    where
      checked :
          (r : Checked RequiredAction)
          → validate_operation g e ≡ r
          → Keeps P (elim r [
            | err x ↦ err x g
            | ok act ↦ discharge_all e act kind act.discharges g >>= λ h. ok (push_operation e h)
          ])
      checked (Checked.err x) h = p
      checked (Checked.ok act) h =
          let Q : ProductionGraph → Type 0 = λ g. P g × Unused e.sequence e.operation_id g in
          >>=-Keeps Q P (discharge_all e act kind act.discharges g) (λ h. ok (push_operation e h))
            (λ h q. q.0)
            (discharge_all-Keeps Q
              (both-IsQuiet P _ kept.quiet (Unused-IsQuiet e.sequence e.operation_id)) e act kind
              act.discharges g (p, validated-Unused g e act h))
            (λ h q. kept.operation_step h e q.1 q.0)

  externalize_one-Keeps :
      (Q : ProductionGraph → Type 0)
      → IsQuiet Q
      → (g : ProductionGraph) (id : String) (e : RuntimeContractEvidence) (o : Obligation) → Q g
      → Keeps Q (externalize_one g id e o)
  externalize_one-Keeps Q quiet g id e o q =
      let t = externalize_obligation g.closure id (contract_evidence e) in
      >>=-Keeps Q Q (within g t)
        (λ h.
          append_transition h id e.sequence (history_from (lookup id h.histories) o.state)
            externalized (TransitionCause.runtime_contract e.contract_id))
        (λ h q. q) (within-Keeps Q quiet g t q)
        (λ h q. quiet.history_step h id e.sequence _ externalized _ q)

  externalize_found-Keeps :
      (g : ProductionGraph) (id : String) (e : RuntimeContractEvidence) (o : Option Obligation)
      → UnusedSequence e.sequence g
      → P g
      → Keeps P (externalize_found g id e o)
  externalize_found-Keeps g id e none new p = p
  externalize_found-Keeps g id e (some o) new p =
      let Q : ProductionGraph → Type 0 = λ g. P g × UnusedSequence e.sequence g in
      if_Keeps P (not (is_runtime o.kind)) _ _ (λ _. p)
        λ _.
          >>=-Keeps Q P (externalize_one g id e o) (λ h. ok (push_contract e h)) (λ h q. q.0)
            (externalize_one-Keeps Q
              (both-IsQuiet P _ kept.quiet (UnusedSequence-IsQuiet e.sequence)) g id e o (p, new))
            (λ h q. kept.contract_step h e q.1 q.0)

  externalize_runtime-Keeps :
      (g : ProductionGraph) (id : String) (e : RuntimeContractEvidence)
      → P g
      → Keeps P (externalize_runtime g id e)
  unfolding externalize_runtime
  externalize_runtime-Keeps g id e p =
      if_Keeps P (is_incomplete e || sequence_used g e.sequence) _ _ (λ _. p)
        λ new.
          externalize_found-Keeps g id e _
            (or_right (is_incomplete e) (sequence_used g e.sequence) new) p

  commit-Keeps : (g : ProductionGraph) (m : Outcome) → P g → Keeps P m → Keeps P (commit g m)
  commit-Keeps g (ok h) p k = k
  commit-Keeps g (err e h) p k = p
  commit-Keeps g panic p k = tt

  runtime_checked-Keeps :
      (g : ProductionGraph) (o : OperationEvidence) (c : RuntimeContractEvidence)
      (act : RequiredAction) (ids : List String)
      → Unused o.sequence o.operation_id g
      → P g
      → Keeps P (runtime_checked g o c act ids)
  runtime_checked-Keeps g o c act [] new p = p
  runtime_checked-Keeps g o c act (id ∷ j ∷ ids) new p = p
  runtime_checked-Keeps g o c act (id ∷ []) new p =
      if_Keeps P (mismatches o c act) (err (invalid_runtime_contract c.contract_id) g)
        (commit g (externalize_runtime (push_operation o g) id c)) (λ _. p)
        λ _.
          commit-Keeps g (externalize_runtime (push_operation o g) id c) p
            (externalize_runtime-Keeps (push_operation o g) id c (kept.operation_step g o new p))

  record_runtime_operation-Keeps :
      (g : ProductionGraph) (o : OperationEvidence) (c : RuntimeContractEvidence)
      → P g
      → Keeps P (record_runtime_operation g o c)
  unfolding record_runtime_operation
  record_runtime_operation-Keeps g o c p = checked (validate_operation g o) refl
    where
      checked :
          (r : Checked RequiredAction)
          → validate_operation g o ≡ r
          → Keeps P (elim r [ err x ↦ err x g | ok act ↦ runtime_checked g o c act act.discharges ])
      checked (Checked.err x) h = p
      checked (Checked.ok act) h =
          runtime_checked-Keeps g o c act act.discharges (validated-Unused g o act h) p

  prove_found-Keeps :
      (g : ProductionGraph) (id : String) (e : IrrelevanceProof) (o : Option Obligation)
      → UnusedSequence e.sequence g
      → P g
      → Keeps P (prove_found g id e o)
  prove_found-Keeps g id e none new p = p
  prove_found-Keeps g id e (some o) new p =
      let Q : ProductionGraph → Type 0 = λ g. P g × UnusedSequence e.sequence g in
      let quiet : IsQuiet Q = both-IsQuiet P _ kept.quiet (UnusedSequence-IsQuiet e.sequence) in
      if_Keeps P (not (is_open o.state)) _ _ (λ _. p)
        λ _.
          >>=-Keeps Q P (prove_one g id e o) (λ h. ok (push_proof e h)) (λ h q. q.0)
            (quiet.history_step _ id e.sequence _ _ _ (quiet.closure_step g _ (p, new)))
            (λ h q. kept.proof_step h e q.1 q.0)

  prove_irrelevant-Keeps :
      (g : ProductionGraph) (id : String) (e : IrrelevanceProof)
      → P g
      → Keeps P (prove_irrelevant g id e)
  unfolding prove_irrelevant
  prove_irrelevant-Keeps g id e p =
      if_Keeps P (is_unproven e || sequence_used g e.sequence)
        (err (invalid_irrelevance_proof e.proof_id) g) (prove_unreachable g id e) (λ _. p)
        λ new.
          if_Keeps P (mem id (reachable_obligations g.closure.obligations))
            (err (invalid_irrelevance_proof id) g)
            (prove_found g id e (lookup id g.closure.obligations)) (λ _. p)
            λ _.
              prove_found-Keeps g id e (lookup id g.closure.obligations)
                (or_right (is_unproven e) (sequence_used g e.sequence) new) p

  pub step-Keeps : (r : Request) (g : ProductionGraph) → P g → Keeps P (step r g)
  step-Keeps (resolve e) g p = record_resolution-Keeps g e p
  step-Keeps (operate e kind) g p = record_operation-Keeps g e kind p
  step-Keeps (operate_runtime o c) g p = record_runtime_operation-Keeps g o c p
  step-Keeps (externalize id e) g p = externalize_runtime-Keeps g id e p
  step-Keeps (prune id e) g p = prove_irrelevant-Keeps g id e p

  pub reached-keeps :
      ((closure : PositiveClosure) (g : ProductionGraph) → new closure ≡ Checked.ok g → P g)
      → (g : ProductionGraph) → Reached g
      → P g
  reached-keeps first _ (start closure g e) = first closure g e
  reached-keeps first _ (accepted r before g reached e) =
      subst (Keeps P) e (step-Keeps r before (reached-keeps first before reached))
  reached-keeps first _ (refused r before g x reached e) =
      subst (Keeps P) e (step-Keeps r before (reached-keeps first before reached))
