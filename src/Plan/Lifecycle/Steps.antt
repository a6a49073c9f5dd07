-- ===== src/Plan/Lifecycle/Steps.antt =====
-- crates/laminaria-plan/src/obligation_lifecycle.rs: the calls on a graph, and the graphs that any
-- sequence of them leads to, refused calls included.
use laminaria_rust_nim_toolc.Prelude.{◌≡◌, String}
use laminaria_rust_nim_toolc.Plan.Obligations.{DischargeKind, PositiveClosure}
use laminaria_rust_nim_toolc.Plan.Lifecycle.Types.{
  OperationEvidence, ResolutionEvidence, RuntimeContractEvidence, IrrelevanceProof, LifecycleError,
  ProductionGraph, Checked, Outcome,
}
use laminaria_rust_nim_toolc.Plan.Lifecycle.Checks.{new}
use laminaria_rust_nim_toolc.Plan.Lifecycle.Resolve.{record_resolution}
use laminaria_rust_nim_toolc.Plan.Lifecycle.Operate.{
  record_operation, record_runtime_operation, externalize_runtime, prove_irrelevant,
}

pub data Request : Type 0 where
  resolve : ResolutionEvidence → Request
  operate : OperationEvidence → DischargeKind → Request
  operate_runtime : OperationEvidence → RuntimeContractEvidence → Request
  externalize : String → RuntimeContractEvidence → Request
  prune : String → IrrelevanceProof → Request

abbrev pub step : Request → ProductionGraph → Outcome
step (resolve e) g = record_resolution g e
step (operate e kind) g = record_operation g e kind
step (operate_runtime o c) g = record_runtime_operation g o c
step (externalize id e) g = externalize_runtime g id e
step (prune id e) g = prove_irrelevant g id e

pub data Reached : ProductionGraph → Type 0 where
  start : (closure : PositiveClosure) (g : ProductionGraph) → new closure ≡ Checked.ok g → Reached g
  accepted : (r : Request) (g h : ProductionGraph) → Reached g → step r g ≡ Outcome.ok h → Reached h
  refused :
      (r : Request) (g h : ProductionGraph) (e : LifecycleError)
      → Reached g
      → step r g ≡ Outcome.err e h
      → Reached h
