-- ===== src/Plan/PhysicalWork.antt =====
-- crates/laminaria-plan/src/physical_work.rs: the vocabulary of the physical-work contract. The derived
-- equality and order of an enum without fields go by the numbers of its constructors.
use laminaria_rust_nim_toolc.Prelude.{ℕ, Bool, true, false, List, ◌==◌}

pub data LogicalActivity : Type 0 where
  a2_member_manifest a3_package_resolution a4_source_unit_graph a5_source_unit_selection
        a6_semantic_analysis a7_monomorphization a8_optimization_decision a9_codegen_preparation
        a10_code_generation a11_symbol_registration a12_final_link n2_dependency_resolution
        n3_build_invocation n4_module_reachability n5_semantic_analysis_and_c_generation
        n6_monomorphization n7_c_compilation n8_nim_link n9_export_registration
        foreign_target_resolution foreign_artifact_resolution foreign_adapter_generation
        foreign_compile_unit_preparation foreign_object_compilation :
      LogicalActivity

abbrev pub activity_number : LogicalActivity → ℕ
activity_number a2_member_manifest = 0
activity_number a3_package_resolution = 1
activity_number a4_source_unit_graph = 2
activity_number a5_source_unit_selection = 3
activity_number a6_semantic_analysis = 4
activity_number a7_monomorphization = 5
activity_number a8_optimization_decision = 6
activity_number a9_codegen_preparation = 7
activity_number a10_code_generation = 8
activity_number a11_symbol_registration = 9
activity_number a12_final_link = 10
activity_number n2_dependency_resolution = 11
activity_number n3_build_invocation = 12
activity_number n4_module_reachability = 13
activity_number n5_semantic_analysis_and_c_generation = 14
activity_number n6_monomorphization = 15
activity_number n7_c_compilation = 16
activity_number n8_nim_link = 17
activity_number n9_export_registration = 18
activity_number foreign_target_resolution = 19
activity_number foreign_artifact_resolution = 20
activity_number foreign_adapter_generation = 21
activity_number foreign_compile_unit_preparation = 22
activity_number foreign_object_compilation = 23

pub data WorkUnitId : Type 0 where
  logical : LogicalActivity → WorkUnitId
  archive_foreign_objects : WorkUnitId

abbrev pub unit_id_eq : WorkUnitId → WorkUnitId → Bool
unit_id_eq (logical a) (logical b) = activity_number a == activity_number b
unit_id_eq archive_foreign_objects archive_foreign_objects = true
unit_id_eq (logical a) archive_foreign_objects = false
unit_id_eq archive_foreign_objects (logical b) = false

pub data ExecutionGroup : Type 0 where
  rust_object_compilation nim_static_library_compilation dependency_resolver c_object_compilation
        cpp_adapter_compilation foreign_archive native_executable_link :
      ExecutionGroup

abbrev pub group_number : ExecutionGroup → ℕ
group_number rust_object_compilation = 0
group_number nim_static_library_compilation = 1
group_number dependency_resolver = 2
group_number c_object_compilation = 3
group_number cpp_adapter_compilation = 4
group_number foreign_archive = 5
group_number native_executable_link = 6

abbrev pub group_eq : ExecutionGroup → ExecutionGroup → Bool
group_eq a b = group_number a == group_number b

pub data DataKind : Type 0 where
  workspace_manifest member_manifest package_resolution source_unit_graph selected_source_unit
        semantic_fact instantiation_key optimization_decision build_strategy_context
        target_parameters lowered_module native_object link_symbol linked_artifact
        nimble_package_manifest nim_package_resolution nim_build_invocation reachable_nim_module
        generated_c_module nim_generic_declaration nim_instantiation_key c_object_file
        nim_link_artifact exported_symbol foreign_decl foreign_library_target
        resolved_foreign_artifact adapter_unit foreign_compile_unit foreign_native_object
        foreign_archive :
      DataKind

abbrev pub kind_number : DataKind → ℕ
kind_number workspace_manifest = 0
kind_number member_manifest = 1
kind_number package_resolution = 2
kind_number source_unit_graph = 3
kind_number selected_source_unit = 4
kind_number semantic_fact = 5
kind_number instantiation_key = 6
kind_number optimization_decision = 7
kind_number build_strategy_context = 8
kind_number target_parameters = 9
kind_number lowered_module = 10
kind_number native_object = 11
kind_number link_symbol = 12
kind_number linked_artifact = 13
kind_number nimble_package_manifest = 14
kind_number nim_package_resolution = 15
kind_number nim_build_invocation = 16
kind_number reachable_nim_module = 17
kind_number generated_c_module = 18
kind_number nim_generic_declaration = 19
kind_number nim_instantiation_key = 20
kind_number c_object_file = 21
kind_number nim_link_artifact = 22
kind_number exported_symbol = 23
kind_number foreign_decl = 24
kind_number foreign_library_target = 25
kind_number resolved_foreign_artifact = 26
kind_number adapter_unit = 27
kind_number foreign_compile_unit = 28
kind_number foreign_native_object = 29
kind_number foreign_archive = 30

abbrev pub kind_eq : DataKind → DataKind → Bool
kind_eq a b = kind_number a == kind_number b

pub data InputSource : Type 0 where
  external_authority : InputSource
  produced_by : WorkUnitId → InputSource
  produced_by_either : (first second : WorkUnitId) → InputSource

pub record WorkInput : Type 0 where
  pub kind : DataKind
  pub source : InputSource
  pub optional : Bool

pub data ReadyScope : Type 0 where
  matching_identities demanded_artifact_closure : ReadyScope

pub record ReadyPredicate : Type 0 where
  pub scope : ReadyScope
  pub requires_successful_commit : Bool

pub data ComputeClass : Type 0 where
  metadata semantic codegen link : ComputeClass

pub data MemoryClass : Type 0 where
  bounded_metadata semantic_ir backend_bytes artifact_set : MemoryClass

pub record ResourceClaim : Type 0 where
  pub minimum_cpu_slots : ℕ
  pub compute : ComputeClass
  pub memory : MemoryClass
  pub external_process_slots : ℕ

pub data KeySpace : Type 0 where
  dependency_closure_instantiation nim_build_invocation_instantiation
        dependency_closure_link_symbol :
      KeySpace

abbrev pub key_space_number : KeySpace → ℕ
key_space_number dependency_closure_instantiation = 0
key_space_number nim_build_invocation_instantiation = 1
key_space_number dependency_closure_link_symbol = 2

pub data SideEffect : Type 0 where
  no_effect : SideEffect
  keyed_compare_and_commit : KeySpace → SideEffect
  staged_artifact final_artifact : SideEffect

pub data Idempotency : Type 0 where
  deterministic_value same_key_same_content content_addressed_artifact
        optional_deterministic_value :
      Idempotency

pub data CommitBoundary : Type 0 where
  planner_value keyed_state artifact_publication_handoff final_artifact_publication_handoff :
      CommitBoundary

abbrev pub boundary_number : CommitBoundary → ℕ
boundary_number planner_value = 0
boundary_number keyed_state = 1
boundary_number artifact_publication_handoff = 2
boundary_number final_artifact_publication_handoff = 3

pub data PlannerOwnership : Type 0 where
  declares_identity_dependencies_and_grouping : PlannerOwnership

pub data ExecutorOwnership : Type 0 where
  computes_stages_and_commits : ExecutorOwnership

pub record WorkOwnership : Type 0 where
  pub planner : PlannerOwnership
  pub executor : ExecutorOwnership

pub record PhysicalWorkUnit : Type 0 where
  pub id : WorkUnitId
  pub execution_group : ExecutionGroup
  pub inputs : List WorkInput
  pub outputs : List DataKind
  pub ready : ReadyPredicate
  pub resources : ResourceClaim
  pub side_effect : SideEffect
  pub idempotency : Idempotency
  pub commit_boundary : CommitBoundary
  pub ownership : WorkOwnership
  pub terminal_outputs : List DataKind

pub record PhysicalWorkContract : Type 0 where
  pub contract_version : ℕ
  pub units : List PhysicalWorkUnit
