-- ===== src/Plan/Obligations.antt =====
-- crates/laminaria-plan/src/dependency_graph.rs: obligations, the actions that discharge them, and
-- the two transitions of a resolved closure. The closure's `physical_work`, which no transition
-- reads or writes, is left out.
use laminaria_rust_nim_toolc.Prelude.{
  ℕ, Bool, true, false, String, List, [], ◌∷◌, Option, none, some, any, lookup, insert, str_eq,
  if◌then◌else◌, ◌==◌,
}

pub data Ecosystem : Type 0 where
  cargo nimble c cpp cross : Ecosystem

pub data ObligationKind : Type 0 where
  native_executable_demand package_selection source_module semantic_ffi lowering abi_target
        artifact_production symbol link_order final_link runtime provenance :
      ObligationKind

pub data ObligationState : Type 0 where
  unresolved selected satisfied discharged externalized proven_irrelevant rejected : ObligationState

-- The derived equality of an enum without fields compares the constructors' numbers.
abbrev pub state_number : ObligationState → ℕ
state_number unresolved = 0
state_number selected = 1
state_number satisfied = 2
state_number discharged = 3
state_number externalized = 4
state_number proven_irrelevant = 5
state_number rejected = 6

abbrev pub state_eq : ObligationState → ObligationState → Bool
state_eq a b = state_number a == state_number b

abbrev pub is_g2_dischargeable : ObligationState → Bool
is_g2_dischargeable selected = true
is_g2_dischargeable satisfied = true
is_g2_dischargeable state = false

pub data DischargeKind : Type 0 where
  specialized lowered generated inlined statically_linked embedded proven_irrelevant
        replaced_by_equivalent external_runtime_contract :
      DischargeKind

pub data RejectionReason : Type 0 where
  incompatible_abi missing_symbol version_conflict feature_conflict host_target_role_mismatch
        unsupported_construct :
      RejectionReason

pub data Role : Type 0 where
  host target : Role

pub record RejectionDetail : Type 0 where
  pub reason : RejectionReason
  pub detail : String

pub record Obligation : Type 0 where
  pub id : String
  pub kind : ObligationKind
  pub ecosystem : Ecosystem
  pub role : Role
  pub depends_on : List String
  pub state : ObligationState
  pub discharge_kind : Option DischargeKind
  pub required_action : Option String
  pub rejection : Option RejectionDetail
  pub evidence : Option String

-- `Obligation::discharge` and `Obligation::externalize`
abbrev pub discharge : String → DischargeKind → String → Obligation → Obligation
discharge action_id kind evidence o = record o {
  state = discharged;
  required_action = some action_id;
  discharge_kind = some kind;
  evidence = some evidence;
}

abbrev pub externalize : DischargeKind → String → Obligation → Obligation
externalize kind evidence o = record o {
  state = externalized;
  discharge_kind = some kind;
  evidence = some evidence;
}

pub data RequiredActionKind : Type 0 where
  compile_rust_object compile_nim_static_library compile_c_object compile_cpp_adapter_object
        archive_static_library link_native_executable preflight_runtime_contract
        publish_provenance :
      RequiredActionKind

abbrev pub action_number : RequiredActionKind → ℕ
action_number compile_rust_object = 0
action_number compile_nim_static_library = 1
action_number compile_c_object = 2
action_number compile_cpp_adapter_object = 3
action_number archive_static_library = 4
action_number link_native_executable = 5
action_number preflight_runtime_contract = 6
action_number publish_provenance = 7

abbrev pub action_kind_eq : RequiredActionKind → RequiredActionKind → Bool
action_kind_eq a b = action_number a == action_number b

pub record RequiredAction : Type 0 where
  pub id : String
  pub kind : RequiredActionKind
  pub target_triple : String
  pub role : Role
  pub toolchain : String
  pub inputs : List String
  pub outputs : List String
  pub discharges : List String
  pub depends_on : List String

pub record PositiveClosure : Type 0 where
  pub obligations : List (String × Obligation)
  pub required_actions : List RequiredAction
  pub rejected_alternatives : List (String × List RejectionDetail)

abbrev pub put_obligation : String → Obligation → PositiveClosure → PositiveClosure
put_obligation id o closure = record closure { obligations = insert id o closure.obligations }

-- `required_actions.iter().find(|a| a.id == id)`
unfoldable pub find_action : String → List RequiredAction → Option RequiredAction
find_action id [] = none
find_action id (a ∷ rest) = if str_eq a.id id then some a else find_action id rest

abbrev pub discharge_kind_allowed : RequiredActionKind → ObligationKind → Bool
discharge_kind_allowed compile_rust_object artifact_production = true
discharge_kind_allowed compile_nim_static_library artifact_production = true
discharge_kind_allowed compile_c_object artifact_production = true
discharge_kind_allowed compile_cpp_adapter_object artifact_production = true
discharge_kind_allowed archive_static_library artifact_production = true
discharge_kind_allowed link_native_executable final_link = true
discharge_kind_allowed link_native_executable link_order = true
discharge_kind_allowed link_native_executable artifact_production = true
discharge_kind_allowed preflight_runtime_contract runtime = true
discharge_kind_allowed publish_provenance provenance = true
discharge_kind_allowed action_kind obligation_kind = false

pub data LifecycleViolation : Type 0 where
  unknown_obligation unknown_action : String → LifecycleViolation
  action_does_not_discharge_this_obligation :
      (action_id obligation_id : String) → LifecycleViolation
  action_kind_cannot_discharge_obligation_kind :
      RequiredActionKind → ObligationKind → LifecycleViolation
  obligation_not_dischargeable : (obligation_id : String) → ObligationState → LifecycleViolation

pub data Transition : Type 0 where
  ok : PositiveClosure → Transition
  err : LifecycleViolation → Transition

module _ (closure : PositiveClosure) (obligation_id : String) where
  abbrev pub discharge_by :
      Obligation → String → DischargeKind → String → Option RequiredAction → Transition
  discharge_by o action_id kind evidence none = err (unknown_action action_id)
  discharge_by o action_id kind evidence (some action) =
      if any (λ d. str_eq d obligation_id) action.discharges
      then if discharge_kind_allowed action.kind o.kind
        then if is_g2_dischargeable o.state
          then ok (put_obligation obligation_id (discharge action_id kind evidence o) closure)
          else err (obligation_not_dischargeable obligation_id o.state)
        else err (action_kind_cannot_discharge_obligation_kind action.kind o.kind)
      else err (action_does_not_discharge_this_obligation action_id obligation_id)

  unfoldable pub discharge_obligation : String → DischargeKind → String → Transition
  discharge_obligation action_id kind evidence = elim (lookup obligation_id closure.obligations) [
    | none ↦ err (unknown_obligation obligation_id)
    | some o ↦
        discharge_by o action_id kind evidence (find_action action_id closure.required_actions)
  ]

  unfoldable pub externalize_obligation : String → Transition
  externalize_obligation evidence = elim (lookup obligation_id closure.obligations) [
    | none ↦ err (unknown_obligation obligation_id)
    | some o ↦
        if is_g2_dischargeable o.state
        then ok (
            put_obligation obligation_id (externalize external_runtime_contract evidence o) closure)
        else err (obligation_not_dischargeable obligation_id o.state)
  ]
