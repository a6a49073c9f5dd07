-- ===== src/Plan/Lifecycle/Explaining.antt =====
-- The gate's tests of a history against what a history has to tell.
use laminaria_rust_nim_toolc.Prelude.{
  ◌≡◌, refl, ◌↔◌, ◌≢◌, true, false, List, [], ◌∷◌, Option, none, some, arith,
}
use laminaria_rust_nim_toolc.Plan.Obligations.{
  ObligationState, unresolved, discharged, externalized, state_eq,
}
use laminaria_rust_nim_toolc.Plan.Lifecycle.Types.{StateTransition}
use laminaria_rust_nim_toolc.Plan.Lifecycle.Promise.{Chained, StartsUnresolved, EndsIn, Explained}
use laminaria_rust_nim_toolc.Plan.Lifecycle.Publication.{
  breaks, starts_wrong, ends_wrong, needs_history, history_invalid,
}

pub state_eq_iff : (a b : ObligationState) → (state_eq a b ≡ true) ↔ (a ≡ b)
state_eq_iff a b = ground arith

breaks-Chained : (h : List StateTransition) → (breaks h ≡ false) ↔ Chained h
breaks-Chained [] = (λ _. tt, λ _. refl)
breaks-Chained (t ∷ []) = (λ _. tt, λ _. refl)
breaks-Chained (t ∷ u ∷ ts) = ground (arith, state_eq_iff t.to u.from, breaks-Chained (u ∷ ts))

starts_wrong-StartsUnresolved :
    (h : List StateTransition) → (starts_wrong h ≡ false) ↔ StartsUnresolved h
starts_wrong-StartsUnresolved [] = (λ _. tt, λ _. refl)
starts_wrong-StartsUnresolved (t ∷ ts) = ground (arith, state_eq_iff t.from unresolved)

ends_wrong-EndsIn :
    (h : List StateTransition) (state : ObligationState)
    → (ends_wrong h state ≡ false) ↔ EndsIn state h
ends_wrong-EndsIn [] state = (λ _. tt, λ _. refl)
ends_wrong-EndsIn (t ∷ []) state = ground (arith, state_eq_iff t.to state)
ends_wrong-EndsIn (t ∷ u ∷ ts) state = ends_wrong-EndsIn (u ∷ ts) state

needs_history-Ends :
    (state : ObligationState)
    → (needs_history state ≡ false) ↔ (
        (state ≢ discharged) × (state ≢ externalized) × (state ≢ ObligationState.proven_irrelevant))
needs_history-Ends state = ground arith

pub history_invalid-Explained :
    (state : ObligationState) (o : Option (List StateTransition))
    → (history_invalid state o ≡ false) ↔ Explained state o
history_invalid-Explained state none = needs_history-Ends state
history_invalid-Explained state (some h) =
    ground (arith, starts_wrong-StartsUnresolved h, breaks-Chained h, ends_wrong-EndsIn h state)
