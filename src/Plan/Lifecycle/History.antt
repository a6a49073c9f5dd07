-- ===== src/Plan/Lifecycle/History.antt =====
-- crates/laminaria-plan/src/obligation_lifecycle.rs: one more transition of an obligation.
use laminaria_rust_nim_toolc.Plan.Lifecycle.Types.{
  TransitionCause, StateTransition, ProductionGraph, Outcome, invalid_transition, ok, err,
}
use laminaria_rust_nim_toolc.Prelude.{
  ℕ, Bool, false, not, ◌||◌, String, List, [], ◌∷◌, ◌++◌, Option, none, some, lookup, insert,
  if◌then◌else◌, leb,
}
use laminaria_rust_nim_toolc.Plan.Obligations.{ObligationState, unresolved, state_eq}

-- The entry of a map of lists, empty where there is none.
abbrev pub history_of : Option (List StateTransition) → List StateTransition
history_of none = []
history_of (some h) = h

-- `history.last().is_some_and(..)`: the next transition cannot follow.
unfoldable pub refuses : List StateTransition → ObligationState → ℕ → Bool
refuses [] from sequence = false
refuses (t ∷ []) from sequence = not (state_eq t.to from) || leb sequence t.sequence
refuses (t ∷ u ∷ ts) from sequence = refuses (u ∷ ts) from sequence

unfoldable pub append_transition :
    ProductionGraph → String → ℕ → ObligationState → ObligationState → TransitionCause → Outcome
append_transition g id sequence from to cause =
    let history = history_of (lookup id g.histories) in
    if refuses history from sequence
    then err (invalid_transition id from to) g
    else ok (record g {
      histories =
          insert id
            (history ++ record { sequence = sequence; from = from; to = to; cause = cause } ∷ [])
            g.histories;
    })

-- The state from which an obligation's history goes on: `Unresolved` before its first entry.
abbrev pub history_from : Option (List StateTransition) → ObligationState → ObligationState
history_from none from = unresolved
history_from (some h) from = from
