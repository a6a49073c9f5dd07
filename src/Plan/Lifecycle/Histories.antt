-- ===== src/Plan/Lifecycle/Histories.antt =====
-- The histories of every graph that calls lead to.
use laminaria_rust_nim_toolc.Prelude.{
  ◌≡◌, arith, false, String, List, [], ◌∷◌, ◌++◌, lookup, insert, lookup-insert, str_eq, Bool-cases,
  inl, inr, subst, sym,
}
use laminaria_rust_nim_toolc.Plan.Obligations.{PositiveClosure}
use laminaria_rust_nim_toolc.Plan.Lifecycle.Types.{
  StateTransition, ProductionGraph, Checked, err, ok, invalid_transition,
}
use laminaria_rust_nim_toolc.Plan.Lifecycle.Checks.{new, new-nothing_recorded}
use laminaria_rust_nim_toolc.Plan.Lifecycle.History.{append_transition, refuses, history_of}
use laminaria_rust_nim_toolc.Plan.Lifecycle.Promise.{Chained}
use laminaria_rust_nim_toolc.Plan.Lifecycle.Explaining.{state_eq_iff}
use laminaria_rust_nim_toolc.Plan.Lifecycle.Keeps.{if_Keeps}
use laminaria_rust_nim_toolc.Plan.Lifecycle.Kept.{IsKept, reached-keeps}
use laminaria_rust_nim_toolc.Plan.Lifecycle.Steps.{Reached}

-- Every obligation's history is linked, with increasing sequence numbers.
abbrev pub AllChained : ProductionGraph → Type 0
AllChained g = (id : String) → Chained (history_of (lookup id g.histories))

refuses-Chained :
    (h : List StateTransition) (t : StateTransition)
    → refuses h t.from t.sequence ≡ false
    → Chained h
    → Chained (h ++ t ∷ [])
unfolding refuses
refuses-Chained [] t r c = tt
refuses-Chained (u ∷ []) t r c = ground (arith, state_eq_iff u.to t.from)
refuses-Chained (u ∷ v ∷ h) t r c = (c.0, c.1, refuses-Chained (v ∷ h) t r c.2)

insert-Chained :
    (m : List (String × List StateTransition)) (id : String) (h : List StateTransition)
    → Chained h
    → ((j : String) → Chained (history_of (lookup j m)))
    → (j : String) → Chained (history_of (lookup j (insert id h m)))
insert-Chained m id h c all j =
    subst (λ o. Chained (history_of o)) (sym (lookup-insert id j h m))
      (elim (Bool-cases (str_eq id j)) [ inl same ↦ rw same c | inr other ↦ rw other (all j) ])

AllChained-IsKept : IsKept AllChained
unfolding append_transition
AllChained-IsKept = record {
  quiet = record {
    closure_step = λ g c p. p;
    history_step = λ g id n from to cause p.
        let h = history_of (lookup id g.histories) in
        let t : StateTransition = record { sequence = n; from = from; to = to; cause = cause } in
        if_Keeps AllChained (refuses h from n) (err (invalid_transition id from to) g)
          (ok (record g { histories = insert id (h ++ t ∷ []) g.histories })) (λ _. p)
          λ r. insert-Chained g.histories id (h ++ t ∷ []) (refuses-Chained h t r (p id)) p;
  };
  operation_step = λ g e fresh p. p;
  resolution_step = λ g e fresh p. p;
  contract_step = λ g e fresh p. p;
  proof_step = λ g e fresh p. p;
}

new-AllChained :
    (closure : PositiveClosure) (g : ProductionGraph) → new closure ≡ Checked.ok g → AllChained g
unfolding lookup
new-AllChained closure g h = subst AllChained (new-nothing_recorded closure g h) (λ id. tt)

-- In every graph that calls lead to from a new one, refused calls included, every obligation's
-- history is linked: each transition starts in the state in which the one before ended and has a
-- larger sequence number.
pub Reached-AllChained : (g : ProductionGraph) → Reached g → AllChained g
Reached-AllChained = reached-keeps AllChained AllChained-IsKept new-AllChained
