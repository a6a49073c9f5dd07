-- ===== src/Plan/Lifecycle/Keeps.antt =====
-- What every call on a graph keeps, from what its parts keep.
use laminaria_rust_nim_toolc.Prelude.{
  ℕ, ◌≡◌, refl, Bool, true, false, String, List, [], ◌∷◌, Option, none, some, lookup, if◌then◌else◌,
  arith,
}
use Prim.Native.String.{◌++◌ as append}
use laminaria_rust_nim_toolc.Plan.Obligations.{
  ObligationState, Obligation, RequiredAction, DischargeKind, PositiveClosure, Transition,
  discharged, discharge_obligation,
}
use laminaria_rust_nim_toolc.Plan.Lifecycle.Types.{
  OperationEvidence, ResolutionEvidence, TransitionCause, ProductionGraph, Checked, Outcome, ok,
  err, panic, ◌>>=◌,
}
use laminaria_rust_nim_toolc.Plan.Lifecycle.Checks.{
  sequence_used, operation_id_used, validate_operation,
}
use laminaria_rust_nim_toolc.Plan.Lifecycle.History.{append_transition, refuses, history_of}
use laminaria_rust_nim_toolc.Plan.Lifecycle.Resolve.{resolve_found, resolve_one, resolve_all}
use laminaria_rust_nim_toolc.Plan.Lifecycle.Operate.{within, discharge_one, discharge_all}

abbrev pub Keeps : (ProductionGraph → Type 0) → Outcome → Type 0
Keeps P (ok g) = P g
Keeps P (err e g) = P g
Keeps P panic = Unit {0}

-- What no change of the closure and no further transition disturbs.
pub record IsQuiet (P : ProductionGraph → Type 0) : Type 0 where
  pub closure_step :
      (g : ProductionGraph) (c : PositiveClosure) → P g → P (record g { closure = c })
  pub history_step :
      (g : ProductionGraph) (id : String) (n : ℕ) (from to : ObligationState)
      (cause : TransitionCause)
      → P g
      → Keeps P (append_transition g id n from to cause)

pub >>=-Keeps :
    (P Q : ProductionGraph → Type 0) (m : Outcome) (f : ProductionGraph → Outcome)
    → ((g : ProductionGraph) → P g → Q g)
    → Keeps P m
    → ((g : ProductionGraph) → P g → Keeps Q (f g))
    → Keeps Q (m >>= f)
>>=-Keeps P Q (ok g) f weaker h k = k g h
>>=-Keeps P Q (err e g) f weaker h k = weaker g h
>>=-Keeps P Q panic f weaker h k = tt

pub if_Keeps :
    (P : ProductionGraph → Type 0) (b : Bool) (x y : Outcome)
    → (b ≡ true → Keeps P x)
    → (b ≡ false → Keeps P y)
    → Keeps P (if b then x else y)
if_Keeps P true x y h k = h refl
if_Keeps P false x y h k = k refl

module _ (P : ProductionGraph → Type 0) (quiet : IsQuiet P) where
  found-Keeps :
      (e : ResolutionEvidence) (g : ProductionGraph) (id : String) (o : Obligation)
      (a : Option String)
      → P g
      → Keeps P (resolve_found e g id o a)
  found-Keeps e g id o none p = quiet.history_step _ _ _ _ _ _ (quiet.closure_step g _ p)
  found-Keeps e g id o (some a) p = quiet.history_step _ _ _ _ _ _ p

  one-Keeps :
      (e : ResolutionEvidence) (g : ProductionGraph) (id : String) (o : Option Obligation)
      → P g
      → Keeps P (resolve_one e g id o)
  one-Keeps e g id none p = tt
  one-Keeps e g id (some o) p = found-Keeps e g id o o.required_action p

  pub resolve_all-Keeps :
      (e : ResolutionEvidence) (ids : List String) (g : ProductionGraph)
      → P g
      → Keeps P (resolve_all e ids g)
  resolve_all-Keeps e [] g p = p
  resolve_all-Keeps e (id ∷ ids) g p =
      let o = lookup id g.closure.obligations in
      >>=-Keeps P P (resolve_one e g id o) (resolve_all e ids) (λ h q. q) (one-Keeps e g id o p)
        (λ h q. resolve_all-Keeps e ids h q)

  pub within-Keeps : (g : ProductionGraph) (t : Transition) → P g → Keeps P (within g t)
  within-Keeps g (Transition.ok c) p = quiet.closure_step g c p
  within-Keeps g (Transition.err v) p = p

  discharge_one-Keeps :
      (e : OperationEvidence) (act : RequiredAction) (kind : DischargeKind) (id : String)
      (g : ProductionGraph) (o : Option Obligation)
      → P g
      → Keeps P (discharge_one e act kind id g o)
  discharge_one-Keeps e act kind id g none p = p
  discharge_one-Keeps e act kind id g (some o) p =
      let t =
        discharge_obligation g.closure id act.id kind
          (append "operation " (append e.operation_id (append ": " e.detail))) in
      >>=-Keeps P P (within g t)
        (λ h.
          append_transition h id e.sequence o.state discharged
            (TransitionCause.action e.operation_id act.id))
        (λ h q. q) (within-Keeps g t p)
        (λ h q.
          quiet.history_step h id e.sequence o.state discharged
            (TransitionCause.action e.operation_id act.id) q)

  pub discharge_all-Keeps :
      (e : OperationEvidence) (act : RequiredAction) (kind : DischargeKind) (ids : List String)
      (g : ProductionGraph)
      → P g
      → Keeps P (discharge_all e act kind ids g)
  discharge_all-Keeps e act kind [] g p = p
  discharge_all-Keeps e act kind (id ∷ ids) g p =
      let o = lookup id g.closure.obligations in
      >>=-Keeps P P (discharge_one e act kind id g o) (discharge_all e act kind ids) (λ h q. q)
        (discharge_one-Keeps e act kind id g o p) (λ h q. discharge_all-Keeps e act kind ids h q)

append_ok :
    (P : ProductionGraph → Type 0) (Q : ProductionGraph → Type 0) (m : Outcome)
    → Keeps P m
    → Keeps Q m
    → Keeps (λ g. P g × Q g) m
append_ok P Q (ok g) p q = (p, q)
append_ok P Q (err e g) p q = (p, q)
append_ok P Q panic p q = tt

-- Neither the sequence number nor the operation id is on record.
abbrev pub Unused : ℕ → String → ProductionGraph → Type 0
Unused n id g = (sequence_used g n ≡ false) × (operation_id_used g id ≡ false)

abbrev pub UnusedSequence : ℕ → ProductionGraph → Type 0
UnusedSequence n g = sequence_used g n ≡ false

pub Unused-IsQuiet : (n : ℕ) (id : String) → IsQuiet (Unused n id)
unfolding append_transition sequence_used operation_id_used
Unused-IsQuiet n id = record {
  closure_step = λ g c p. p;
  history_step = λ g j k from to cause p.
      if_Keeps (Unused n id) (refuses (history_of (lookup j g.histories)) from k) _ _ (λ _. p)
        (λ _. p);
}

pub UnusedSequence-IsQuiet : (n : ℕ) → IsQuiet (UnusedSequence n)
unfolding append_transition sequence_used
UnusedSequence-IsQuiet n = record {
  closure_step = λ g c p. p;
  history_step = λ g j k from to cause p.
      if_Keeps (UnusedSequence n) (refuses (history_of (lookup j g.histories)) from k) _ _ (λ _. p)
        (λ _. p);
}

pub both-IsQuiet :
    (P Q : ProductionGraph → Type 0) → IsQuiet P → IsQuiet Q → IsQuiet (λ g. P g × Q g)
both-IsQuiet P Q p q = record {
  closure_step = λ g c h. (p.closure_step g c h.0, q.closure_step g c h.1);
  history_step = λ g id n from to cause h.
      append_ok P Q _ (p.history_step g id n from to cause h.0)
        (q.history_step g id n from to cause h.1);
}

pub validated-Unused :
    (g : ProductionGraph) (e : OperationEvidence) (act : RequiredAction)
    → validate_operation g e ≡ Checked.ok act
    → Unused e.sequence e.operation_id g
unfolding validate_operation
validated-Unused g e act h = ground arith
