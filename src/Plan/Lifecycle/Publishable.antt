-- ===== src/Plan/Lifecycle/Publishable.antt =====
-- The gate to publication against what publication demands.
use laminaria_rust_nim_toolc.Prelude.{
  ℕ, mem, ◌≡◌, refl, ap, subst, ◌↔◌, inl, inr, ◌≢◌, Bool, true, false, not, ◌||◌, String, List, [],
  ◌∷◌, ◌++◌, map, Option, none, some, All, Any, any, lookup, str_eq, eq_iff, if◌then◌else◌, ◌==◌,
  Bool-cases, arith,
}
use laminaria_rust_nim_toolc.Plan.Obligations.{Obligation, ObligationState, discharged, state_eq}
use laminaria_rust_nim_toolc.Plan.Lifecycle.Types.{
  ProducedFact, OperationEvidence, StateTransition, ArtifactManifest, PublicationBlocker,
  invalid_history, missing_artifact_evidence, ProductionGraph, ok,
}
use laminaria_rust_nim_toolc.Plan.Lifecycle.Checks.{is_empty}
use laminaria_rust_nim_toolc.Plan.Lifecycle.History.{history_of}
use laminaria_rust_nim_toolc.Plan.Lifecycle.Reachable.{reachable_obligations}
use laminaria_rust_nim_toolc.Plan.Lifecycle.Demanded.{Demanded, reachable_obligations-Demanded}
use laminaria_rust_nim_toolc.Plan.Lifecycle.Promise.{
  Explained, IsClosed, IsOf, HasCause, IsSameFact, PutsOut, HasEvidence, Publishable, IsOnRecord,
  Decided, IsManifest,
}
use laminaria_rust_nim_toolc.Plan.Lifecycle.Explaining.{state_eq_iff, history_invalid-Explained}
use laminaria_rust_nim_toolc.Plan.Lifecycle.Publication.{
  state_blockers, has_operation, causal_blockers, history_invalid, obligation_blockers,
  all_blockers, fact_eq, lacks_evidence, blockers, demand_blockers, unless_blocked, decision,
  manifest, publication_manifest,
}

state_blockers-IsClosed :
    (id : String) (state : ObligationState) → (state_blockers id state ≡ []) ↔ IsClosed state
state_blockers-IsClosed id state = ground arith

append-nil_iff : (xs ys : List PublicationBlocker) → (xs ++ ys ≡ []) ↔ ((xs ≡ []) × (ys ≡ []))
append-nil_iff [] ys = (λ h. (refl, h), λ h. h.1)
append-nil_iff (x ∷ xs) ys = (λ h. cc, λ h. cc)

-- A search finds what it tests for.
any-Any :
    {A : Type 0} (test : A → Bool) (P : A → Type 0)
    → ((x : A) → (test x ≡ true) ↔ P x)
    → (xs : List A) → (any test xs ≡ true) ↔ Any P xs
any-Any test P tests [] = (λ h. ground (arith, h), λ h. absurd h)
any-Any test P tests (x ∷ xs) =
    let (to, from) = tests x in
    let (to', from') = any-Any test P tests xs in
    (
      λ h. elim (Bool-cases (test x)) [
        | inl here ↦ inl (to here)
        | inr other ↦ inr (to' (ground (arith, h, other)))
      ],
      λ h. elim h [
        | inl here ↦ ground (arith, from here)
        | inr there ↦ ground (arith, from' there)
      ],
    )

has_operation-Any :
    (operations : List OperationEvidence) (action_id : String)
    → (has_operation operations action_id ≡ true) ↔ Any (IsOf action_id) operations
has_operation-Any operations action_id =
    any-Any (λ o. str_eq o.action_id action_id) (IsOf action_id) (λ o. eq_iff o.action_id action_id)
      operations

fact_eq-IsSameFact : (fact x : ProducedFact) → (fact_eq x fact ≡ true) ↔ IsSameFact fact x
fact_eq-IsSameFact fact x =
    ground (arith, eq_iff x.identity fact.identity, eq_iff x.digest fact.digest)

PutsOut-found :
    (operations : List OperationEvidence) (fact : ProducedFact)
    → (any (λ (o : OperationEvidence). any (λ x. fact_eq x fact) o.outputs) operations ≡ true)
      ↔ Any (PutsOut fact) operations
PutsOut-found operations fact =
    any-Any (λ o. any (λ x. fact_eq x fact) o.outputs) (PutsOut fact)
      (λ o. any-Any (λ x. fact_eq x fact) (IsSameFact fact) (fact_eq-IsSameFact fact) o.outputs)
      operations

lacks_iff :
    (digest : String) (size : ℕ) (put_out : Bool)
    → ((is_empty digest || (size == 0) || not put_out) ≡ false)
      ↔ ((digest ≢ "") × (size ≢ 0) × (put_out ≡ true))
lacks_iff digest size put_out =
    (λ h. ground (arith, h, eq_iff digest ""), λ h. ground (arith, h, eq_iff digest ""))

lacks_evidence-HasEvidence :
    (operations : List OperationEvidence) (fact : ProducedFact)
    → (lacks_evidence operations fact ≡ false) ↔ HasEvidence operations fact
unfolding lacks_evidence
lacks_evidence-HasEvidence operations fact =
    let (to, from) = lacks_iff fact.digest fact.size_bytes _ in
    let (found, unfound) = PutsOut-found operations fact in
    (λ h. let (p, q, r) = to h in (p, q, found r), λ (p, q, r). from (p, q, unfound r))

some_eq : {a b : String} → some a ≡ some b → a ≡ b
some_eq h = cc

causal_blockers-HasCause :
    (operations : List OperationEvidence) (id : String) (state : ObligationState)
    (o : Option String)
    → (causal_blockers operations id state o ≡ [])
      ↔ ((a : String) → o ≡ some a → state ≡ discharged → Any (IsOf a) operations)
causal_blockers-HasCause operations id state none = (λ h a e. cc, λ h. refl)
causal_blockers-HasCause operations id state (some a) = (
  λ h b e d.
      let found : has_operation operations a ≡ true =
        ground (arith, h, d, state_eq_iff state discharged) in
      subst (λ x. Any (IsOf x) operations) (some_eq e) ((has_operation-Any operations a).0 found),
  λ h. elim (Bool-cases (state_eq state discharged)) [
    | inl is ↦
        let found =
          (has_operation-Any operations a).1 (h a refl ((state_eq_iff state discharged).0 is)) in
        ground (arith, is, found)
    | inr other ↦ ground (arith, other)
  ],
)

if_blockers :
    (b : Bool) (xs : List PublicationBlocker) → ((if b then xs else []) ≡ []) ↔ (b ≡ true → xs ≡ [])
if_blockers true xs = (λ h _. h, λ h. h refl)
if_blockers false xs = (λ h e. cc, λ h. refl)

if_blocker : (b : Bool) (x : PublicationBlocker) → ((if b then x ∷ [] else []) ≡ []) ↔ (b ≡ false)
if_blocker true x = (λ h. cc, λ h. cc)
if_blocker false x = (λ h. refl, λ h. refl)

nonempty_iff :
    (reachable : List String)
    → (demand_blockers reachable ≡ []) ↔ ((id : String) × (mem id reachable ≡ true))
nonempty_iff [] = (λ h. cc, λ (id, h). absurd (ground (arith, h)))
nonempty_iff (x ∷ xs) = (λ h. (x, ground (arith, eq_iff x x)), λ h. refl)

module _ (g : ProductionGraph) (reachable : List String)
    (finds : (id : String) → (mem id reachable ≡ true) ↔ Demanded g.closure.obligations id) where
  abbrev Settled : String × Obligation → Type 0
  Settled (id, o) =
      (Demanded g.closure.obligations id → IsClosed o.state)
      × HasCause g.operations o
      × Explained o.state (lookup id g.histories)

  obligation_blockers-Settled :
      (id : String) (o : Obligation) → (obligation_blockers g reachable id o ≡ []) ↔ Settled (id, o)
  obligation_blockers-Settled id o =
      let (split, join) =
        append-nil_iff (if mem id reachable then state_blockers id o.state else []) _ in
      let (split', join') =
        append-nil_iff (causal_blockers g.operations id o.state o.required_action) _ in
      let (reach, unreach) = if_blockers (mem id reachable) (state_blockers id o.state) in
      let (close, unclose) = state_blockers-IsClosed id o.state in
      let (cause, uncause) = causal_blockers-HasCause g.operations id o.state o.required_action in
      let (valid, invalid) =
        if_blocker (history_invalid o.state (lookup id g.histories)) (invalid_history id) in
      let (explain, unexplain) = history_invalid-Explained o.state (lookup id g.histories) in
      (
        λ h.
            let (h1, h2) = split h in
            let (h3, h4) = split' h2 in
            (λ r. close (reach h1 ((finds id).1 r)), cause h3, explain (valid h4)),
        λ (h1, h2, h3). join (
          unreach (λ r. unclose (h1 ((finds id).0 r))),
          join' (uncause h2, invalid (unexplain h3)),
        ),
      )

  all_blockers-All :
      (m : List (String × Obligation)) → (all_blockers g reachable m ≡ []) ↔ All Settled m
  unfolding all_blockers
  all_blockers-All [] = (λ _. tt, λ _. refl)
  all_blockers-All ((id, o) ∷ rest) =
      let (split, join) = append-nil_iff (obligation_blockers g reachable id o) _ in
      let (settle, unsettle) = obligation_blockers-Settled id o in
      let (settle', unsettle') = all_blockers-All rest in
      (
        λ h. let (h1, h2) = split h in (settle h1, settle' h2),
        λ (h1, h2). join (unsettle h1, unsettle' h2),
      )

  demand_blockers_iff :
      (demand_blockers reachable ≡ []) ↔ ((id : String) × Demanded g.closure.obligations id)
  demand_blockers_iff =
      let (needs, has) = nonempty_iff reachable in
      (
        λ h. let (id, there) = needs h in (id, (finds id).0 there),
        λ (id, needed). has (id, (finds id).1 needed),
      )

blockers-Publishable :
    (g : ProductionGraph) (fact : ProducedFact) → (blockers g fact ≡ []) ↔ Publishable g fact
unfolding blockers
blockers-Publishable g fact =
    let reachable = reachable_obligations g.closure.obligations in
    let finds = reachable_obligations-Demanded g.closure.obligations in
    let (split, join) = append-nil_iff (demand_blockers reachable) _ in
    let (split', join') = append-nil_iff (all_blockers g reachable g.closure.obligations) _ in
    let (demand, undemand) = demand_blockers_iff g reachable finds in
    let (settle, unsettle) = all_blockers-All g reachable finds g.closure.obligations in
    let (found, unfound) =
      if_blocker (lacks_evidence g.operations fact) (missing_artifact_evidence fact.identity) in
    let (evidence, unevidence) = lacks_evidence-HasEvidence g.operations fact in
    (
      λ h.
          let (h1, h2) = split h in
          let (h3, h4) = split' h2 in (demand h1, settle h3, evidence (found h4)),
      λ (h1, h2, h3). join (undemand h1, join' (unsettle h2, unfound (unevidence h3))),
    )

history_of-IsOnRecord : (h : Option (List StateTransition)) → IsOnRecord h (history_of h)
history_of-IsOnRecord none = refl
history_of-IsOnRecord (some h) = refl

decisions-Decided :
    (g : ProductionGraph) (m : List (String × Obligation)) → Decided g m (map (decision g) m)
decisions-Decided g [] = tt
decisions-Decided g ((key, o) ∷ rest) =
    (refl, refl, refl, history_of-IsOnRecord (lookup o.id g.histories), decisions-Decided g rest)

manifest-IsManifest :
    (g : ProductionGraph) (fact : ProducedFact) → IsManifest g fact (manifest g fact)
manifest-IsManifest g fact = (refl, refl, refl, refl, decisions-Decided g g.closure.obligations)

published_unblocked :
    (bs : List PublicationBlocker) (m told : ArtifactManifest)
    → unless_blocked bs m ≡ ok told
    → bs ≡ []
published_unblocked [] m told h = refl
published_unblocked (b ∷ bs) m told h = cc

-- Publication succeeds, with a manifest that tells the graph's contract version, operations and
-- runtime contracts, the requested artifact and each obligation's kind, state and recorded history,
-- exactly when some demand for a native executable is among the obligations, every obligation that a
-- demand needs, itself or by a chain of dependencies, is discharged or externalized, every discharged
-- obligation that has a required action has a recorded operation of that action, every history on
-- record that is not empty leads from `Unresolved` to its obligation's state by linked transitions
-- with increasing sequence numbers, no obligation without a history on record is discharged,
-- externalized or proven irrelevant, and some recorded operation put out the requested artifact, with
-- its digest and size, which are not empty or zero.
pub publication_manifest_iff :
    (g : ProductionGraph) (fact : ProducedFact)
    → ((m : ArtifactManifest) × (publication_manifest g fact ≡ ok m) × IsManifest g fact m)
      ↔ Publishable g fact
unfolding publication_manifest
publication_manifest_iff g fact =
    let (to, from) = blockers-Publishable g fact in
    (
      λ (m, published, told).
          to (published_unblocked (blockers g fact) (manifest g fact) m published),
      λ h. (
        manifest g fact,
        ap (λ bs. unless_blocked bs (manifest g fact)) (from h),
        manifest-IsManifest g fact,
      ),
    )
