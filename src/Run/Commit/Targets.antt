-- ===== src/Run/Commit/Targets.antt =====
-- Targets that test equal, what is found under them, and the outputs in a list.
use laminaria_rust_nim_toolc.Prelude.{
  ℕ, ◌≡◌, refl, sym, ◌∙◌, ◌↔◌, ◌⊎◌, inl, inr, Bool, String, List, [], ◌∷◌, ◌++◌, Option, none, some,
  true, false, lookup, insert, remove, subst, ap, ◌==◌, ◌&&◌, str_eq, str_ltb, eq_iff, arith,
  if◌then◌else◌, Bool-cases,
}
use mathlib.Core.Option.{some-injective}
use laminaria_rust_nim_toolc.Plan.PhysicalWork.{boundary_number, kind_number}
use laminaria_rust_nim_toolc.Run.Commit.{
  space_number, CommitTarget, CommittedOutput, StagedOutput, target_eq, visible_in, insert_target,
  or_insert, staged_sha, all_staged, committed_output, publish,
}

-- What the comparison compares.
abbrev SameTarget : CommitTarget → CommitTarget → Type 0
SameTarget a b =
    (boundary_number a.boundary ≡ boundary_number b.boundary)
    × (space_number a.key_space ≡ space_number b.key_space)
    × (kind_number a.output_kind ≡ kind_number b.output_kind)
    × (a.logical_key ≡ b.logical_key)

all_equal_iff :
    (m n p q i j : ℕ) (s t : String)
    → ((m == n && p == q && i == j && str_eq s t) ≡ true) ↔ ((m ≡ n) × (p ≡ q) × (i ≡ j) × (s ≡ t))
all_equal_iff m n p q i j s t = ground (arith, eq_iff s t)

target_eq_iff : (a b : CommitTarget) → (target_eq a b ≡ true) ↔ SameTarget a b
unfolding target_eq
target_eq_iff a b = all_equal_iff _ _ _ _ _ _ a.logical_key b.logical_key

pub target_eq_refl : (a : CommitTarget) → target_eq a a ≡ true
target_eq_refl a = (target_eq_iff a a).1 (refl, refl, refl, refl)

pub target_eq-sym : (a b : CommitTarget) → target_eq a b ≡ true → target_eq b a ≡ true
target_eq-sym a b h =
    let (p, q, r, s) = (target_eq_iff a b).0 h in (target_eq_iff b a).1 (sym p, sym q, sym r, sym s)

pub target_eq_trans :
    (a b c : CommitTarget) → target_eq a b ≡ true → target_eq b c ≡ true → target_eq a c ≡ true
target_eq_trans a b c h k =
    let (p, q, r, s) = (target_eq_iff a b).0 h in
    let (p', q', r', s') = (target_eq_iff b c).0 k in
    (target_eq_iff a c).1 (p ∙ p', q ∙ q', r ∙ r', s ∙ s')

-- Equal targets have one kind.
pub target_eq-kind :
    (a b : CommitTarget)
    → target_eq a b ≡ true
    → kind_number a.output_kind ≡ kind_number b.output_kind
target_eq-kind a b h = ((target_eq_iff a b).0 h).2

pub visible_in-insert_target :
    (target asked : CommitTarget) (new : CommittedOutput)
    (committed : List (CommitTarget × CommittedOutput))
    → visible_in target committed ≡ none
    → visible_in asked (insert_target target new committed)
      ≡ (if target_eq target asked then some new else visible_in asked committed)
unfolding visible_in insert_target
visible_in-insert_target target asked new [] h = refl
visible_in-insert_target target asked new ((here, output) ∷ rest) h = ground (
  arith,
  visible_in-insert_target target asked new rest,
  target_eq_trans here asked target,
  target_eq-sym target asked,
  h,
)

abbrev pub Committed : Type 0
Committed = List (CommitTarget × CommittedOutput)

-- A publication keeps what is visible.
pub visible_in-target_eq :
    (a b : CommitTarget) (committed : Committed)
    → target_eq a b ≡ true
    → visible_in a committed ≡ visible_in b committed
unfolding visible_in
visible_in-target_eq a b [] h = refl
visible_in-target_eq a b ((here, output) ∷ rest) h = ground (
  arith,
  visible_in-target_eq a b rest h,
  target_eq_trans here a b,
  target_eq_trans here b a,
  target_eq-sym a b h,
  h,
)

-- What is visible after one more target: what was, or the new one under its target.
or_insert-keeps :
    (target asked : CommitTarget) (new output : CommittedOutput) (committed : Committed)
    → visible_in asked committed ≡ some output
    → visible_in asked (or_insert target new committed) ≡ some output
or_insert-keeps target asked new output committed h = inserted (visible_in target committed) refl
  where
    inserted :
        (found : Option CommittedOutput)
        → visible_in target committed ≡ found
        → visible_in asked
            (elim found [ some x ↦ committed | none ↦ insert_target target new committed ])
          ≡ some output
    inserted (some x) e = h
    inserted none e = ground (
      arith,
      visible_in-insert_target target asked new committed e,
      visible_in-target_eq target asked committed,
      e,
      h,
    )

pub or_insert-cases :
    (target asked : CommitTarget) (new output : CommittedOutput) (committed : Committed)
    → visible_in asked (or_insert target new committed) ≡ some output
    → (visible_in asked committed ≡ some output)
      ⊎ ((target_eq target asked ≡ true) × (output ≡ new))
or_insert-cases target asked new output committed h = inserted (visible_in target committed) refl h
  where
    inserted :
        (found : Option CommittedOutput)
        → visible_in target committed ≡ found
        → visible_in asked
            (elim found [ some x ↦ committed | none ↦ insert_target target new committed ])
          ≡ some output
        → (visible_in asked committed ≡ some output)
          ⊎ ((target_eq target asked ≡ true) × (output ≡ new))
    inserted (some x) e k = inl k
    inserted none e k = ground (arith, visible_in-insert_target target asked new committed e, k)

pub publish-keeps :
    (writer : String) (outputs : List StagedOutput) (committed : Committed) (target : CommitTarget)
    (output : CommittedOutput)
    → visible_in target committed ≡ some output
    → visible_in target (publish writer outputs committed) ≡ some output
publish-keeps writer [] committed target output h = h
publish-keeps writer (x ∷ outputs) committed target output h =
    publish-keeps writer outputs (or_insert x.target (committed_output writer x) committed) target
      output (or_insert-keeps x.target target (committed_output writer x) output committed h)

-- An output for the target, with the hash, is in the list.
abbrev pub InStaged : CommitTarget → String → List StagedOutput → Type 0
InStaged target sha [] = ⊥
InStaged target sha (output ∷ rest) =
    ((target_eq output.target target ≡ true) × (output.content_sha256 ≡ sha))
    ⊎ InStaged target sha rest

pub InStaged-target_eq :
    (a b : CommitTarget) (sha : String) (outputs : List StagedOutput)
    → target_eq a b ≡ true
    → InStaged b sha outputs
    → InStaged a sha outputs
InStaged-target_eq a b sha [] h k = elim k [ ]
InStaged-target_eq a b sha (x ∷ outputs) h (inl (t, s)) =
    inl (target_eq_trans x.target b a t (target_eq-sym a b h), s)
InStaged-target_eq a b sha (x ∷ outputs) h (inr k) = inr (InStaged-target_eq a b sha outputs h k)

module _ (target : CommitTarget) (sha : String) where
  pub InStaged-append :
      (xs ys : List StagedOutput)
      → InStaged target sha (xs ++ ys)
      → InStaged target sha xs ⊎ InStaged target sha ys
  InStaged-append [] ys h = inr h
  InStaged-append (x ∷ xs) ys (inl h) = inl (inl h)
  InStaged-append (x ∷ xs) ys (inr h) = elim (InStaged-append xs ys h) [
    | inl k ↦ inl (inr k)
    | inr k ↦ inr k
  ]

  pub InStaged-left :
      (xs ys : List StagedOutput) → InStaged target sha xs → InStaged target sha (xs ++ ys)
  InStaged-left [] ys h = elim h [ ]
  InStaged-left (x ∷ xs) ys (inl h) = inl h
  InStaged-left (x ∷ xs) ys (inr h) = inr (InStaged-left xs ys h)

  pub InStaged-right :
      (xs ys : List StagedOutput) → InStaged target sha ys → InStaged target sha (xs ++ ys)
  InStaged-right [] ys h = h
  InStaged-right (x ∷ xs) ys h = inr (InStaged-right xs ys h)

  -- What a writer staged is among all that is staged.
  pub lookup-InStaged :
      (writer : String) (outputs : List StagedOutput) (staged : List (String × List StagedOutput))
      → lookup writer staged ≡ some outputs
      → InStaged target sha outputs
      → InStaged target sha (all_staged staged)
  unfolding lookup all_staged
  lookup-InStaged writer outputs [] h k = ground (arith, h)
  lookup-InStaged writer outputs ((here, others) ∷ rest) h k =
      found (str_eq here writer) (λ e. lookup-InStaged writer outputs rest e k) h
    where
      found :
          (b : Bool)
          → (lookup writer rest ≡ some outputs → InStaged target sha (all_staged rest))
          → (if b then some others else lookup writer rest) ≡ some outputs
          → InStaged target sha (others ++ all_staged rest)
      found true later e =
          InStaged-left others (all_staged rest)
            (subst (λ o. InStaged target sha o) (some-injective outputs others (sym e)) k)
      found false later e = InStaged-right others (all_staged rest) (later e)

  pub remove-InStaged :
      (writer : String) (staged : List (String × List StagedOutput))
      → InStaged target sha (all_staged (remove writer staged))
      → InStaged target sha (all_staged staged)
  unfolding remove all_staged
  remove-InStaged writer [] h = h
  remove-InStaged writer ((here, outputs) ∷ rest) h =
      kept (str_eq here writer) (remove-InStaged writer rest) h
    where
      kept :
          (b : Bool)
          → (InStaged target sha (all_staged (remove writer rest))
              → InStaged target sha (all_staged rest))
          → InStaged target sha
              (all_staged (if b then remove writer rest else (here, outputs) ∷ remove writer rest))
          → InStaged target sha (outputs ++ all_staged rest)
      kept true later k = InStaged-right outputs (all_staged rest) (later k)
      kept false later k = elim (InStaged-append outputs (all_staged (remove writer rest)) k) [
        | inl l ↦ InStaged-left outputs (all_staged rest) l
        | inr l ↦ InStaged-right outputs (all_staged rest) (later l)
      ]

  pub insert-InStaged :
      (writer : String) (new : List StagedOutput) (staged : List (String × List StagedOutput))
      → InStaged target sha (all_staged (insert writer new staged))
      → InStaged target sha new ⊎ InStaged target sha (all_staged staged)
  unfolding insert all_staged
  insert-InStaged writer new [] h = InStaged-append new [] h
  insert-InStaged writer new ((here, outputs) ∷ rest) h =
      joined (str_eq here writer) (str_ltb writer here) (insert-InStaged writer new rest) h
    where
      joined :
          (b c : Bool)
          → (InStaged target sha (all_staged (insert writer new rest))
              → InStaged target sha new ⊎ InStaged target sha (all_staged rest))
          → InStaged target sha (
              all_staged (
                if b
                then (writer, new) ∷ rest
                else if c
                then (writer, new) ∷ (here, outputs) ∷ rest
                else (here, outputs) ∷ insert writer new rest))
          → InStaged target sha new ⊎ InStaged target sha (outputs ++ all_staged rest)
      joined true c later k = elim (InStaged-append new (all_staged rest) k) [
        | inl l ↦ inl l
        | inr l ↦ inr (InStaged-right outputs (all_staged rest) l)
      ]
      joined false true later k = InStaged-append new (outputs ++ all_staged rest) k
      joined false false later k =
          elim (InStaged-append outputs (all_staged (insert writer new rest)) k) [
            | inl l ↦ inr (InStaged-left outputs (all_staged rest) l)
            | inr l ↦ elim (later l) [
              | inl m ↦ inl m
              | inr m ↦ inr (InStaged-right outputs (all_staged rest) m)
            ]
          ]

  -- What is published was visible, or is one of the outputs.
  pub publish-cases :
      (writer : String) (outputs : List StagedOutput) (committed : Committed)
      (output : CommittedOutput)
      → visible_in target (publish writer outputs committed) ≡ some output
      → output.content_sha256 ≡ sha
      → (visible_in target committed ≡ some output) ⊎ InStaged target sha outputs
  publish-cases writer [] committed output h e = inl h
  publish-cases writer (x ∷ outputs) committed output h e =
      elim (publish-cases writer outputs (or_insert x.target (committed_output writer x) committed)
        output h e) [
          | inr later ↦ inr (inr later)
          | inl seen ↦
              elim (or_insert-cases x.target target (committed_output writer x) output committed
                seen) [
                  | inl before ↦ inl before
                  | inr (at, same) ↦
                      inr (inl (at, ap (λ (o : CommittedOutput). o.content_sha256) (sym same) ∙ e))
                ]
        ]

  pub staged_sha-none :
      (outputs : List StagedOutput)
      → staged_sha target outputs ≡ none
      → InStaged target sha outputs
      → ⊥
  unfolding staged_sha
  staged_sha-none [] h k = elim k [ ]
  staged_sha-none (x ∷ outputs) h (inl k) = ground (arith, h, k)
  staged_sha-none (x ∷ outputs) h (inr k) = staged_sha-none outputs (ground (arith, h)) k

  pub staged_sha-some :
      (outputs : List StagedOutput)
      → staged_sha target outputs ≡ some sha
      → InStaged target sha outputs
  unfolding staged_sha
  staged_sha-some [] h = ground (arith, h)
  staged_sha-some (x ∷ outputs) h = elim (Bool-cases (target_eq x.target target)) [
    | inl e ↦ inl (e, ground (arith, h, e))
    | inr e ↦ inr (staged_sha-some outputs (ground (arith, h, e)))
  ]
