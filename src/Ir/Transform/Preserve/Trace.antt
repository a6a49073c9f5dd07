-- ===== src/Ir/Transform/Preserve/Trace.antt =====
-- A trace as an observer of all functions but one sees it: no index, and no event of that function.
use mathlib.Core.Path.{ap₂}
use laminaria_rust_nim_toolc.Prelude.{
  ℕ, ◌+◌, ◌≡◌, refl, ap, ◌∙◌, ℤ, String, List, [], ◌∷◌, ◌++◌, append_assoc, Bool, true, str_eq,
  if◌then◌else◌, Bool-cases, inl, inr,
}
use laminaria_rust_nim_toolc.Ir.Interpreter.{CallEvent, renumber}

pub erase : String → List CallEvent → List (String × List ℤ)
erase hidden [] = []
erase hidden (e ∷ es) =
    let rest = erase hidden es in
    if str_eq e.fn_name hidden then rest else (e.fn_name, e.args) ∷ rest

pub erase-append :
    (hidden : String) (xs ys : List CallEvent)
    → erase hidden (xs ++ ys) ≡ erase hidden xs ++ erase hidden ys
unfolding erase
erase-append hidden [] ys = refl
erase-append hidden (x ∷ xs) ys = elim (Bool-cases (str_eq x.fn_name hidden)) [
  | inl same ↦ rw same (erase-append hidden xs ys)
  | inr other ↦ rw other (ap (λ l. (x.fn_name, x.args) ∷ l) (erase-append hidden xs ys))
]

pub erase-renumber :
    (hidden : String) (base : ℕ) (es : List CallEvent)
    → erase hidden (renumber base es) ≡ erase hidden es
unfolding erase renumber
erase-renumber hidden base [] = refl
erase-renumber hidden base (e ∷ es) = rw (erase-renumber hidden (base + 1) es)

-- What is seen of one call event.
abbrev pub seen : String → String → List ℤ → List (String × List ℤ)
seen hidden f vs = if str_eq f hidden then [] else (f, vs) ∷ []

abbrev pub call_event : String → List ℤ → ℕ → CallEvent
call_event f vs i = record { fn_name = f; args = vs; order_index = i }

one :
    (hidden f : String) (vs : List ℤ) (i : ℕ)
    → erase hidden (call_event f vs i ∷ []) ≡ seen hidden f vs
unfolding erase
one hidden f vs i = refl

-- A trace after a call: what was there, the call's own event and the callee's events.
pub erase_called :
    (hidden f : String) (vs : List ℤ) (i base : ℕ) (before events : List CallEvent)
    → erase hidden ((before ++ call_event f vs i ∷ []) ++ renumber base events)
      ≡ erase hidden before ++ (seen hidden f vs ++ erase hidden events)
erase_called hidden f vs i base before events =
    erase-append hidden (before ++ call_event f vs i ∷ []) (renumber base events)
    ∙ ap₂ (λ a b. a ++ b)
        (erase-append hidden before (call_event f vs i ∷ [])
          ∙ ap (λ l. erase hidden before ++ l) (one hidden f vs i))
        (erase-renumber hidden base events)
    ∙ append_assoc (erase hidden before) (seen hidden f vs) (erase hidden events)

-- A call of the hidden function shows only what the callee shows.
pub erase_called_hidden :
    (hidden f : String) (vs : List ℤ) (i base : ℕ) (before events : List CallEvent)
    → str_eq f hidden ≡ true
    → erase hidden ((before ++ call_event f vs i ∷ []) ++ renumber base events)
      ≡ erase hidden before ++ erase hidden events
erase_called_hidden hidden f vs i base before events same =
    erase_called hidden f vs i base before events
    ∙ ap
        (λ (b : Bool).
          erase hidden before ++ ((if b then [] else (f, vs) ∷ []) ++ erase hidden events))
        same

pub erase-nil : (hidden : String) → erase hidden [] ≡ []
unfolding erase
erase-nil hidden = refl
