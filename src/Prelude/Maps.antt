-- ===== src/Prelude/Maps.antt =====
-- `BTreeMap<String, V>` as an association list in key order, and `BTreeMap` and `BTreeSet` over
-- numbers, where only membership is used, as functions.
use Prim.Native.Nat.{Ordering}
use Prim.Native.String.{String, compare}
use mathlib.Core.Path.{◌≡◌, refl, subst}
use mathlib.Core.Logic.{◌⊎◌, inl, inr}
use mathlib.Core.Bool.{Bool, true, false, ◌||◌}
use mathlib.Core.Option.{Option, none, some}
use mathlib.Core.List.{List, [], ◌∷◌}
use Prim.Native.Nat.{ℕ, ◌+◌, ◌≤◌}
use native.Mathlib.Omega.{arith}
use text.Mathlib.Text.{◌==◌}
use text.Mathlib.TextEquality.{eq_iff}
use laminaria_rust_nim_toolc.Prelude.Tests.{if◌then◌else◌, Bool-cases}
use laminaria_rust_nim_toolc.Prelude.Lists.{any, All}

abbrev pub str_ltb : String → String → Bool
str_ltb s t = elim (compare s t) [ Ordering.lt ↦ true | _ ↦ false ]

abbrev pub mem : String → List String → Bool
mem x xs = any (λ y. y == x) xs

pub mem-head : (x : String) (xs : List String) → mem x (x ∷ xs) ≡ true
mem-head x xs = ground (arith, eq_iff x x)

pub mem-tail : (x y : String) (xs : List String) → mem y xs ≡ true → mem y (x ∷ xs) ≡ true
mem-tail x y xs h = ground arith

-- An element joins an ordered `BTreeSet<String>`.
unfoldable pub set_insert : String → List String → List String
set_insert x [] = x ∷ []
set_insert x (y ∷ ys) =
    if y == x then y ∷ ys else if str_ltb x y then x ∷ y ∷ ys else y ∷ set_insert x ys

pub mem-set_insert :
    (x asked : String) (xs : List String)
    → mem asked (set_insert x xs) ≡ (x == asked || mem asked xs)
unfolding set_insert
mem-set_insert x asked [] = refl
mem-set_insert x asked (y ∷ ys) =
    ground (arith, eq_iff y x, eq_iff y asked, eq_iff x asked, mem-set_insert x asked ys)

-- What holds of all elements, and of each.
pub All-mem {κ} :
    (P : String → Type κ) (x : String) (xs : List String) → All P xs → mem x xs ≡ true → P x
All-mem P x [] h m = ground (arith, m)
All-mem P x (y ∷ xs) (h, k) m = elim (Bool-cases (y == x)) [
  | inl e ↦ subst P ((eq_iff y x).0 e) h
  | inr e ↦ All-mem P x xs k (ground (arith, e, m))
]

pub mem-All {κ} :
    (P : String → Type κ) (xs : List String) → ((x : String) → mem x xs ≡ true → P x) → All P xs
mem-All P [] h = tt
mem-All P (x ∷ xs) h = (h x (mem-head x xs), mem-All P xs (λ y m. h y (mem-tail x y xs m)))

module _ {ℓ} {V : Type ℓ} where
  unfoldable pub lookup : String → List (String × V) → Option V
  lookup key [] = none
  lookup key ((here, value) ∷ rest) = if here == key then some value else lookup key rest

  unfoldable pub insert : String → V → List (String × V) → List (String × V)
  insert key new [] = (key, new) ∷ []
  insert key new ((here, value) ∷ rest) =
      if here == key
      then (key, new) ∷ rest
      else if str_ltb key here
      then (key, new) ∷ (here, value) ∷ rest
      else (here, value) ∷ insert key new rest

  pub lookup-insert :
      (key asked : String) (new : V) (entries : List (String × V))
      → lookup asked (insert key new entries)
        ≡ (if key == asked then some new else lookup asked entries)
  unfolding lookup insert
  lookup-insert key asked new [] = refl
  lookup-insert key asked new ((here, value) ∷ rest) = ground (
    arith,
    eq_iff key asked,
    eq_iff here key,
    eq_iff here asked,
    lookup-insert key asked new rest,
  )

  -- What is found after an insertion is the new value, or was found before.
  pub lookup-insert-cases :
      (key asked : String) (new value : V) (entries : List (String × V))
      → lookup asked (insert key new entries) ≡ some value
      → (value ≡ new) ⊎ (lookup asked entries ≡ some value)
  lookup-insert-cases key asked new value entries h =
      ground (arith, lookup-insert key asked new entries)

  abbrev pub keys : List (String × V) → List String
  keys [] = []
  keys ((here, value) ∷ rest) = here ∷ keys rest

  -- The value of a key that is there changes, through `get_mut`.
  unfoldable pub replace : String → V → List (String × V) → List (String × V)
  replace key new [] = []
  replace key new ((here, value) ∷ rest) =
      if here == key then (here, new) ∷ rest else (here, value) ∷ replace key new rest

  unfoldable pub remove : String → List (String × V) → List (String × V)
  remove key [] = []
  remove key ((here, value) ∷ rest) =
      let left = remove key rest in if here == key then left else (here, value) ∷ left

  pub lookup-replace :
      (key asked : String) (old new : V) (entries : List (String × V))
      → lookup key entries ≡ some old
      → lookup asked (replace key new entries)
        ≡ (if key == asked then some new else lookup asked entries)
  unfolding lookup replace
  lookup-replace key asked old new [] h = ground arith
  lookup-replace key asked old new ((here, value) ∷ rest) h = ground (
    arith,
    eq_iff key asked,
    eq_iff here key,
    eq_iff here asked,
    lookup-replace key asked old new rest,
  )

  -- What a replaced map holds is the new value under its key, or what it held.
  pub lookup-replace-cases :
      (key asked : String) (old new value : V) (entries : List (String × V))
      → lookup key entries ≡ some old
      → lookup asked (replace key new entries) ≡ some value
      → ((asked ≡ key) × (value ≡ new))
        ⊎ (((key == asked) ≡ false) × (lookup asked entries ≡ some value))
  lookup-replace-cases key asked old new value entries h e =
      ground (arith, eq_iff key asked, lookup-replace key asked old new entries h)

  pub replace-lookup-cases :
      (key asked : String) (old new value : V) (entries : List (String × V))
      → lookup key entries ≡ some old
      → lookup asked entries ≡ some value
      → (lookup asked (replace key new entries) ≡ some new) × (value ≡ old)
        ⊎ (lookup asked (replace key new entries) ≡ some value)
  replace-lookup-cases key asked old new value entries h e =
      ground (arith, eq_iff key asked, lookup-replace key asked old new entries h)

  pub lookup-remove :
      (key asked : String) (entries : List (String × V))
      → lookup asked (remove key entries) ≡ (if key == asked then none else lookup asked entries)
  unfolding lookup remove
  lookup-remove key asked [] = ground arith
  lookup-remove key asked ((here, value) ∷ rest) =
      ground
        (arith, eq_iff key asked, eq_iff here key, eq_iff here asked, lookup-remove key asked rest)

  pub keys-replace :
      (key : String) (new : V) (entries : List (String × V))
      → keys (replace key new entries) ≡ keys entries
  unfolding replace
  keys-replace key new [] = refl
  keys-replace key new ((here, value) ∷ rest) = ground (arith, keys-replace key new rest)

  found_key :
      (b : Bool) (value : V) (key : String) (rest : List (String × V))
      → (mem key (keys rest) ≡ true → (v : V) × (lookup key rest ≡ some v))
      → (b || mem key (keys rest)) ≡ true
      → (v : V) × ((if b then some value else lookup key rest) ≡ some v)
  found_key true value key rest later h = (value, refl)
  found_key false value key rest later h = later h

  pub mem-keys :
      (key : String) (entries : List (String × V))
      → mem key (keys entries) ≡ true
      → (value : V) × (lookup key entries ≡ some value)
  unfolding lookup
  mem-keys key [] h = ground arith
  mem-keys key ((here, value) ∷ rest) h =
      found_key (here == key) value key rest (mem-keys key rest) h

  pub lookup-keys :
      (key : String) (value : V) (entries : List (String × V))
      → lookup key entries ≡ some value
      → mem key (keys entries) ≡ true
  unfolding lookup
  lookup-keys key value [] h = ground arith
  lookup-keys key value ((here, v) ∷ rest) h = ground (arith, lookup-keys key value rest)

  -- The sum of a measure over the values.
  abbrev pub sum_by : (V → ℕ) → List (String × V) → ℕ
  sum_by weight [] = 0
  sum_by weight ((here, value) ∷ rest) = weight value + sum_by weight rest

  pub sum_by-replace :
      (weight : V → ℕ) (key : String) (old new : V) (entries : List (String × V))
      → lookup key entries ≡ some old
      → sum_by weight (replace key new entries) + weight old ≡ sum_by weight entries + weight new
  unfolding lookup replace
  sum_by-replace weight key old new [] h = ground arith
  sum_by-replace weight key old new ((here, value) ∷ rest) h =
      ground (arith, sum_by-replace weight key old new rest)

  pub lookup-sum_by :
      (weight : V → ℕ) (key : String) (value : V) (entries : List (String × V))
      → lookup key entries ≡ some value
      → weight value ≤ sum_by weight entries
  unfolding lookup
  lookup-sum_by weight key value [] h = ground arith
  lookup-sum_by weight key value ((here, v) ∷ rest) h =
      ground (arith, lookup-sum_by weight key value rest)

  pub sum_by-insert :
      (weight : V → ℕ) (key : String) (new : V) (entries : List (String × V))
      → sum_by weight (insert key new entries) ≤ weight new + sum_by weight entries
  unfolding insert
  sum_by-insert weight key new [] = omega arith
  sum_by-insert weight key new ((here, value) ∷ rest) =
      ground (arith, sum_by-insert weight key new rest)
