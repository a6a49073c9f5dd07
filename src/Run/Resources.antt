-- ===== src/Run/Resources.antt =====
-- crates/laminaria-run/src/resource_scheduler.rs: amounts of resources. `u32` and `u64` sums are
-- checked against 2^32 and 2^64.
use laminaria_rust_nim_toolc.Prelude.{
  ℕ, ◌+◌, ◌-◌, ◌<◌, ◌≤◌, ◌≡◌, refl, ◌↔◌, Bool, true, ◌&&◌, Option, none, some, if◌then◌else◌, leb,
  ltb, ◌==◌, arith,
}

pub record ResourceAmount : Type 0 where
  pub cpu_slots : ℕ
  pub memory_bytes : ℕ
  pub io_slots : ℕ
  pub external_process_slots : ℕ

abbrev pub no_resources : ResourceAmount
no_resources = record { cpu_slots = 0; memory_bytes = 0; io_slots = 0; external_process_slots = 0 }

infixl 5 ◌>>=◌
abbrev ◌>>=◌ : {A B : Type 0} → Option A → (A → Option B) → Option B
none >>= f = none
some a >>= f = f a

abbrev checked_sum : (limit a b : ℕ) → Option ℕ
checked_sum limit a b = if ltb (a + b) limit then some (a + b) else none

abbrev checked_difference : (a b : ℕ) → Option ℕ
checked_difference a b = if leb b a then some (a - b) else none

abbrev pub u32_limit : ℕ
u32_limit = 0x100000000

abbrev pub u64_limit : ℕ
u64_limit = 0x10000000000000000

unfoldable pub checked_add : ResourceAmount → ResourceAmount → Option ResourceAmount
checked_add a b = do
  cpu ← checked_sum u32_limit a.cpu_slots b.cpu_slots
  memory ← checked_sum u64_limit a.memory_bytes b.memory_bytes
  io ← checked_sum u32_limit a.io_slots b.io_slots
  external ← checked_sum u32_limit a.external_process_slots b.external_process_slots
  some (record {
    cpu_slots = cpu;
    memory_bytes = memory;
    io_slots = io;
    external_process_slots = external;
  })

unfoldable pub checked_sub : ResourceAmount → ResourceAmount → Option ResourceAmount
checked_sub a b = do
  cpu ← checked_difference a.cpu_slots b.cpu_slots
  memory ← checked_difference a.memory_bytes b.memory_bytes
  io ← checked_difference a.io_slots b.io_slots
  external ← checked_difference a.external_process_slots b.external_process_slots
  some (record {
    cpu_slots = cpu;
    memory_bytes = memory;
    io_slots = io;
    external_process_slots = external;
  })

unfoldable pub fits_within : ResourceAmount → ResourceAmount → Bool
fits_within a limit =
    leb a.cpu_slots limit.cpu_slots
    && leb a.memory_bytes limit.memory_bytes
    && leb a.io_slots limit.io_slots
    && leb a.external_process_slots limit.external_process_slots

pub record ResourceDeficit : Type 0 where
  pub cpu_slots : ℕ
  pub memory_bytes : ℕ
  pub io_slots : ℕ
  pub external_process_slots : ℕ

-- `saturating_sub` stops at 0, as subtraction on ℕ does.
abbrev pub between : ResourceAmount → ResourceAmount → ResourceDeficit
between request available = record {
  cpu_slots = request.cpu_slots - available.cpu_slots;
  memory_bytes = request.memory_bytes - available.memory_bytes;
  io_slots = request.io_slots - available.io_slots;
  external_process_slots = request.external_process_slots - available.external_process_slots;
}

abbrev pub deficit_eq : ResourceDeficit → ResourceDeficit → Bool
deficit_eq a b =
    a.cpu_slots == b.cpu_slots
    && a.memory_bytes == b.memory_bytes
    && a.io_slots == b.io_slots
    && a.external_process_slots == b.external_process_slots

-- One of the four quantities, and its part of an amount.
pub data Resource : Type 0 where
  cpu memory io external : Resource

abbrev pub amount : Resource → ResourceAmount → ℕ
amount cpu a = a.cpu_slots
amount memory a = a.memory_bytes
amount io a = a.io_slots
amount external a = a.external_process_slots

abbrev pub limit_of : Resource → ℕ
limit_of cpu = u32_limit
limit_of memory = u64_limit
limit_of io = u32_limit
limit_of external = u32_limit

-- An amount that the four fields can hold.
abbrev pub IsAmount : ResourceAmount → Type 0
IsAmount a = (r : Resource) → amount r a < limit_of r

-- Every quantity of the first is at most that of the second.
abbrev pub Within : ResourceAmount → ResourceAmount → Type 0
Within a b = (r : Resource) → amount r a ≤ amount r b

fits_within-Within : (a b : ResourceAmount) → fits_within a b ≡ true → Within a b
unfolding fits_within
fits_within-Within a b h cpu = ground arith
fits_within-Within a b h memory = ground arith
fits_within-Within a b h io = ground arith
fits_within-Within a b h external = ground arith

-- The test is that every quantity fits.
pub fits_within_iff : (a b : ResourceAmount) → (fits_within a b ≡ true) ↔ Within a b
unfolding fits_within
fits_within_iff a b =
    (fits_within-Within a b, λ w. ground (arith, w cpu, w memory, w io, w external))

-- Field by field, a smaller amount can be taken away.
pub checked_sub-Within :
    (a b : ResourceAmount)
    → Within b a
    → (c : ResourceAmount) × (checked_sub a b ≡ some c)
      × ((r : Resource) → amount r c + amount r b ≡ amount r a)
unfolding checked_sub
checked_sub-Within a b h = (
  record {
    cpu_slots = a.cpu_slots - b.cpu_slots;
    memory_bytes = a.memory_bytes - b.memory_bytes;
    io_slots = a.io_slots - b.io_slots;
    external_process_slots = a.external_process_slots - b.external_process_slots;
  },
  ground (arith, h cpu, h memory, h io, h external),
  left,
)
  where
    left :
        (r : Resource)
        → amount r (record {
          cpu_slots = a.cpu_slots - b.cpu_slots;
          memory_bytes = a.memory_bytes - b.memory_bytes;
          io_slots = a.io_slots - b.io_slots;
          external_process_slots = a.external_process_slots - b.external_process_slots;
        })
            + amount r b
          ≡ amount r a
    left cpu = omega (arith, h cpu)
    left memory = omega (arith, h memory)
    left io = omega (arith, h io)
    left external = omega (arith, h external)

-- A sum that the fields can hold is computed.
pub checked_add-IsAmount :
    (a b : ResourceAmount)
    → ((r : Resource) → amount r a + amount r b < limit_of r)
    → (c : ResourceAmount) × (checked_add a b ≡ some c)
      × ((r : Resource) → amount r c ≡ amount r a + amount r b)
unfolding checked_add
checked_add-IsAmount a b h = (
  record {
    cpu_slots = a.cpu_slots + b.cpu_slots;
    memory_bytes = a.memory_bytes + b.memory_bytes;
    io_slots = a.io_slots + b.io_slots;
    external_process_slots = a.external_process_slots + b.external_process_slots;
  },
  ground (arith, h cpu, h memory, h io, h external),
  whole,
)
  where
    whole :
        (r : Resource)
        → amount r (record {
          cpu_slots = a.cpu_slots + b.cpu_slots;
          memory_bytes = a.memory_bytes + b.memory_bytes;
          io_slots = a.io_slots + b.io_slots;
          external_process_slots = a.external_process_slots + b.external_process_slots;
        })
          ≡ amount r a + amount r b
    whole cpu = refl
    whole memory = refl
    whole io = refl
    whole external = refl
