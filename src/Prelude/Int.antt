-- ===== src/Prelude/Int.antt =====
-- Signed integers over the native numbers, and the 32-bit wrap-around of `i32` arithmetic.
use Prim.Native.Nat.{ℕ, suc, ◌+◌, ◌-◌, ◌*◌, ◌%◌, ◌<◌}
use mathlib.Core.Path.{◌≡◌, refl}
use mathlib.Core.Bool.{Bool, true}
use native.Mathlib.Omega.{arith}
use laminaria_rust_nim_toolc.Prelude.Tests.{leb, ltb, if◌then◌else◌}

-- `negsuc n` is -(n + 1).
pub data ℤ : Type 0 where
  pos : ℕ → ℤ
  negsuc : ℕ → ℤ

abbrev pub pos_part : ℤ → ℕ
pos_part (pos n) = n
pos_part (negsuc n) = 0

abbrev pub neg_part : ℤ → ℕ
neg_part (pos n) = 0
neg_part (negsuc n) = suc n

-- a - b, as an integer.
abbrev pub sub_ℕ : ℕ → ℕ → ℤ
sub_ℕ a b = if leb b a then pos (a - b) else negsuc (b - a - 1)

infixl 65 ◌+ℤ◌ ◌-ℤ◌
infixl 70 ◌*ℤ◌
unfoldable pub ◌+ℤ◌ : ℤ → ℤ → ℤ
a +ℤ b = sub_ℕ (pos_part a + pos_part b) (neg_part a + neg_part b)

unfoldable pub ◌-ℤ◌ : ℤ → ℤ → ℤ
a -ℤ b = sub_ℕ (pos_part a + neg_part b) (neg_part a + pos_part b)

unfoldable pub ◌*ℤ◌ : ℤ → ℤ → ℤ
a *ℤ b =
    sub_ℕ (pos_part a * pos_part b + neg_part a * neg_part b)
      (pos_part a * neg_part b + neg_part a * pos_part b)

-- `z != 0`
abbrev pub is_nonzero : ℤ → Bool
is_nonzero (pos n) = ltb 0 n
is_nonzero (negsuc n) = true

-- The values of an `i32`.
abbrev pub InI32 : ℤ → Type 0
InI32 (pos n) = n < 0x80000000
InI32 (negsuc n) = n < 0x80000000

-- `z as i32`: the residue modulo 2^32, read as a two's-complement number.
abbrev pub residue_32 : ℤ → ℕ
residue_32 (pos n) = n % 0x100000000
residue_32 (negsuc n) = 0xffffffff - n % 0x100000000

abbrev pub of_residue_32 : ℕ → ℤ
of_residue_32 r = if ltb r 0x80000000 then pos r else negsuc (0xffffffff - r)

unfoldable pub as_i32 : ℤ → ℤ
as_i32 z = of_residue_32 (residue_32 z)

residue_32_lt : (z : ℤ) → residue_32 z < 0x100000000
residue_32_lt (pos n) = omega arith
residue_32_lt (negsuc n) = omega arith

of_residue_32-InI32 : (r : ℕ) → r < 0x100000000 → InI32 (of_residue_32 r)
of_residue_32-InI32 r h = ground arith

pub as_i32-InI32 : (z : ℤ) → InI32 (as_i32 z)
unfolding as_i32
as_i32-InI32 z = of_residue_32-InI32 (residue_32 z) (residue_32_lt z)

-- A value of the type is its own cast.
pub as_i32_id : (z : ℤ) → InI32 z → as_i32 z ≡ z
unfolding as_i32
as_i32_id (pos n) h = ground arith
as_i32_id (negsuc n) h = ground arith

wraps : as_i32 (pos 0x7fffffff +ℤ pos 1) ≡ negsuc 0x7fffffff
unfolding as_i32 ◌+ℤ◌
wraps = refl
