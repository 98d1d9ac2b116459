-- ===== src/Common/Int.antt =====
-- Go's `int`: a signed integer of 64 bits, over a type of integers on the native numbers.
use Prim.Native.Nat.{ℕ, suc, ◌+◌, ◌-◌, ◌%◌, ◌^◌, ◌≤◌, ◌<◌}
use mathlib.Core.Path.{◌≡◌, ap}
use mathlib.Core.Bool.{Bool}
use native.Mathlib.Omega.{arith}
use auxot.Common.Tests.{ltb, leb, nat_beq, if◌then◌else◌}

-- `negsuc n` is -(n + 1).
pub data ℤ : Type 0 where
  pos : ℕ → ℤ
  negsuc : ℕ → ℤ

abbrev pub pos_part : ℤ → ℕ
pos_part (pos n) = n
pos_part (negsuc n) = 0

abbrev pub neg_part : ℤ → ℕ
neg_part (pos n) = 0
neg_part (negsuc n) = suc n

-- a - b, as an integer.
abbrev pub sub_ℕ : ℕ → ℕ → ℤ
sub_ℕ a b = if leb b a then pos (a - b) else negsuc (b - a - 1)

infixl 65 ◌+ℤ◌ ◌-ℤ◌
infix 50 ◌≤ℤ◌ ◌<ℤ◌
unfoldable pub ◌+ℤ◌ : ℤ → ℤ → ℤ
a +ℤ b = sub_ℕ (pos_part a + pos_part b) (neg_part a + neg_part b)

unfoldable pub ◌-ℤ◌ : ℤ → ℤ → ℤ
a -ℤ b = sub_ℕ (pos_part a + neg_part b) (neg_part a + pos_part b)

abbrev pub ◌≤ℤ◌ : ℤ → ℤ → Type 0
a ≤ℤ b = pos_part a + neg_part b ≤ pos_part b + neg_part a

abbrev pub ◌<ℤ◌ : ℤ → ℤ → Type 0
a <ℤ b = pos_part a + neg_part b < pos_part b + neg_part a

abbrev pub ltb_ℤ : ℤ → ℤ → Bool
ltb_ℤ a b = ltb (pos_part a + neg_part b) (pos_part b + neg_part a)

abbrev pub leb_ℤ : ℤ → ℤ → Bool
leb_ℤ a b = leb (pos_part a + neg_part b) (pos_part b + neg_part a)

abbrev pub beq_ℤ : ℤ → ℤ → Bool
beq_ℤ a b = nat_beq (pos_part a + neg_part b) (pos_part b + neg_part a)

pub +ℤ_parts :
    (a b : ℤ)
    → pos_part (a +ℤ b) + neg_part a + neg_part b ≡ neg_part (a +ℤ b) + pos_part a + pos_part b
unfolding ◌+ℤ◌
+ℤ_parts a b = ground arith

pub -ℤ_parts :
    (a b : ℤ)
    → pos_part (a -ℤ b) + neg_part a + pos_part b ≡ neg_part (a -ℤ b) + pos_part a + neg_part b
unfolding ◌-ℤ◌
-ℤ_parts a b = ground arith

pub eq_of_parts : (a b : ℤ) → pos_part a + neg_part b ≡ pos_part b + neg_part a → a ≡ b
eq_of_parts a b h = ground arith

-- An equation of integers, as `omega` reads it.
pub parts_of_eq : {a b : ℤ} → a ≡ b → pos_part a + neg_part b ≡ pos_part b + neg_part a
parts_of_eq {b = b} e = rw e

pub ruleset int_laws = (arith, +ℤ_parts, -ℤ_parts, eq_of_parts)

-- The 64 bits of an integer, and the signed value of 64 bits.
abbrev to_bits : ℤ → ℕ
to_bits z = (pos_part z + 2 ^ 64 - neg_part z % 2 ^ 64) % 2 ^ 64

abbrev from_bits : ℕ → ℤ
from_bits n = if ltb n (2 ^ 63) then pos n else negsuc (2 ^ 64 - 1 - n)

-- What an `int` holds after an operation whose exact result is `z`.
unfoldable pub wrap_int : ℤ → ℤ
wrap_int z = from_bits (to_bits z)

abbrev pub IsInt : ℤ → Type 0
IsInt z = (pos_part z < 2 ^ 63) × (neg_part z ≤ 2 ^ 63)

pub wrap_int-IsInt : (z : ℤ) → IsInt (wrap_int z)
unfolding wrap_int
wrap_int-IsInt z = ground arith

-- Nothing wraps in range.
pub wrap_int-of_IsInt : (z : ℤ) → IsInt z → wrap_int z ≡ z
unfolding wrap_int
wrap_int-of_IsInt (pos n) h = ground arith
wrap_int-of_IsInt (negsuc n) h = ground arith

to_bits-wrap_int : (z : ℤ) → to_bits (wrap_int z) ≡ to_bits z
unfolding wrap_int
to_bits-wrap_int z = ground arith

to_bits-+ℤ : (a b : ℤ) → to_bits (a +ℤ b) ≡ (to_bits a + to_bits b) % 2 ^ 64
to_bits-+ℤ a b = omega int_laws

-- Sums may be reduced at every step, or once at the end.
pub wrap_int-+ℤ : (a b : ℤ) → wrap_int (wrap_int a +ℤ wrap_int b) ≡ wrap_int (a +ℤ b)
unfolding wrap_int
wrap_int-+ℤ a b = ap from_bits (
    omega (
      arith,
      to_bits-+ℤ (wrap_int a) (wrap_int b),
      to_bits-+ℤ a b,
      to_bits-wrap_int a,
      to_bits-wrap_int b,
    ))

to_bits--ℤ : (a b : ℤ) → to_bits (a -ℤ b) ≡ (to_bits a + 2 ^ 64 - to_bits b) % 2 ^ 64
to_bits--ℤ a b = omega int_laws

pub wrap_int--ℤ : (a b : ℤ) → wrap_int (wrap_int a -ℤ wrap_int b) ≡ wrap_int (a -ℤ b)
unfolding wrap_int
wrap_int--ℤ a b = ap from_bits (
    omega (
      arith,
      to_bits--ℤ (wrap_int a) (wrap_int b),
      to_bits--ℤ a b,
      to_bits-wrap_int a,
      to_bits-wrap_int b,
    ))

-- The same with one side reduced.
pub wrap_int-+ℤ_left : (a b : ℤ) → wrap_int (wrap_int a +ℤ b) ≡ wrap_int (a +ℤ b)
unfolding wrap_int
wrap_int-+ℤ_left a b =
    ap from_bits (omega (arith, to_bits-+ℤ (wrap_int a) b, to_bits-+ℤ a b, to_bits-wrap_int a))
