-- ===== src/Prelude/Int.antt =====
-- Python's unbounded signed integers over the native numbers: sums, orders, and the bitwise
-- operators of an infinite two's complement (`&`, `|`, `~`).
use Prim.Native.Nat.{ℕ, zero, suc, ◌+◌, ◌-◌, ◌*◌, ◌/◌, ◌≤◌, bit_and, bit_or, bit_xor}
use mathlib.Core.Path.{◌≡◌}
use mathlib.Core.Bool.{Bool, false}
use native.Mathlib.Omega.{arith}
use min_cpu_forth.Prelude.Tests.{ltb, leb, ◌==◌, if◌then◌else◌}

-- `negsuc n` is -(n + 1).
pub data ℤ : Type 0 where
  pos : ℕ → ℤ
  negsuc : ℕ → ℤ

abbrev pub pos_part : ℤ → ℕ
pos_part (pos n) = n
pos_part (negsuc n) = 0

abbrev pub neg_part : ℤ → ℕ
neg_part (pos n) = 0
neg_part (negsuc n) = suc n

-- a - b, as an integer.
abbrev pub sub_ℕ : ℕ → ℕ → ℤ
sub_ℕ a b = if leb b a then pos (a - b) else negsuc (b - a - 1)

infixl 65 ◌+ℤ◌ ◌-ℤ◌
infixl 70 ◌*ℤ◌
infix 50 ◌≤ℤ◌
unfoldable pub ◌+ℤ◌ : ℤ → ℤ → ℤ
a +ℤ b = sub_ℕ (pos_part a + pos_part b) (neg_part a + neg_part b)

unfoldable pub ◌-ℤ◌ : ℤ → ℤ → ℤ
a -ℤ b = sub_ℕ (pos_part a + neg_part b) (neg_part a + pos_part b)

unfoldable pub ◌*ℤ◌ : ℤ → ℤ → ℤ
a *ℤ b =
    sub_ℕ (pos_part a * pos_part b + neg_part a * neg_part b)
      (pos_part a * neg_part b + neg_part a * pos_part b)

abbrev pub ◌≤ℤ◌ : ℤ → ℤ → Type 0
a ≤ℤ b = pos_part a + neg_part b ≤ pos_part b + neg_part a

abbrev pub leb_ℤ : ℤ → ℤ → Bool
leb_ℤ a b = leb (pos_part a + neg_part b) (pos_part b + neg_part a)

abbrev pub ltb_ℤ : ℤ → ℤ → Bool
ltb_ℤ a b = ltb (pos_part a + neg_part b) (pos_part b + neg_part a)

abbrev pub eqb_ℤ : ℤ → ℤ → Bool
eqb_ℤ a b = (pos_part a + neg_part b) == (pos_part b + neg_part a)

-- `a & ~b` on numbers.
abbrev bit_clear : ℕ → ℕ → ℕ
bit_clear a b = bit_xor a (bit_and a b)

-- `~a`
unfoldable pub invert : ℤ → ℤ
invert (pos n) = negsuc n
invert (negsuc n) = pos n

-- `a & b`
unfoldable pub and_ℤ : ℤ → ℤ → ℤ
and_ℤ (pos a) (pos b) = pos (bit_and a b)
and_ℤ (pos a) (negsuc b) = pos (bit_clear a b)
and_ℤ (negsuc a) (pos b) = pos (bit_clear b a)
and_ℤ (negsuc a) (negsuc b) = negsuc (bit_or a b)

-- `a | b`
unfoldable pub or_ℤ : ℤ → ℤ → ℤ
or_ℤ (pos a) (pos b) = pos (bit_or a b)
or_ℤ (pos a) (negsuc b) = negsuc (bit_clear b a)
or_ℤ (negsuc a) (pos b) = negsuc (bit_clear a b)
or_ℤ (negsuc a) (negsuc b) = negsuc (bit_and a b)

pub +ℤ_parts :
    (a b : ℤ)
    → pos_part (a +ℤ b) + neg_part a + neg_part b ≡ neg_part (a +ℤ b) + pos_part a + pos_part b
unfolding ◌+ℤ◌
+ℤ_parts a b = ground arith

pub -ℤ_parts :
    (a b : ℤ)
    → pos_part (a -ℤ b) + neg_part a + pos_part b ≡ neg_part (a -ℤ b) + pos_part a + neg_part b
unfolding ◌-ℤ◌
-ℤ_parts a b = ground arith

pub eq_of_parts : (a b : ℤ) → pos_part a + neg_part b ≡ pos_part b + neg_part a → a ≡ b
eq_of_parts a b h = ground arith

pub ruleset int_laws = (arith, +ℤ_parts, -ℤ_parts, eq_of_parts)

-- A difference of an integer with itself is 0, and adding to 0 changes nothing: what `SET` and
-- `MOV` rest on.
pub -ℤ_self : (a : ℤ) → a -ℤ a ≡ pos 0
-ℤ_self a = omega int_laws

pub zero_+ℤ : (a : ℤ) → pos 0 +ℤ a ≡ a
zero_+ℤ a = omega int_laws

-- What `SET` leaves in a register that held `z`.
pub set_value : (z n : ℤ) → z -ℤ z +ℤ n ≡ n
set_value z n = omega int_laws

pub *ℤ-suc : (y : ℤ) (m : ℕ) → y +ℤ y *ℤ pos m ≡ y *ℤ pos (suc m)
unfolding ◌*ℤ◌ ◌+ℤ◌
*ℤ-suc (pos n) m = ground arith
*ℤ-suc (negsuc n) m = ground arith

pub *ℤ-zero : (y : ℤ) → y *ℤ pos 0 ≡ pos 0
unfolding ◌*ℤ◌
*ℤ-zero y = ground arith

pub +ℤ_assoc : (a b c : ℤ) → a +ℤ b +ℤ c ≡ a +ℤ (b +ℤ c)
+ℤ_assoc a b c = omega int_laws

pub +ℤ_zero : (a : ℤ) → a +ℤ pos 0 ≡ a
+ℤ_zero a = omega int_laws

pub suc-pred : (m : ℕ) → pos (suc m) -ℤ pos 1 ≡ pos m
suc-pred m = omega int_laws

pub eqb_suc : (m : ℕ) → eqb_ℤ (pos (suc m)) (pos 0) ≡ false
eqb_suc m = ground arith

pub eqb_negsuc : (m : ℕ) → eqb_ℤ (negsuc m) (pos 0) ≡ false
eqb_negsuc m = ground arith

-- Python's `//`, which rounds down; the divisor is not 0.
unfoldable pub floor_div : ℤ → ℤ → ℤ
floor_div (pos a) (pos b) = pos (a / b)
floor_div (negsuc a) (pos b) = negsuc (a / b)
floor_div (pos zero) (negsuc b) = pos 0
floor_div (pos (suc a)) (negsuc b) = negsuc (a / suc b)
floor_div (negsuc a) (negsuc b) = pos (suc a / suc b)

-- Python's `%`: what `//` leaves, with the sign of the divisor.
unfoldable pub floor_mod : ℤ → ℤ → ℤ
unfolding floor_div ◌-ℤ◌ ◌*ℤ◌
floor_mod a b = a -ℤ b *ℤ floor_div a b

unfoldable pub abs : ℤ → ℤ
abs (pos n) = pos n
abs (negsuc n) = pos (suc n)

pub *ℤ_parts :
    (a : ℤ) (k : ℕ)
    → pos_part (a *ℤ pos k) + neg_part a * k ≡ neg_part (a *ℤ pos k) + pos_part a * k
unfolding ◌*ℤ◌
*ℤ_parts a k = ground arith

-- What `MOV` and `SUB` of two values leave is 0 where the values are equal.
pub difference : (t c d : ℤ) → eqb_ℤ (t -ℤ t +ℤ c -ℤ d) (pos 0) ≡ eqb_ℤ c d
difference t c d = ground (arith, set_value t c, -ℤ_parts (t -ℤ t +ℤ c) d)
