-- ===== src/Kernel/Words/ArithmeticWords.antt =====
-- services/kernel/routines.py: the arithmetic and bitwise words.
use min_cpu_forth.Prelude.{
  ℕ, suc, ◌+◌, ◌≡◌, refl, Bool, true, false, List, ◌∷◌, subst, ap, ◌∙◌, arith, if◌then◌else◌,
}
use min_cpu_forth.Prelude.Int.{
  ℤ, pos, negsuc, ◌+ℤ◌, ◌-ℤ◌, and_ℤ, or_ℤ, invert, abs, -ℤ_self, int_laws, ltb_ℤ,
}
use min_cpu_forth.Registers
use min_cpu_forth.Registers.{RegisterFile}
use min_cpu_forth.Emulator.Spec.{ticks}
use min_cpu_forth.Kernel.Program.{listing}
use min_cpu_forth.Kernel.Words.{World, data_is, Does, DoesIn, runs_to, then_does, on_kernel}

module _ (registers : RegisterFile) (v : World) where
  -- ( a b -- a+b )
  pub plus-Does :
      (a b : ℤ) (xs : List ℤ) (k : ℕ)
      → Does (pos 60) 5 registers (data_is v (b ∷ a ∷ xs) k) (data_is v ((a +ℤ b) ∷ xs) (suc k))
  unfolding ticks Registers.write
  plus-Does a b xs k = on_kernel (runs_to refl (refl, refl, refl))

  -- ( a b -- a-b )
  pub minus-Does :
      (a b : ℤ) (xs : List ℤ) (k : ℕ)
      → Does (pos 65) 5 registers (data_is v (b ∷ a ∷ xs) k) (data_is v ((a -ℤ b) ∷ xs) (suc k))
  unfolding ticks Registers.write
  minus-Does a b xs k = on_kernel (runs_to refl (refl, refl, refl))

  -- ( a -- a+1 )
  pub one_plus-Does :
      (a : ℤ) (xs : List ℤ) (k : ℕ)
      → Does (pos 94) 4 registers (data_is v (a ∷ xs) k) (data_is v ((a +ℤ pos 1) ∷ xs) k)
  unfolding ticks Registers.write
  one_plus-Does a xs k = on_kernel (runs_to refl (refl, refl, refl))

  -- ( a -- a-1 )
  pub one_minus-Does :
      (a : ℤ) (xs : List ℤ) (k : ℕ)
      → Does (pos 98) 4 registers (data_is v (a ∷ xs) k) (data_is v ((a -ℤ pos 1) ∷ xs) k)
  unfolding ticks Registers.write
  one_minus-Does a xs k = on_kernel (runs_to refl (refl, refl, refl))

  -- ( a b -- a&b )
  pub bit_and-Does :
      (a b : ℤ) (xs : List ℤ) (k : ℕ)
      → Does (pos 196) 5 registers (data_is v (b ∷ a ∷ xs) k) (data_is v (and_ℤ a b ∷ xs) (suc k))
  unfolding ticks Registers.write
  bit_and-Does a b xs k = on_kernel (runs_to refl (refl, refl, refl))

  -- ( a b -- a|b )
  pub bit_or-Does :
      (a b : ℤ) (xs : List ℤ) (k : ℕ)
      → Does (pos 201) 5 registers (data_is v (b ∷ a ∷ xs) k) (data_is v (or_ℤ a b ∷ xs) (suc k))
  unfolding ticks Registers.write
  bit_or-Does a b xs k = on_kernel (runs_to refl (refl, refl, refl))

  -- ( a -- ~a )
  pub bit_invert-Does :
      (a : ℤ) (xs : List ℤ) (k : ℕ)
      → Does (pos 206) 4 registers (data_is v (a ∷ xs) k) (data_is v (invert a ∷ xs) k)
  unfolding ticks Registers.write
  bit_invert-Does a xs k = on_kernel (runs_to refl (refl, refl, refl))

  -- ( a -- -a ), as 0 - a: `Y` is cleared first, whatever it held.
  pub negate-Does :
      (a : ℤ) (xs : List ℤ) (k : ℕ)
      → Does (pos 81) 5 registers (data_is v (a ∷ xs) k) (data_is v ((pos 0 -ℤ a) ∷ xs) k)
  unfolding ticks Registers.write
  negate-Does a xs k =
      subst (λ z. Does (pos 81) 5 registers (data_is v (a ∷ xs) k) (data_is v ((z -ℤ a) ∷ xs) k))
        (-ℤ_self (registers "Y")) (on_kernel (runs_to refl (refl, refl, refl)))

  abs_tail :
      (a : ℤ) (xs : List ℤ) (k : ℕ) (t : Bool)
      → registers "X" ≡ a
      → DoesIn listing
          (if t then pos 90 else pos 88)
          (if t then 4 else 2)
          registers
          (data_is v xs (suc k))
          (data_is v ((if t then pos 0 -ℤ a else a) ∷ xs) k)
  unfolding ticks Registers.write
  abs_tail a xs k true e =
      subst (λ z. DoesIn listing (pos 90) 4 registers (data_is v xs (suc k)) (data_is v (z ∷ xs) k))
        (ap (λ z. z -ℤ registers "X") (-ℤ_self (registers "Y")) ∙ ap (λ z. pos 0 -ℤ z) e)
        (runs_to refl (refl, refl, refl))
  abs_tail a xs k false e =
      subst (λ z. DoesIn listing (pos 88) 2 registers (data_is v xs (suc k)) (data_is v (z ∷ xs) k))
        e (runs_to {registers' = registers} refl (refl, refl, refl))

minus_negsuc : (n : ℕ) → pos 0 -ℤ negsuc n ≡ pos (suc n)
minus_negsuc n = omega int_laws

abs-ltb : (a : ℤ) → (if ltb_ℤ a (pos 0) then pos 0 -ℤ a else a) ≡ abs a
unfolding abs
abs-ltb (pos n) = ground arith
abs-ltb (negsuc n) = ground (arith, minus_negsuc n)

-- ( a -- |a| ), in 6 steps for a negative number and in 4 for any other.
pub abs-Does :
    (registers : RegisterFile) (v : World) (a : ℤ) (xs : List ℤ) (k : ℕ)
    → Does
        (pos 86)
        (2 + (if ltb_ℤ a (pos 0) then 4 else 2))
        registers
        (data_is v (a ∷ xs) k)
        (data_is v (abs a ∷ xs) k)
unfolding ticks Registers.write
abs-Does registers v a xs k =
    subst
      (λ z.
        Does (pos 86) (2 + (if ltb_ℤ a (pos 0) then 4 else 2)) registers (data_is v (a ∷ xs) k)
          (data_is v (z ∷ xs) k))
      (abs-ltb a)
      (on_kernel (
        then_does 2 (if ltb_ℤ a (pos 0) then pos 90 else pos 88) (Registers.write registers "X" a)
          refl (refl, refl, refl)
          (abs_tail (Registers.write registers "X" a) v a xs k (ltb_ℤ a (pos 0)) refl)))
