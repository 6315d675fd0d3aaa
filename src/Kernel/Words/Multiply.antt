-- ===== src/Kernel/Words/Multiply.antt =====
-- services/kernel/routines.py: `*`, by repeated addition.
use min_cpu_forth.Prelude.{
  ℕ, zero, suc, ◌+◌, ◌*◌, ◌≡◌, refl, sym, ap, ◌∙◌, some, Bool, true, false, List, ◌∷◌, subst, arith,
  if◌then◌else◌,
}
use min_cpu_forth.Prelude.Int.{
  ℤ, pos, ◌+ℤ◌, ◌-ℤ◌, ◌*ℤ◌, eqb_ℤ, set_value, *ℤ-suc, *ℤ-zero, +ℤ_assoc, +ℤ_zero, suc-pred, -ℤ_self,
  zero_+ℤ, eqb_suc,
}
use min_cpu_forth.Registers
use min_cpu_forth.Registers.{RegisterFile}
use min_cpu_forth.Emulator.Spec.{ticks}
use min_cpu_forth.Kernel.Program.{listing}
use min_cpu_forth.Kernel.Words.{
  World, data_is, machine_at, Does, DoesIn, runs_to, then_does, on_kernel,
}

-- The registers after one round of the loop.
abbrev pub rounded : RegisterFile → RegisterFile
rounded r =
    Registers.write
      (Registers.write
        (Registers.write (Registers.write r "ACC" (r "ACC" +ℤ r "Y")) "X" (r "X" -ℤ pos 1)) "R"
        (r "R" -ℤ r "R"))
      "R" (r "R" -ℤ r "R" +ℤ pos 73)

module _ (v : World) (xs : List ℤ) (k : ℕ) where
  abbrev pub before : World
  before = data_is v xs (suc k)

  pub mul_test :
      (r : RegisterFile) (b : Bool)
      → eqb_ℤ (r "X") (pos 0) ≡ b
      → ticks listing 1 (machine_at (pos 73) r before)
        ≡ some (machine_at (if b then pos 79 else pos 74) r before)
  unfolding ticks
  mul_test r b e =
      subst
        (λ t.
          ticks listing 1 (machine_at (pos 73) r before)
          ≡ some (machine_at (if t then pos 79 else pos 74) r before))
        e refl

  pub mul_round :
      (r : RegisterFile)
      → ticks listing 5 (machine_at (pos 74) r before)
        ≡ some (machine_at (pos 73) (rounded r) before)
  unfolding ticks Registers.write
  mul_round r =
      subst
        (λ pc.
          ticks listing 5 (machine_at (pos 74) r before) ≡ some (machine_at pc (rounded r) before))
        (set_value (r "R") (pos 73)) refl

  mul_loop :
      (m : ℕ) (r : RegisterFile)
      → r "X" ≡ pos m
      → DoesIn listing
          (pos 73)
          (6 * m + 3)
          r
          before
          (data_is v ((r "ACC" +ℤ r "Y" *ℤ pos m) ∷ xs) k)
  unfolding ticks Registers.write
  mul_loop zero r hx =
      subst (λ z. DoesIn listing (pos 73) 3 r before (data_is v (z ∷ xs) k))
        (sym (ap (λ z. r "ACC" +ℤ z) (*ℤ-zero (r "Y")) ∙ +ℤ_zero (r "ACC")))
        (then_does {m = 2} 1 (pos 79) r (mul_test r true (ap (λ x. eqb_ℤ x (pos 0)) hx))
          (refl, refl, refl) (runs_to {registers' = r} refl (refl, refl, refl)))
  mul_loop (suc m) r hx =
      subst
        (λ n.
          DoesIn listing (pos 73) n r before (data_is v ((r "ACC" +ℤ r "Y" *ℤ pos (suc m)) ∷ xs) k))
        (steps m)
        (then_does 1 (pos 74) r (mul_test r false (ap (λ x. eqb_ℤ x (pos 0)) hx ∙ eqb_suc m))
          (refl, refl, refl)
          (then_does 5 (pos 73) (rounded r) (mul_round r) (refl, refl, refl)
            (subst
              (λ z. DoesIn listing (pos 73) (6 * m + 3) (rounded r) before (data_is v (z ∷ xs) k))
              (+ℤ_assoc (r "ACC") (r "Y") (r "Y" *ℤ pos m)
                ∙ ap (λ z. r "ACC" +ℤ z) (*ℤ-suc (r "Y") m))
              (mul_loop m (rounded r) (ap (λ x. x -ℤ pos 1) hx ∙ suc-pred m)))))
    where
      steps : (m : ℕ) → 1 + (5 + (6 * m + 3)) ≡ 6 * suc m + 3
      steps m = omega arith

-- `*`: for a multiplier m of 0 or more on top of the stack, the two top items are replaced by their
-- product, in 6 m + 6 steps. `ACC` is cleared first, whatever it held.
pub mul-Does :
    (r : RegisterFile) (v : World) (a : ℤ) (m : ℕ) (xs : List ℤ) (k : ℕ)
    → Does
        (pos 70)
        (3 + (6 * m + 3))
        r
        (data_is v (pos m ∷ a ∷ xs) k)
        (data_is v ((a *ℤ pos m) ∷ xs) (suc k))
unfolding ticks Registers.write
mul-Does r v a m xs k =
    subst
      (λ z.
        Does (pos 70) (3 + (6 * m + 3)) r (data_is v (pos m ∷ a ∷ xs) k)
          (data_is v (z ∷ xs) (suc k)))
      (ap (λ z. z +ℤ a *ℤ pos m) (-ℤ_self (r "ACC")) ∙ zero_+ℤ (a *ℤ pos m))
      (on_kernel (
        then_does 3 (pos 73)
          (Registers.write (Registers.write (Registers.write r "X" (pos m)) "Y" a) "ACC"
            (r "ACC" -ℤ r "ACC"))
          refl (refl, refl, refl) (mul_loop v xs (suc k) m _ refl)))
