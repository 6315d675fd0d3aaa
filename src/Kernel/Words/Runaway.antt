-- ===== src/Kernel/Words/Runaway.antt =====
-- services/kernel/routines.py: `*` for a multiplier below 0, which counts away from 0.
use min_cpu_forth.Prelude.{
  ℕ, zero, suc, ◌+◌, ◌*◌, ◌≡◌, refl, ap, sym, ◌∙◌, some, false, List, ◌∷◌, subst, arith,
}
use min_cpu_forth.Prelude.Int.{ℤ, pos, negsuc, ◌-ℤ◌, eqb_ℤ, int_laws}
use min_cpu_forth.Errors.{err, emulator_error}
use min_cpu_forth.Memory.{Memory}
use min_cpu_forth.Registers
use min_cpu_forth.Registers.{RegisterFile}
use min_cpu_forth.Emulator.{Machine, run}
use min_cpu_forth.Emulator.Spec.{Abstract, ticks}
use min_cpu_forth.Emulator.Shows.{concrete, Shows}
use min_cpu_forth.Emulator.Runs.{ticks-append, ticks_prefix, run-ticks}
use min_cpu_forth.Kernel.Program.{kernel_program, listing, kernel_program-listing}
use min_cpu_forth.Kernel.Words.{World, data_is, machine_at}
use min_cpu_forth.Kernel.Words.Multiply.{rounded, mul_test, mul_round}

negsuc_down : (i : ℕ) → negsuc i -ℤ pos 1 ≡ negsuc (suc i)
negsuc_down i = omega int_laws

eqb_negsuc : (i : ℕ) → eqb_ℤ (negsuc i) (pos 0) ≡ false
eqb_negsuc i = ground arith

module _ (v : World) (xs : List ℤ) (k : ℕ) where
  abbrev world : World
  world = data_is v xs (suc k)

  -- After any number of rounds the loop is at its head again with a multiplier below 0.
  mul_rounds :
      (j : ℕ) (r : RegisterFile) (i : ℕ)
      → r "X" ≡ negsuc i
      → (r' : RegisterFile) × (ticks listing (6 * j) (machine_at (pos 73) r world)
          ≡ some (machine_at (pos 73) r' world))
  unfolding ticks Registers.write
  mul_rounds zero r i hx = (r, refl)
  mul_rounds (suc j) r i hx =
      let (r', e) = mul_rounds j (rounded r) (suc i) (ap (λ x. x -ℤ pos 1) hx ∙ negsuc_down i) in
      (
        r',
        ap (λ n. ticks listing n (machine_at (pos 73) r world)) (steps j)
            ∙ (ticks-append listing 1 (5 + 6 * j) (machine_at (pos 73) r world) _
                  (mul_test v xs k r false (ap (λ x. eqb_ℤ x (pos 0)) hx ∙ eqb_negsuc i))
                ∙ (ticks-append listing 5 (6 * j) (machine_at (pos 74) r world) _
                      (mul_round v xs k r)
                    ∙ e)),
      )
    where
      steps : (j : ℕ) → 6 * suc j ≡ 1 + (5 + 6 * j)
      steps j = omega arith

run-zero : (m : Machine) → m.halted ≡ false → (run 0 m).0 ≡ err emulator_error
unfolding run
run-zero m live = rw live

module _ (r : RegisterFile) (v : World) (a : ℤ) (i : ℕ) (xs : List ℤ) (k : ℕ) where
  abbrev start : Abstract
  start = machine_at (pos 70) r (data_is v (negsuc i ∷ a ∷ xs) k)

  mul_live :
      (budget : ℕ) → (s : Abstract) × (ticks listing budget start ≡ some s) × (s.halted ≡ false)
  unfolding ticks Registers.write
  mul_live budget =
      let r₁ =
        Registers.write (Registers.write (Registers.write r "X" (negsuc i)) "Y" a) "ACC"
          (r "ACC" -ℤ r "ACC") in
      let (r', e) = mul_rounds v xs (suc k) (suc budget) r₁ i refl in
      ticks_prefix listing budget (5 * budget + 8) start _ (
        ap (λ n. ticks listing n start) (steps budget)
        ∙ (ticks-append listing 3 (6 * suc budget) start
              (machine_at (pos 73) r₁ (data_is v xs (suc (suc k)))) refl
            ∙ e))
    where
      steps : (n : ℕ) → n + suc (5 * n + 8) ≡ 3 + 6 * suc n
      steps n = omega arith

-- With a multiplier below 0 on top of the stack, `*` never comes to an end: whatever number of
-- steps is allowed, `run` raises `EmulatorError`.
pub mul-runaway :
    (r : RegisterFile) (v : World) (a : ℤ) (i : ℕ) (xs : List ℤ) (k : ℕ) (memory : Memory)
    (budget : ℕ)
    → Shows memory v.cells (record { items = negsuc i ∷ a ∷ xs; room = k }) v.return_stack
    → (run budget (concrete (start r v a i xs k) memory kernel_program)).0 ≡ err emulator_error
mul-runaway r v a i xs k memory budget h =
    let (s, e, live) = mul_live r v a i xs k budget in
    let e' =
      subst (λ p. ticks p budget (start r v a i xs k) ≡ some s) (sym kernel_program-listing) e in
    let (memory', runs, _) = run-ticks kernel_program budget (start r v a i xs k) s memory h e' in
    ap (λ n. (run n (concrete (start r v a i xs k) memory kernel_program)).0) (plus_zero budget)
    ∙ (ap (λ out. out.0) (runs 0) ∙ run-zero (concrete s memory' kernel_program) live)
  where
    plus_zero : (n : ℕ) → n ≡ n + 0
    plus_zero n = omega arith
