-- ===== src/Emulator/Safety.antt =====
-- services/emulator.py: what every run of every program keeps, and how it can end.
use min_cpu_forth.Prelude.{
  ℕ, zero, suc, ◌≤◌, ◌≡◌, refl, Bool, true, false, Option, none, some, List, if◌then◌else◌,
}
use min_cpu_forth.Prelude.Int.{pos, ◌+ℤ◌, ◌-ℤ◌, and_ℤ, or_ℤ, eqb_ℤ, ltb_ℤ}
use min_cpu_forth.Errors.{Result, ok, err, emulator_error}
use min_cpu_forth.Effects.{after, ◌>>=◌}
use min_cpu_forth.Domain
use min_cpu_forth.Domain.{Instruction, Opcode}
use min_cpu_forth.Emulator.State.{Machine}
use min_cpu_forth.Emulator.Fetch.{fetch}
use min_cpu_forth.Emulator.Handlers.{
  exec_add, exec_sub, exec_and, exec_or, exec_jz, exec_js, exec_halt, handler,
}
use min_cpu_forth.Emulator.{step, run, perform}
use min_cpu_forth.Emulator.Bounded.{expected, Fine}
use min_cpu_forth.Emulator.Sound.{
  Sound, exec_load-Fine, exec_store-Fine, exec_binary-Fine, exec_invert-Fine, exec_jmp-Fine,
  exec_branch-Fine, exec_push_d-Fine, exec_pop_d-Fine, exec_push_r-Fine, exec_pop_r-Fine,
  exec_in-Fine, exec_out-Fine,
}

-- A run that returns has halted the machine, and one that raises raises an expected exception.
abbrev pub Ended : Result (Unit {0}) × Machine → Type 0
Ended (ok _, m) = m.halted ≡ true
Ended (err e, m) = expected e ≡ true

module _ (size lo mid hi : ℕ) (program : List Instruction) (le : mid ≤ hi) (fits : hi ≤ size) where
  abbrev I : Machine → Type 0
  I = Sound size lo mid hi program

  abbrev EndsWell : Result (Unit {0}) × Machine → Type 0
  EndsWell out = I out.1 × Ended out

  handler-Fine : (op : Opcode) (i : Instruction) (m : Machine) → I m → Fine I (handler op i m)
  unfolding handler exec_add exec_sub exec_and exec_or exec_jz exec_js exec_halt
  handler-Fine Domain.load = exec_load-Fine size lo mid hi program le fits
  handler-Fine Domain.store = exec_store-Fine size lo mid hi program le fits
  handler-Fine Domain.add = exec_binary-Fine size lo mid hi program le fits ◌+ℤ◌
  handler-Fine Domain.sub = exec_binary-Fine size lo mid hi program le fits ◌-ℤ◌
  handler-Fine Domain.and = exec_binary-Fine size lo mid hi program le fits and_ℤ
  handler-Fine Domain.or = exec_binary-Fine size lo mid hi program le fits or_ℤ
  handler-Fine Domain.invert = exec_invert-Fine size lo mid hi program le fits
  handler-Fine Domain.jmp = exec_jmp-Fine size lo mid hi program le fits
  handler-Fine Domain.jz =
      exec_branch-Fine size lo mid hi program le fits (λ value. eqb_ℤ value (pos 0))
  handler-Fine Domain.js =
      exec_branch-Fine size lo mid hi program le fits (λ value. ltb_ℤ value (pos 0))
  handler-Fine Domain.push_d = exec_push_d-Fine size lo mid hi program le fits
  handler-Fine Domain.pop_d = exec_pop_d-Fine size lo mid hi program le fits
  handler-Fine Domain.push_r = exec_push_r-Fine size lo mid hi program le fits
  handler-Fine Domain.pop_r = exec_pop_r-Fine size lo mid hi program le fits
  handler-Fine Domain.in_ = exec_in-Fine size lo mid hi program le fits
  handler-Fine Domain.out = exec_out-Fine size lo mid hi program le fits
  handler-Fine Domain.halt = λ i m h. (h, tt)

  pub step-Fine : (m : Machine) → I m → Fine I (step m)
  unfolding step
  step-Fine m h = fetched (fetch m.program m.pc)
    where
      fetched : (o : Option Instruction) → Fine I (perform o m)
      fetched none = (h, refl)
      fetched (some i) = handler-Fine i.opcode i (record m { pc = m.pc +ℤ pos 1 }) h

  after-Ended :
      (n : ℕ) (out : Result (Unit {0}) × Machine)
      → Fine I out
      → ((m : Machine) → I m → EndsWell (run n m))
      → EndsWell (after (λ _. run n) out.0 out.1)
  after-Ended n (ok _, m) (h, allowed) next = next m h
  after-Ended n (err e, m) (h, allowed) next = (h, allowed)

  -- For every program and every number of steps: from a machine whose stack pointers are between
  -- their stacks' floors and bases, in two adjacent regions of the memory, a run keeps them there,
  -- the floors, the bases, the memory's size and the program as they are, whether it returns or
  -- raises; it returns only with the machine halted, and what it raises is an error of the emulator,
  -- a stack or the input, or the `IndexError` of an address or a program index out of range.
  pub run-Sound :
      (n : ℕ) (m : Machine)
      → Sound size lo mid hi program m
      → Sound size lo mid hi program (run n m).1 × Ended (run n m)
  unfolding run
  run-Sound zero m h = guard (m.halted) refl
    where
      guard :
          (b : Bool) → m.halted ≡ b → EndsWell (if b then (ok tt, m) else (err emulator_error, m))
      guard true e = (h, e)
      guard false e = (h, refl)
  run-Sound (suc n) m h = going (run-Sound n) (m.halted) refl
    where
      going :
          ((m : Machine) → I m → EndsWell (run n m))
          → (b : Bool) → m.halted ≡ b
          → EndsWell (elim b [ true ↦ (ok tt, m) | false ↦ (step >>= λ _. run n) m ])
      going rest true e = (h, e)
      going rest false e = after-Ended n (step m) (step-Fine m h) rest
