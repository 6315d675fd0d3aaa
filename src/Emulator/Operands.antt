-- ===== src/Emulator/Operands.antt =====
-- services/emulator.py with services/assembler: where `EmulatorError` can come from.
use min_cpu_forth.Prelude.{
  ℕ, zero, suc, ◌≤◌, ◌≡◌, ◌⊎◌, inl, inr, refl, Bool, true, false, Option, none, some, List, [], ◌∷◌,
  arith, sym, subst, length, get_elem?, if◌then◌else◌,
}
use min_cpu_forth.Prelude.Int.{ℤ, pos, ◌+ℤ◌}
use min_cpu_forth.Errors.{
  Error, Result, ok, err, is_emulator_error, emulator_error, input_exhausted, stack_overflow,
  stack_underflow, assembler_error, unknown_word, kernel_error, index_error, key_error,
  zero_division, type_error, value_error, recursion_error,
}
use min_cpu_forth.Effects.{after, ◌>>=◌}
use min_cpu_forth.Domain.{Instruction}
use min_cpu_forth.Memory
use min_cpu_forth.Assembler.Slots.{Complete, AllComplete}
use min_cpu_forth.Emulator.State.{Machine}
use min_cpu_forth.Emulator.Fetch.{fetch, element}
use min_cpu_forth.Emulator.{step, run, perform}
use min_cpu_forth.Emulator.Bounded.{Fine}
use min_cpu_forth.Emulator.Sound.{Sound}
use min_cpu_forth.Emulator.Safety.{step-Fine}
use min_cpu_forth.Emulator.Requires.{Runs, handler-Runs}

get-Complete :
    (program : List Instruction) (n : ℕ) (i : Instruction)
    → AllComplete program
    → get_elem? program n ≡ some i
    → Complete i
get-Complete [] n i h e = absurd (ground arith)
get-Complete (x ∷ xs) zero i (c, h) e = ground arith
get-Complete (x ∷ xs) (suc n) i (c, h) e = get-Complete xs n i h (ground arith)

fetch-Complete :
    (program : List Instruction) (pc : ℤ) (i : Instruction)
    → AllComplete program
    → fetch program pc ≡ some i
    → Complete i
unfolding fetch
fetch-Complete program pc i h e = at (Memory.position (length program) pc) e
  where
    at : (o : Option ℕ) → element program o ≡ some i → Complete i
    at none e = absurd (cc)
    at (some n) e = get-Complete program n i h e

step-Runs : (m : Machine) → AllComplete m.program → Runs (step m)
unfolding step
step-Runs m h = fetched (fetch m.program m.pc) refl
  where
    fetched : (o : Option Instruction) → fetch m.program m.pc ≡ o → Runs (perform o m)
    fetched none e = (λ e'. absurd (cc), λ e'. absurd (cc))
    fetched (some i) e =
        handler-Runs i.opcode i (record m { pc = m.pc +ℤ pos 1 })
          (fetch-Complete m.program m.pc i h e)

-- So many steps that return lead from the one machine to the other, none of them from a machine that
-- has halted, nor has the last one.
pub data Goes : ℕ → Machine → Machine → Type 0 where
  stop : {m : Machine} → m.halted ≡ false → Goes 0 m m
  next :
      {n : ℕ} {m m₁ m' : Machine}
      → m.halted ≡ false
      → step m ≡ (ok tt, m₁)
      → Goes n m₁ m'
      → Goes (suc n) m m'

module _ (size lo mid hi : ℕ) (program : List Instruction) (le : mid ≤ hi) (fits : hi ≤ size)
    (complete : AllComplete program) where
  after-Goes :
      (n : ℕ) (m : Machine) (out : Result (Unit {0}) × Machine)
      → step m ≡ out
      → m.halted ≡ false
      → Runs out
      → Fine (Sound size lo mid hi program) out
      → ((m₁ : Machine)
          → Sound size lo mid hi program m₁
          → (run n m₁).0 ≡ err emulator_error
          → Goes n m₁ (run n m₁).1)
      → (after (λ _. run n) out.0 out.1).0 ≡ err emulator_error
      → Goes (suc n) m (after (λ _. run n) out.0 out.1).1
  after-Goes n m (ok _, m₁) e going runs (h, _) rest e' = next going e (rest m₁ h e')
  after-Goes n m (err x, m₁) e going runs fine rest e' = absurd (runs.0 e')

  abbrev guarded : Machine → Bool → Result (Unit {0}) × Machine
  guarded m b = if b then (ok tt, m) else (err emulator_error, m)

  abbrev continued : ℕ → Machine → Bool → Result (Unit {0}) × Machine
  continued n m b = elim b [ true ↦ (ok tt, m) | false ↦ (step >>= λ _. run n) m ]

  run-guarded :
      (n : ℕ) (m : Machine)
      → Sound size lo mid hi program m
      → (run n m).0 ≡ err emulator_error
      → Goes n m (run n m).1
  unfolding run
  run-guarded zero m h e = guard (m.halted) refl e
    where
      guard :
          (b : Bool)
          → m.halted ≡ b
          → (guarded m b).0 ≡ err emulator_error
          → Goes 0 m (guarded m b).1
      guard true e e' = absurd (cc)
      guard false e e' = stop e
  run-guarded (suc n) m h e = going (run-guarded n) (m.halted) refl e
    where
      going :
          ((m₁ : Machine)
            → Sound size lo mid hi program m₁
            → (run n m₁).0 ≡ err emulator_error
            → Goes n m₁ (run n m₁).1)
          → (b : Bool) → m.halted ≡ b
          → (continued n m b).0 ≡ err emulator_error
          → Goes (suc n) m (continued n m b).1
      going rest true e e' = absurd (cc)
      going rest false e e' =
          after-Goes n m (step m) refl e (step-Runs m (subst AllComplete (sym h.3) complete))
            (step-Fine size lo mid hi program le fits m h) rest e'

  after-Starves :
      (n : ℕ) (out : Result (Unit {0}) × Machine)
      → Runs out
      → Fine (Sound size lo mid hi program) out
      → ((m₁ : Machine)
          → Sound size lo mid hi program m₁
          → (run n m₁).0 ≡ err input_exhausted
          → (run n m₁).1.char_input ≡ [])
      → (after (λ _. run n) out.0 out.1).0 ≡ err input_exhausted
      → (after (λ _. run n) out.0 out.1).1.char_input ≡ []
  after-Starves n (ok _, m₁) runs (h, _) rest e = rest m₁ h e
  after-Starves n (err x, m₁) runs fine rest e = runs.1 e

  run-Starves :
      (n : ℕ) (m : Machine)
      → Sound size lo mid hi program m
      → (run n m).0 ≡ err input_exhausted
      → (run n m).1.char_input ≡ []
  unfolding run
  run-Starves zero m h e = guard (m.halted) e
    where
      guard : (b : Bool) → (guarded m b).0 ≡ err input_exhausted → (guarded m b).1.char_input ≡ []
      guard true e = absurd (cc)
      guard false e = absurd (cc)
  run-Starves (suc n) m h e = going (run-Starves n) (m.halted) e
    where
      going :
          ((m₁ : Machine)
            → Sound size lo mid hi program m₁
            → (run n m₁).0 ≡ err input_exhausted
            → (run n m₁).1.char_input ≡ [])
          → (b : Bool) → (continued n m b).0 ≡ err input_exhausted
          → (continued n m b).1.char_input ≡ []
      going rest true e = absurd (cc)
      going rest false e =
          after-Starves n (step m) (step-Runs m (subst AllComplete (sym h.3) complete))
            (step-Fine size lo mid hi program le fits m h) rest e

  -- Where a run of a program of which every instruction has its opcode's operands, from a machine
  -- whose stack pointers are between their stacks' floors and bases, raises an `EmulatorError`, it
  -- is either the step guard's, after all the steps that the run may make, each of which has
  -- returned without halting the machine; or it is an `InputExhaustedError`, and the input queue is
  -- empty.
  pub run-Goes :
      (n : ℕ) (m : Machine) (e : Error)
      → Sound size lo mid hi program m
      → is_emulator_error e ≡ true
      → (run n m).0 ≡ err e
      → ((e ≡ emulator_error) × Goes n m (run n m).1)
        ⊎ ((e ≡ input_exhausted) × ((run n m).1.char_input ≡ []))
  run-Goes n m emulator_error h kind raised = inl (refl, run-guarded n m h raised)
  run-Goes n m input_exhausted h kind raised = inr (refl, run-Starves n m h raised)
  run-Goes n m stack_overflow h kind raised = absurd (cc)
  run-Goes n m stack_underflow h kind raised = absurd (cc)
  run-Goes n m assembler_error h kind raised = absurd (cc)
  run-Goes n m unknown_word h kind raised = absurd (cc)
  run-Goes n m kernel_error h kind raised = absurd (cc)
  run-Goes n m index_error h kind raised = absurd (cc)
  run-Goes n m key_error h kind raised = absurd (cc)
  run-Goes n m zero_division h kind raised = absurd (cc)
  run-Goes n m type_error h kind raised = absurd (cc)
  run-Goes n m value_error h kind raised = absurd (cc)
  run-Goes n m recursion_error h kind raised = absurd (cc)
