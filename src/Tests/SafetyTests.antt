-- ===== src/Tests/SafetyTests.antt =====
-- The wired emulator on two small programs, and the assembler's outcomes.
use min_cpu_forth.Prelude.{◌≡◌, ◌⊎◌, refl, none, some, List, [], ◌∷◌, arith}
use min_cpu_forth.Prelude.Int.{negsuc, ◌-ℤ◌, ◌+ℤ◌}
use min_cpu_forth.Errors.{ok, err, assembler_error, emulator_error, input_exhausted}
use min_cpu_forth.Domain
use min_cpu_forth.Domain.{Instruction, Assembly, absent}
use min_cpu_forth.Containers
use min_cpu_forth.Assembler.{assemble}
use min_cpu_forth.Assembler.Specs.{operand_specs}
use min_cpu_forth.Assembler.Slots.{AllComplete}
use min_cpu_forth.Assembler.Complete.{assemble-Complete}
use min_cpu_forth.Emulator.{Machine, load, run}
use min_cpu_forth.Emulator.Sound.{Sound}
use min_cpu_forth.Emulator.Safety.{Ended, run-Sound}
use min_cpu_forth.Emulator.Operands.{Goes, run-Goes}

assemble-Complete_example :
    ((a : Assembly) × (assemble "A: JZ X, A\n HALT" ≡ ok a) × AllComplete a.program)
    ⊎ (assemble "A: JZ X, A\n HALT" ≡ err assembler_error)
assemble-Complete_example = assemble-Complete "A: JZ X, A\n HALT"

assembles : (a : Assembly) × (assemble "A: JZ X, A\n HALT" ≡ ok a)
unfolding assemble
assembles = (_, refl)

-- `PUSH_D X`, and `POP_D X` twice.
abbrev popping : List Instruction
popping =
    record { opcode = Domain.push_d; a = some "X"; b = absent; offset = none }
    ∷ record { opcode = Domain.pop_d; a = some "X"; b = absent; offset = none }
    ∷ record { opcode = Domain.pop_d; a = some "X"; b = absent; offset = none }
    ∷ []

-- A branch to itself.
abbrev looping : List Instruction
looping = record { opcode = Domain.jz; a = some "X"; b = absent; offset = some (negsuc 0) } ∷ []

abbrev wired : List Instruction → Machine
unfolding Containers.emulator
wired program = load program (Containers.emulator Containers.memory)

wired-Sound : (program : List Instruction) → Sound 4096 2048 3072 4096 program (wired program)
unfolding wired Containers.emulator Containers.memory ◌-ℤ◌ load
wired-Sound program = (
  refl,
  record { pointer = 3072; is_at = refl; low = omega arith; high = omega arith },
  record { pointer = 4096; is_at = refl; low = omega arith; high = omega arith },
  refl,
)

run-Sound_example :
    Sound 4096 2048 3072 4096 popping (run 3 (wired popping)).1 × Ended (run 3 (wired popping))
run-Sound_example =
    run-Sound 4096 2048 3072 4096 popping (omega arith) (omega arith) 3 (wired popping)
      (wired-Sound popping)

-- `IN X` with nothing to read.
abbrev reading : List Instruction
reading = record { opcode = Domain.in_; a = some "X"; b = absent; offset = none } ∷ []

run-Goes_example :
    ((emulator_error ≡ emulator_error) × Goes 5 (wired looping) (run 5 (wired looping)).1)
    ⊎ ((emulator_error ≡ input_exhausted) × ((run 5 (wired looping)).1.char_input ≡ []))
unfolding operand_specs run wired Containers.emulator load ◌+ℤ◌
run-Goes_example =
    run-Goes 4096 2048 3072 4096 looping (omega arith) (omega arith) (refl, tt) 5 (wired looping)
      emulator_error (wired-Sound looping) refl refl

reading_raises : (run 5 (wired reading)).0 ≡ err input_exhausted
unfolding run wired Containers.emulator load ◌+ℤ◌
reading_raises = refl
