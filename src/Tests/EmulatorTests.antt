-- ===== src/Tests/EmulatorTests.antt =====
-- The emulator on small inputs.
use min_cpu_forth.Prelude.{ℕ, ◌+◌, ◌≡◌, refl}
use min_cpu_forth.Prelude.Int.{pos, ◌+ℤ◌, ◌-ℤ◌}
use min_cpu_forth.Memory.{Memory}
use min_cpu_forth.Registers
use min_cpu_forth.Emulator.{step, run}
use min_cpu_forth.Emulator.Spec.{tick, ticks}
use min_cpu_forth.Emulator.Shows.{concrete, Shows, Simulates}
use min_cpu_forth.Emulator.Runs.{tick-Simulates, run-ticks}
use min_cpu_forth.Kernel.Program.{listing}
use min_cpu_forth.Kernel.Words.{machine_at}
use min_cpu_forth.Tests.Data.{memory, machine, world, empty, memory-Shows}

tick-Simulates_example :
    Simulates listing (tick listing machine) (step (concrete machine memory listing))
tick-Simulates_example = tick-Simulates listing machine memory memory-Shows

-- From `START` to `NEXT`.
run-ticks_example :
    (memory' : Memory) × ((budget : ℕ)
      → run (3 + budget) (concrete machine memory listing)
        ≡ run budget (
            concrete
              (machine_at
                (pos 3)
                (Registers.write
                  (Registers.write Registers.unset "NEXTREG" (pos 0))
                  "NEXTREG"
                  (pos 3))
                world)
              memory'
              listing))
    × Shows memory' world.cells empty empty
unfolding ticks Registers.write ◌-ℤ◌ ◌+ℤ◌
run-ticks_example =
    run-ticks listing 3 machine
      (machine_at (pos 3)
        (Registers.write (Registers.write Registers.unset "NEXTREG" (pos 0)) "NEXTREG" (pos 3))
        world)
      memory memory-Shows refl
