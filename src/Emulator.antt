-- ===== src/Emulator.antt =====
-- src/min_cpu_forth/services/emulator.py, `EmulatorService`: `step` and `run`.
mod State
mod Handlers
mod Fetch
pub mod Spec
pub mod Shows
pub mod Refinement
pub mod Runs
pub mod Bounded
pub mod Sound
pub mod Safety
pub mod Requires
pub mod Operands
unfoldable pub use State.*
unfoldable pub use Handlers.*
unfoldable pub use Fetch.{fetch}
use min_cpu_forth.Prelude.{ℕ, zero, suc, true, false, Option, none, some, if◌then◌else◌}
use min_cpu_forth.Prelude.Int.{pos, ◌+ℤ◌}
use min_cpu_forth.Errors.{ok, err, emulator_error, index_error}
use min_cpu_forth.Effects.{Action, ◌>>=◌}
use min_cpu_forth.Domain.{Instruction}

abbrev pub perform : Option Instruction → Action Machine (Unit {0})
unfolding handler
perform none m = (err index_error, m)
perform (some i) m = handler i.opcode i (record m { pc = m.pc +ℤ pos 1 })

-- `EmulatorService.step`
unfoldable pub step : Action Machine (Unit {0})
unfolding fetch handler ◌+ℤ◌
step m = perform (fetch m.program m.pc) m

-- `EmulatorService.run`: the argument counts the steps that are left before the guard raises.
unfoldable pub run : ℕ → Action Machine (Unit {0})
unfolding step
run zero m = if m.halted then (ok tt, m) else (err emulator_error, m)
run (suc steps) m = elim (m.halted) [ true ↦ (ok tt, m) | false ↦ (step >>= λ _. run steps) m ]

abbrev pub default_max_steps : ℕ
default_max_steps = 100000
