-- ===== src/Dictionary/Variables.antt =====
-- src/min_cpu_forth/adapters/system_variables.py: `MemorySystemVariablesAdapter`.
use min_cpu_forth.Prelude.Int.{ℤ, pos}
use min_cpu_forth.Layout.{dp_addr, latest_addr}
use min_cpu_forth.Errors.{Result}
use min_cpu_forth.Effects.{Action}
use min_cpu_forth.Memory
use min_cpu_forth.Memory.{Memory}
use min_cpu_forth.Dictionary.CountedString.{store}

unfoldable pub dp : Memory → Result ℤ
unfolding Memory.read
dp m = Memory.read m (pos dp_addr)

unfoldable pub set_dp : ℤ → Action Memory (Unit {0})
unfolding store
set_dp value = store (pos dp_addr) value

unfoldable pub latest : Memory → Result ℤ
unfolding Memory.read
latest m = Memory.read m (pos latest_addr)

unfoldable pub set_latest : ℤ → Action Memory (Unit {0})
unfolding store
set_latest value = store (pos latest_addr) value
