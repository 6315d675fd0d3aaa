-- ===== src/Emulator/Fetch.antt =====
-- services/emulator.py: the fetch of `step`.
use min_cpu_forth.Prelude.{ℕ, Option, none, some, List, get_elem?, length}
use min_cpu_forth.Prelude.Int.{ℤ}
use min_cpu_forth.Domain.{Instruction}
use min_cpu_forth.Memory.{position}

abbrev pub element : List Instruction → Option ℕ → Option Instruction
element program none = none
element program (some n) = get_elem? program n

-- `self._program[self._pc]`, where a negative `pc` counts from the end.
unfoldable pub fetch : List Instruction → ℤ → Option Instruction
unfolding position
fetch program pc = element program (position (length program) pc)
