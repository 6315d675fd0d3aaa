-- ===== src/Kernel/Program/Notation.antt =====
-- Short forms of instructions, by the fields that they fill.
use min_cpu_forth.Prelude.{String, none, some}
use min_cpu_forth.Prelude.Int.{ℤ}
use min_cpu_forth.Domain.{Opcode, Instruction, absent, reg, imm}

abbrev pub no_operand : Opcode → Instruction
no_operand op = record { opcode = op; a = none; b = absent; offset = none }

abbrev pub unary : Opcode → String → Instruction
unary op a = record { opcode = op; a = some a; b = absent; offset = none }

abbrev pub binary : Opcode → String → String → Instruction
binary op a b = record { opcode = op; a = some a; b = reg b; offset = none }

abbrev pub immediate : Opcode → String → ℤ → Instruction
immediate op a value = record { opcode = op; a = some a; b = imm value; offset = none }

abbrev pub branch : Opcode → String → ℤ → Instruction
branch op a offset = record { opcode = op; a = some a; b = absent; offset = some offset }
