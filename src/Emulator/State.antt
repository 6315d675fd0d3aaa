-- ===== src/Emulator/State.antt =====
-- services/emulator.py, `EmulatorService`: its own state and that of the ports it is wired to, and
-- the accesses that the handlers make through the ports. Both stacks share the one memory.
use min_cpu_forth.Prelude.{String, Bool, false, Option, none, some, List}
use min_cpu_forth.Prelude.Int.{ℤ, pos}
use min_cpu_forth.Errors.{Result, ok, err, emulator_error}
use min_cpu_forth.Effects.{Action, lift, modify, gets, ◌>>=◌}
use min_cpu_forth.Domain.{Instruction, Operand, reg, imm}
use min_cpu_forth.Memory
use min_cpu_forth.Memory.{Memory}
use min_cpu_forth.Stack.{Stack, Region}
use min_cpu_forth.Registers
use min_cpu_forth.Registers.{RegisterFile}
use min_cpu_forth.CharacterIo.{next_code, put_code}

pub record Machine : Type 0 where
  pub registers : RegisterFile
  pub memory : Memory
  pub data_stack : Stack
  pub return_stack : Stack
  pub char_input : List ℤ
  pub char_output : List ℤ
  pub program : List Instruction
  pub pc : ℤ
  pub halted : Bool

-- `EmulatorService.load`
unfoldable pub load : List Instruction → Machine → Machine
load program m = record m { program = program; pc = pos 0; halted = false }

-- The effect of `registers.read` and the other port calls on the machine.
unfoldable pub read_register : String → Action Machine ℤ
unfolding Registers.read
read_register name = gets λ m. Registers.read m.registers name

unfoldable pub write_register : String → ℤ → Action Machine (Unit {0})
unfolding Registers.write
write_register name value =
    modify λ m. record m { registers = Registers.write m.registers name value }

unfoldable pub read_memory : ℤ → Action Machine ℤ
read_memory address m = (Memory.read m.memory address, m)

abbrev pub stored : Machine → Result Memory → Result (Unit {0}) × Machine
stored m (ok memory) = (ok tt, record m { memory = memory })
stored m (err e) = (err e, m)

unfoldable pub write_memory : ℤ → ℤ → Action Machine (Unit {0})
write_memory address value m = stored m (Memory.write m.memory address value)

-- A call of a method of the data stack, and of the return stack.
abbrev pub on_data_stack : {A : Type 0} → Action Region A → Action Machine A
on_data_stack call m =
    let (result, r) = call (record { stack = m.data_stack; memory = m.memory }) in
    (result, record m { data_stack = r.stack; memory = r.memory })

abbrev pub on_return_stack : {A : Type 0} → Action Region A → Action Machine A
on_return_stack call m =
    let (result, r) = call (record { stack = m.return_stack; memory = m.memory }) in
    (result, record m { return_stack = r.stack; memory = r.memory })

unfoldable pub read_input : Action Machine ℤ
unfolding next_code
read_input m =
    let (result, queue) = next_code m.char_input in (result, record m { char_input = queue })

unfoldable pub write_output : ℤ → Action Machine (Unit {0})
unfolding put_code
write_output value = modify λ m. record m { char_output = put_code value m.char_output }

-- `_require_register`, on the field `a` and on the field `b`.
unfoldable pub require_register : Option String → Result String
require_register none = err emulator_error
require_register (some name) = ok name

unfoldable pub require_register_b : Operand → Result String
require_register_b (reg name) = ok name
require_register_b _ = err emulator_error

-- `_require_offset`
unfoldable pub require_offset : Option ℤ → Result ℤ
require_offset none = err emulator_error
require_offset (some offset) = ok offset

-- `_operand_value`
unfoldable pub operand_value : Operand → Action Machine ℤ
unfolding read_register require_register_b
operand_value (imm value) m = (ok value, m)
operand_value operand m = (lift (require_register_b operand) >>= read_register) m
