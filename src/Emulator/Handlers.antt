-- ===== src/Emulator/Handlers.antt =====
-- services/emulator.py: the handlers, and the table from opcodes to handlers.
use min_cpu_forth.Prelude.{Bool, true, if◌then◌else◌}
use min_cpu_forth.Prelude.Int.{ℤ, pos, ◌+ℤ◌, ◌-ℤ◌, and_ℤ, or_ℤ, invert, eqb_ℤ, ltb_ℤ}
use min_cpu_forth.Effects.{Action, lift, modify, ◌>>=◌}
use min_cpu_forth.Domain
use min_cpu_forth.Domain.{Opcode, Instruction}
use min_cpu_forth.Stack.{push, pop}
use min_cpu_forth.Emulator.State.{
  Machine, read_register, write_register, read_memory, write_memory, on_data_stack, on_return_stack,
  read_input, write_output, require_register, require_register_b, require_offset, operand_value,
}

unfoldable pub exec_load : Instruction → Action Machine (Unit {0})
unfolding require_register require_register_b read_register read_memory write_register
exec_load i = do
  dst ← lift (require_register i.a)
  addr_reg ← lift (require_register_b i.b)
  address ← read_register addr_reg
  value ← read_memory address
  write_register dst value

unfoldable pub exec_store : Instruction → Action Machine (Unit {0})
unfolding require_register require_register_b read_register write_memory
exec_store i = do
  addr_reg ← lift (require_register i.a)
  value_reg ← lift (require_register_b i.b)
  address ← read_register addr_reg
  value ← read_register value_reg
  write_memory address value

-- `ADD`, `SUB`, `AND` and `OR` but for the operator.
unfoldable pub exec_binary : (ℤ → ℤ → ℤ) → Instruction → Action Machine (Unit {0})
unfolding require_register read_register operand_value write_register
exec_binary op i = do
  dst ← lift (require_register i.a)
  left ← read_register dst
  right ← operand_value i.b
  write_register dst (op left right)

unfoldable pub exec_add : Instruction → Action Machine (Unit {0})
unfolding exec_binary
exec_add = exec_binary ◌+ℤ◌

unfoldable pub exec_sub : Instruction → Action Machine (Unit {0})
unfolding exec_binary
exec_sub = exec_binary ◌-ℤ◌

unfoldable pub exec_and : Instruction → Action Machine (Unit {0})
unfolding exec_binary
exec_and = exec_binary and_ℤ

unfoldable pub exec_or : Instruction → Action Machine (Unit {0})
unfolding exec_binary
exec_or = exec_binary or_ℤ

unfoldable pub exec_invert : Instruction → Action Machine (Unit {0})
unfolding require_register read_register write_register
exec_invert i = do
  dst ← lift (require_register i.a)
  value ← read_register dst
  write_register dst (invert value)

unfoldable pub exec_jmp : Instruction → Action Machine (Unit {0})
unfolding require_register read_register
exec_jmp i = do
  target_reg ← lift (require_register i.a)
  target ← read_register target_reg
  modify λ m. record m { pc = target }

-- `JZ` and `JS` but for the test.
unfoldable pub exec_branch : (ℤ → Bool) → Instruction → Action Machine (Unit {0})
unfolding require_register require_offset read_register ◌+ℤ◌
exec_branch test i = do
  tested_reg ← lift (require_register i.a)
  offset ← lift (require_offset i.offset)
  value ← read_register tested_reg
  modify λ m. record m { pc = if test value then m.pc +ℤ offset else m.pc }

unfoldable pub exec_jz : Instruction → Action Machine (Unit {0})
unfolding exec_branch
exec_jz = exec_branch λ value. eqb_ℤ value (pos 0)

unfoldable pub exec_js : Instruction → Action Machine (Unit {0})
unfolding exec_branch
exec_js = exec_branch λ value. ltb_ℤ value (pos 0)

unfoldable pub exec_push_d : Instruction → Action Machine (Unit {0})
unfolding require_register read_register
exec_push_d i = do
  name ← lift (require_register i.a)
  value ← read_register name
  on_data_stack (push value)

unfoldable pub exec_pop_d : Instruction → Action Machine (Unit {0})
unfolding require_register write_register
exec_pop_d i = do
  name ← lift (require_register i.a)
  value ← on_data_stack pop
  write_register name value

unfoldable pub exec_push_r : Instruction → Action Machine (Unit {0})
unfolding require_register read_register
exec_push_r i = do
  name ← lift (require_register i.a)
  value ← read_register name
  on_return_stack (push value)

unfoldable pub exec_pop_r : Instruction → Action Machine (Unit {0})
unfolding require_register write_register
exec_pop_r i = do
  name ← lift (require_register i.a)
  value ← on_return_stack pop
  write_register name value

unfoldable pub exec_in : Instruction → Action Machine (Unit {0})
unfolding require_register read_input write_register
exec_in i = do name ← lift (require_register i.a); value ← read_input; write_register name value

unfoldable pub exec_out : Instruction → Action Machine (Unit {0})
unfolding require_register read_register write_output
exec_out i = do name ← lift (require_register i.a); value ← read_register name; write_output value

unfoldable pub exec_halt : Instruction → Action Machine (Unit {0})
exec_halt i = modify λ m. record m { halted = true }

-- `_handlers`
unfoldable pub handler : Opcode → Instruction → Action Machine (Unit {0})
unfolding exec_load exec_store exec_add exec_sub exec_and exec_or exec_invert exec_jmp exec_jz
    exec_js exec_push_d exec_pop_d exec_push_r exec_pop_r exec_in exec_out exec_halt
handler Domain.load = exec_load
handler Domain.store = exec_store
handler Domain.add = exec_add
handler Domain.sub = exec_sub
handler Domain.and = exec_and
handler Domain.or = exec_or
handler Domain.invert = exec_invert
handler Domain.jmp = exec_jmp
handler Domain.jz = exec_jz
handler Domain.js = exec_js
handler Domain.push_d = exec_push_d
handler Domain.pop_d = exec_pop_d
handler Domain.push_r = exec_push_r
handler Domain.pop_r = exec_pop_r
handler Domain.in_ = exec_in
handler Domain.out = exec_out
handler Domain.halt = exec_halt
