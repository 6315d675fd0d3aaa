-- ===== src/Emulator/Requires.antt =====
-- services/emulator.py: a handler raises no `EmulatorError` where its opcode's operands are there.
use min_cpu_forth.Prelude.{◌≡◌, ◌≢◌, [], Bool, true, arith}
use min_cpu_forth.Prelude.Int.{ℤ, pos, ◌+ℤ◌, ◌-ℤ◌, and_ℤ, or_ℤ, eqb_ℤ, ltb_ℤ}
use min_cpu_forth.Errors.{Result, err, emulator_error, input_exhausted}
use min_cpu_forth.Domain
use min_cpu_forth.Domain.{Instruction, Opcode, Operand, absent, reg, imm}
use min_cpu_forth.Memory
use min_cpu_forth.Stack.{push, pop}
use min_cpu_forth.CharacterIo.{next_code}
use min_cpu_forth.Assembler.Specs.{operand_specs}
use min_cpu_forth.Assembler.Slots.{all_filled}
use min_cpu_forth.Emulator.State.{
  Machine, read_register, write_register, read_memory, write_memory, read_input, write_output,
  require_register, require_register_b, require_offset, operand_value,
}
use min_cpu_forth.Emulator.Handlers.{
  exec_load, exec_store, exec_binary, exec_add, exec_sub, exec_and, exec_or, exec_invert, exec_jmp,
  exec_branch, exec_jz, exec_js, exec_push_d, exec_pop_d, exec_push_r, exec_pop_r, exec_in,
  exec_out, exec_halt, handler,
}

-- A call that raises `EmulatorError` as `InputExhaustedError` alone, and that where the input queue is
-- empty.
abbrev pub Runs : {A : Type 0} → Result A × Machine → Type 0
Runs out = (out.0 ≢ err emulator_error) × (out.0 ≡ err input_exhausted → out.1.char_input ≡ [])

exec_load-Runs :
    (i : Instruction) (m : Machine)
    → all_filled (operand_specs Domain.load) i ≡ true
    → Runs (exec_load i m)
unfolding operand_specs exec_load require_register require_register_b read_register read_memory
    write_register Memory.read
exec_load-Runs i m h = (λ e. ground arith, λ e. ground arith)

exec_store-Runs :
    (i : Instruction) (m : Machine)
    → all_filled (operand_specs Domain.store) i ≡ true
    → Runs (exec_store i m)
unfolding operand_specs exec_store require_register require_register_b read_register write_memory
    Memory.write
exec_store-Runs i m h = (λ e. ground arith, λ e. ground arith)

exec_push_d-Runs :
    (i : Instruction) (m : Machine)
    → all_filled (operand_specs Domain.push_d) i ≡ true
    → Runs (exec_push_d i m)
unfolding operand_specs exec_push_d require_register read_register push Memory.write
exec_push_d-Runs i m h = (λ e. ground arith, λ e. ground arith)

exec_pop_d-Runs :
    (i : Instruction) (m : Machine)
    → all_filled (operand_specs Domain.pop_d) i ≡ true
    → Runs (exec_pop_d i m)
unfolding operand_specs exec_pop_d require_register write_register pop Memory.read
exec_pop_d-Runs i m h = (λ e. ground arith, λ e. ground arith)

exec_binary-Runs :
    (op : ℤ → ℤ → ℤ) (i : Instruction) (m : Machine)
    → all_filled (operand_specs Domain.add) i ≡ true
    → Runs (exec_binary op i m)
unfolding operand_specs exec_binary require_register read_register write_register operand_value
    require_register_b
exec_binary-Runs op i m h = (λ e. ground arith, λ e. ground arith)

exec_push_r-Runs :
    (i : Instruction) (m : Machine)
    → all_filled (operand_specs Domain.push_r) i ≡ true
    → Runs (exec_push_r i m)
unfolding operand_specs exec_push_r require_register read_register push Memory.write
exec_push_r-Runs i m h = (λ e. ground arith, λ e. ground arith)

exec_pop_r-Runs :
    (i : Instruction) (m : Machine)
    → all_filled (operand_specs Domain.pop_r) i ≡ true
    → Runs (exec_pop_r i m)
unfolding operand_specs exec_pop_r require_register write_register pop Memory.read
exec_pop_r-Runs i m h = (λ e. ground arith, λ e. ground arith)

exec_invert-Runs :
    (i : Instruction) (m : Machine)
    → all_filled (operand_specs Domain.invert) i ≡ true
    → Runs (exec_invert i m)
unfolding operand_specs exec_invert require_register read_register write_register
exec_invert-Runs i m h = (λ e. ground arith, λ e. ground arith)

exec_jmp-Runs :
    (i : Instruction) (m : Machine)
    → all_filled (operand_specs Domain.jmp) i ≡ true
    → Runs (exec_jmp i m)
unfolding operand_specs exec_jmp require_register read_register
exec_jmp-Runs i m h = (λ e. ground arith, λ e. ground arith)

exec_in-Runs :
    (i : Instruction) (m : Machine)
    → all_filled (operand_specs Domain.in_) i ≡ true
    → Runs (exec_in i m)
unfolding operand_specs exec_in require_register read_input next_code write_register
exec_in-Runs i m h = (λ e. ground arith, λ e. ground arith)

exec_out-Runs :
    (i : Instruction) (m : Machine)
    → all_filled (operand_specs Domain.out) i ≡ true
    → Runs (exec_out i m)
unfolding operand_specs exec_out require_register read_register write_output
exec_out-Runs i m h = (λ e. ground arith, λ e. ground arith)

exec_branch-Runs :
    (test : ℤ → Bool) (i : Instruction) (m : Machine)
    → all_filled (operand_specs Domain.jz) i ≡ true
    → Runs (exec_branch test i m)
unfolding operand_specs exec_branch require_register require_offset read_register
exec_branch-Runs test i m h = (λ e. ground arith, λ e. ground arith)

pub handler-Runs :
    (op : Opcode) (i : Instruction) (m : Machine)
    → all_filled (operand_specs op) i ≡ true
    → Runs (handler op i m)
unfolding operand_specs handler exec_add exec_sub exec_and exec_or exec_jz exec_js exec_halt
handler-Runs Domain.load = exec_load-Runs
handler-Runs Domain.store = exec_store-Runs
handler-Runs Domain.add = exec_binary-Runs ◌+ℤ◌
handler-Runs Domain.sub = exec_binary-Runs ◌-ℤ◌
handler-Runs Domain.and = exec_binary-Runs and_ℤ
handler-Runs Domain.or = exec_binary-Runs or_ℤ
handler-Runs Domain.invert = exec_invert-Runs
handler-Runs Domain.jmp = exec_jmp-Runs
handler-Runs Domain.jz = exec_branch-Runs (λ value. eqb_ℤ value (pos 0))
handler-Runs Domain.js = exec_branch-Runs (λ value. ltb_ℤ value (pos 0))
handler-Runs Domain.push_d = exec_push_d-Runs
handler-Runs Domain.pop_d = exec_pop_d-Runs
handler-Runs Domain.push_r = exec_push_r-Runs
handler-Runs Domain.pop_r = exec_pop_r-Runs
handler-Runs Domain.in_ = exec_in-Runs
handler-Runs Domain.out = exec_out-Runs
handler-Runs Domain.halt = λ i m h. (λ e. ground arith, λ e. ground arith)
