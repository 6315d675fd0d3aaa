-- ===== src/Assembler/Specs.antt =====
-- services/assembler/specs.py: the operand signatures, and the pseudo-operations.
use min_cpu_forth.Prelude.{ℕ, String, Option, none, some, List, [], ◌∷◌, str_eq, if◌then◌else◌}
use min_cpu_forth.Domain.{
  Opcode, load, store, add, sub, jmp, jz, js, push_d, pop_d, push_r, pop_r, and, or, invert, in_,
  out, halt, OperandSpec, InstructionField, field_a, field_b, field_offset, OperandKind, register,
  register_or_immediate, offset_kind, opcode_values,
}

abbrev spec : InstructionField → OperandKind → OperandSpec
spec f k = record { field = f; kind = k }

abbrev pub one_register : List OperandSpec
one_register = spec field_a register ∷ []

abbrev pub two_registers : List OperandSpec
two_registers = spec field_a register ∷ spec field_b register ∷ []

abbrev pub register_and_source : List OperandSpec
register_and_source = spec field_a register ∷ spec field_b register_or_immediate ∷ []

abbrev pub register_and_offset : List OperandSpec
register_and_offset = spec field_a register ∷ spec field_offset offset_kind ∷ []

-- `OPERAND_SPECS`
unfoldable pub operand_specs : Opcode → List OperandSpec
operand_specs load = two_registers
operand_specs store = two_registers
operand_specs add = register_and_source
operand_specs sub = register_and_source
operand_specs and = register_and_source
operand_specs or = register_and_source
operand_specs invert = one_register
operand_specs jmp = one_register
operand_specs jz = register_and_offset
operand_specs js = register_and_offset
operand_specs push_d = one_register
operand_specs pop_d = one_register
operand_specs push_r = one_register
operand_specs pop_r = one_register
operand_specs in_ = one_register
operand_specs out = one_register
operand_specs halt = []

-- A `dict` keyed by text, newest insertion last.
abbrev pub lookup {ℓ} : {V : Type ℓ} → String → List (String × V) → Option V
lookup k [] = none
lookup k ((j, v) ∷ m) = if str_eq k j then some v else lookup k m

-- `MNEMONICS.get`
unfoldable pub mnemonics : String → Option Opcode
unfolding opcode_values
mnemonics text = lookup text opcode_values

abbrev pub set_mnemonic : String
set_mnemonic = "SET"

abbrev pub mov_mnemonic : String
mov_mnemonic = "MOV"

-- `PSEUDO_OP_SIZES`
unfoldable pub pseudo_op_sizes : List (String × ℕ)
pseudo_op_sizes = (set_mnemonic, 2) ∷ (mov_mnemonic, 2) ∷ []
