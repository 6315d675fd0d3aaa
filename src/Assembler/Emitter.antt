-- ===== src/Assembler/Emitter.antt =====
-- services/assembler/emitter.py: `InstructionEmitter`.
use min_cpu_forth.Prelude.{
  String, Option, none, some, List, [], ◌∷◌, ◌++◌, str_eq, ◌==◌, length, if◌then◌else◌,
}
use min_cpu_forth.Prelude.Int.{ℤ, pos, ◌+ℤ◌, ◌-ℤ◌}
use min_cpu_forth.Errors.{Result, ok, err, assembler_error, ◌>>=◌}
use min_cpu_forth.Domain.{
  Opcode, sub, add, Instruction, Operand, absent, reg, imm, Line, Labels, ResolvedProgram,
  OperandSpec, InstructionField, field_a, register, register_or_immediate, offset_kind,
}
use min_cpu_forth.Assembler.Text.{int_base_zero, is_identifier}
use min_cpu_forth.Assembler.Specs.{lookup, mnemonics, operand_specs, set_mnemonic, mov_mnemonic}

-- `_try_int`
unfoldable pub try_int : String → Option ℤ
unfolding int_base_zero
try_int token = int_base_zero token

unfoldable pub resolve_register : String → Result String
unfolding try_int is_identifier
resolve_register token = elim (try_int token) [
  | some _ ↦ err assembler_error
  | none ↦ (if is_identifier token then ok token else err assembler_error)
]

unfoldable pub resolve_reg_or_immediate : String → Labels → Result Operand
unfolding try_int resolve_register
resolve_reg_or_immediate token labels = elim (try_int token) [
  | some literal ↦ ok (imm literal)
  | none ↦ elim (lookup token labels) [
    | some index ↦ ok (imm index)
    | none ↦ resolve_register token >>= λ name. ok (reg name)
  ]
]

-- A label becomes the distance from the instruction after the branch.
unfoldable pub resolve_offset : String → Labels → Line → Result ℤ
unfolding try_int ◌+ℤ◌ ◌-ℤ◌
resolve_offset token labels line = elim (try_int token) [
  | some literal ↦ ok literal
  | none ↦ elim (lookup token labels) [
    | some index ↦ ok (index -ℤ (line.address +ℤ pos 1))
    | none ↦ err assembler_error
  ]
]

unfoldable pub resolve_constant : String → Labels → Result ℤ
unfolding try_int
resolve_constant token labels = elim (try_int token) [
  | some literal ↦ ok literal
  | none ↦ elim (lookup token labels) [ some index ↦ ok index | none ↦ err assembler_error ]
]

abbrev binary : Opcode → String → Operand → Instruction
binary op dst src = record { opcode = op; a = some dst; b = src; offset = none }

-- `_emit_set`, on the line's operands.
unfoldable pub emit_set : List String → Labels → Result (List Instruction)
unfolding resolve_register resolve_constant
emit_set (r ∷ c ∷ []) labels = resolve_register r >>= λ name. resolve_constant c labels >>= λ value.
    ok (binary sub name (reg name) ∷ binary add name (imm value) ∷ [])
emit_set _ labels = err assembler_error

-- `_emit_mov`, on the line's operands.
unfoldable pub emit_mov : List String → Result (List Instruction)
unfolding resolve_register
emit_mov (d ∷ s ∷ []) = resolve_register d >>= λ dest. resolve_register s >>= λ source.
    ok (binary sub dest (reg dest) ∷ binary add dest (reg source) ∷ [])
emit_mov _ = err assembler_error

-- A resolved register goes into the field that the slot names.
abbrev with_register : InstructionField → String → Instruction → Instruction
with_register field_a name i = record i { a = some name }
with_register _ name i = record i { b = reg name }

-- One round of the `for` over the operand slots.
unfoldable pub fill_slot : OperandSpec → String → Labels → Line → Instruction → Result Instruction
unfolding resolve_register resolve_reg_or_immediate resolve_offset
fill_slot slot token labels line i = elim (slot.kind) [
  | register ↦ resolve_register token >>= λ name. ok (with_register slot.field name i)
  | register_or_immediate ↦
      resolve_reg_or_immediate token labels >>= λ operand. ok (record i { b = operand })
  | offset_kind ↦
      resolve_offset token labels line >>= λ distance. ok (record i { offset = some distance })
]

unfoldable pub fill_slots :
    List OperandSpec → List String → Labels → Line → Instruction → Result Instruction
unfolding fill_slot
fill_slots (slot ∷ slots) (token ∷ tokens) labels line i =
    fill_slot slot token labels line i >>= fill_slots slots tokens labels line
fill_slots _ _ labels line i = ok i

-- The end of `_emit_line`: a real opcode, with as many operands as its signature has slots.
unfoldable pub emit_opcode : Opcode → Line → Labels → Result (List Instruction)
unfolding operand_specs fill_slots
emit_opcode op line labels =
    let slots = operand_specs op in
    if length line.operands == length slots
    then (fill_slots slots line.operands labels line
          (record { opcode = op; a = none; b = absent; offset = none })
        >>= λ i. ok (i ∷ []))
    else err assembler_error

-- `_emit_line`, on the line's mnemonic.
unfoldable pub emit_mnemonic : Option String → Line → Labels → Result (List Instruction)
unfolding emit_set emit_mov emit_opcode mnemonics
emit_mnemonic none line labels = ok []
emit_mnemonic (some mnemonic) line labels =
    if str_eq mnemonic set_mnemonic
    then emit_set line.operands labels
    else if str_eq mnemonic mov_mnemonic
    then emit_mov line.operands
    else elim (mnemonics mnemonic) [
      | none ↦ err assembler_error
      | some op ↦ emit_opcode op line labels
    ]

unfoldable pub emit_line : Line → Labels → Result (List Instruction)
unfolding emit_mnemonic
emit_line line labels = emit_mnemonic line.mnemonic line labels

unfoldable pub emit_lines : List Line → Labels → Result (List Instruction)
unfolding emit_line
emit_lines [] labels = ok []
emit_lines (line ∷ lines) labels =
    emit_line line labels >>= λ front. emit_lines lines labels >>= λ rest. ok (front ++ rest)

-- `InstructionEmitter.emit`
unfoldable pub emit : ResolvedProgram → Result (List Instruction)
unfolding emit_lines
emit resolved = emit_lines resolved.lines resolved.labels
