-- ===== src/Domain/Isa.antt =====
-- domain/opcode.py: the opcodes and the descriptors of an operand slot.
use min_cpu_forth.Prelude.{String, List, [], ◌∷◌}

-- `in_` is the opcode `IN`, whose own name is taken.
pub data Opcode : Type 0 where
  load store add sub jmp jz js push_d pop_d push_r pop_r and or invert in_ out halt : Opcode

pub data InstructionField : Type 0 where
  field_a field_b field_offset : InstructionField

pub data OperandKind : Type 0 where
  register register_or_immediate offset_kind : OperandKind

-- The `StrEnum` values, in the order of the enum.
unfoldable pub opcode_values : List (String × Opcode)
opcode_values =
    ("LOAD", load)
    ∷ ("STORE", store)
    ∷ ("ADD", add)
    ∷ ("SUB", sub)
    ∷ ("JMP", jmp)
    ∷ ("JZ", jz)
    ∷ ("JS", js)
    ∷ ("PUSH_D", push_d)
    ∷ ("POP_D", pop_d)
    ∷ ("PUSH_R", push_r)
    ∷ ("POP_R", pop_r)
    ∷ ("AND", and)
    ∷ ("OR", or)
    ∷ ("INVERT", invert)
    ∷ ("IN", in_)
    ∷ ("OUT", out)
    ∷ ("HALT", halt)
    ∷ []
