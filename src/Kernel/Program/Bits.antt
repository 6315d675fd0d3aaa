-- ===== src/Kernel/Program/Bits.antt =====
-- Routines of services/kernel/routines.py as the assembler leaves them, with their indices: part Bits.
use min_cpu_forth.Prelude.{List, [], ◌∷◌}
use min_cpu_forth.Domain.{Instruction, and, in_, invert, jmp, or, out, pop_d, push_d}
use min_cpu_forth.Kernel.Program.Notation.{binary, unary}

-- From index 196.
abbrev pub bitand_code : List Instruction
bitand_code =
    unary pop_d "X"
    ∷ unary pop_d "Y"
    ∷ binary and "Y" "X"
    ∷ unary push_d "Y"
    ∷ unary jmp "NEXTREG"
    ∷ []

-- From index 201.
abbrev pub bitor_code : List Instruction
bitor_code =
    unary pop_d "X"
    ∷ unary pop_d "Y"
    ∷ binary or "Y" "X"
    ∷ unary push_d "Y"
    ∷ unary jmp "NEXTREG"
    ∷ []

-- From index 206.
abbrev pub bitinvert_code : List Instruction
bitinvert_code = unary pop_d "X" ∷ unary invert "X" ∷ unary push_d "X" ∷ unary jmp "NEXTREG" ∷ []

-- From index 210.
abbrev pub key_code : List Instruction
key_code = unary in_ "X" ∷ unary push_d "X" ∷ unary jmp "NEXTREG" ∷ []

-- From index 213.
abbrev pub emit_code : List Instruction
emit_code = unary pop_d "X" ∷ unary out "X" ∷ unary jmp "NEXTREG" ∷ []
