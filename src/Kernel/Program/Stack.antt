-- ===== src/Kernel/Program/Stack.antt =====
-- Routines of services/kernel/routines.py as the assembler leaves them, with their indices: part Stack.
use min_cpu_forth.Prelude.{List, [], ◌∷◌}
use min_cpu_forth.Prelude.Int.{pos}
use min_cpu_forth.Domain.{Instruction, add, halt, jmp, load, pop_d, pop_r, push_d}
use min_cpu_forth.Kernel.Program.Notation.{binary, immediate, no_operand, unary}

-- From index 12.
abbrev pub lit_code : List Instruction
lit_code =
    binary load "ACC" "IP"
    ∷ unary push_d "ACC"
    ∷ immediate add "IP" (pos 1)
    ∷ unary jmp "NEXTREG"
    ∷ []

-- From index 16.
abbrev pub exit_code : List Instruction
exit_code = unary pop_r "IP" ∷ unary jmp "NEXTREG" ∷ []

-- From index 18.
abbrev pub bye_code : List Instruction
bye_code = no_operand halt ∷ []

-- From index 19.
abbrev pub dup_code : List Instruction
dup_code = unary pop_d "X" ∷ unary push_d "X" ∷ unary push_d "X" ∷ unary jmp "NEXTREG" ∷ []

-- From index 23.
abbrev pub drop_code : List Instruction
drop_code = unary pop_d "X" ∷ unary jmp "NEXTREG" ∷ []

-- From index 25.
abbrev pub swap_code : List Instruction
swap_code =
    unary pop_d "X"
    ∷ unary pop_d "Y"
    ∷ unary push_d "X"
    ∷ unary push_d "Y"
    ∷ unary jmp "NEXTREG"
    ∷ []

-- From index 30.
abbrev pub over_code : List Instruction
over_code =
    unary pop_d "X"
    ∷ unary pop_d "Y"
    ∷ unary push_d "Y"
    ∷ unary push_d "X"
    ∷ unary push_d "Y"
    ∷ unary jmp "NEXTREG"
    ∷ []

-- From index 36.
abbrev pub rot_code : List Instruction
rot_code =
    unary pop_d "X"
    ∷ unary pop_d "Y"
    ∷ unary pop_d "Z"
    ∷ unary push_d "Y"
    ∷ unary push_d "X"
    ∷ unary push_d "Z"
    ∷ unary jmp "NEXTREG"
    ∷ []

-- From index 43.
abbrev pub nrot_code : List Instruction
nrot_code =
    unary pop_d "X"
    ∷ unary pop_d "Y"
    ∷ unary pop_d "Z"
    ∷ unary push_d "X"
    ∷ unary push_d "Z"
    ∷ unary push_d "Y"
    ∷ unary jmp "NEXTREG"
    ∷ []

-- From index 50.
abbrev pub nip_code : List Instruction
nip_code = unary pop_d "X" ∷ unary pop_d "Y" ∷ unary push_d "X" ∷ unary jmp "NEXTREG" ∷ []

-- From index 54.
abbrev pub tuck_code : List Instruction
tuck_code =
    unary pop_d "X"
    ∷ unary pop_d "Y"
    ∷ unary push_d "X"
    ∷ unary push_d "Y"
    ∷ unary push_d "X"
    ∷ unary jmp "NEXTREG"
    ∷ []
