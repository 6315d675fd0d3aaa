-- ===== src/Kernel/Program/Arithmetic.antt =====
-- Routines of services/kernel/routines.py as the assembler leaves them, with their indices: part Arithmetic.
use min_cpu_forth.Prelude.{List, [], ◌∷◌}
use min_cpu_forth.Prelude.Int.{pos}
use min_cpu_forth.Domain.{Instruction, add, jmp, js, jz, pop_d, push_d, sub}
use min_cpu_forth.Kernel.Program.Notation.{binary, branch, immediate, unary}

-- From index 60.
abbrev pub plus_code : List Instruction
plus_code =
    unary pop_d "X"
    ∷ unary pop_d "Y"
    ∷ binary add "Y" "X"
    ∷ unary push_d "Y"
    ∷ unary jmp "NEXTREG"
    ∷ []

-- From index 65.
abbrev pub minus_code : List Instruction
minus_code =
    unary pop_d "X"
    ∷ unary pop_d "Y"
    ∷ binary sub "Y" "X"
    ∷ unary push_d "Y"
    ∷ unary jmp "NEXTREG"
    ∷ []

-- From index 70.
abbrev pub mul_code : List Instruction
mul_code =
    unary pop_d "X"
    ∷ unary pop_d "Y"
    ∷ binary sub "ACC" "ACC"
    ∷ branch jz "X" (pos 5)
    ∷ binary add "ACC" "Y"
    ∷ immediate sub "X" (pos 1)
    ∷ binary sub "R" "R"
    ∷ immediate add "R" (pos 73)
    ∷ unary jmp "R"
    ∷ unary push_d "ACC"
    ∷ unary jmp "NEXTREG"
    ∷ []

-- From index 81.
abbrev pub negate_code : List Instruction
negate_code =
    unary pop_d "X"
    ∷ binary sub "Y" "Y"
    ∷ binary sub "Y" "X"
    ∷ unary push_d "Y"
    ∷ unary jmp "NEXTREG"
    ∷ []

-- From index 86.
abbrev pub abs_code : List Instruction
abs_code =
    unary pop_d "X"
    ∷ branch js "X" (pos 2)
    ∷ unary push_d "X"
    ∷ unary jmp "NEXTREG"
    ∷ binary sub "Y" "Y"
    ∷ binary sub "Y" "X"
    ∷ unary push_d "Y"
    ∷ unary jmp "NEXTREG"
    ∷ []

-- From index 94.
abbrev pub oneplus_code : List Instruction
oneplus_code =
    unary pop_d "X" ∷ immediate add "X" (pos 1) ∷ unary push_d "X" ∷ unary jmp "NEXTREG" ∷ []

-- From index 98.
abbrev pub oneminus_code : List Instruction
oneminus_code =
    unary pop_d "X" ∷ immediate sub "X" (pos 1) ∷ unary push_d "X" ∷ unary jmp "NEXTREG" ∷ []
