-- ===== src/Kernel/Program/Compare.antt =====
-- Routines of services/kernel/routines.py as the assembler leaves them, with their indices: part Compare.
use min_cpu_forth.Prelude.{List, [], ◌∷◌}
use min_cpu_forth.Prelude.Int.{pos, negsuc}
use min_cpu_forth.Domain.{Instruction, add, jmp, js, jz, pop_d, push_d, sub}
use min_cpu_forth.Kernel.Program.Notation.{binary, branch, immediate, unary}

-- From index 128.
abbrev pub equals_code : List Instruction
equals_code =
    unary pop_d "X"
    ∷ unary pop_d "Y"
    ∷ binary sub "Y" "X"
    ∷ branch jz "Y" (pos 4)
    ∷ binary sub "Z" "Z"
    ∷ immediate add "Z" (pos 0)
    ∷ unary push_d "Z"
    ∷ unary jmp "NEXTREG"
    ∷ binary sub "Z" "Z"
    ∷ immediate add "Z" (negsuc 0)
    ∷ unary push_d "Z"
    ∷ unary jmp "NEXTREG"
    ∷ []

-- From index 140.
abbrev pub notequals_code : List Instruction
notequals_code =
    unary pop_d "X"
    ∷ unary pop_d "Y"
    ∷ binary sub "Y" "X"
    ∷ branch jz "Y" (pos 4)
    ∷ binary sub "Z" "Z"
    ∷ immediate add "Z" (negsuc 0)
    ∷ unary push_d "Z"
    ∷ unary jmp "NEXTREG"
    ∷ binary sub "Z" "Z"
    ∷ immediate add "Z" (pos 0)
    ∷ unary push_d "Z"
    ∷ unary jmp "NEXTREG"
    ∷ []

-- From index 152.
abbrev pub lessthan_code : List Instruction
lessthan_code =
    unary pop_d "X"
    ∷ unary pop_d "Y"
    ∷ binary sub "Y" "X"
    ∷ branch js "Y" (pos 4)
    ∷ binary sub "Z" "Z"
    ∷ immediate add "Z" (pos 0)
    ∷ unary push_d "Z"
    ∷ unary jmp "NEXTREG"
    ∷ binary sub "Z" "Z"
    ∷ immediate add "Z" (negsuc 0)
    ∷ unary push_d "Z"
    ∷ unary jmp "NEXTREG"
    ∷ []

-- From index 164.
abbrev pub greaterthan_code : List Instruction
greaterthan_code =
    unary pop_d "X"
    ∷ unary pop_d "Y"
    ∷ binary sub "X" "Y"
    ∷ branch js "X" (pos 4)
    ∷ binary sub "Z" "Z"
    ∷ immediate add "Z" (pos 0)
    ∷ unary push_d "Z"
    ∷ unary jmp "NEXTREG"
    ∷ binary sub "Z" "Z"
    ∷ immediate add "Z" (negsuc 0)
    ∷ unary push_d "Z"
    ∷ unary jmp "NEXTREG"
    ∷ []

-- From index 176.
abbrev pub zeroeq_code : List Instruction
zeroeq_code =
    unary pop_d "X"
    ∷ branch jz "X" (pos 4)
    ∷ binary sub "Z" "Z"
    ∷ immediate add "Z" (pos 0)
    ∷ unary push_d "Z"
    ∷ unary jmp "NEXTREG"
    ∷ binary sub "Z" "Z"
    ∷ immediate add "Z" (negsuc 0)
    ∷ unary push_d "Z"
    ∷ unary jmp "NEXTREG"
    ∷ []

-- From index 186.
abbrev pub zerolt_code : List Instruction
zerolt_code =
    unary pop_d "X"
    ∷ branch js "X" (pos 4)
    ∷ binary sub "Z" "Z"
    ∷ immediate add "Z" (pos 0)
    ∷ unary push_d "Z"
    ∷ unary jmp "NEXTREG"
    ∷ binary sub "Z" "Z"
    ∷ immediate add "Z" (negsuc 0)
    ∷ unary push_d "Z"
    ∷ unary jmp "NEXTREG"
    ∷ []
