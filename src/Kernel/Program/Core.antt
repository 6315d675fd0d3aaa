-- ===== src/Kernel/Program/Core.antt =====
-- Routines of services/kernel/routines.py as the assembler leaves them, with their indices: part Core.
use min_cpu_forth.Prelude.{List, [], ◌∷◌}
use min_cpu_forth.Prelude.Int.{pos}
use min_cpu_forth.Domain.{Instruction, add, jmp, load, push_r, sub}
use min_cpu_forth.Kernel.Program.Notation.{binary, immediate, unary}

-- From index 0.
abbrev pub start_code : List Instruction
start_code =
    binary sub "NEXTREG" "NEXTREG" ∷ immediate add "NEXTREG" (pos 3) ∷ unary jmp "NEXTREG" ∷ []

-- From index 3.
abbrev pub next_code : List Instruction
next_code =
    binary load "W" "IP" ∷ immediate add "IP" (pos 1) ∷ binary load "XT" "W" ∷ unary jmp "XT" ∷ []

-- From index 7.
abbrev pub enter_code : List Instruction
enter_code =
    unary push_r "IP"
    ∷ immediate add "W" (pos 1)
    ∷ binary sub "IP" "IP"
    ∷ binary add "IP" "W"
    ∷ unary jmp "NEXTREG"
    ∷ []
