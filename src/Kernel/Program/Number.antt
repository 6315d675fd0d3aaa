-- ===== src/Kernel/Program/Number.antt =====
-- Routines of services/kernel/routines.py as the assembler leaves them, with their indices: part Number.
use min_cpu_forth.Prelude.{List, [], ◌∷◌}
use min_cpu_forth.Prelude.Int.{pos}
use min_cpu_forth.Domain.{Instruction, add, jmp, js, jz, load, pop_d, push_d, sub}
use min_cpu_forth.Kernel.Program.Notation.{binary, branch, immediate, unary}

-- From index 216.
abbrev pub number_code : List Instruction
number_code =
    unary pop_d "PTR"
    ∷ binary load "LEN" "PTR"
    ∷ immediate add "PTR" (pos 1)
    ∷ binary sub "N" "N"
    ∷ binary sub "NEG" "NEG"
    ∷ branch jz "LEN" (pos 52)
    ∷ binary load "C" "PTR"
    ∷ binary sub "T" "T"
    ∷ binary add "T" "C"
    ∷ immediate sub "T" (pos 45)
    ∷ branch jz "T" (pos 3)
    ∷ binary sub "R" "R"
    ∷ immediate add "R" (pos 235)
    ∷ unary jmp "R"
    ∷ binary sub "NEG" "NEG"
    ∷ immediate add "NEG" (pos 1)
    ∷ immediate add "PTR" (pos 1)
    ∷ immediate sub "LEN" (pos 1)
    ∷ branch jz "LEN" (pos 39)
    ∷ branch jz "LEN" (pos 28)
    ∷ binary load "C" "PTR"
    ∷ binary sub "DIGIT" "DIGIT"
    ∷ binary add "DIGIT" "C"
    ∷ immediate sub "DIGIT" (pos 48)
    ∷ branch js "DIGIT" (pos 33)
    ∷ binary sub "T" "T"
    ∷ binary add "T" "DIGIT"
    ∷ immediate sub "T" (pos 10)
    ∷ branch js "T" (pos 3)
    ∷ binary sub "R" "R"
    ∷ immediate add "R" (pos 274)
    ∷ unary jmp "R"
    ∷ binary sub "T" "T"
    ∷ binary add "T" "N"
    ∷ binary add "T" "T"
    ∷ binary sub "U" "U"
    ∷ binary add "U" "T"
    ∷ binary add "T" "T"
    ∷ binary add "T" "T"
    ∷ binary add "T" "U"
    ∷ binary sub "N" "N"
    ∷ binary add "N" "T"
    ∷ binary add "N" "DIGIT"
    ∷ immediate add "PTR" (pos 1)
    ∷ immediate sub "LEN" (pos 1)
    ∷ binary sub "R" "R"
    ∷ immediate add "R" (pos 235)
    ∷ unary jmp "R"
    ∷ branch jz "NEG" (pos 4)
    ∷ binary sub "T" "T"
    ∷ binary add "T" "N"
    ∷ binary sub "N" "N"
    ∷ binary sub "N" "T"
    ∷ unary push_d "N"
    ∷ binary sub "FLAG" "FLAG"
    ∷ immediate add "FLAG" (pos 1)
    ∷ unary push_d "FLAG"
    ∷ unary jmp "NEXTREG"
    ∷ binary sub "Z" "Z"
    ∷ unary push_d "Z"
    ∷ unary push_d "Z"
    ∷ unary jmp "NEXTREG"
    ∷ []
