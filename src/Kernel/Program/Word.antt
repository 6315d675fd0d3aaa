-- ===== src/Kernel/Program/Word.antt =====
-- Routines of services/kernel/routines.py as the assembler leaves them, with their indices: part Word.
use min_cpu_forth.Prelude.{List, [], ◌∷◌}
use min_cpu_forth.Prelude.Int.{pos, negsuc}
use min_cpu_forth.Domain.{Instruction, add, in_, jmp, jz, pop_d, push_d, store, sub}
use min_cpu_forth.Kernel.Program.Notation.{binary, branch, immediate, unary}

-- From index 278.
abbrev pub word_code : List Instruction
word_code =
    unary pop_d "DELIM"
    ∷ unary in_ "C"
    ∷ binary sub "T" "T"
    ∷ binary add "T" "C"
    ∷ binary sub "T" "DELIM"
    ∷ branch jz "T" (negsuc 4)
    ∷ binary sub "PTR" "PTR"
    ∷ immediate add "PTR" (pos 1984)
    ∷ immediate add "PTR" (pos 1)
    ∷ binary sub "LEN" "LEN"
    ∷ binary store "PTR" "C"
    ∷ immediate add "PTR" (pos 1)
    ∷ immediate add "LEN" (pos 1)
    ∷ unary in_ "C"
    ∷ binary sub "T" "T"
    ∷ binary add "T" "C"
    ∷ binary sub "T" "DELIM"
    ∷ branch jz "T" (pos 3)
    ∷ binary sub "R" "R"
    ∷ immediate add "R" (pos 288)
    ∷ unary jmp "R"
    ∷ binary sub "PTR" "PTR"
    ∷ immediate add "PTR" (pos 1984)
    ∷ binary store "PTR" "LEN"
    ∷ unary push_d "PTR"
    ∷ unary jmp "NEXTREG"
    ∷ []
