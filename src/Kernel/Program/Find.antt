-- ===== src/Kernel/Program/Find.antt =====
-- Routines of services/kernel/routines.py as the assembler leaves them, with their indices: part Find.
use min_cpu_forth.Prelude.{List, [], ◌∷◌}
use min_cpu_forth.Prelude.Int.{pos}
use min_cpu_forth.Domain.{Instruction, add, jmp, jz, load, pop_d, push_d, sub}
use min_cpu_forth.Kernel.Program.Notation.{binary, branch, immediate, unary}

-- From index 304.
abbrev pub find_code : List Instruction
find_code =
    unary pop_d "NAMEADDR"
    ∷ binary load "SLEN" "NAMEADDR"
    ∷ binary sub "T" "T"
    ∷ immediate add "T" (pos 1)
    ∷ binary load "CUR" "T"
    ∷ branch jz "CUR" (pos 65)
    ∷ binary sub "T" "T"
    ∷ binary add "T" "CUR"
    ∷ immediate sub "T" (pos 1)
    ∷ binary load "SMUDGE" "T"
    ∷ branch jz "SMUDGE" (pos 3)
    ∷ binary sub "R" "R"
    ∷ immediate add "R" (pos 368)
    ∷ unary jmp "R"
    ∷ binary load "WLEN" "CUR"
    ∷ binary sub "T" "T"
    ∷ binary add "T" "WLEN"
    ∷ binary sub "T" "SLEN"
    ∷ branch jz "T" (pos 3)
    ∷ binary sub "R" "R"
    ∷ immediate add "R" (pos 368)
    ∷ unary jmp "R"
    ∷ binary sub "WPTR" "WPTR"
    ∷ binary add "WPTR" "CUR"
    ∷ immediate add "WPTR" (pos 1)
    ∷ binary sub "SPTR" "SPTR"
    ∷ binary add "SPTR" "NAMEADDR"
    ∷ immediate add "SPTR" (pos 1)
    ∷ binary sub "COUNT" "COUNT"
    ∷ binary add "COUNT" "SLEN"
    ∷ branch jz "COUNT" (pos 15)
    ∷ binary load "WC" "WPTR"
    ∷ binary load "SC" "SPTR"
    ∷ binary sub "T" "T"
    ∷ binary add "T" "WC"
    ∷ binary sub "T" "SC"
    ∷ branch jz "T" (pos 3)
    ∷ binary sub "R" "R"
    ∷ immediate add "R" (pos 368)
    ∷ unary jmp "R"
    ∷ immediate add "WPTR" (pos 1)
    ∷ immediate add "SPTR" (pos 1)
    ∷ immediate sub "COUNT" (pos 1)
    ∷ binary sub "R" "R"
    ∷ immediate add "R" (pos 334)
    ∷ unary jmp "R"
    ∷ binary sub "CFA" "CFA"
    ∷ binary add "CFA" "CUR"
    ∷ immediate add "CFA" (pos 1)
    ∷ binary add "CFA" "WLEN"
    ∷ unary push_d "CFA"
    ∷ binary sub "T" "T"
    ∷ binary add "T" "CUR"
    ∷ immediate sub "T" (pos 2)
    ∷ binary load "IMM" "T"
    ∷ branch jz "IMM" (pos 4)
    ∷ binary sub "FLAG" "FLAG"
    ∷ immediate add "FLAG" (pos 1)
    ∷ unary push_d "FLAG"
    ∷ unary jmp "NEXTREG"
    ∷ binary sub "FLAG" "FLAG"
    ∷ immediate sub "FLAG" (pos 1)
    ∷ unary push_d "FLAG"
    ∷ unary jmp "NEXTREG"
    ∷ binary sub "T" "T"
    ∷ binary add "T" "CUR"
    ∷ immediate sub "T" (pos 3)
    ∷ binary load "CUR" "T"
    ∷ binary sub "R" "R"
    ∷ immediate add "R" (pos 309)
    ∷ unary jmp "R"
    ∷ binary sub "T" "T"
    ∷ unary push_d "T"
    ∷ unary push_d "T"
    ∷ unary jmp "NEXTREG"
    ∷ []
