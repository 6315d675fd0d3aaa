-- ===== src/Kernel/Program/Memory.antt =====
-- Routines of services/kernel/routines.py as the assembler leaves them, with their indices: part Memory.
use min_cpu_forth.Prelude.{List, [], ◌∷◌}
use min_cpu_forth.Domain.{Instruction, jmp, load, pop_d, pop_r, push_d, push_r, store}
use min_cpu_forth.Kernel.Program.Notation.{binary, unary}

-- From index 102.
abbrev pub fetch_code : List Instruction
fetch_code = unary pop_d "X" ∷ binary load "Y" "X" ∷ unary push_d "Y" ∷ unary jmp "NEXTREG" ∷ []

-- From index 106.
abbrev pub storew_code : List Instruction
storew_code = unary pop_d "X" ∷ unary pop_d "Y" ∷ binary store "X" "Y" ∷ unary jmp "NEXTREG" ∷ []

-- From index 110.
abbrev pub cfetch_code : List Instruction
cfetch_code = unary pop_d "X" ∷ binary load "Y" "X" ∷ unary push_d "Y" ∷ unary jmp "NEXTREG" ∷ []

-- From index 114.
abbrev pub cstorew_code : List Instruction
cstorew_code = unary pop_d "X" ∷ unary pop_d "Y" ∷ binary store "X" "Y" ∷ unary jmp "NEXTREG" ∷ []

-- From index 118.
abbrev pub tor_code : List Instruction
tor_code = unary pop_d "X" ∷ unary push_r "X" ∷ unary jmp "NEXTREG" ∷ []

-- From index 121.
abbrev pub fromr_code : List Instruction
fromr_code = unary pop_r "X" ∷ unary push_d "X" ∷ unary jmp "NEXTREG" ∷ []

-- From index 124.
abbrev pub rfetch_code : List Instruction
rfetch_code = unary pop_r "X" ∷ unary push_r "X" ∷ unary push_d "X" ∷ unary jmp "NEXTREG" ∷ []
