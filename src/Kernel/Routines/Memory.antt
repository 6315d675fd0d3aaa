-- ===== src/Kernel/Routines/Memory.antt =====
-- services/kernel/routines.py: the words @ ! C@ C! KEY EMIT, as the text of the table.
use min_cpu_forth.Prelude.{[], ◌∷◌}
use min_cpu_forth.Kernel.Routines.Table.{KernelPrimitive, primitive, unlines}

abbrev pub fetch : KernelPrimitive
fetch = primitive "@" "FETCH" (
    unlines (
      "" ∷ "FETCH:" ∷ "        POP_D X              ; ( addr -- mem[addr] )" ∷ "        LOAD Y, X"
      ∷ "        PUSH_D Y" ∷ "        JMP  NEXTREG" ∷ []))

abbrev pub store_word : KernelPrimitive
store_word = primitive "!" "STOREW" (
    unlines (
      "" ∷ "STOREW:" ∷ "        POP_D X              ; ( val addr -- )  addr on top"
      ∷ "        POP_D Y" ∷ "        STORE X, Y" ∷ "        JMP  NEXTREG" ∷ []))

abbrev pub c_fetch : KernelPrimitive
c_fetch = primitive "C@" "CFETCH" (
    unlines (
      "" ∷ "CFETCH:"
      ∷ "        POP_D X              ; ( addr -- mem[addr] )  aliases @ in a cell-addressed model"
      ∷ "        LOAD Y, X" ∷ "        PUSH_D Y" ∷ "        JMP  NEXTREG" ∷ []))

abbrev pub c_store : KernelPrimitive
c_store = primitive "C!" "CSTOREW" (
    unlines (
      "" ∷ "CSTOREW:" ∷ "        POP_D X              ; ( val addr -- )  aliases !"
      ∷ "        POP_D Y" ∷ "        STORE X, Y" ∷ "        JMP  NEXTREG" ∷ []))

abbrev pub key : KernelPrimitive
key = primitive "KEY" "KEY" (
    unlines (
      "" ∷ "KEY:" ∷ "        IN   X               ; ( -- c )  read one input character"
      ∷ "        PUSH_D X" ∷ "        JMP  NEXTREG" ∷ []))

abbrev pub emit : KernelPrimitive
emit = primitive "EMIT" "EMIT" (
    unlines (
      "" ∷ "EMIT:" ∷ "        POP_D X              ; ( c -- )  write one output character"
      ∷ "        OUT  X" ∷ "        JMP  NEXTREG" ∷ []))
