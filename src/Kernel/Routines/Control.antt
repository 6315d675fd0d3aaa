-- ===== src/Kernel/Routines/Control.antt =====
-- services/kernel/routines.py: the words LIT EXIT BYE, as the text of the table.
use min_cpu_forth.Prelude.{[], ◌∷◌}
use min_cpu_forth.Kernel.Routines.Table.{KernelPrimitive, primitive, unlines}

abbrev pub lit : KernelPrimitive
lit = primitive "LIT" "LIT" (
    unlines (
      "" ∷ "LIT:"
      ∷ "        LOAD ACC, IP         ; ACC := the inline literal (cell after LIT's CFA in the thread)"
      ∷ "        PUSH_D ACC" ∷ "        ADD  IP, 1           ; step IP past the literal cell"
      ∷ "        JMP  NEXTREG" ∷ []))

abbrev pub exit : KernelPrimitive
exit = primitive "EXIT" "EXIT" (
    unlines (
      "" ∷ "EXIT:" ∷ "        POP_R IP             ; restore the caller's IP"
      ∷ "        JMP  NEXTREG" ∷ []))

abbrev pub bye : KernelPrimitive
bye = primitive "BYE" "BYE" (unlines ("" ∷ "BYE:" ∷ "        HALT" ∷ []))
