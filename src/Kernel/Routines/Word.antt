-- ===== src/Kernel/Routines/Word.antt =====
-- services/kernel/routines.py: the words WORD, as the text of the table.
use min_cpu_forth.Prelude.{[], ◌∷◌}
use Prim.Native.String.{◌++◌}
use min_cpu_forth.Layout.{word_buffer_base}
use min_cpu_forth.Kernel.Routines.Table.{KernelPrimitive, primitive, unlines, decimal}

abbrev pub word : KernelPrimitive
word = primitive "WORD" "WORD" (
    unlines (
      ""
      ∷ "WORD:"
      ∷ "        POP_D DELIM          ; ( delim -- c-addr )  tokenize the input device into a counted string"
      ∷ "WORD_SKIP:"
      ∷ "        IN   C"
      ∷ "        MOV  T, C"
      ∷ "        SUB  T, DELIM"
      ∷ "        JZ   T, WORD_SKIP    ; skip leading delimiters"
      ∷ ("        SET  PTR, " ++ decimal word_buffer_base)
      ∷ "        ADD  PTR, 1          ; leave WORD_BUFFER[0] for the count"
      ∷ "        SUB  LEN, LEN"
      ∷ "WORD_COLLECT:"
      ∷ "        STORE PTR, C"
      ∷ "        ADD  PTR, 1"
      ∷ "        ADD  LEN, 1"
      ∷ "        IN   C"
      ∷ "        MOV  T, C"
      ∷ "        SUB  T, DELIM"
      ∷ "        JZ   T, WORD_END     ; delimiter -> token complete"
      ∷ "        SET  R, WORD_COLLECT"
      ∷ "        JMP  R"
      ∷ "WORD_END:"
      ∷ ("        SET  PTR, " ++ decimal word_buffer_base)
      ∷ "        STORE PTR, LEN       ; write the count prefix"
      ∷ "        PUSH_D PTR"
      ∷ "        JMP  NEXTREG"
      ∷ []))
