-- ===== src/Kernel/Routines/Number.antt =====
-- services/kernel/routines.py: the words NUMBER, as the text of the table.
use min_cpu_forth.Prelude.{[], ◌∷◌}
use min_cpu_forth.Kernel.Routines.Table.{KernelPrimitive, primitive, unlines}

abbrev pub number : KernelPrimitive
number = primitive "NUMBER" "NUMBER" (
    unlines (
      "" ∷ "NUMBER:"
      ∷ "        POP_D PTR            ; ( c-addr -- n flag )  parse a counted decimal string (signed)"
      ∷ "        LOAD LEN, PTR        ; LEN = length prefix"
      ∷ "        ADD  PTR, 1          ; PTR -> first char" ∷ "        SUB  N, N            ; N := 0"
      ∷ "        SUB  NEG, NEG        ; NEG := 0" ∷ "        JZ   LEN, NUM_FAIL   ; empty -> fail"
      ∷ "        LOAD C, PTR" ∷ "        MOV  T, C" ∷ "        SUB  T, 45           ; '-'"
      ∷ "        JZ   T, NUM_NEG" ∷ "        SET  R, NUM_LOOP" ∷ "        JMP  R" ∷ "NUM_NEG:"
      ∷ "        SET  NEG, 1" ∷ "        ADD  PTR, 1          ; consume '-'" ∷ "        SUB  LEN, 1"
      ∷ "        JZ   LEN, NUM_FAIL   ; \"-\" alone -> fail" ∷ "NUM_LOOP:"
      ∷ "        JZ   LEN, NUM_DONE" ∷ "        LOAD C, PTR" ∷ "        MOV  DIGIT, C"
      ∷ "        SUB  DIGIT, 48       ; '0'"
      ∷ "        JS   DIGIT, NUM_FAIL ; below '0' -> not a digit" ∷ "        MOV  T, DIGIT"
      ∷ "        SUB  T, 10" ∷ "        JS   T, NUM_DIGIT_OK ; digit <= 9"
      ∷ "        SET  R, NUM_FAIL     ; above '9' -> not a digit" ∷ "        JMP  R"
      ∷ "NUM_DIGIT_OK:" ∷ "        MOV  T, N            ; N := N*10  (8N + 2N, no MUL opcode)"
      ∷ "        ADD  T, T" ∷ "        MOV  U, T" ∷ "        ADD  T, T" ∷ "        ADD  T, T"
      ∷ "        ADD  T, U" ∷ "        MOV  N, T"
      ∷ "        ADD  N, DIGIT        ; N := N*10 + digit" ∷ "        ADD  PTR, 1"
      ∷ "        SUB  LEN, 1" ∷ "        SET  R, NUM_LOOP" ∷ "        JMP  R" ∷ "NUM_DONE:"
      ∷ "        JZ   NEG, NUM_PUSH" ∷ "        MOV  T, N" ∷ "        SUB  N, N"
      ∷ "        SUB  N, T            ; N := -N" ∷ "NUM_PUSH:" ∷ "        PUSH_D N"
      ∷ "        SET  FLAG, 1" ∷ "        PUSH_D FLAG          ; success" ∷ "        JMP  NEXTREG"
      ∷ "NUM_FAIL:" ∷ "        SUB  Z, Z" ∷ "        PUSH_D Z             ; n := 0"
      ∷ "        PUSH_D Z             ; flag := 0" ∷ "        JMP  NEXTREG" ∷ []))
