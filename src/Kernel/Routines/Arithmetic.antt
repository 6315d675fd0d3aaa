-- ===== src/Kernel/Routines/Arithmetic.antt =====
-- services/kernel/routines.py: the words + - * NEGATE ABS 1+ 1- AND OR INVERT, as the text of the table.
use min_cpu_forth.Prelude.{[], ◌∷◌}
use min_cpu_forth.Kernel.Routines.Table.{KernelPrimitive, primitive, unlines}

abbrev pub plus : KernelPrimitive
plus = primitive "+" "PLUS" (
    unlines (
      "" ∷ "PLUS:" ∷ "        POP_D X              ; ( a b -- a+b )" ∷ "        POP_D Y"
      ∷ "        ADD  Y, X" ∷ "        PUSH_D Y" ∷ "        JMP  NEXTREG" ∷ []))

abbrev pub minus : KernelPrimitive
minus = primitive "-" "MINUS" (
    unlines (
      "" ∷ "MINUS:" ∷ "        POP_D X              ; ( a b -- a-b )" ∷ "        POP_D Y"
      ∷ "        SUB  Y, X" ∷ "        PUSH_D Y" ∷ "        JMP  NEXTREG" ∷ []))

abbrev pub mul : KernelPrimitive
mul = primitive "*" "MUL" (
    unlines (
      "" ∷ "MUL:" ∷ "        POP_D X              ; ( a b -- a*b )  multiply by repeated addition"
      ∷ "        POP_D Y" ∷ "        SUB  ACC, ACC        ; ACC := 0" ∷ "MUL_LOOP:"
      ∷ "        JZ   X, MUL_DONE" ∷ "        ADD  ACC, Y" ∷ "        SUB  X, 1"
      ∷ "        SET  R, MUL_LOOP" ∷ "        JMP  R" ∷ "MUL_DONE:" ∷ "        PUSH_D ACC"
      ∷ "        JMP  NEXTREG" ∷ []))

abbrev pub negate : KernelPrimitive
negate = primitive "NEGATE" "NEGATE" (
    unlines (
      "" ∷ "NEGATE:" ∷ "        POP_D X              ; ( a -- -a )" ∷ "        SUB  Y, Y"
      ∷ "        SUB  Y, X" ∷ "        PUSH_D Y" ∷ "        JMP  NEXTREG" ∷ []))

abbrev pub abs : KernelPrimitive
abs = primitive "ABS" "ABS" (
    unlines (
      "" ∷ "ABS:" ∷ "        POP_D X              ; ( a -- |a| )" ∷ "        JS   X, ABS_NEG"
      ∷ "        PUSH_D X" ∷ "        JMP  NEXTREG" ∷ "ABS_NEG:" ∷ "        SUB  Y, Y"
      ∷ "        SUB  Y, X" ∷ "        PUSH_D Y" ∷ "        JMP  NEXTREG" ∷ []))

abbrev pub one_plus : KernelPrimitive
one_plus = primitive "1+" "ONEPLUS" (
    unlines (
      "" ∷ "ONEPLUS:" ∷ "        POP_D X              ; ( a -- a+1 )" ∷ "        ADD  X, 1"
      ∷ "        PUSH_D X" ∷ "        JMP  NEXTREG" ∷ []))

abbrev pub one_minus : KernelPrimitive
one_minus = primitive "1-" "ONEMINUS" (
    unlines (
      "" ∷ "ONEMINUS:" ∷ "        POP_D X              ; ( a -- a-1 )" ∷ "        SUB  X, 1"
      ∷ "        PUSH_D X" ∷ "        JMP  NEXTREG" ∷ []))

abbrev pub bit_and : KernelPrimitive
bit_and = primitive "AND" "BITAND" (
    unlines (
      "" ∷ "BITAND:" ∷ "        POP_D X              ; ( a b -- a&b )" ∷ "        POP_D Y"
      ∷ "        AND  Y, X" ∷ "        PUSH_D Y" ∷ "        JMP  NEXTREG" ∷ []))

abbrev pub bit_or : KernelPrimitive
bit_or = primitive "OR" "BITOR" (
    unlines (
      "" ∷ "BITOR:" ∷ "        POP_D X              ; ( a b -- a|b )" ∷ "        POP_D Y"
      ∷ "        OR   Y, X" ∷ "        PUSH_D Y" ∷ "        JMP  NEXTREG" ∷ []))

abbrev pub bit_invert : KernelPrimitive
bit_invert = primitive "INVERT" "BITINVERT" (
    unlines (
      "" ∷ "BITINVERT:" ∷ "        POP_D X              ; ( a -- ~a )" ∷ "        INVERT X"
      ∷ "        PUSH_D X" ∷ "        JMP  NEXTREG" ∷ []))
