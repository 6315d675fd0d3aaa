-- ===== src/Kernel/Routines/Compare.antt =====
-- services/kernel/routines.py: the words = <> < > 0= 0<, as the text of the table.
use min_cpu_forth.Prelude.{[], ◌∷◌}
use min_cpu_forth.Kernel.Routines.Table.{KernelPrimitive, primitive, unlines}

abbrev pub equals : KernelPrimitive
equals = primitive "=" "EQUALS" (
    unlines (
      "" ∷ "EQUALS:" ∷ "        POP_D X              ; ( a b -- flag )" ∷ "        POP_D Y"
      ∷ "        SUB  Y, X" ∷ "        JZ   Y, EQ_TRUE" ∷ "        SET  Z, 0" ∷ "        PUSH_D Z"
      ∷ "        JMP  NEXTREG" ∷ "EQ_TRUE:"
      ∷ "        SET  Z, -1           ; Forth true = -1 (all bits set)" ∷ "        PUSH_D Z"
      ∷ "        JMP  NEXTREG" ∷ []))

abbrev pub not_equals : KernelPrimitive
not_equals = primitive "<>" "NOTEQUALS" (
    unlines (
      "" ∷ "NOTEQUALS:" ∷ "        POP_D X              ; ( a b -- flag )" ∷ "        POP_D Y"
      ∷ "        SUB  Y, X" ∷ "        JZ   Y, NE_FALSE"
      ∷ "        SET  Z, -1           ; Forth true = -1 (all bits set)" ∷ "        PUSH_D Z"
      ∷ "        JMP  NEXTREG" ∷ "NE_FALSE:" ∷ "        SET  Z, 0" ∷ "        PUSH_D Z"
      ∷ "        JMP  NEXTREG" ∷ []))

abbrev pub less_than : KernelPrimitive
less_than = primitive "<" "LESSTHAN" (
    unlines (
      "" ∷ "LESSTHAN:"
      ∷ "        POP_D X              ; ( a b -- a<b )  a-b < 0  (cells are unbounded ints -- no overflow)"
      ∷ "        POP_D Y" ∷ "        SUB  Y, X" ∷ "        JS   Y, LT_TRUE" ∷ "        SET  Z, 0"
      ∷ "        PUSH_D Z" ∷ "        JMP  NEXTREG" ∷ "LT_TRUE:"
      ∷ "        SET  Z, -1           ; Forth true = -1 (all bits set)" ∷ "        PUSH_D Z"
      ∷ "        JMP  NEXTREG" ∷ []))

abbrev pub greater_than : KernelPrimitive
greater_than = primitive ">" "GREATERTHAN" (
    unlines (
      "" ∷ "GREATERTHAN:" ∷ "        POP_D X              ; ( a b -- a>b )  b-a < 0"
      ∷ "        POP_D Y" ∷ "        SUB  X, Y" ∷ "        JS   X, GT_TRUE" ∷ "        SET  Z, 0"
      ∷ "        PUSH_D Z" ∷ "        JMP  NEXTREG" ∷ "GT_TRUE:"
      ∷ "        SET  Z, -1           ; Forth true = -1 (all bits set)" ∷ "        PUSH_D Z"
      ∷ "        JMP  NEXTREG" ∷ []))

abbrev pub zero_eq : KernelPrimitive
zero_eq = primitive "0=" "ZEROEQ" (
    unlines (
      "" ∷ "ZEROEQ:" ∷ "        POP_D X              ; ( a -- a==0 )" ∷ "        JZ   X, ZE_TRUE"
      ∷ "        SET  Z, 0" ∷ "        PUSH_D Z" ∷ "        JMP  NEXTREG" ∷ "ZE_TRUE:"
      ∷ "        SET  Z, -1           ; Forth true = -1 (all bits set)" ∷ "        PUSH_D Z"
      ∷ "        JMP  NEXTREG" ∷ []))

abbrev pub zero_lt : KernelPrimitive
zero_lt = primitive "0<" "ZEROLT" (
    unlines (
      "" ∷ "ZEROLT:" ∷ "        POP_D X              ; ( a -- a<0 )" ∷ "        JS   X, ZL_TRUE"
      ∷ "        SET  Z, 0" ∷ "        PUSH_D Z" ∷ "        JMP  NEXTREG" ∷ "ZL_TRUE:"
      ∷ "        SET  Z, -1           ; Forth true = -1 (all bits set)" ∷ "        PUSH_D Z"
      ∷ "        JMP  NEXTREG" ∷ []))
