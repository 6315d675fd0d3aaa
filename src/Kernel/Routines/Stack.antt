-- ===== src/Kernel/Routines/Stack.antt =====
-- services/kernel/routines.py: the words DUP DROP SWAP OVER ROT -ROT NIP TUCK >R R> R@, as the text of the table.
use min_cpu_forth.Prelude.{[], ◌∷◌}
use min_cpu_forth.Kernel.Routines.Table.{KernelPrimitive, primitive, unlines}

abbrev pub dup : KernelPrimitive
dup = primitive "DUP" "DUP" (
    unlines (
      "" ∷ "DUP:" ∷ "        POP_D X              ; ( a -- a a )" ∷ "        PUSH_D X"
      ∷ "        PUSH_D X" ∷ "        JMP  NEXTREG" ∷ []))

abbrev pub drop : KernelPrimitive
drop = primitive "DROP" "DROP" (
    unlines
      ("" ∷ "DROP:" ∷ "        POP_D X              ; ( a -- )" ∷ "        JMP  NEXTREG" ∷ []))

abbrev pub swap : KernelPrimitive
swap = primitive "SWAP" "SWAP" (
    unlines (
      "" ∷ "SWAP:" ∷ "        POP_D X              ; ( a b -- b a )" ∷ "        POP_D Y"
      ∷ "        PUSH_D X" ∷ "        PUSH_D Y" ∷ "        JMP  NEXTREG" ∷ []))

abbrev pub over : KernelPrimitive
over = primitive "OVER" "OVER" (
    unlines (
      "" ∷ "OVER:" ∷ "        POP_D X              ; ( a b -- a b a )" ∷ "        POP_D Y"
      ∷ "        PUSH_D Y" ∷ "        PUSH_D X" ∷ "        PUSH_D Y" ∷ "        JMP  NEXTREG" ∷ []))

abbrev pub rot : KernelPrimitive
rot = primitive "ROT" "ROT" (
    unlines (
      "" ∷ "ROT:" ∷ "        POP_D X              ; ( a b c -- b c a )" ∷ "        POP_D Y"
      ∷ "        POP_D Z" ∷ "        PUSH_D Y" ∷ "        PUSH_D X" ∷ "        PUSH_D Z"
      ∷ "        JMP  NEXTREG" ∷ []))

abbrev pub nrot : KernelPrimitive
nrot = primitive "-ROT" "NROT" (
    unlines (
      "" ∷ "NROT:" ∷ "        POP_D X              ; ( a b c -- c a b )" ∷ "        POP_D Y"
      ∷ "        POP_D Z" ∷ "        PUSH_D X" ∷ "        PUSH_D Z" ∷ "        PUSH_D Y"
      ∷ "        JMP  NEXTREG" ∷ []))

abbrev pub nip : KernelPrimitive
nip = primitive "NIP" "NIP" (
    unlines (
      "" ∷ "NIP:" ∷ "        POP_D X              ; ( a b -- b )" ∷ "        POP_D Y"
      ∷ "        PUSH_D X" ∷ "        JMP  NEXTREG" ∷ []))

abbrev pub tuck : KernelPrimitive
tuck = primitive "TUCK" "TUCK" (
    unlines (
      "" ∷ "TUCK:" ∷ "        POP_D X              ; ( a b -- b a b )" ∷ "        POP_D Y"
      ∷ "        PUSH_D X" ∷ "        PUSH_D Y" ∷ "        PUSH_D X" ∷ "        JMP  NEXTREG" ∷ []))

abbrev pub to_r : KernelPrimitive
to_r = primitive ">R" "TOR" (
    unlines (
      "" ∷ "TOR:" ∷ "        POP_D X              ; ( a -- ) ( R: -- a )" ∷ "        PUSH_R X"
      ∷ "        JMP  NEXTREG" ∷ []))

abbrev pub from_r : KernelPrimitive
from_r = primitive "R>" "FROMR" (
    unlines (
      "" ∷ "FROMR:" ∷ "        POP_R X              ; ( R: a -- ) ( -- a )" ∷ "        PUSH_D X"
      ∷ "        JMP  NEXTREG" ∷ []))

abbrev pub r_fetch : KernelPrimitive
r_fetch = primitive "R@" "RFETCH" (
    unlines (
      "" ∷ "RFETCH:" ∷ "        POP_R X              ; ( R: a -- a ) ( -- a )" ∷ "        PUSH_R X"
      ∷ "        PUSH_D X" ∷ "        JMP  NEXTREG" ∷ []))
