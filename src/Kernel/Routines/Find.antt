-- ===== src/Kernel/Routines/Find.antt =====
-- services/kernel/routines.py: the words FIND, as the text of the table.
use min_cpu_forth.Prelude.{[], ◌∷◌}
use Prim.Native.String.{◌++◌}
use min_cpu_forth.Layout.{latest_addr}
use min_cpu_forth.Kernel.Routines.Table.{
  KernelPrimitive, primitive, unlines, decimal, immediate_from_name_field, link_from_name_field,
  smudge_from_name_field,
}

abbrev pub find : KernelPrimitive
find = primitive "FIND" "FIND" (
    unlines (
      ""
      ∷ "FIND:"
      ∷ "        POP_D NAMEADDR       ; ( c-addr -- xt flag )  1 = immediate, -1 = normal, 0 = not found"
      ∷ "        LOAD SLEN, NAMEADDR"
      ∷ ("        SET  T, " ++ decimal latest_addr)
      ∷ "        LOAD CUR, T          ; CUR = LATEST (newest word's name field)"
      ∷ "FIND_LOOP:"
      ∷ "        JZ   CUR, FIND_NOTFOUND"
      ∷ "        MOV  T, CUR"
      ∷ ("        SUB  T, " ++ decimal smudge_from_name_field)
      ∷ "        LOAD SMUDGE, T       ; skip smudged (hidden, mid-compile) words"
      ∷ "        JZ   SMUDGE, FIND_VISIBLE"
      ∷ "        SET  R, FIND_NEXT"
      ∷ "        JMP  R"
      ∷ "FIND_VISIBLE:"
      ∷ "        LOAD WLEN, CUR"
      ∷ "        MOV  T, WLEN"
      ∷ "        SUB  T, SLEN"
      ∷ "        JZ   T, FIND_CMP     ; lengths equal -> compare names"
      ∷ "        SET  R, FIND_NEXT"
      ∷ "        JMP  R"
      ∷ "FIND_CMP:"
      ∷ "        MOV  WPTR, CUR"
      ∷ "        ADD  WPTR, 1"
      ∷ "        MOV  SPTR, NAMEADDR"
      ∷ "        ADD  SPTR, 1"
      ∷ "        MOV  COUNT, SLEN"
      ∷ "FIND_CHARS:"
      ∷ "        JZ   COUNT, FIND_MATCH"
      ∷ "        LOAD WC, WPTR"
      ∷ "        LOAD SC, SPTR"
      ∷ "        MOV  T, WC"
      ∷ "        SUB  T, SC"
      ∷ "        JZ   T, FIND_CHAR_OK"
      ∷ "        SET  R, FIND_NEXT"
      ∷ "        JMP  R"
      ∷ "FIND_CHAR_OK:"
      ∷ "        ADD  WPTR, 1"
      ∷ "        ADD  SPTR, 1"
      ∷ "        SUB  COUNT, 1"
      ∷ "        SET  R, FIND_CHARS"
      ∷ "        JMP  R"
      ∷ "FIND_MATCH:"
      ∷ "        MOV  CFA, CUR"
      ∷ "        ADD  CFA, 1"
      ∷ "        ADD  CFA, WLEN       ; CFA = name field + 1 + length"
      ∷ "        PUSH_D CFA"
      ∷ "        MOV  T, CUR"
      ∷ ("        SUB  T, " ++ decimal immediate_from_name_field)
      ∷ "        LOAD IMM, T          ; the header's immediate flag"
      ∷ "        JZ   IMM, FIND_NORMAL"
      ∷ "        SET  FLAG, 1         ; immediate word"
      ∷ "        PUSH_D FLAG"
      ∷ "        JMP  NEXTREG"
      ∷ "FIND_NORMAL:"
      ∷ "        SUB  FLAG, FLAG"
      ∷ "        SUB  FLAG, 1         ; normal word -> -1"
      ∷ "        PUSH_D FLAG"
      ∷ "        JMP  NEXTREG"
      ∷ "FIND_NEXT:"
      ∷ "        MOV  T, CUR"
      ∷ ("        SUB  T, " ++ decimal link_from_name_field)
      ∷ "        LOAD CUR, T          ; CUR = link (previous name field)"
      ∷ "        SET  R, FIND_LOOP"
      ∷ "        JMP  R"
      ∷ "FIND_NOTFOUND:"
      ∷ "        SUB  T, T"
      ∷ "        PUSH_D T             ; xt = 0"
      ∷ "        PUSH_D T             ; flag = 0"
      ∷ "        JMP  NEXTREG"
      ∷ []))
