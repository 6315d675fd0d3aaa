-- ===== src/Kernel/Routines.antt =====
-- services/kernel/routines.py: the threading core, the table of primitives, and the kernel's source.
mod Table
mod Control
mod Stack
mod Arithmetic
mod Memory
mod Compare
mod Number
mod Word
mod Find
use Prim.Native.String.{◌++◌ as str_append}
use min_cpu_forth.Prelude.{String, List, [], ◌∷◌, map}
use min_cpu_forth.Domain.{CodeWord}
pub use Table.{KernelPrimitive}
use Table.{unlines}
use Control.{lit, exit, bye}
use Stack.{dup, drop, swap, over, rot, nrot, nip, tuck, to_r, from_r, r_fetch}
use Arithmetic.{plus, minus, mul, negate, abs, one_plus, one_minus, bit_and, bit_or, bit_invert}
use Memory.{fetch, store_word, c_fetch, c_store, key, emit}
use Compare.{equals, not_equals, less_than, greater_than, zero_eq, zero_lt}
use Number.{number}
use Word.{word}
use Find.{find}

abbrev pub enter_label : String
enter_label = "ENTER"

abbrev pub core_source : String
core_source = unlines (
    "" ∷ "START:" ∷ "        SET  NEXTREG, NEXT   ; hold NEXT's program index for the whole run"
    ∷ "        JMP  NEXTREG" ∷ "" ∷ "NEXT:"
    ∷ "        LOAD W, IP           ; W := mem[IP]        (W = CFA)"
    ∷ "        ADD  IP, 1           ; advance the thread pointer (CELL = 1)"
    ∷ "        LOAD XT, W           ; XT := mem[W]        (code-field value = program index)"
    ∷ "        JMP  XT              ; tail-jump into the primitive" ∷ "" ∷ "ENTER:"
    ∷ "        PUSH_R IP            ; save the caller's IP"
    ∷ "        ADD  W, 1            ; W := CFA + 1 = parameter-field address"
    ∷ "        MOV  IP, W           ; IP := parameter field" ∷ "        JMP  NEXTREG" ∷ [])

-- `PRIMITIVES`
abbrev pub primitives : List KernelPrimitive
primitives =
    lit ∷ exit ∷ bye ∷ dup ∷ drop ∷ swap ∷ over ∷ rot ∷ nrot ∷ nip ∷ tuck ∷ plus ∷ minus ∷ mul
    ∷ negate ∷ abs ∷ one_plus ∷ one_minus ∷ fetch ∷ store_word ∷ c_fetch ∷ c_store ∷ to_r ∷ from_r
    ∷ r_fetch ∷ equals ∷ not_equals ∷ less_than ∷ greater_than ∷ zero_eq ∷ zero_lt ∷ bit_and
    ∷ bit_or ∷ bit_invert ∷ key ∷ emit ∷ number ∷ word ∷ find ∷ []

abbrev sources : List KernelPrimitive → String
sources [] = String.[]
sources (p ∷ ps) = str_append p.source (sources ps)

-- `KERNEL_SOURCE`
abbrev pub kernel_source : String
kernel_source = str_append core_source (sources primitives)

-- `CODE_WORDS`
abbrev pub code_words : List CodeWord
code_words = map (λ p. p.word) primitives
