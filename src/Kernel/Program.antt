-- ===== src/Kernel/Program.antt =====
-- services/kernel/builder.py, the assembled program of `KernelBuilder.build`, and the listing that it
-- is: the proofs about routines fetch from the listing.
pub mod Notation
mod Core
mod Stack
mod Arithmetic
mod Memory
mod Compare
mod Bits
mod Number
mod Word
mod Find
use min_cpu_forth.Prelude.{String, ◌≡◌, refl, List, [], ◌∷◌, ◌++◌}
use min_cpu_forth.Prelude.Int.{ℤ, pos}
use min_cpu_forth.Errors.{Result, ok, err}
use min_cpu_forth.Domain.{Instruction, Assembly, Labels}
use min_cpu_forth.Assembler.{assemble}
use min_cpu_forth.Kernel.Routines.{kernel_source}
use Core.{start_code, next_code, enter_code}
use Stack.{
  lit_code, exit_code, bye_code, dup_code, drop_code, swap_code, over_code, rot_code, nrot_code,
  nip_code, tuck_code,
}
use Arithmetic.{plus_code, minus_code, mul_code, negate_code, abs_code, oneplus_code, oneminus_code}
use Memory.{fetch_code, storew_code, cfetch_code, cstorew_code, tor_code, fromr_code, rfetch_code}
use Compare.{equals_code, notequals_code, lessthan_code, greaterthan_code, zeroeq_code, zerolt_code}
use Bits.{bitand_code, bitor_code, bitinvert_code, key_code, emit_code}
use Number.{number_code}
use Word.{word_code}
use Find.{find_code}

abbrev program_of : Result Assembly → List Instruction
program_of (ok assembly) = assembly.program
program_of (err e) = []

-- `self._assembler.assemble(KERNEL_SOURCE).program`
pub kernel_program : List Instruction
unfolding assemble
kernel_program = program_of (assemble kernel_source)

abbrev pub listing : List Instruction
listing =
    start_code
    ++ (next_code
        ++ (enter_code
            ++ (lit_code
                ++ (exit_code
                    ++ (bye_code
                        ++ (dup_code
                            ++ (drop_code
                                ++ (swap_code
                                    ++ (over_code
                                        ++ (rot_code
                                            ++ (nrot_code
                                                ++ (nip_code
                                                    ++ (tuck_code
                                                        ++ (plus_code
                                                            ++ (minus_code
                                                            ++ (mul_code
                                                            ++ (negate_code
                                                            ++ (abs_code
                                                            ++ (oneplus_code
                                                            ++ (oneminus_code
                                                            ++ (fetch_code
                                                            ++ (storew_code
                                                            ++ (cfetch_code
                                                            ++ (cstorew_code
                                                            ++ (tor_code
                                                            ++ (fromr_code
                                                            ++ (rfetch_code
                                                            ++ (equals_code
                                                            ++ (notequals_code
                                                            ++ (lessthan_code
                                                            ++ (greaterthan_code
                                                            ++ (zeroeq_code
                                                            ++ (zerolt_code
                                                            ++ (bitand_code
                                                            ++ (bitor_code
                                                            ++ (bitinvert_code
                                                            ++ (key_code
                                                            ++ (emit_code
                                                            ++ (number_code
                                                            ++ (word_code ++ (find_code)))))))))))))
                                                            ))))))))))))))))))))))))))))

abbrev pub listing_labels : Labels
listing_labels =
    ("START", pos 0)
    ∷ ("NEXT", pos 3)
    ∷ ("ENTER", pos 7)
    ∷ ("LIT", pos 12)
    ∷ ("EXIT", pos 16)
    ∷ ("BYE", pos 18)
    ∷ ("DUP", pos 19)
    ∷ ("DROP", pos 23)
    ∷ ("SWAP", pos 25)
    ∷ ("OVER", pos 30)
    ∷ ("ROT", pos 36)
    ∷ ("NROT", pos 43)
    ∷ ("NIP", pos 50)
    ∷ ("TUCK", pos 54)
    ∷ ("PLUS", pos 60)
    ∷ ("MINUS", pos 65)
    ∷ ("MUL", pos 70)
    ∷ ("MUL_LOOP", pos 73)
    ∷ ("MUL_DONE", pos 79)
    ∷ ("NEGATE", pos 81)
    ∷ ("ABS", pos 86)
    ∷ ("ABS_NEG", pos 90)
    ∷ ("ONEPLUS", pos 94)
    ∷ ("ONEMINUS", pos 98)
    ∷ ("FETCH", pos 102)
    ∷ ("STOREW", pos 106)
    ∷ ("CFETCH", pos 110)
    ∷ ("CSTOREW", pos 114)
    ∷ ("TOR", pos 118)
    ∷ ("FROMR", pos 121)
    ∷ ("RFETCH", pos 124)
    ∷ ("EQUALS", pos 128)
    ∷ ("EQ_TRUE", pos 136)
    ∷ ("NOTEQUALS", pos 140)
    ∷ ("NE_FALSE", pos 148)
    ∷ ("LESSTHAN", pos 152)
    ∷ ("LT_TRUE", pos 160)
    ∷ ("GREATERTHAN", pos 164)
    ∷ ("GT_TRUE", pos 172)
    ∷ ("ZEROEQ", pos 176)
    ∷ ("ZE_TRUE", pos 182)
    ∷ ("ZEROLT", pos 186)
    ∷ ("ZL_TRUE", pos 192)
    ∷ ("BITAND", pos 196)
    ∷ ("BITOR", pos 201)
    ∷ ("BITINVERT", pos 206)
    ∷ ("KEY", pos 210)
    ∷ ("EMIT", pos 213)
    ∷ ("NUMBER", pos 216)
    ∷ ("NUM_NEG", pos 230)
    ∷ ("NUM_LOOP", pos 235)
    ∷ ("NUM_DIGIT_OK", pos 248)
    ∷ ("NUM_DONE", pos 264)
    ∷ ("NUM_PUSH", pos 269)
    ∷ ("NUM_FAIL", pos 274)
    ∷ ("WORD", pos 278)
    ∷ ("WORD_SKIP", pos 279)
    ∷ ("WORD_COLLECT", pos 288)
    ∷ ("WORD_END", pos 299)
    ∷ ("FIND", pos 304)
    ∷ ("FIND_LOOP", pos 309)
    ∷ ("FIND_VISIBLE", pos 318)
    ∷ ("FIND_CMP", pos 326)
    ∷ ("FIND_CHARS", pos 334)
    ∷ ("FIND_CHAR_OK", pos 344)
    ∷ ("FIND_MATCH", pos 350)
    ∷ ("FIND_NORMAL", pos 364)
    ∷ ("FIND_NEXT", pos 368)
    ∷ ("FIND_NOTFOUND", pos 375)
    ∷ []

-- The kernel's source assembles, to the listing and the table of labels.
pub kernel_source-assembles :
    assemble kernel_source ≡ ok (record { program = listing; labels = listing_labels })
unfolding assemble
kernel_source-assembles = refl

pub kernel_program-listing : kernel_program ≡ listing
unfolding kernel_program
kernel_program-listing = refl
