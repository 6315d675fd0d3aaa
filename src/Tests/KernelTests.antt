-- ===== src/Tests/KernelTests.antt =====
-- The kernel on small inputs.
use min_cpu_forth.Prelude.{ℕ, ◌+◌, ◌<◌, ◌≡◌, refl, [], ◌∷◌, arith, true, some}
use min_cpu_forth.Prelude.Int.{ℤ, pos, negsuc, ◌+ℤ◌, ◌-ℤ◌, ◌*ℤ◌}
use min_cpu_forth.Errors.{ok, err, emulator_error}
use min_cpu_forth.Memory.{Memory, update}
use min_cpu_forth.Registers
use min_cpu_forth.Registers.{RegisterFile}
use min_cpu_forth.Emulator.{run}
use min_cpu_forth.Emulator.Spec.{Abstract}
use min_cpu_forth.Emulator.Shows.{concrete, Shows}
use min_cpu_forth.Kernel.Program.{kernel_program, listing_labels}
use min_cpu_forth.Kernel.Words.{World, data_is, machine_at, Does}
use min_cpu_forth.Kernel.Words.StackWords.{dup-Does, return_words}
use min_cpu_forth.Kernel.Words.ArithmeticWords.{plus-Does}
use min_cpu_forth.Kernel.Words.Inner.{
  return_is, Leads, AtNext, AtRoutine, next_lem, enter_lem, exit_lem, lit_lem,
}
use min_cpu_forth.Kernel.Words.Threads.{
  Invokes, Steps, Threads, lit, enter, exit, primitive, done, then, Steps-Threads,
}
use min_cpu_forth.CharacterIo.{put_code}
use min_cpu_forth.Assembler.Specs.{lookup}
use min_cpu_forth.Forth.StackWords
use min_cpu_forth.Forth.StackWords.{stack_word, binop}
use min_cpu_forth.Kernel.Agreement
use min_cpu_forth.Kernel.Agreement.{shared_word-Follows, test_word-Flags}
use min_cpu_forth.Kernel.Words.Multiply.{mul-Does}
use min_cpu_forth.Kernel.Words.Runaway.{mul-runaway}
use min_cpu_forth.Kernel.Words.MemoryWords.{fetch-Does, store_word-Does, key-Does, emit-Does}
use min_cpu_forth.Kernel.Boot.{boot, world_of, boot-run}
use min_cpu_forth.Tests.Data.{memory, machine, world, thread_cells, memory-Shows, empty}

abbrev five : World
five = data_is world (pos 5 ∷ []) 1023

abbrev ten : World
ten = data_is world (pos 10 ∷ []) 1023

there :
    {ip cfa : ℕ} {index : ℤ}
    → ip < 2048
    → cfa < 2048
    → thread_cells ip ≡ pos cfa
    → thread_cells cfa ≡ index
    → Invokes thread_cells ip cfa index
there lt lt' e e' = record { in_thread = lt; in_block = lt'; cell = e; code_field = e' }

double : Steps 40 world 43 ten
unfolding ◌+ℤ◌
double = then (lit world 20 [] 1023 (there (omega arith) (omega arith) refl refl) (omega arith)) (
    then (enter five 24 [] 1023 (there (omega arith) (omega arith) refl refl)) (
      then
        (primitive 21 (pos 19) (there (omega arith) (omega arith) refl refl)
          (λ r. (4, dup-Does r (return_is five (pos 43 ∷ []) 1023) (pos 5) [] 1022)))
        (then
          (primitive 22 (pos 60) (there (omega arith) (omega arith) refl refl)
            (λ r. (5, plus-Does r (return_is five (pos 43 ∷ []) 1023) (pos 5) (pos 5) [] 1022)))
          (then (exit ten 28 43 [] 1023 (there (omega arith) (omega arith) refl refl)) done))))

-- The booted thread comes to its `BYE` with 10 on the stack.
boot-run_example :
    (n : ℕ) × (final : Abstract) × (memory' : Memory) × ((budget : ℕ)
      → run (n + budget) (
          boot
            (record { program = kernel_program; word_cfas = []; boot_ip = pos 40 })
            (concrete machine memory []))
        ≡ (ok tt, concrete final memory' kernel_program))
    × (final.halted ≡ true)
    × (world_of final ≡ ten)
    × Shows memory' ten.cells ten.data_stack ten.return_stack
boot-run_example =
    boot-run machine memory [] [] 40 43 23 ten memory-Shows double
      (there (omega arith) (omega arith) refl refl)

abbrev at_next : RegisterFile
at_next = Registers.write (Registers.write Registers.unset "IP" (pos 40)) "NEXTREG" (pos 3)

at_next-AtNext : AtNext 40 at_next
unfolding Registers.write
at_next-AtNext = record { thread = refl; back = refl }

Steps-Threads_example : Threads at_next world 43 ten
Steps-Threads_example = Steps-Threads at_next at_next-AtNext double

abbrev at_word : RegisterFile
at_word = Registers.write (Registers.write at_next "IP" (pos 41)) "W" (pos 20)

at_word-AtRoutine : AtRoutine 41 20 at_word
unfolding Registers.write
at_word-AtRoutine = record { next = record { thread = refl; back = refl }; word = refl }

next_lem_example : Leads kernel_program (pos 3) 4 at_next world (pos 12) world (AtRoutine 41 20)
next_lem_example =
    next_lem at_next world 40 20 (pos 12) at_next-AtNext (omega arith) (omega arith) refl refl

enter_lem_example :
    Leads kernel_program
      (pos 7)
      5
      at_word
      world
      (pos 3)
      (return_is world (pos 41 ∷ []) 1023)
      (AtNext 21)
enter_lem_example = enter_lem at_word world 41 20 [] 1023 at_word-AtRoutine

exit_lem_example :
    Leads kernel_program
      (pos 16)
      2
      at_word
      (return_is world (pos 43 ∷ []) 1023)
      (pos 3)
      world
      (AtNext 43)
exit_lem_example = exit_lem at_word world 41 20 43 [] 1023 at_word-AtRoutine

lit_lem_example : Leads kernel_program (pos 12) 4 at_word world (pos 3) five (AtNext 42)
lit_lem_example = lit_lem at_word world 41 20 [] 1023 at_word-AtRoutine (omega arith)

shared_word-Follows_example :
    (lookup "TUCK" listing_labels ≡ some (pos 54))
    × ((n : ℕ) × ((r : RegisterFile)
          → Does
              (pos 54)
              n
              r
              (data_is world (pos 2 ∷ pos 1 ∷ []) 1022)
              (data_is world (pos 2 ∷ pos 1 ∷ pos 2 ∷ []) 1021)))
unfolding stack_word StackWords.word_tuck
shared_word-Follows_example =
    shared_word-Follows (data_is world (pos 2 ∷ pos 1 ∷ []) 1022) Agreement.tuck

test_word-Flags_example :
    (lookup "LESSTHAN" listing_labels ≡ some (pos 152))
    × ((n : ℕ) × ((r : RegisterFile)
          → Does
              (pos 152)
              n
              r
              (data_is world (pos 2 ∷ pos 1 ∷ []) 1022)
              (data_is world (negsuc 0 ∷ []) 1023)))
unfolding stack_word binop ◌-ℤ◌
test_word-Flags_example = test_word-Flags (data_is world (pos 2 ∷ pos 1 ∷ []) 1022) Agreement.less

mul-Does_example :
    Does
      (pos 70)
      24
      Registers.unset
      (data_is world (pos 3 ∷ negsuc 1 ∷ []) 1022)
      (data_is world (negsuc 5 ∷ []) 1023)
unfolding ◌*ℤ◌
mul-Does_example = mul-Does Registers.unset world (negsuc 1) 3 [] 1022

abbrev negative_shown : Memory
negative_shown = record memory { cells = update (update thread_cells 3070 (negsuc 0)) 3071 (pos 2) }

negative_shown-Shows :
    Shows negative_shown thread_cells (record { items = negsuc 0 ∷ pos 2 ∷ []; room = 1022 }) empty
negative_shown-Shows = record {
  size = omega arith;
  block = λ n h. ground arith;
  data_fills = refl;
  data_at = (refl, (refl, tt));
  return_fills = refl;
  return_at = tt;
}

mul-runaway_example :
    (run 100000 (
      concrete
        (machine_at (pos 70) Registers.unset (data_is world (negsuc 0 ∷ pos 2 ∷ []) 1022))
        negative_shown
        kernel_program)).0
    ≡ err emulator_error
mul-runaway_example =
    mul-runaway Registers.unset world (pos 2) 0 [] 1022 negative_shown 100000 negative_shown-Shows

return_words_example :
    Does (pos 118) 3 Registers.unset five (return_is world (pos 5 ∷ []) 1023)
    × Does (pos 121) 3 Registers.unset (return_is world (pos 5 ∷ []) 1023) five
    × Does
        (pos 124)
        4
        Registers.unset
        (return_is world (pos 5 ∷ []) 1023)
        (return_is five (pos 5 ∷ []) 1023)
return_words_example = return_words Registers.unset world (pos 5) [] [] 1023 1023

fetch-Does_example : Does (pos 102) 4 Registers.unset (data_is world (pos 41 ∷ []) 1023) five
fetch-Does_example = fetch-Does Registers.unset world 41 [] 1023 (omega arith)

store_word-Does_example :
    Does
      (pos 106)
      4
      Registers.unset
      (data_is world (pos 50 ∷ pos 9 ∷ []) 1022)
      (record world { cells = update thread_cells 50 (pos 9) })
store_word-Does_example = store_word-Does Registers.unset world 50 (pos 9) [] 1022 (omega arith)

key-Does_example : Does (pos 210) 3 Registers.unset (record world { char_input = pos 5 ∷ [] }) five
key-Does_example = key-Does Registers.unset world (pos 5) [] [] 1023

emit-Does_example :
    Does (pos 213) 3 Registers.unset five (record world { char_output = pos 5 ∷ [] })
unfolding put_code
emit-Does_example = emit-Does Registers.unset world (pos 5) [] 1023
