-- ===== src/Tests/WordTests.antt =====
-- `WORD`, `NUMBER`, `FIND` and a whole calculation on small inputs, and the dictionary that they share.
use min_cpu_forth.Prelude.{
  ℕ, ◌+◌, ◌<◌, ◌≤◌, ◌≡◌, ◌⊎◌, refl, List, [], ◌∷◌, arith, true, false, Option, some,
}
use min_cpu_forth.Prelude.Int.{ℤ, pos, negsuc, ◌+ℤ◌, ◌-ℤ◌, ◌*ℤ◌}
use min_cpu_forth.Errors.{ok}
use min_cpu_forth.Effects.{◌>>◌}
use min_cpu_forth.Domain.{KernelImage}
use min_cpu_forth.Memory.{Memory}
use min_cpu_forth.Stack.View.{At}
use min_cpu_forth.Registers
use min_cpu_forth.Containers
use min_cpu_forth.Dictionary.Words.{Header, append_word, find, text_eq}
use min_cpu_forth.Dictionary.Chain.{Entry, Chain}
use min_cpu_forth.Dictionary.Invariant.{IsDictionary, append_word-IsDictionary}
use min_cpu_forth.Dictionary.Lookup.{find-Chain, first_named}
use min_cpu_forth.Emulator.{run}
use min_cpu_forth.Emulator.Spec.{Abstract}
use min_cpu_forth.Emulator.Shows.{concrete, Shows}
use min_cpu_forth.Forth.StackWords.{stack_word, binop}
use min_cpu_forth.Kernel.Agreement
use min_cpu_forth.Kernel.Boot.{boot}
use min_cpu_forth.Kernel.Builder.{build, boot_thread}
use min_cpu_forth.Kernel.Calculator.{Item, number, shared, test, texts}
use min_cpu_forth.Kernel.Calculator.Halts.{calculate, empty}
use min_cpu_forth.Kernel.Lookup.{find-told, told}
use min_cpu_forth.Kernel.Program.{kernel_program}
use min_cpu_forth.Kernel.Words.{World, data_is, Does}
use min_cpu_forth.Kernel.Words.Scan.{fed, with_cells}
use min_cpu_forth.Kernel.Words.Tokens.{word-Does}
use min_cpu_forth.Kernel.Words.Digits.{number_value, digits_value}
use min_cpu_forth.Kernel.Words.Numbers.{number-Does}
use min_cpu_forth.Kernel.Words.Names.{same_name}
use min_cpu_forth.Kernel.Words.Headers.{matches, search}
use min_cpu_forth.Kernel.Words.Finding.{find-Does}
use min_cpu_forth.Tests.Data.{put, world, thread_cells}

-- The text ` AB C`, and a space on the stack.
word-Does_example :
    (cells' : ℕ → ℤ) × ((n : ℕ) × Does
        (pos 278)
        n
        Registers.unset
        (fed (data_is world (pos 32 ∷ []) 1023) (pos 32 ∷ pos 65 ∷ pos 66 ∷ pos 32 ∷ pos 67 ∷ []))
        (data_is (with_cells (fed world (pos 67 ∷ [])) cells') (pos 1984 ∷ []) 1023))
    × At cells' 1984 (pos 2 ∷ pos 65 ∷ pos 66 ∷ [])
    × ((j : ℕ) → (j < 1984) ⊎ (1987 ≤ j) → cells' j ≡ thread_cells j)
word-Does_example =
    word-Does Registers.unset world (pos 32) (pos 65) (pos 32) (pos 32 ∷ []) (pos 66 ∷ [])
      (pos 67 ∷ []) [] 1023 (refl, tt) (refl, (refl, tt)) refl (omega arith)

-- The text `-12` from cell 100 on.
abbrev numbered : World
numbered = record world { cells = put (pos 3 ∷ pos 45 ∷ pos 49 ∷ pos 50 ∷ []) 100 thread_cells }

number-Does_example :
    (n : ℕ) × Does
      (pos 216)
      n
      Registers.unset
      (data_is numbered (pos 100 ∷ []) 1023)
      (data_is numbered (pos 1 ∷ negsuc 11 ∷ []) 1022)
unfolding number_value digits_value ◌+ℤ◌ ◌-ℤ◌ ◌*ℤ◌
number-Does_example =
    number-Does numbered [] 1022 Registers.unset 100 (pos 45 ∷ pos 49 ∷ pos 50 ∷ [])
      (refl, (refl, (refl, (refl, tt)))) (omega arith)

-- A dictionary with the word `A`, its header at cell 60, and the text `A` at cell 100.
abbrev word_cells : ℕ → ℤ
word_cells = put (pos 1 ∷ pos 65 ∷ []) 100 (
    put (pos 0 ∷ pos 0 ∷ pos 0 ∷ pos 1 ∷ pos 65 ∷ pos 19 ∷ []) 60
      (put (pos 66 ∷ pos 63 ∷ []) 0 (λ _. pos 0)))

abbrev word_memory : Memory
word_memory = record { size = 4096; cells = word_cells }

abbrev word_world : World
word_world = record world { cells = word_cells }

abbrev entry : Entry
entry = record { start = 60; immediate = pos 0; smudge = pos 0; name = 65 ∷ [] }

entry-Chain : Chain word_cells (pos 63) (entry ∷ [])
entry-Chain = (
  refl,
  record { immediate = refl; smudge = refl; name = (refl, (refl, tt)); fits = omega arith },
  refl,
)

word_memory-IsDictionary : IsDictionary word_memory 66 (entry ∷ [])
word_memory-IsDictionary = record {
  size = omega arith;
  low = omega arith;
  high = omega arith;
  dp = refl;
  chain = entry-Chain;
  within = (omega arith, omega arith, tt);
}

find-Does_example :
    (n : ℕ) × Does
      (pos 304)
      n
      Registers.unset
      (data_is word_world (pos 100 ∷ []) 1023)
      (data_is word_world (negsuc 0 ∷ pos 65 ∷ []) 1022)
unfolding search matches same_name
find-Does_example =
    find-Does word_world 100 (pos 65 ∷ []) (refl, (refl, tt)) (omega arith) [] 1022 Registers.unset
      (entry ∷ []) entry-Chain

find-Chain_example :
    find 1 word_memory (65 ∷ [])
    ≡ some (
        ok (
          some (record {
            name = 65 ∷ [];
            link = pos 0;
            immediate = false;
            smudge = false;
            cfa = pos 65;
          })))
unfolding first_named text_eq
find-Chain_example =
    find-Chain word_memory (omega arith) 1 (65 ∷ []) (entry ∷ []) entry-Chain
      ((omega arith, tt), tt) (omega arith)

find-told_example :
    (o : Option Header) × (find 1 word_memory (65 ∷ []) ≡ some (ok o))
    × ((n : ℕ) × Does
          (pos 304)
          n
          Registers.unset
          (data_is word_world (pos 100 ∷ []) 1023)
          (data_is word_world (told o []) 1022))
find-told_example =
    find-told word_memory word_world 66 (entry ∷ []) (65 ∷ []) 100 [] 1022 Registers.unset 1
      word_memory-IsDictionary ((omega arith, tt), tt) (refl, tt) (λ j lt. refl) (refl, (refl, tt))
      (omega arith) (omega arith)

append_word-IsDictionary_example :
    (m' : Memory) × (cfa : ℤ) × (append_word (66 ∷ []) (pos 7) (pos 65 ∷ []) true word_memory
      ≡ (ok cfa, m'))
    × (cfa ≡ pos 71)
    × IsDictionary m' 73
        (record { start = 66; immediate = pos 1; smudge = pos 0; name = 66 ∷ [] } ∷ entry ∷ [])
append_word-IsDictionary_example =
    append_word-IsDictionary word_memory 66 (entry ∷ []) (66 ∷ []) (pos 7) (pos 65 ∷ []) true
      word_memory-IsDictionary (omega arith)

abbrev items : List Item
items = number (pos 2) ∷ number (pos 3) ∷ shared Agreement.plus ∷ test Agreement.zero_equal ∷ []

-- `2 3 + 0=`
calculate_example :
    (image : KernelImage) × (m : Memory) × ((Containers.dictionary
          >> build [] (boot_thread (texts items)))
        Containers.memory
      ≡ (ok image, m))
    × (n : ℕ) × (final : Abstract) × (m' : Memory) × ((budget : ℕ)
        → run (n + budget) (boot image (Containers.emulator m))
          ≡ (ok tt, concrete final m' kernel_program))
    × (final.halted ≡ true)
    × (final.data_stack ≡ record { items = pos 0 ∷ []; room = 1023 })
    × (final.return_stack ≡ empty)
    × Shows m' final.cells (record { items = pos 0 ∷ []; room = 1023 }) empty
unfolding stack_word binop ◌+ℤ◌ ◌-ℤ◌
calculate_example = calculate items (record { items = pos 0 ∷ []; room = 1023 }) (omega arith) refl
