-- ===== src/Tests/ReadingTests.antt =====
-- Threads that read the next token of the input, on a small dictionary.
use min_cpu_forth.Prelude.{ℕ, ◌<◌, ◌≤◌, ◌≡◌, ◌⊎◌, refl, [], ◌∷◌, arith}
use min_cpu_forth.Prelude.Int.{ℤ, pos, negsuc, ◌+ℤ◌, ◌-ℤ◌, ◌*ℤ◌}
use min_cpu_forth.Registers
use min_cpu_forth.Registers.{RegisterFile}
use min_cpu_forth.Dictionary.Chain.{Entry, Chain}
use min_cpu_forth.Kernel.Reading.{Reads, Input, look_up, read_number}
use min_cpu_forth.Kernel.Words.{World, data_is}
use min_cpu_forth.Kernel.Words.Inner.{AtNext}
use min_cpu_forth.Kernel.Words.Threads.{Invokes, Threads}
use min_cpu_forth.Kernel.Words.Scan.{fed, with_cells}
use min_cpu_forth.Kernel.Words.Digits.{number_value, digits_value}
use min_cpu_forth.Kernel.Words.Names.{same_name}
use min_cpu_forth.Kernel.Words.Headers.{matches, search}
use min_cpu_forth.Tests.Data.{put, world}

-- The code fields of `LIT`, `WORD`, `FIND` and `NUMBER` from cell 20 on, the threads at cells 40 and 50,
-- and the header of a word `A` at cell 60.
abbrev reading_cells : ℕ → ℤ
reading_cells = put (pos 12 ∷ pos 278 ∷ pos 304 ∷ pos 216 ∷ []) 20 (
    put (pos 20 ∷ pos 32 ∷ pos 21 ∷ pos 22 ∷ []) 40 (
      put (pos 20 ∷ pos 32 ∷ pos 21 ∷ pos 23 ∷ []) 50 (
        put (pos 0 ∷ pos 0 ∷ pos 0 ∷ pos 1 ∷ pos 65 ∷ pos 19 ∷ []) 60
          (put (pos 66 ∷ pos 63 ∷ []) 0 (λ _. pos 0)))))

abbrev reading : World
reading = record world { cells = reading_cells }

there :
    {ip cfa : ℕ} {index : ℤ}
    → ip < 2048
    → cfa < 2048
    → reading_cells ip ≡ pos cfa
    → reading_cells cfa ≡ index
    → Invokes reading_cells ip cfa index
there lt lt' e e' = record { in_thread = lt; in_block = lt'; cell = e; code_field = e' }

find_thread : Reads reading_cells 40 (pos 32) (pos 304)
find_thread = record {
  lit_cfa = 20;
  word_cfa = 21;
  last_cfa = 22;
  literal = there (omega arith) (omega arith) refl refl;
  delimiter = refl;
  token = there (omega arith) (omega arith) refl refl;
  last = there (omega arith) (omega arith) refl refl;
  thread_low = omega arith;
  last_low = omega arith;
}

number_thread : Reads reading_cells 50 (pos 32) (pos 216)
number_thread = record {
  lit_cfa = 20;
  word_cfa = 21;
  last_cfa = 23;
  literal = there (omega arith) (omega arith) refl refl;
  delimiter = refl;
  token = there (omega arith) (omega arith) refl refl;
  last = there (omega arith) (omega arith) refl refl;
  thread_low = omega arith;
  last_low = omega arith;
}

-- ` A B`, and `-7 `
spaced_a : Input (pos 32) (pos 32 ∷ pos 65 ∷ pos 32 ∷ pos 66 ∷ []) (pos 65) [] (pos 66 ∷ [])
spaced_a = record {
  skip = pos 32 ∷ [];
  stop = pos 32;
  is_at = refl;
  skipped = (refl, tt);
  kept = (refl, tt);
  stops = refl;
  fits = omega arith;
}

minus_seven : Input (pos 32) (pos 45 ∷ pos 55 ∷ pos 32 ∷ []) (pos 45) (pos 55 ∷ []) []
minus_seven = record {
  skip = [];
  stop = pos 32;
  is_at = refl;
  skipped = tt;
  kept = (refl, (refl, tt));
  stops = refl;
  fits = omega arith;
}

abbrev entry : Entry
entry = record { start = 60; immediate = pos 0; smudge = pos 0; name = 65 ∷ [] }

entry-Chain : Chain reading_cells (pos 63) (entry ∷ [])
entry-Chain = (
  refl,
  record { immediate = refl; smudge = refl; name = (refl, (refl, tt)); fits = omega arith },
  refl,
)

abbrev at : ℕ → RegisterFile
at ip = Registers.write (Registers.write Registers.unset "IP" (pos ip)) "NEXTREG" (pos 3)

at-AtNext : (ip : ℕ) → AtNext ip (at ip)
unfolding Registers.write
at-AtNext ip = record { thread = refl; back = refl }

look_up_example :
    (cells' : ℕ → ℤ) × Threads
      (at 40)
      (fed (data_is reading [] 1024) (pos 32 ∷ pos 65 ∷ pos 32 ∷ pos 66 ∷ []))
      44
      (data_is (with_cells (fed reading (pos 66 ∷ [])) cells') (negsuc 0 ∷ pos 65 ∷ []) 1022)
    × ((j : ℕ) → (j < 1984) ⊎ (1986 ≤ j) → cells' j ≡ reading_cells j)
unfolding search matches same_name
look_up_example =
    look_up reading 40 (pos 32) (pos 65) (pos 32 ∷ pos 65 ∷ pos 32 ∷ pos 66 ∷ []) [] (pos 66 ∷ [])
      [] 1022 66 (entry ∷ []) (at 40) find_thread spaced_a entry-Chain
      (omega arith, omega arith, tt) (omega arith) (at-AtNext 40)

read_number_example :
    (cells' : ℕ → ℤ) × Threads
      (at 50)
      (fed (data_is reading [] 1024) (pos 45 ∷ pos 55 ∷ pos 32 ∷ []))
      54
      (data_is (with_cells (fed reading []) cells') (pos 1 ∷ negsuc 6 ∷ []) 1022)
    × ((j : ℕ) → (j < 1984) ⊎ (1987 ≤ j) → cells' j ≡ reading_cells j)
unfolding number_value digits_value ◌+ℤ◌ ◌-ℤ◌ ◌*ℤ◌
read_number_example =
    read_number reading 50 (pos 32) (pos 45) (pos 45 ∷ pos 55 ∷ pos 32 ∷ []) (pos 55 ∷ []) [] []
      1022 (at 50) number_thread minus_seven (at-AtNext 50)
