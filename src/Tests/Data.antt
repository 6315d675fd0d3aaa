-- ===== src/Tests/Data.antt =====
-- A memory with the thread `LIT 5 DOUBLE BYE`, and a colon word `DOUBLE` that is `DUP + EXIT`.
use min_cpu_forth.Prelude.{ℕ, suc, refl, false, List, [], ◌∷◌, arith}
use min_cpu_forth.Prelude.Int.{ℤ, pos}
use min_cpu_forth.Registers
use min_cpu_forth.Layout.{memory_size}
use min_cpu_forth.Memory.{Memory, update}
use min_cpu_forth.Stack.View.{View}
use min_cpu_forth.Emulator.Spec.{Abstract}
use min_cpu_forth.Emulator.Shows.{Shows}
use min_cpu_forth.Kernel.Words.{World}

-- Values in the cells from one on.
abbrev pub put : List ℤ → ℕ → (ℕ → ℤ) → ℕ → ℤ
put [] p cells = cells
put (x ∷ xs) p cells = put xs (suc p) (update cells p x)

-- Code fields from cell 20 on, `DOUBLE` from cell 24 on, and the thread from cell 40 on.
abbrev pub thread_cells : ℕ → ℤ
thread_cells = store 20 12 (
    store 21 19 (
      store 22 60 (
        store 23 18 (
          store 24 7 (
            store 25 21 (
              store 26 22 (
                store 27 28 (
                  store 28 16
                    (store 40 20 (store 41 5 (store 42 24 (store 43 23 λ _. pos 0))))))))))))
  where
    store : ℕ → ℕ → (ℕ → ℤ) → ℕ → ℤ
    store address value cells = update cells address (pos value)

abbrev pub memory : Memory
memory = record { size = memory_size; cells = thread_cells }

abbrev pub empty : View
empty = record { items = []; room = 1024 }

-- The world of that memory, with empty stacks.
abbrev pub world : World
world = record {
  cells = thread_cells;
  data_stack = empty;
  return_stack = empty;
  char_input = [];
  char_output = [];
}

abbrev pub machine : Abstract
machine = record {
  registers = Registers.unset;
  cells = thread_cells;
  data_stack = empty;
  return_stack = empty;
  char_input = [];
  char_output = [];
  pc = pos 0;
  halted = false;
}

pub memory-Shows : Shows memory thread_cells empty empty
memory-Shows = record {
  size = omega arith;
  block = λ n h. refl;
  data_fills = refl;
  data_at = tt;
  return_fills = refl;
  return_at = tt;
}
