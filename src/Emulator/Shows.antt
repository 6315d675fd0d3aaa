-- ===== src/Emulator/Shows.antt =====
-- How a machine of the memory map stands for an abstract one, and what the relation gives for a
-- write into each part of the memory.
use min_cpu_forth.Prelude.{
  ℕ, suc, ◌+◌, ◌≤◌, ◌<◌, ◌≡◌, Option, none, some, List, ◌∷◌, length, arith, sym, subst,
}
use min_cpu_forth.Prelude.Int.{ℤ}
use min_cpu_forth.Errors.{Result, ok}
use min_cpu_forth.Domain.{Instruction}
use min_cpu_forth.Layout.{dictionary_size, data_stack_base, return_stack_base, memory_size}
use min_cpu_forth.Memory.{Memory, update}
use min_cpu_forth.Stack.View.{View, At, stack_at}
use min_cpu_forth.Stack.Refinement.{At-update, At-update_above, add-suc}
use min_cpu_forth.Emulator.State.{Machine}
use min_cpu_forth.Emulator.Spec.{Abstract}

-- The machine with the abstract one's registers, I/O, `pc` and stack pointers, over a memory.
abbrev pub concrete : Abstract → Memory → List Instruction → Machine
concrete s memory program = record {
  registers = s.registers;
  memory = memory;
  data_stack = stack_at dictionary_size data_stack_base s.data_stack.room;
  return_stack = stack_at data_stack_base return_stack_base s.return_stack.room;
  char_input = s.char_input;
  char_output = s.char_output;
  program = program;
  pc = s.pc;
  halted = s.halted;
}

-- The memory holds the dictionary block and the items of both stacks, each in its region.
pub record Shows (memory : Memory) (cells : ℕ → ℤ) (data_view return_view : View) : Type 0 where
  pub size : memory_size ≤ memory.size
  pub block : (n : ℕ) → n < dictionary_size → memory.cells n ≡ cells n
  pub data_fills : dictionary_size + data_view.room + length data_view.items ≡ data_stack_base
  pub data_at : At memory.cells (dictionary_size + data_view.room) data_view.items
  pub return_fills :
      data_stack_base + return_view.room + length return_view.items ≡ return_stack_base
  pub return_at : At memory.cells (data_stack_base + return_view.room) return_view.items

-- A run of the emulator has ended well in a machine that stands for the abstract one.
abbrev pub Simulates : List Instruction → Option Abstract → Result (Unit {0}) × Machine → Type 0
Simulates program none out = Unit
Simulates program (some s) out =
    (memory : Memory) × (out ≡ (ok tt, concrete s memory program))
    × Shows memory s.cells s.data_stack s.return_stack

abbrev view : List ℤ → ℕ → View
view xs k = record { items = xs; room = k }

module _ (memory : Memory) (cells : ℕ → ℤ) where
  -- A store into the dictionary block.
  pub Shows-store :
      (d r : View) (n : ℕ) (v : ℤ)
      → Shows memory cells d r
      → n < dictionary_size
      → Shows (record memory { cells = update memory.cells n v }) (update cells n v) d r
  Shows-store d r n v h lt = record {
    size = h.size;
    block = λ j lt'. ground (arith, h.block j lt');
    data_fills = h.data_fills;
    data_at = At-update memory.cells n _ v d.items (omega arith) h.data_at;
    return_fills = h.return_fills;
    return_at = At-update memory.cells n _ v r.items (omega arith) h.return_at;
  }

  -- A push writes the next free cell of its own region.
  pub Shows-push_data :
      (r : View) (xs : List ℤ) (k : ℕ) (v : ℤ)
      → Shows memory cells (view xs (suc k)) r
      → Shows
          (record memory { cells = update memory.cells (dictionary_size + k) v })
          cells
          (view (v ∷ xs) k)
          r
  Shows-push_data r xs k v h = record {
    size = h.size;
    block = λ j lt. ground (arith, h.block j lt);
    data_fills = omega (arith, h.data_fills);
    data_at = (
      ground arith,
      At-update memory.cells (dictionary_size + k) (suc (dictionary_size + k)) v xs (omega arith)
          (subst (λ p. At memory.cells p xs) (add-suc dictionary_size k) h.data_at),
    );
    return_fills = h.return_fills;
    return_at =
        At-update memory.cells (dictionary_size + k) _ v r.items (omega (arith, h.data_fills))
          h.return_at;
  }

  pub Shows-push_return :
      (d : View) (xs : List ℤ) (k : ℕ) (v : ℤ)
      → Shows memory cells d (view xs (suc k))
      → Shows
          (record memory { cells = update memory.cells (data_stack_base + k) v })
          cells
          d
          (view (v ∷ xs) k)
  Shows-push_return d xs k v h = record {
    size = h.size;
    block = λ j lt. ground (arith, h.block j lt);
    data_fills = h.data_fills;
    data_at =
        At-update_above memory.cells (data_stack_base + k) _ v d.items (omega (arith, h.data_fills))
          h.data_at;
    return_fills = omega (arith, h.return_fills);
    return_at = (
      ground arith,
      At-update memory.cells (data_stack_base + k) (suc (data_stack_base + k)) v xs (omega arith)
          (subst (λ p. At memory.cells p xs) (add-suc data_stack_base k) h.return_at),
    );
  }

  -- A pop frees the cell of the top item.
  pub Shows-pop_data :
      (r : View) (x : ℤ) (xs : List ℤ) (k : ℕ)
      → Shows memory cells (view (x ∷ xs) k) r
      → Shows memory cells (view xs (suc k)) r
  Shows-pop_data r x xs k h = record {
    size = h.size;
    block = h.block;
    data_fills = omega (arith, h.data_fills);
    data_at = subst (λ p. At memory.cells p xs) (sym (add-suc dictionary_size k)) h.data_at.1;
    return_fills = h.return_fills;
    return_at = h.return_at;
  }

  pub Shows-pop_return :
      (d : View) (x : ℤ) (xs : List ℤ) (k : ℕ)
      → Shows memory cells d (view (x ∷ xs) k)
      → Shows memory cells d (view xs (suc k))
  Shows-pop_return d x xs k h = record {
    size = h.size;
    block = h.block;
    data_fills = h.data_fills;
    data_at = h.data_at;
    return_fills = omega (arith, h.return_fills);
    return_at = subst (λ p. At memory.cells p xs) (sym (add-suc data_stack_base k)) h.return_at.1;
  }
