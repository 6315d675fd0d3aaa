-- ===== src/Emulator/Refinement.antt =====
-- The emulator implements the abstract machine: each handler, `step`, and runs of many steps.
use min_cpu_forth.Prelude.{
  ℕ, zero, suc, ◌+◌, ◌<◌, refl, Option, some, List, [], ◌∷◌, arith, Bool-cases, inl, inr, ltb,
  String,
}
use min_cpu_forth.Prelude.Int.{ℤ, pos, negsuc}
use min_cpu_forth.Domain
use min_cpu_forth.Domain.{Instruction, Opcode, Operand, reg, imm, absent}
use min_cpu_forth.Layout.{dictionary_size, data_stack_base, return_stack_base}
use min_cpu_forth.Memory.{Memory, update}
use min_cpu_forth.Memory.Laws.{read-pos, write-pos}
use min_cpu_forth.Stack.View.{push_view, pop_view}
use min_cpu_forth.Stack.{push, pop}
use min_cpu_forth.Stack.Refinement.{push-region, pop-region}
use min_cpu_forth.Emulator.State.{
  Machine, write_register, read_memory, write_memory, on_data_stack, on_return_stack, read_input,
}
use min_cpu_forth.Effects.{◌>>=◌}
use min_cpu_forth.Emulator.Handlers.{handler}
use min_cpu_forth.Emulator.Spec.{
  Abstract, effect, get, set_from, load_cell, store_cell, with_data, from_data, with_return,
  from_return, from_input,
}
use min_cpu_forth.Emulator.Shows.{
  concrete, Shows, Simulates, Shows-store, Shows-push_data, Shows-push_return, Shows-pop_data,
  Shows-pop_return,
}

abbrev instruction : Opcode → Option String → Operand → Option ℤ → Instruction
instruction op a b offset = record { opcode = op; a = a; b = b; offset = offset }

module _ (program : List Instruction) (memory : Memory) (s : Abstract) where
  abbrev start : Machine
  start = concrete s memory program

  abbrev Keeps : Type 0
  Keeps = Shows memory s.cells s.data_stack s.return_stack

  load-Simulates :
      (dst : String) (address : ℤ)
      → Keeps
      → Simulates program
          (set_from (load_cell s.cells address) dst s)
          ((read_memory address >>= write_register dst) start)
  unfolding read_memory write_register
  load-Simulates dst (pos n) h = elim (Bool-cases (ltb n dictionary_size)) [
    | inl lt ↦ rw lt (
      memory,
      let lt' : n < dictionary_size = ground arith in
          rw (read-pos memory n (omega (arith, h.size)), read_memory, h.block n lt'),
      h,
    )
    | inr ge ↦ rw ge tt
  ]
  load-Simulates dst (negsuc n) h = tt

  store-Simulates :
      (address value : ℤ)
      → Keeps
      → Simulates program (store_cell s address value) (write_memory address value start)
  unfolding write_memory
  store-Simulates (pos n) value h = elim (Bool-cases (ltb n dictionary_size)) [
    | inl lt ↦ rw lt (
      record memory { cells = update memory.cells n value },
      let lt' : n < dictionary_size = ground arith in
          rw (write-pos memory n value (omega (arith, h.size)), write_memory),
      Shows-store memory s.cells s.data_stack s.return_stack n value h (ground arith),
    )
    | inr ge ↦ rw ge tt
  ]
  store-Simulates (negsuc n) value h = tt

module _ (program : List Instruction) (memory : Memory) (s : Abstract) where
  abbrev data_start : List ℤ → ℕ → Abstract
  data_start xs k = record s { data_stack = record { items = xs; room = k } }

  push_data-Simulates :
      (x : ℤ) (xs : List ℤ) (k : ℕ)
      → Shows memory s.cells (record { items = xs; room = k }) s.return_stack
      → Simulates program
          (with_data s (push_view x (record { items = xs; room = k })))
          (on_data_stack (push x) (concrete (data_start xs k) memory program))
  push_data-Simulates x xs zero h = tt
  push_data-Simulates x xs (suc k) h = (
    record memory { cells = update memory.cells (dictionary_size + k) x },
    rw (
        push-region dictionary_size data_stack_base memory k x
          (omega (arith, h.size, h.data_fills))),
    Shows-push_data memory s.cells s.return_stack xs k x h,
  )

  pop_data-Simulates :
      (name : String) (xs : List ℤ) (k : ℕ)
      → Shows memory s.cells (record { items = xs; room = k }) s.return_stack
      → Simulates program
          (from_data name s (pop_view (record { items = xs; room = k })))
          ((on_data_stack pop >>= write_register name) (concrete (data_start xs k) memory program))
  unfolding write_register
  pop_data-Simulates name [] k h = tt
  pop_data-Simulates name (x ∷ xs) k h = (
    memory,
    rw (
      pop-region dictionary_size data_stack_base memory k (omega (arith, h.data_fills))
          (omega (arith, h.size)),
      h.data_at.0,
    ),
    Shows-pop_data memory s.cells s.return_stack x xs k h,
  )

  abbrev return_start : List ℤ → ℕ → Abstract
  return_start xs k = record s { return_stack = record { items = xs; room = k } }

  push_return-Simulates :
      (x : ℤ) (xs : List ℤ) (k : ℕ)
      → Shows memory s.cells s.data_stack (record { items = xs; room = k })
      → Simulates program
          (with_return s (push_view x (record { items = xs; room = k })))
          (on_return_stack (push x) (concrete (return_start xs k) memory program))
  push_return-Simulates x xs zero h = tt
  push_return-Simulates x xs (suc k) h = (
    record memory { cells = update memory.cells (data_stack_base + k) x },
    rw (
        push-region data_stack_base return_stack_base memory k x
          (omega (arith, h.size, h.return_fills))),
    Shows-push_return memory s.cells s.data_stack xs k x h,
  )

  pop_return-Simulates :
      (name : String) (xs : List ℤ) (k : ℕ)
      → Shows memory s.cells s.data_stack (record { items = xs; room = k })
      → Simulates program (from_return name s (pop_view (record { items = xs; room = k }))) (
          (on_return_stack pop >>= write_register name)
            (concrete (return_start xs k) memory program))
  unfolding write_register
  pop_return-Simulates name [] k h = tt
  pop_return-Simulates name (x ∷ xs) k h = (
    memory,
    rw (
      pop-region data_stack_base return_stack_base memory k (omega (arith, h.return_fills))
          (omega (arith, h.size)),
      h.return_at.0,
    ),
    Shows-pop_return memory s.cells s.data_stack x xs k h,
  )

  read_input-Simulates :
      (name : String) (queue : List ℤ)
      → Shows memory s.cells s.data_stack s.return_stack
      → Simulates program (from_input name s queue) (
          (read_input >>= write_register name)
            (concrete (record s { char_input = queue }) memory program))
  unfolding read_input write_register
  read_input-Simulates name [] h = tt
  read_input-Simulates name (x ∷ queue) h = (memory, refl, h)

  -- Where the abstract machine has an effect, the handler has it too and returns.
  pub effect-Simulates :
      (op : Opcode) (a : Option String) (b : Operand) (offset : Option ℤ)
      → Shows memory s.cells s.data_stack s.return_stack
      → Simulates program
          (effect op a b offset s)
          (handler op (instruction op a b offset) (concrete s memory program))
  unfolding effect handler
  effect-Simulates Domain.load (some dst) (reg src) offset h =
      load-Simulates program memory s dst (get s src) h
  effect-Simulates Domain.store (some dst) (reg src) offset h =
      store-Simulates program memory s (get s dst) (get s src) h
  effect-Simulates Domain.add (some dst) (reg src) offset h = (memory, refl, h)
  effect-Simulates Domain.add (some dst) (imm v) offset h = (memory, refl, h)
  effect-Simulates Domain.sub (some dst) (reg src) offset h = (memory, refl, h)
  effect-Simulates Domain.sub (some dst) (imm v) offset h = (memory, refl, h)
  effect-Simulates Domain.and (some dst) (reg src) offset h = (memory, refl, h)
  effect-Simulates Domain.and (some dst) (imm v) offset h = (memory, refl, h)
  effect-Simulates Domain.or (some dst) (reg src) offset h = (memory, refl, h)
  effect-Simulates Domain.or (some dst) (imm v) offset h = (memory, refl, h)
  effect-Simulates Domain.invert (some r) b offset h = (memory, refl, h)
  effect-Simulates Domain.jmp (some r) b offset h = (memory, refl, h)
  effect-Simulates Domain.jz (some r) b (some offset) h = (memory, refl, h)
  effect-Simulates Domain.js (some r) b (some offset) h = (memory, refl, h)
  effect-Simulates Domain.push_d (some r) b offset h =
      push_data-Simulates (get s r) s.data_stack.items s.data_stack.room h
  effect-Simulates Domain.pop_d (some r) b offset h =
      pop_data-Simulates r s.data_stack.items s.data_stack.room h
  effect-Simulates Domain.push_r (some r) b offset h =
      push_return-Simulates (get s r) s.return_stack.items s.return_stack.room h
  effect-Simulates Domain.pop_r (some r) b offset h =
      pop_return-Simulates r s.return_stack.items s.return_stack.room h
  effect-Simulates Domain.in_ (some r) b offset h = read_input-Simulates r s.char_input h
  effect-Simulates Domain.out (some r) b offset h = (memory, refl, h)
  effect-Simulates Domain.halt a b offset h = (memory, refl, h)
  effect-Simulates _ _ _ _ h = tt
