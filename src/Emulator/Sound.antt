-- ===== src/Emulator/Sound.antt =====
-- services/emulator.py: each handler keeps both stacks in their regions, and raises what is expected.
use min_cpu_forth.Prelude.{
  ℕ, ◌≤◌, ◌≡◌, refl, String, Bool, Option, none, some, List, [], ◌∷◌, arith,
}
use min_cpu_forth.Prelude.Int.{ℤ, invert}
use min_cpu_forth.Errors.{Result, ok, err, index_error}
use min_cpu_forth.Effects.{Action, after, lift}
use min_cpu_forth.Domain.{Instruction, Operand, reg, imm, absent}
use min_cpu_forth.Memory
use min_cpu_forth.Registers
use min_cpu_forth.Memory.{Memory, update}
use min_cpu_forth.CharacterIo.{next_code}
use min_cpu_forth.Stack.{Region, push, pop}
use min_cpu_forth.Emulator.State.{
  Machine, stored, read_register, write_register, read_memory, write_memory, on_data_stack,
  on_return_stack, read_input, write_output, require_register, require_register_b, require_offset,
  operand_value,
}
use min_cpu_forth.Emulator.Handlers.{
  exec_load, exec_store, exec_binary, exec_invert, exec_jmp, exec_branch, exec_push_d, exec_pop_d,
  exec_push_r, exec_pop_r, exec_in, exec_out,
}
use min_cpu_forth.Emulator.Bounded.{
  Allowed, Fine, after-Fine, Bounded, InRegion, push-Fine, pop-Fine,
}

-- Both stacks in their regions of a memory of some size, and the program as it was loaded.
abbrev pub Sound : ℕ → ℕ → ℕ → ℕ → List Instruction → Machine → Type 0
Sound size lo mid hi program m =
    (m.memory.size ≡ size)
    × Bounded lo mid m.data_stack
    × Bounded mid hi m.return_stack
    × (m.program ≡ program)

lift-Fine :
    {S A : Type 0} (I : S → Type 0) (r : Result A) (s : S) → I s → Allowed r → Fine I (lift r s)
lift-Fine I (ok a) s h allowed = (h, tt)
lift-Fine I (err e) s h allowed = (h, allowed)

require_register-Allowed : (o : Option String) → Allowed (require_register o)
unfolding require_register
require_register-Allowed none = refl
require_register-Allowed (some name) = tt

require_register_b-Allowed : (o : Operand) → Allowed (require_register_b o)
unfolding require_register_b
require_register_b-Allowed (reg name) = tt
require_register_b-Allowed (imm value) = refl
require_register_b-Allowed absent = refl

require_offset-Allowed : (o : Option ℤ) → Allowed (require_offset o)
unfolding require_offset
require_offset-Allowed none = refl
require_offset-Allowed (some offset) = tt

read-Allowed : (m : Memory) (a : ℤ) → Allowed (Memory.read m a)
unfolding Memory.read
read-Allowed m a = by_position (Memory.position m.size a)
  where
    by_position :
        (o : Option ℕ) → Allowed (elim o [ none ↦ err index_error | some i ↦ ok (m.cells i) ])
    by_position none = refl
    by_position (some i) = tt

module _ (size lo mid hi : ℕ) (program : List Instruction) (le : mid ≤ hi) (fits : hi ≤ size) where
  abbrev pub I : Machine → Type 0
  I = Sound size lo mid hi program

  write_register-Fine :
      (name : String) (value : ℤ) (m : Machine) → I m → Fine I (write_register name value m)
  unfolding write_register
  write_register-Fine name value m h = (h, tt)

  write_memory-Fine :
      (address value : ℤ) (m : Machine) → I m → Fine I (write_memory address value m)
  unfolding write_memory Memory.write
  write_memory-Fine address value m h = by_position (Memory.position m.memory.size address)
    where
      by_position :
          (o : Option ℕ)
          → Fine I (
              stored m (elim o [
                | none ↦ err index_error
                | some i ↦ ok (record m.memory { cells = update m.memory.cells i value })
              ]))
      by_position none = (h, refl)
      by_position (some i) = (h, tt)

  on_data_stack-Fine :
      {A : Type 0} (call : Action Region A) (m : Machine)
      → I m
      → ((r : Region) → InRegion lo mid size r → Fine (InRegion lo mid size) (call r))
      → Fine I (on_data_stack call m)
  on_data_stack-Fine call m h fine =
      let (done, allowed) = fine (record { stack = m.data_stack; memory = m.memory }) (h.1, h.0) in
      ((done.1, done.0, h.2, h.3), allowed)

  on_return_stack-Fine :
      {A : Type 0} (call : Action Region A) (m : Machine)
      → I m
      → ((r : Region) → InRegion mid hi size r → Fine (InRegion mid hi size) (call r))
      → Fine I (on_return_stack call m)
  on_return_stack-Fine call m h fine =
      let (done, allowed) =
        fine (record { stack = m.return_stack; memory = m.memory }) (h.2, h.0) in
      ((done.1, h.1, done.0, h.3), allowed)

  read_input-Fine : (m : Machine) → I m → Fine I (read_input m)
  unfolding read_input next_code
  read_input-Fine m h = by_queue m.char_input
    where
      by_queue :
          (queue : List ℤ)
          → Fine I
              (let (result, left) = next_code queue in (result, record m { char_input = left }))
      by_queue [] = (h, refl)
      by_queue (value ∷ queue) = (h, tt)

  operand_value-Fine : (o : Operand) (m : Machine) → I m → Fine I (operand_value o m)
  unfolding operand_value read_register require_register_b
  operand_value-Fine (imm value) m h = (h, tt)
  operand_value-Fine (reg name) m h = (h, tt)
  operand_value-Fine absent m h = (h, refl)

  -- The first line of nearly every handler.
  with_register :
      (o : Option String) (f : String → Action Machine (Unit {0})) (m : Machine)
      → I m
      → ((name : String) → Fine I (f name m))
      → Fine I (after f (lift (require_register o) m).0 (lift (require_register o) m).1)
  unfolding require_register
  with_register none f m h next = (h, refl)
  with_register (some name) f m h next = next name

  pub exec_load-Fine : (i : Instruction) (m : Machine) → I m → Fine I (exec_load i m)
  unfolding exec_load read_register read_memory
  exec_load-Fine i m h = with_register i.a _ m h λ dst.
      after-Fine I _ _ _ (lift-Fine I _ m h (require_register_b-Allowed i.b)) λ addr_reg m' h'.
        after-Fine I _ _ _ (h', read-Allowed m'.memory _)
          λ value m'' h''. write_register-Fine dst value m'' h''

  pub exec_store-Fine : (i : Instruction) (m : Machine) → I m → Fine I (exec_store i m)
  unfolding exec_store read_register
  exec_store-Fine i m h = with_register i.a _ m h λ addr_reg.
      after-Fine I _ _ _ (lift-Fine I _ m h (require_register_b-Allowed i.b))
        λ value_reg m' h'. write_memory-Fine _ _ m' h'

  pub exec_binary-Fine :
      (op : ℤ → ℤ → ℤ) (i : Instruction) (m : Machine) → I m → Fine I (exec_binary op i m)
  unfolding exec_binary read_register
  exec_binary-Fine op i m h = with_register i.a _ m h λ dst.
      after-Fine I _ _ _ (operand_value-Fine i.b m h)
        λ right m' h'. write_register-Fine dst (op (Registers.read m.registers dst) right) m' h'

  pub exec_invert-Fine : (i : Instruction) (m : Machine) → I m → Fine I (exec_invert i m)
  unfolding exec_invert read_register
  exec_invert-Fine i m h =
      with_register i.a _ m h
        λ dst. write_register-Fine dst (invert (Registers.read m.registers dst)) m h

  pub exec_jmp-Fine : (i : Instruction) (m : Machine) → I m → Fine I (exec_jmp i m)
  unfolding exec_jmp read_register
  exec_jmp-Fine i m h = with_register i.a _ m h λ target_reg. (h, tt)

  pub exec_branch-Fine :
      (test : ℤ → Bool) (i : Instruction) (m : Machine) → I m → Fine I (exec_branch test i m)
  unfolding exec_branch read_register
  exec_branch-Fine test i m h = with_register i.a _ m h λ tested_reg.
      after-Fine I _ _ _ (lift-Fine I _ m h (require_offset-Allowed i.offset))
        λ offset m' h'. (h', tt)

  pub exec_push_d-Fine : (i : Instruction) (m : Machine) → I m → Fine I (exec_push_d i m)
  unfolding exec_push_d read_register
  exec_push_d-Fine i m h = with_register i.a _ m h λ name.
      on_data_stack-Fine (push (Registers.read m.registers name)) m h
        (push-Fine lo mid size (omega arith) _)

  pub exec_push_r-Fine : (i : Instruction) (m : Machine) → I m → Fine I (exec_push_r i m)
  unfolding exec_push_r read_register
  exec_push_r-Fine i m h = with_register i.a _ m h λ name.
      on_return_stack-Fine (push (Registers.read m.registers name)) m h
        (push-Fine mid hi size fits _)

  pub exec_pop_d-Fine : (i : Instruction) (m : Machine) → I m → Fine I (exec_pop_d i m)
  unfolding exec_pop_d
  exec_pop_d-Fine i m h = with_register i.a _ m h λ name.
      after-Fine I _ _ _ (on_data_stack-Fine pop m h (pop-Fine lo mid size (omega arith)))
        (write_register-Fine name)

  pub exec_pop_r-Fine : (i : Instruction) (m : Machine) → I m → Fine I (exec_pop_r i m)
  unfolding exec_pop_r
  exec_pop_r-Fine i m h = with_register i.a _ m h λ name.
      after-Fine I _ _ _ (on_return_stack-Fine pop m h (pop-Fine mid hi size fits))
        (write_register-Fine name)

  pub exec_in-Fine : (i : Instruction) (m : Machine) → I m → Fine I (exec_in i m)
  unfolding exec_in
  exec_in-Fine i m h =
      with_register i.a _ m h
        λ name. after-Fine I _ _ _ (read_input-Fine m h) (write_register-Fine name)

  pub exec_out-Fine : (i : Instruction) (m : Machine) → I m → Fine I (exec_out i m)
  unfolding exec_out read_register write_output
  exec_out-Fine i m h = with_register i.a _ m h λ name. (h, tt)
