-- ===== src/Kernel/Words.antt =====
-- What it means that a routine of the kernel does a word's work, on the abstract machine.
pub mod StackWords
pub mod ArithmeticWords
pub mod MemoryWords
pub mod FlagWords
pub mod Multiply
pub mod Runaway
pub mod Inner
pub mod Reaching
pub mod Scan
pub mod Tokens
pub mod Digits
pub mod Answers
pub mod Numbers
pub mod Names
pub mod Headers
pub mod Found
pub mod Finding
pub mod Threads
use min_cpu_forth.Prelude.{
  ℕ, zero, suc, ◌+◌, ◌≡◌, String, Bool, false, Option, some, List, sym, subst, ap, ◌∙◌, true, false,
}
use min_cpu_forth.Prelude.Int.{ℤ, pos, negsuc}
use min_cpu_forth.Domain.{Instruction}
use min_cpu_forth.Domain.Register
use min_cpu_forth.Registers.{RegisterFile}
use min_cpu_forth.Stack.View.{View}
use min_cpu_forth.Emulator.Spec.{Abstract, ticks}
use min_cpu_forth.Emulator.Runs.{ticks-append}
use min_cpu_forth.Kernel.Program.{kernel_program, listing, kernel_program-listing}

-- What a word can see and change: all but the registers, `pc` and the halted flag.
pub record World : Type 0 where
  pub cells : ℕ → ℤ
  pub data_stack : View
  pub return_stack : View
  pub char_input : List ℤ
  pub char_output : List ℤ

-- A world with another data stack.
abbrev pub data_is : World → List ℤ → ℕ → World
data_is v xs k = record v { data_stack = record { items = xs; room = k } }

-- The running machine over a world.
abbrev pub machine_at : ℤ → RegisterFile → World → Abstract
machine_at pc registers v = record {
  registers = registers;
  cells = v.cells;
  data_stack = v.data_stack;
  return_stack = v.return_stack;
  char_input = v.char_input;
  char_output = v.char_output;
  pc = pc;
  halted = false;
}

-- The reserved registers are as they were.
abbrev pub Keeps : RegisterFile → RegisterFile → Type 0
Keeps registers registers' =
    (registers' Register.ip ≡ registers Register.ip)
    × (registers' Register.w ≡ registers Register.w)
    × (registers' Register.next_pointer ≡ registers Register.next_pointer)

-- From program index `index`, in `n` steps of a program, the first world becomes the second and
-- control goes to where `NEXTREG` points, with `IP`, `W` and `NEXTREG` as they were.
pub record DoesIn (program : List Instruction) (index : ℤ) (n : ℕ) (registers : RegisterFile)
    (before after : World) : Type 0 where
  pub registers' : RegisterFile
  pub runs :
      ticks program n (machine_at index registers before)
      ≡ some (machine_at (registers Register.next_pointer) registers' after)
  pub keeps : Keeps registers registers'

abbrev pub Does : ℤ → ℕ → RegisterFile → World → World → Type 0
Does = DoesIn kernel_program

-- A run on the listing is one of the kernel.
pub on_kernel :
    {index : ℤ} {n : ℕ} {registers : RegisterFile} {before after : World}
    → DoesIn listing index n registers before after
    → Does index n registers before after
on_kernel {index} {n} {registers} {before} {after} h =
    subst (λ p. DoesIn p index n registers before after) (sym kernel_program-listing) h

pub runs_to :
    {index : ℤ} {n : ℕ} {registers registers' : RegisterFile} {before after : World}
    → ticks listing n (machine_at index registers before)
      ≡ some (machine_at (registers Register.next_pointer) registers' after)
    → Keeps registers registers'
    → DoesIn listing index n registers before after
runs_to {registers'} e keeps = record { registers' = registers'; runs = e; keeps = keeps }

-- A run to `middle`, then what is done from there.
pub then_does :
    {index : ℤ} {m : ℕ} {registers : RegisterFile} {before after between : World} (n : ℕ)
    (middle : ℤ) (registers₁ : RegisterFile)
    → ticks listing n (machine_at index registers before)
      ≡ some (machine_at middle registers₁ between)
    → Keeps registers registers₁
    → DoesIn listing middle m registers₁ between after
    → DoesIn listing index (n + m) registers before after
then_does {index} {m} {registers} {before} {after} n middle registers₁ e keeps d = record {
  registers' = d.registers';
  runs =
      ticks-append listing n m (machine_at index registers before) _ e
      ∙ (d.runs ∙ ap (λ pc. some (machine_at pc d.registers' after)) keeps.2);
  keeps = (d.keeps.0 ∙ keeps.0, d.keeps.1 ∙ keeps.1, d.keeps.2 ∙ keeps.2);
}

-- Forth's flags: all bits set for true.
abbrev pub flag : Bool → ℤ
flag true = negsuc 0
flag false = pos 0
