-- ===== src/Kernel/Boot.antt =====
-- services/kernel/builder.py, `boot`, and the run of a booted thread to its `BYE`.
use min_cpu_forth.Prelude.{
  ℕ, zero, suc, ◌+◌, ◌≡◌, refl, String, true, some, List, sym, subst, ap, ◌∙◌, arith,
}
use min_cpu_forth.Prelude.Int.{ℤ, pos, ◌-ℤ◌, ◌+ℤ◌, set_value}
use min_cpu_forth.Errors.{ok}
use min_cpu_forth.Domain.{Instruction, KernelImage}
use min_cpu_forth.Domain.Register
use min_cpu_forth.Memory.{Memory}
use min_cpu_forth.Registers
use min_cpu_forth.Registers.{RegisterFile}
use min_cpu_forth.Emulator
use min_cpu_forth.Emulator.{Machine, run}
use min_cpu_forth.Emulator.Spec.{Abstract, ticks}
use min_cpu_forth.Emulator.Shows.{concrete, Shows}
use min_cpu_forth.Emulator.Runs.{ticks-append, run-ticks}
use min_cpu_forth.Kernel.Program.{kernel_program, listing, kernel_program-listing}
use min_cpu_forth.Kernel.Words.{World, machine_at}
use min_cpu_forth.Kernel.Words.Inner.{Leads, AtNext, Leads-append, Leads-kernel, next_lem}
use min_cpu_forth.Kernel.Words.Threads.{Steps, Invokes, Steps-Threads}

-- `boot(emulator, image)`
unfoldable pub boot : KernelImage → Machine → Machine
unfolding Emulator.load Registers.write
boot image m =
    let m' = Emulator.load image.program m in
    record m' { registers = Registers.write m'.registers Register.ip image.boot_ip }

-- The part of an abstract machine that words see.
abbrev pub world_of : Abstract → World
world_of s = record {
  cells = s.cells;
  data_stack = s.data_stack;
  return_stack = s.return_stack;
  char_input = s.char_input;
  char_output = s.char_output;
}

-- `START` points `NEXTREG` at `NEXT` and goes there.
start_listing :
    (r : RegisterFile) (v : World) (ip : ℕ)
    → r "IP" ≡ pos ip
    → Leads listing (pos 0) 3 r v (pos 3) v (AtNext ip)
unfolding ticks Registers.write
start_listing r v ip e =
    let r₁ = Registers.write r "NEXTREG" (r "NEXTREG" -ℤ r "NEXTREG") in
    let r₂ = Registers.write r₁ "NEXTREG" (r "NEXTREG" -ℤ r "NEXTREG" +ℤ pos 3) in
    record {
      registers' = r₂;
      runs = ap (λ pc. some (machine_at pc r₂ v)) (set_value (r "NEXTREG") (pos 3));
      post = record { thread = e; back = set_value (r "NEXTREG") (pos 3) };
    }

-- `BYE` halts the machine and changes nothing else.
bye_halts :
    (r : RegisterFile) (v : World)
    → ticks kernel_program 1 (machine_at (pos 18) r v)
      ≡ some (record (machine_at (pos 19) r v) { halted = true })
unfolding ticks
bye_halts r v =
    subst
      (λ p.
        ticks p 1 (machine_at (pos 18) r v)
        ≡ some (record (machine_at (pos 19) r v) { halted = true }))
      (sym kernel_program-listing) refl

run-halted : (budget : ℕ) (m : Machine) → m.halted ≡ true → run budget m ≡ (ok tt, m)
unfolding run
run-halted zero m e = ground arith
run-halted (suc budget) m e = ground arith

-- From `START` to the halt, for a thread that does its steps and then `BYE`.
thread_halts :
    (r : RegisterFile) (v v' : World) (ip ip' cfa : ℕ)
    → r "IP" ≡ pos ip
    → Steps ip v ip' v'
    → Invokes v'.cells ip' cfa (pos 18)
    → (n : ℕ) × (r' : RegisterFile) × (ticks kernel_program n (machine_at (pos 0) r v)
        ≡ some (record (machine_at (pos 19) r' v') { halted = true }))
thread_halts r v v' ip ip' cfa e steps i =
    let first = Leads-kernel (start_listing r v ip e) in
    let (n, middle) = Steps-Threads first.registers' first.post steps in
    let last =
      next_lem middle.registers' v' ip' cfa (pos 18) middle.post i.in_thread i.in_block i.cell
        i.code_field in
    let all = Leads-append first (Leads-append middle last) in
    (
      (3 + (n + 4)) + 1,
      all.registers',
      ticks-append kernel_program (3 + (n + 4)) 1 _ _ all.runs ∙ bye_halts all.registers' v',
    )

-- Whatever a thread does by the step relation, and then a `BYE`, the booted emulator does from a
-- machine that stands for the relation's first world: with enough steps allowed, `run` returns, the
-- machine is halted, and it stands for the relation's last world.
pub boot-run :
    (s : Abstract) (memory : Memory) (old : List Instruction) (cfas : List (String × ℤ))
    (ip ip' cfa : ℕ) (v' : World)
    → Shows memory s.cells s.data_stack s.return_stack
    → Steps ip (world_of s) ip' v'
    → Invokes v'.cells ip' cfa (pos 18)
    → (n : ℕ) × (final : Abstract) × (memory' : Memory) × ((budget : ℕ)
        → run (n + budget) (
            boot
              (record { program = kernel_program; word_cfas = cfas; boot_ip = pos ip })
              (concrete s memory old))
          ≡ (ok tt, concrete final memory' kernel_program))
      × (final.halted ≡ true)
      × (world_of final ≡ v')
      × Shows memory' v'.cells v'.data_stack v'.return_stack
unfolding boot
boot-run s memory old cfas ip ip' cfa v' h steps i =
    let r = Registers.write s.registers "IP" (pos ip) in
    let (n, r', e) = thread_halts r (world_of s) v' ip ip' cfa refl steps i in
    let final = record (machine_at (pos 19) r' v') { halted = true } in
    let start = machine_at (pos 0) r (world_of s) in
    let (m₀, p₀, h₀) = run-ticks kernel_program n start final memory h e in
    (n, final, m₀, λ budget. p₀ budget ∙ run-halted budget _ refl, refl, refl, h₀)
