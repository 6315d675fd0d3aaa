-- ===== src/Kernel/Words/Threads.antt =====
-- Indirect threaded code as a step relation on thread pointers and worlds, and the kernel's
-- routines against it.
use min_cpu_forth.Prelude.{ℕ, suc, ◌+◌, ◌<◌, ◌≡◌, refl, List, ◌∷◌, ap, ◌∙◌, some}
use min_cpu_forth.Prelude.Int.{ℤ, pos}
use min_cpu_forth.Layout.{dictionary_size}
use min_cpu_forth.Registers.{RegisterFile}
use min_cpu_forth.Emulator.Spec.{ticks}
use min_cpu_forth.Kernel.Program.{kernel_program}
use min_cpu_forth.Kernel.Words.{World, data_is, machine_at, Does}
use min_cpu_forth.Kernel.Words.Inner.{
  return_is, Leads, AtNext, AtRoutine, Leads-append, next_lem, enter_lem, exit_lem, lit_lem,
}

-- The cell at `ip` of the thread holds the CFA of a word, whose code field holds `index`.
pub record Invokes (cells : ℕ → ℤ) (ip cfa : ℕ) (index : ℤ) : Type 0 where
  pub in_thread : ip < dictionary_size
  pub in_block : cfa < dictionary_size
  pub cell : cells ip ≡ pos cfa
  pub code_field : cells cfa ≡ index

-- One word of a thread: from the thread pointer and world before to those after.
pub data Step : ℕ → World → ℕ → World → Type 0 where
  primitive :
      {v v' : World} {ip : ℕ} (cfa : ℕ) (index : ℤ)
      → Invokes v.cells ip cfa index
      → ((r : RegisterFile) → (n : ℕ) × Does index n r v v')
      → Step ip v (suc ip) v'
  enter :
      (v : World) {ip : ℕ} (cfa : ℕ) (ys : List ℤ) (j : ℕ)
      → Invokes v.cells ip cfa (pos 7)
      → Step ip (return_is v ys (suc j)) (suc cfa) (return_is v (pos (suc ip) ∷ ys) j)
  exit :
      (v : World) {ip : ℕ} (cfa back : ℕ) (ys : List ℤ) (j : ℕ)
      → Invokes v.cells ip cfa (pos 16)
      → Step ip (return_is v (pos back ∷ ys) j) back (return_is v ys (suc j))
  lit :
      (v : World) {ip : ℕ} (cfa : ℕ) (xs : List ℤ) (k : ℕ)
      → Invokes v.cells ip cfa (pos 12)
      → suc ip < dictionary_size
      → Step ip (data_is v xs (suc k)) (suc (suc ip)) (data_is v (v.cells (suc ip) ∷ xs) k)

pub data Steps : ℕ → World → ℕ → World → Type 0 where
  done : {v : World} {ip : ℕ} → Steps ip v ip v
  then :
      {v v' v'' : World} {ip ip' ip'' : ℕ}
      → Step ip v ip' v'
      → Steps ip' v' ip'' v''
      → Steps ip v ip'' v''

-- The kernel gets from `NEXT` to `NEXT`, from the one thread pointer and world to the other.
abbrev pub Threads : RegisterFile → World → ℕ → World → Type 0
Threads r v ip' v' = (n : ℕ) × Leads kernel_program (pos 3) n r v (pos 3) v' (AtNext ip')

routine :
    {r : RegisterFile} {v v' : World} {ip ip' : ℕ} (cfa : ℕ) (index : ℤ) (n : ℕ)
    → AtNext ip r
    → Invokes v.cells ip cfa index
    → ((r' : RegisterFile)
        → AtRoutine (suc ip) cfa r'
        → Leads kernel_program index n r' v (pos 3) v' (AtNext ip'))
    → Threads r v ip' v'
routine {r} {v} {ip = ip} cfa index n h i go =
    let first = next_lem r v ip cfa index h i.in_thread i.in_block i.cell i.code_field in
    (4 + n, Leads-append first (go first.registers' first.post))

Does-Leads :
    {index : ℤ} {n : ℕ} {v v' : World} {ip cfa : ℕ} (r : RegisterFile)
    → Does index n r v v'
    → AtRoutine ip cfa r
    → Leads kernel_program index n r v (pos 3) v' (AtNext ip)
Does-Leads {v' = v'} r d h = record {
  registers' = d.registers';
  runs = d.runs ∙ ap (λ pc. some (machine_at pc d.registers' v')) h.next.back;
  post = record { thread = d.keeps.0 ∙ h.next.thread; back = d.keeps.2 ∙ h.next.back };
}

pub Step-Threads :
    {v v' : World} {ip ip' : ℕ} (r : RegisterFile)
    → AtNext ip r
    → Step ip v ip' v'
    → Threads r v ip' v'
Step-Threads r h (primitive {v} {ip = ip} cfa index i d) =
    let first = next_lem r v ip cfa index h i.in_thread i.in_block i.cell i.code_field in
    let (n, does) = d first.registers' in
    (4 + n, Leads-append first (Does-Leads first.registers' does first.post))
Step-Threads r h (enter v {ip} cfa ys j i) =
    routine {v = return_is v ys (suc j)} cfa (pos 7) 5 h i
      (λ r' h'. enter_lem r' v (suc ip) cfa ys j h')
Step-Threads r h (exit v {ip} cfa back ys j i) =
    routine {v = return_is v (pos back ∷ ys) j} cfa (pos 16) 2 h i
      (λ r' h'. exit_lem r' v (suc ip) cfa back ys j h')
Step-Threads r h (lit v {ip} cfa xs k i lt) =
    routine {v = data_is v xs (suc k)} cfa (pos 12) 4 h i
      (λ r' h'. lit_lem r' v (suc ip) cfa xs k h' lt)

-- Whatever a thread does by the step relation (primitives, colon words, `EXIT` and `LIT`) the
-- kernel does: from `NEXT`, with `IP` at the thread's start and `NEXTREG` at `NEXT`, it comes back
-- to `NEXT` in the relation's last world, with `IP` at its end.
pub Steps-Threads :
    {v v' : World} {ip ip' : ℕ} (r : RegisterFile)
    → AtNext ip r
    → Steps ip v ip' v'
    → Threads r v ip' v'
unfolding ticks
Steps-Threads r h done = (0, record { registers' = r; runs = refl; post = h })
Steps-Threads r h (then s rest) =
    let (n, first) = Step-Threads r h s in
    let (m, second) = Steps-Threads first.registers' first.post rest in
    (n + m, Leads-append first second)
