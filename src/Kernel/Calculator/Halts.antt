-- ===== src/Kernel/Calculator/Halts.antt =====
-- The image that `build` makes of a calculation, and the run of the booted emulator.
use min_cpu_forth.Prelude.{
  ℕ, suc, ◌+◌, ◌≤◌, ◌<◌, ◌≡◌, refl, List, [], ◌∷◌, length, arith, ap, sym, subst, ◌∙◌, true, false,
}
use min_cpu_forth.Prelude.Int.{pos, ◌-ℤ◌}
use min_cpu_forth.Errors.{Result, ok}
use min_cpu_forth.Effects.{Action, lift, after, ◌>>=◌, ◌>>◌}
use min_cpu_forth.Domain.{KernelImage, Assembly, ThreadItem, word_reference}
use min_cpu_forth.Memory.{Memory}
use min_cpu_forth.Registers
use min_cpu_forth.Stack.View.{View}
use min_cpu_forth.Containers
use min_cpu_forth.Emulator.{run}
use min_cpu_forth.Emulator.Spec.{Abstract}
use min_cpu_forth.Emulator.Shows.{concrete, Shows}
use min_cpu_forth.Dictionary.Words.{here}
use min_cpu_forth.Dictionary.Append.{
  threaded, appended, append_cell-appended, threaded-below, threaded-size, At-threaded, dp-pos,
}
use min_cpu_forth.Kernel.Program.{
  kernel_program, listing, listing_labels, kernel_source-assembles, kernel_program-listing,
}
use min_cpu_forth.Kernel.Boot.{boot, boot-run}
use min_cpu_forth.Kernel.Builder.{Cfas, cell_of, write_boot, boot_thread, install_image, build}
use min_cpu_forth.Kernel.Installed
use min_cpu_forth.Kernel.Installed.{
  Word, word_name, word_cfa, word_index, installed, installed_cfas, installation, installation-cfas,
  emptied, installed-dp, installed-size, installed-word_index, lookup-word_cfa, word_cfa_bound,
  word_cfa_low,
}
use min_cpu_forth.Kernel.Calculator.{
  Item, number, shared, test, texts, cells_of, evaluate, evaluate-Steps, Knows, at_view,
}

cell_of-word :
    (w : Word) → cell_of installed_cfas (word_reference (word_name w)) ≡ ok (pos (word_cfa w))
cell_of-word w = rw (lookup-word_cfa w)

write_boot-threaded :
    (is : List Item) (m : Memory) (p : ℕ)
    → m.cells 0 ≡ pos p
    → 0 < p
    → p + length (cells_of is) ≤ m.size
    → write_boot installed_cfas (boot_thread (texts is)) m ≡ (ok tt, threaded m p (cells_of is))
unfolding write_boot boot_thread
write_boot-threaded [] m p e low h =
    rw (append_cell-appended m p (pos (word_cfa Installed.bye)) e low (omega arith))
write_boot-threaded (number x ∷ is) m p e low h = rw (
  append_cell-appended m p (pos (word_cfa Installed.lit)) e low (omega arith),
  append_cell-appended (appended m p (pos (word_cfa Installed.lit))) (suc p) x refl (omega arith)
      (omega arith),
  write_boot-threaded is (appended (appended m p (pos (word_cfa Installed.lit))) (suc p) x)
      (suc (suc p)) refl (omega arith) (omega arith),
)
write_boot-threaded (shared w ∷ is) m p e low h = rw (
  cell_of-word (Installed.shared w),
  append_cell-appended m p (pos (word_cfa (Installed.shared w))) e low (omega arith),
  write_boot-threaded is (appended m p (pos (word_cfa (Installed.shared w)))) (suc p) refl
      (omega arith) (omega arith),
)
write_boot-threaded (test w ∷ is) m p e low h = rw (
  cell_of-word (Installed.test w),
  append_cell-appended m p (pos (word_cfa (Installed.test w))) e low (omega arith),
  write_boot-threaded is (appended m p (pos (word_cfa (Installed.test w)))) (suc p) refl
      (omega arith) (omega arith),
)

abbrev assembly : Assembly
assembly = record { program = listing; labels = listing_labels }

-- What is left of `build` after the words are installed.
abbrev finish : Cfas → List ThreadItem → Action Memory KernelImage
finish cfas items = here >>= λ boot_ip. write_boot cfas items >>= λ _ m.
    (ok (record { program = listing; word_cfas = cfas; boot_ip = boot_ip }), m)

install_image-finish :
    (items : List ThreadItem)
    → install_image [] items assembly emptied ≡ finish installed_cfas items installed
unfolding install_image installation
install_image-finish items =
    subst
      (λ out.
        install_image [] items assembly emptied ≡ after (λ cfas. finish cfas items) out.0 out.1)
      installation-cfas refl

build-finish :
    (items : List ThreadItem)
    → (Containers.dictionary >> build [] items) Containers.memory
      ≡ finish installed_cfas items installed
unfolding build emptied Containers.dictionary
build-finish items =
    ap (λ (r : Result Assembly). (lift r >>= install_image [] items) emptied)
      kernel_source-assembles
    ∙ install_image-finish items

module _ (is : List Item) (fits : 311 + length (cells_of is) ≤ 2048) where
  abbrev shared_memory : Memory
  shared_memory = threaded installed 311 (cells_of is)

  abbrev image : KernelImage
  image = record { program = kernel_program; word_cfas = installed_cfas; boot_ip = pos 311 }

  finish-image : finish installed_cfas (boot_thread (texts is)) installed ≡ (
    ok (record { program = listing; word_cfas = installed_cfas; boot_ip = pos 311 }),
    shared_memory,
  )
  unfolding here
  finish-image = rw (
    dp-pos installed 311 installed-dp (omega (arith, installed-size)),
    write_boot-threaded is installed 311 installed-dp (omega arith) (omega (arith, installed-size)),
  )

  build-image :
      (Containers.dictionary >> build [] (boot_thread (texts is))) Containers.memory
      ≡ (ok image, shared_memory)
  build-image =
      build-finish (boot_thread (texts is))
      ∙ (finish-image
          ∙ ap
              (λ program. (
                ok (record { program = program; word_cfas = installed_cfas; boot_ip = pos 311 }),
                shared_memory,
              ))
              (sym kernel_program-listing))

  shared_memory-Knows : Knows shared_memory.cells
  shared_memory-Knows w =
      threaded-below installed 311 (cells_of is) (word_cfa w) (word_cfa_low w) (word_cfa_bound w)
      ∙ installed-word_index w

abbrev pub empty : View
empty = record { items = []; room = 1024 }

-- The emulator as it is wired, over a memory.
abbrev wired : Memory → Abstract
wired m = record {
  registers = Registers.unset;
  cells = m.cells;
  data_stack = empty;
  return_stack = empty;
  char_input = [];
  char_output = [];
  pc = pos 0;
  halted = false;
}

emulator-wired : (m : Memory) → Containers.emulator m ≡ concrete (wired m) m []
unfolding Containers.emulator ◌-ℤ◌
emulator-wired m = refl

wired-Shows : (m : Memory) → m.size ≡ 4096 → Shows m m.cells empty empty
wired-Shows m e = record {
  size = omega arith;
  block = λ n h. refl;
  data_fills = refl;
  data_at = tt;
  return_fills = refl;
  return_at = tt;
}

-- A calculation of numbers and of 23 of the words that `ForthService` and the kernel have in common
-- (stack, arithmetic and bitwise words, and the six comparisons), where it ends well on an empty
-- stack of 1024 cells by the words of `ForthService`, with -1 in place of their flag 1, and its
-- thread fits into the dictionary block, is computed by the machine: the wired container builds the
-- image of its thread without an exception, and the emulator booted with it returns from `run`,
-- with enough steps allowed, halted, with the items that the calculation leaves on its data stack,
-- and with an empty return stack.
pub calculate :
    (is : List Item) (w : View)
    → 311 + length (cells_of is) ≤ 2048
    → evaluate is empty ≡ (ok tt, w)
    → (image : KernelImage) × (m : Memory) × ((Containers.dictionary
            >> build [] (boot_thread (texts is)))
          Containers.memory
        ≡ (ok image, m))
      × (n : ℕ) × (final : Abstract) × (m' : Memory) × ((budget : ℕ)
          → run (n + budget) (boot image (Containers.emulator m))
            ≡ (ok tt, concrete final m' kernel_program))
      × (final.halted ≡ true)
      × (final.data_stack ≡ w)
      × (final.return_stack ≡ empty)
      × Shows m' final.cells w empty
calculate is w fits e =
    let m = shared_memory is fits in
    let size : m.size ≡ 4096 = threaded-size installed 311 (cells_of is) ∙ installed-size in
    let (ip', steps, bye) =
      evaluate-Steps m.cells empty [] [] (shared_memory-Knows is fits) is 311 empty w fits
        (At-threaded installed 311 (cells_of is) (omega arith)) e in
    let (n, final, m', runs, halted, world, shown) =
      boot-run (wired m) m [] installed_cfas 311 ip' (word_cfa Installed.bye)
        (at_view m.cells empty [] [] w) (wired-Shows m size) steps bye in
    (
      image is fits,
      m,
      build-image is fits,
      n,
      final,
      m',
      λ budget.
          ap (λ machine. run (n + budget) (boot (image is fits) machine)) (emulator-wired m)
          ∙ runs budget,
      halted,
      ap (λ v. v.data_stack) world,
      ap (λ v. v.return_stack) world,
      subst (λ cells. Shows m' cells w empty) (sym (ap (λ v. v.cells) world)) shown,
    )
