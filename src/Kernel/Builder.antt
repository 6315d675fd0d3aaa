-- ===== src/Kernel/Builder.antt =====
-- services/kernel/builder.py: `KernelBuilder.build` and `boot_thread`, over the memory that the
-- dictionary shares with the emulator.
use min_cpu_forth.Prelude.{
  ℕ, String, code, Option, none, some, List, [], ◌∷◌, ◌++◌, map, true, false, ◌⊎◌, inl, inr,
}
use min_cpu_forth.Prelude.Int.{ℤ, pos, eqb_ℤ}
use min_cpu_forth.Errors.{Result, ok, err, kernel_error, key_error}
use min_cpu_forth.Effects.{Action, lift, pure, ◌>>=◌}
use min_cpu_forth.Domain.{
  ColonWord, WordSpec, code_word, colon_word, ThreadItem, word_reference, literal_cell, Labels,
  Assembly, KernelImage,
}
use min_cpu_forth.Memory.{Memory}
use min_cpu_forth.Assembler.{assemble}
use min_cpu_forth.Assembler.Specs.{lookup}
use min_cpu_forth.Dictionary.Words.{here, append_cell, append_word}
use min_cpu_forth.Kernel.Routines.{kernel_source, code_words, enter_label}

-- The code points of a text.
abbrev pub codes : String → List ℕ
codes String.[] = []
codes (String.◌∷◌ c s) = code c ∷ codes s

-- `word_cfas`: the newest entry of a name stands first.
abbrev pub Cfas : Type 0
Cfas = List (String × ℤ)

abbrev or_raise : Option ℤ → Result ℤ
or_raise none = err kernel_error
or_raise (some cfa) = ok cfa

-- `cfa_of`
abbrev pub cfa_of : Cfas → String → Result ℤ
cfa_of cfas name = or_raise (lookup name cfas)

abbrev or_missing : Option ℤ → Result ℤ
or_missing none = err key_error
or_missing (some index) = ok index

-- `assembly.labels[label]`
abbrev pub index_of : Labels → String → Result ℤ
index_of labels label = or_missing (lookup label labels)

abbrev both : Result ℤ → Result (List ℤ) → Result (List ℤ)
both (err e) rest = err e
both (ok cfa) (err e) = err e
both (ok cfa) (ok thread) = ok (cfa ∷ thread)

-- `[cfa_of(referenced) for referenced in ...]`
abbrev pub thread_of : Cfas → List String → Result (List ℤ)
thread_of cfas [] = ok []
thread_of cfas (name ∷ names) = both (cfa_of cfas name) (thread_of cfas names)

-- `install`: the word is appended and its CFA recorded.
unfoldable pub install : Labels → ℤ → WordSpec → Cfas → Action Memory Cfas
unfolding append_word
install labels enter_index (code_word word) cfas = do
  index ← lift (index_of labels word.routine_label)
  cfa ← append_word (codes word.name) index [] word.immediate
  pure ((word.name, cfa) ∷ cfas)
install labels enter_index (colon_word word) cfas = do
  thread ← lift (thread_of cfas (word.words ++ "EXIT" ∷ []))
  cfa ← append_word (codes word.name) enter_index thread word.immediate
  pure ((word.name, cfa) ∷ cfas)

-- `for word in (*CODE_WORDS, *colon_words): install(word)`
unfoldable pub install_all : Labels → ℤ → List WordSpec → Cfas → Action Memory Cfas
unfolding install
install_all labels enter_index [] cfas = pure cfas
install_all labels enter_index (word ∷ words) cfas =
    install labels enter_index word cfas >>= install_all labels enter_index words

abbrev pub cell_of : Cfas → ThreadItem → Result ℤ
cell_of cfas (word_reference name) = cfa_of cfas name
cell_of cfas (literal_cell value) = ok value

-- `for item in boot: ...`
unfoldable pub write_boot : Cfas → List ThreadItem → Action Memory (Unit {0})
unfolding append_cell
write_boot cfas [] = pure tt
write_boot cfas (item ∷ items) =
    lift (cell_of cfas item) >>= λ cell. append_cell cell >>= λ _. write_boot cfas items

abbrev start_at_zero : Option ℤ → Result (Unit {0})
start_at_zero none = err kernel_error
start_at_zero (some index) = elim (eqb_ℤ index (pos 0)) [ true ↦ ok tt | false ↦ err kernel_error ]

-- What `build` does with the assembly.
unfoldable pub install_image :
    List ColonWord → List ThreadItem → Assembly → Action Memory KernelImage
unfolding install_all write_boot here
install_image colon_words boot assembly = do
  _ ← lift (start_at_zero (lookup "START" assembly.labels))
  enter_index ← lift (index_of assembly.labels enter_label)
  cfas ←
      install_all assembly.labels enter_index
        (map code_word code_words ++ map colon_word colon_words) []
  boot_ip ← here
  _ ← write_boot cfas boot
  pure (record { program = assembly.program; word_cfas = cfas; boot_ip = boot_ip })

-- `KernelBuilder.build`
unfoldable pub build : List ColonWord → List ThreadItem → Action Memory KernelImage
unfolding assemble install_image
build colon_words boot = lift (assemble kernel_source) >>= install_image colon_words boot

-- `boot_thread`: a text names a word, an integer is a cell.
unfoldable pub boot_thread : List (String ⊎ ℤ) → List ThreadItem
boot_thread [] = []
boot_thread (inl name ∷ items) = word_reference name ∷ boot_thread items
boot_thread (inr value ∷ items) = literal_cell value ∷ boot_thread items
