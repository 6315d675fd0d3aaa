-- ===== src/Kernel/Installed.antt =====
-- What `install_all` leaves of the primitives in a fresh memory.
use min_cpu_forth.Prelude.{ℕ, ◌<◌, String, ◌≡◌, refl, [], ◌∷◌, map, some, arith}
use min_cpu_forth.Prelude.Int.{ℤ, pos, ◌+ℤ◌, ◌-ℤ◌}
use min_cpu_forth.Errors.{Result, ok}
use min_cpu_forth.Memory.{Memory}
use min_cpu_forth.Domain.{code_word}
use min_cpu_forth.Containers
use min_cpu_forth.Assembler.Specs.{lookup}
use min_cpu_forth.Kernel.Program.{listing_labels}
use min_cpu_forth.Kernel.Routines.{code_words}
use min_cpu_forth.Kernel.Builder.{install_all, Cfas}
use min_cpu_forth.Kernel.Agreement
use min_cpu_forth.Kernel.Agreement.{SharedWord, TestWord, entry, test_entry}

-- The memory after `KernelContainer` has made the dictionary.
unfoldable pub emptied : Memory
unfolding Containers.dictionary Containers.memory
emptied = (Containers.dictionary Containers.memory).1

unfoldable pub installation : Result Cfas × Memory
unfolding install_all emptied
installation = install_all listing_labels (pos 7) (map code_word code_words) [] emptied

pub installed : Memory
unfolding installation
installed = installation.1

-- The CFAs, newest first.
abbrev pub installed_cfas : Cfas
installed_cfas =
    ("FIND", pos 310)
    ∷ ("WORD", pos 301)
    ∷ ("NUMBER", pos 292)
    ∷ ("EMIT", pos 281)
    ∷ ("KEY", pos 272)
    ∷ ("INVERT", pos 264)
    ∷ ("OR", pos 253)
    ∷ ("AND", pos 246)
    ∷ ("0<", pos 238)
    ∷ ("0=", pos 231)
    ∷ (">", pos 224)
    ∷ ("<", pos 218)
    ∷ ("<>", pos 212)
    ∷ ("=", pos 205)
    ∷ ("R@", pos 199)
    ∷ ("R>", pos 192)
    ∷ (">R", pos 185)
    ∷ ("C!", pos 178)
    ∷ ("C@", pos 171)
    ∷ ("!", pos 164)
    ∷ ("@", pos 158)
    ∷ ("1-", pos 152)
    ∷ ("1+", pos 145)
    ∷ ("ABS", pos 138)
    ∷ ("NEGATE", pos 130)
    ∷ ("*", pos 119)
    ∷ ("-", pos 113)
    ∷ ("+", pos 107)
    ∷ ("TUCK", pos 101)
    ∷ ("NIP", pos 92)
    ∷ ("-ROT", pos 84)
    ∷ ("ROT", pos 75)
    ∷ ("OVER", pos 67)
    ∷ ("SWAP", pos 58)
    ∷ ("DROP", pos 49)
    ∷ ("DUP", pos 40)
    ∷ ("BYE", pos 32)
    ∷ ("EXIT", pos 24)
    ∷ ("LIT", pos 15)
    ∷ []

pub installation-cfas : installation ≡ (ok installed_cfas, installed)
unfolding installation installed ◌+ℤ◌ ◌-ℤ◌
installation-cfas = refl

pub installed-dp : installed.cells 0 ≡ pos 311
unfolding installed ◌+ℤ◌ ◌-ℤ◌
installed-dp = refl

pub installed-size : installed.size ≡ 4096
unfolding installed ◌+ℤ◌ ◌-ℤ◌
installed-size = refl

-- A word that a calculation may use: its name, its CFA and the index of its routine.
pub data Word : Type 0 where
  shared : SharedWord → Word
  test : TestWord → Word
  lit bye : Word

abbrev pub word_name : Word → String
word_name (shared Agreement.dup) = "DUP"
word_name (shared Agreement.drop) = "DROP"
word_name (shared Agreement.swap) = "SWAP"
word_name (shared Agreement.over) = "OVER"
word_name (shared Agreement.rot) = "ROT"
word_name (shared Agreement.neg_rot) = "-ROT"
word_name (shared Agreement.nip) = "NIP"
word_name (shared Agreement.tuck) = "TUCK"
word_name (shared Agreement.plus) = "+"
word_name (shared Agreement.minus) = "-"
word_name (shared Agreement.negate) = "NEGATE"
word_name (shared Agreement.abs) = "ABS"
word_name (shared Agreement.one_plus) = "1+"
word_name (shared Agreement.one_minus) = "1-"
word_name (shared Agreement.and) = "AND"
word_name (shared Agreement.or) = "OR"
word_name (shared Agreement.invert) = "INVERT"
word_name (test Agreement.equal) = "="
word_name (test Agreement.not_equal) = "<>"
word_name (test Agreement.less) = "<"
word_name (test Agreement.greater) = ">"
word_name (test Agreement.zero_equal) = "0="
word_name (test Agreement.zero_less) = "0<"
word_name lit = "LIT"
word_name bye = "BYE"

abbrev pub word_cfa : Word → ℕ
word_cfa (shared Agreement.dup) = 40
word_cfa (shared Agreement.drop) = 49
word_cfa (shared Agreement.swap) = 58
word_cfa (shared Agreement.over) = 67
word_cfa (shared Agreement.rot) = 75
word_cfa (shared Agreement.neg_rot) = 84
word_cfa (shared Agreement.nip) = 92
word_cfa (shared Agreement.tuck) = 101
word_cfa (shared Agreement.plus) = 107
word_cfa (shared Agreement.minus) = 113
word_cfa (shared Agreement.negate) = 130
word_cfa (shared Agreement.abs) = 138
word_cfa (shared Agreement.one_plus) = 145
word_cfa (shared Agreement.one_minus) = 152
word_cfa (shared Agreement.and) = 246
word_cfa (shared Agreement.or) = 253
word_cfa (shared Agreement.invert) = 264
word_cfa (test Agreement.equal) = 205
word_cfa (test Agreement.not_equal) = 212
word_cfa (test Agreement.less) = 218
word_cfa (test Agreement.greater) = 224
word_cfa (test Agreement.zero_equal) = 231
word_cfa (test Agreement.zero_less) = 238
word_cfa lit = 15
word_cfa bye = 32

abbrev pub word_index : Word → ℤ
word_index (shared w) = (entry w).0
word_index (test w) = (test_entry w).0
word_index lit = pos 12
word_index bye = pos 18

pub lookup-word_cfa : (w : Word) → lookup (word_name w) installed_cfas ≡ some (pos (word_cfa w))
lookup-word_cfa (shared Agreement.dup) = refl
lookup-word_cfa (shared Agreement.drop) = refl
lookup-word_cfa (shared Agreement.swap) = refl
lookup-word_cfa (shared Agreement.over) = refl
lookup-word_cfa (shared Agreement.rot) = refl
lookup-word_cfa (shared Agreement.neg_rot) = refl
lookup-word_cfa (shared Agreement.nip) = refl
lookup-word_cfa (shared Agreement.tuck) = refl
lookup-word_cfa (shared Agreement.plus) = refl
lookup-word_cfa (shared Agreement.minus) = refl
lookup-word_cfa (shared Agreement.negate) = refl
lookup-word_cfa (shared Agreement.abs) = refl
lookup-word_cfa (shared Agreement.one_plus) = refl
lookup-word_cfa (shared Agreement.one_minus) = refl
lookup-word_cfa (shared Agreement.and) = refl
lookup-word_cfa (shared Agreement.or) = refl
lookup-word_cfa (shared Agreement.invert) = refl
lookup-word_cfa (test Agreement.equal) = refl
lookup-word_cfa (test Agreement.not_equal) = refl
lookup-word_cfa (test Agreement.less) = refl
lookup-word_cfa (test Agreement.greater) = refl
lookup-word_cfa (test Agreement.zero_equal) = refl
lookup-word_cfa (test Agreement.zero_less) = refl
lookup-word_cfa lit = refl
lookup-word_cfa bye = refl

pub installed-word_index : (w : Word) → installed.cells (word_cfa w) ≡ word_index w
unfolding installed ◌+ℤ◌ ◌-ℤ◌
installed-word_index (shared Agreement.dup) = refl
installed-word_index (shared Agreement.drop) = refl
installed-word_index (shared Agreement.swap) = refl
installed-word_index (shared Agreement.over) = refl
installed-word_index (shared Agreement.rot) = refl
installed-word_index (shared Agreement.neg_rot) = refl
installed-word_index (shared Agreement.nip) = refl
installed-word_index (shared Agreement.tuck) = refl
installed-word_index (shared Agreement.plus) = refl
installed-word_index (shared Agreement.minus) = refl
installed-word_index (shared Agreement.negate) = refl
installed-word_index (shared Agreement.abs) = refl
installed-word_index (shared Agreement.one_plus) = refl
installed-word_index (shared Agreement.one_minus) = refl
installed-word_index (shared Agreement.and) = refl
installed-word_index (shared Agreement.or) = refl
installed-word_index (shared Agreement.invert) = refl
installed-word_index (test Agreement.equal) = refl
installed-word_index (test Agreement.not_equal) = refl
installed-word_index (test Agreement.less) = refl
installed-word_index (test Agreement.greater) = refl
installed-word_index (test Agreement.zero_equal) = refl
installed-word_index (test Agreement.zero_less) = refl
installed-word_index lit = refl
installed-word_index bye = refl

-- Every CFA lies below the first cell that is free.
pub word_cfa_bound : (w : Word) → word_cfa w < 311
word_cfa_bound (shared Agreement.dup) = omega arith
word_cfa_bound (test Agreement.equal) = omega arith
word_cfa_bound _ = omega arith

pub word_cfa_low : (w : Word) → 0 < word_cfa w
word_cfa_low (shared Agreement.dup) = omega arith
word_cfa_low (test Agreement.equal) = omega arith
word_cfa_low _ = omega arith
