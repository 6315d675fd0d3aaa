-- ===== src/Tests/DictionaryTests.antt =====
-- The dictionary on small inputs.
use min_cpu_forth.Prelude.{ℕ, ◌≤◌, ◌<◌, ◌≡◌, ◌⊎◌, refl, [], ◌∷◌, some, true, false, arith}
use min_cpu_forth.Prelude.Int.{pos, ◌-ℤ◌}
use min_cpu_forth.Errors.{ok}
use min_cpu_forth.Effects.{◌>>◌, ◌>>=◌}
use min_cpu_forth.Memory
use min_cpu_forth.Memory.{Memory, update}
use min_cpu_forth.Dictionary.Codec.{read-write_text}
use min_cpu_forth.Dictionary.Search.{find-append_word}
use min_cpu_forth.Dictionary.CountedString.{read, write}
use min_cpu_forth.Dictionary.Words.{reset, append_word, find}

abbrev sixty : Memory
unfolding Memory.allocate
sixty = Memory.allocate 60

-- `OK` from cell 10 on.
read-write_text_example :
    (m' : Memory) × (write (pos 10) (79 ∷ 75 ∷ []) sixty ≡ (ok (pos 13), m'))
    × (read m' (pos 10) ≡ ok (79 ∷ 75 ∷ []))
    × (m'.size ≡ 60)
    × ((j : ℕ) → (j < 10) ⊎ (13 ≤ j) → m'.cells j ≡ sixty.cells j)
unfolding Memory.allocate
read-write_text_example =
    read-write_text sixty 10 (79 ∷ 75 ∷ []) (omega arith) (omega arith, (omega arith, tt))

-- The words `A` and `B`, one after the other, then a search for each.
abbrev two_words : Memory
unfolding reset append_word Memory.allocate
two_words =
    ((reset
        >> (append_word (65 ∷ []) (pos 19) [] false >>= λ a.
            append_word (66 ∷ []) (pos 7) (a ∷ []) true))
      sixty).1

find_first :
    find 2 two_words (65 ∷ [])
    ≡ some (
        ok (
          some (record {
            name = 65 ∷ [];
            link = pos 0;
            immediate = false;
            smudge = false;
            cfa = pos 13;
          })))
unfolding find reset append_word Memory.allocate ◌-ℤ◌
find_first = refl

find_second :
    find 2 two_words (66 ∷ [])
    ≡ some (
        ok (
          some (record {
            name = 66 ∷ [];
            link = pos 11;
            immediate = true;
            smudge = false;
            cfa = pos 19;
          })))
unfolding find reset append_word Memory.allocate ◌-ℤ◌
find_second = refl

-- Nothing is defined: `DP` is 8 and `LATEST` 0.
abbrev fresh : Memory
fresh = record { size = 60; cells = update (λ _. pos 0) 0 (pos 8) }

find-append_word_example :
    (m' : Memory) × (append_word (65 ∷ []) (pos 19) [] false fresh ≡ (ok (pos 13), m'))
    × (Memory.read m' (pos 13) ≡ ok (pos 19))
    × (find 1 m' (65 ∷ [])
        ≡ some (
            ok (
              some (record {
                name = 65 ∷ [];
                link = pos 0;
                immediate = false;
                smudge = false;
                cfa = pos 13;
              }))))
find-append_word_example =
    find-append_word fresh 8 (pos 0) (65 ∷ []) (pos 19) [] false (omega arith) (omega arith) 0 refl
      refl (omega arith, tt)
