-- ===== src/Tests/ForthTests.antt =====
-- `ForthService` on small inputs.
use min_cpu_forth.Prelude.{◌≡◌, [], ◌∷◌, none, refl}
use min_cpu_forth.Prelude.Int.{pos, ◌*ℤ◌, ◌+ℤ◌, ◌-ℤ◌}
use min_cpu_forth.Errors.{ok, err, recursion_error, unknown_word}
use min_cpu_forth.Memory.{Memory}
use min_cpu_forth.Memory
use min_cpu_forth.Registers
use min_cpu_forth.Stack
use min_cpu_forth.Stack.View.{stack_at}
use min_cpu_forth.Forth.Service.{Forth, colon, call, create, add_colon_def}
use min_cpu_forth.Forth.StackWords.{stack_word}
use min_cpu_forth.Forth.Depth.{call-recursion_error}
use min_cpu_forth.Forth.Colon.{call-unknown_word}
use min_cpu_forth.Assembler.Specs.{lookup}

-- Eight cells, a data stack of four that holds 7 in cell 3, and the word `SQUARE`.
abbrev service : Forth
unfolding create add_colon_def
service = add_colon_def "SQUARE" ("DUP" ∷ "*" ∷ []) (
    create (record { size = 8; cells = λ _. pos 7 }) (stack_at 0 4 3) (stack_at 4 8 4)
      Registers.unset)

-- `BROKEN` is `SQUARE` with a word that nobody has defined, and a word after it.
abbrev broken_service : Forth
unfolding add_colon_def
broken_service = add_colon_def "BROKEN" ("DUP" ∷ "*" ∷ "NOPE" ∷ "DROP" ∷ []) service

abbrev squared : Forth
unfolding call create add_colon_def stack_word Stack.push Stack.pop Stack.peek Memory.read
    Memory.write ◌*ℤ◌ ◌+ℤ◌ ◌-ℤ◌
squared = (call 900 (colon "SQUARE") broken_service).1

square-ends : call 900 (colon "SQUARE") broken_service ≡ (ok tt, squared)
unfolding call create add_colon_def stack_word Stack.push Stack.pop Stack.peek Memory.read
    Memory.write ◌*ℤ◌ ◌+ℤ◌ ◌-ℤ◌
square-ends = refl

nope-missing : lookup "NOPE" squared.dictionary ≡ none
unfolding call create add_colon_def stack_word Stack.push Stack.pop Stack.peek Memory.read
    Memory.write ◌*ℤ◌ ◌+ℤ◌ ◌-ℤ◌
nope-missing = refl

call-unknown_word_example : call 900 (colon "BROKEN") broken_service ≡ (err unknown_word, squared)
unfolding create add_colon_def
call-unknown_word_example =
    call-unknown_word 899 "SQUARE" "BROKEN" "NOPE" ("DUP" ∷ "*" ∷ []) ("DROP" ∷ []) broken_service
      squared refl refl square-ends nope-missing

call-recursion_error_example :
    (call 900 (colon "X") (add_colon_def "X" ("X" ∷ "DUP" ∷ []) service)).0 ≡ err recursion_error
call-recursion_error_example = call-recursion_error 900 "X" ("DUP" ∷ []) service
