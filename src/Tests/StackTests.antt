-- ===== src/Tests/StackTests.antt =====
-- The memory, the stack adapter and the words of `ForthService` on small inputs.
use min_cpu_forth.Prelude.{ℕ, ◌+◌, ◌≤◌, ◌≡◌, ◌≢◌, ◌⊎◌, refl, [], ◌∷◌, arith}
use min_cpu_forth.Prelude.Int.{pos, negsuc, ◌-ℤ◌}
use min_cpu_forth.Errors.{ok, err, index_error}
use min_cpu_forth.Memory.{Memory, read, write}
use min_cpu_forth.Memory.Laws.{read-write}
use min_cpu_forth.Stack.{Region, push, pop, peek}
use min_cpu_forth.Stack.View.{View, Holds, Frame, Agrees, stack_at, push_view, pop_view, peek_view}
use min_cpu_forth.Stack.Port.{adapter_port}
use min_cpu_forth.Stack.Refinement.{push-Refines, pop_lem, peek_lem}
use min_cpu_forth.Forth.StackWords
use min_cpu_forth.Forth.StackWords.{stack_word}
use min_cpu_forth.Forth.Effects.{Ends, stack_word-effect}

-- Cells 2 to 5 of eight are the region, with 4 on top of 5.
abbrev cells : Memory
cells = record { size = 8; cells = λ n. pos n }

abbrev region : Region
region = record { stack = stack_at 2 6 2; memory = cells }

abbrev view : View
view = record { items = pos 4 ∷ pos 5 ∷ []; room = 2 }

view-Holds : Holds 2 6 view region
view-Holds = record { stack = refl; fills = refl; fits = omega arith; at = (refl, (refl, tt)) }

push-Refines_example : Agrees 2 6 region (push_view (pos 9) view) (push (pos 9) region)
push-Refines_example = push-Refines 2 6 (pos 9) view region view-Holds

pop_lem_example :
    Agrees 2 6 region (pop_view view) (pop region) × ((pop region).1.memory ≡ region.memory)
pop_lem_example = pop_lem 2 6 view region view-Holds

peek_lem_example : Agrees 2 6 region (peek_view view) (peek region) × ((peek region).1 ≡ region)
peek_lem_example = peek_lem 2 6 view region view-Holds

stack_word-effect_example :
    Ends 2 6 (ok (pos 1 ∷ [])) (stack_word adapter_port StackWords.minus region)
    × Frame 2 6 cells (stack_word adapter_port StackWords.minus region).1.memory
unfolding ◌-ℤ◌
stack_word-effect_example =
    stack_word-effect 2 6 StackWords.minus (pos 4 ∷ pos 5 ∷ []) 1 region view-Holds

-- Address -1 is the last cell.
read-write_example :
    ((i : ℕ) × (1 + i ≡ 8)
      × (read cells (negsuc 0) ≡ ok (pos i))
      × ((m' : Memory) × (write cells (negsuc 0) (pos 9) ≡ ok m')
          × (read m' (negsuc 0) ≡ ok (pos 9))
          × (m'.size ≡ 8)
          × (m'.cells i ≡ pos 9)
          × ((j : ℕ) → j ≢ i → m'.cells j ≡ pos j)))
    ⊎ ((8 ≤ 0)
        × (read cells (negsuc 0) ≡ err index_error)
        × (write cells (negsuc 0) (pos 9) ≡ err index_error))
read-write_example = read-write cells (negsuc 0) (pos 9)
