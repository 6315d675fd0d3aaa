-- ===== src/Kernel/Words/StackWords.antt =====
-- services/kernel/routines.py: the stack words. The top item stands first in the list.
use min_cpu_forth.Prelude.{ℕ, suc, refl, List, ◌∷◌}
use min_cpu_forth.Prelude.Int.{ℤ, pos}
use min_cpu_forth.Registers
use min_cpu_forth.Registers.{RegisterFile}
use min_cpu_forth.Emulator.Spec.{ticks}
use min_cpu_forth.Kernel.Words.{World, data_is, Does, runs_to, on_kernel}

module _ (registers : RegisterFile) (v : World) where
  abbrev both_are : List ℤ → ℕ → List ℤ → ℕ → World
  both_are xs k ys j = record v {
    data_stack = record { items = xs; room = k };
    return_stack = record { items = ys; room = j };
  }

  -- ( a -- a a )
  pub dup-Does :
      (a : ℤ) (xs : List ℤ) (k : ℕ)
      → Does (pos 19) 4 registers (data_is v (a ∷ xs) (suc k)) (data_is v (a ∷ a ∷ xs) k)
  unfolding ticks Registers.write
  dup-Does a xs k = on_kernel (runs_to refl (refl, refl, refl))

  -- ( a -- )
  pub drop-Does :
      (a : ℤ) (xs : List ℤ) (k : ℕ)
      → Does (pos 23) 2 registers (data_is v (a ∷ xs) k) (data_is v xs (suc k))
  unfolding ticks Registers.write
  drop-Does a xs k = on_kernel (runs_to refl (refl, refl, refl))

  -- ( a b -- b a )
  pub swap-Does :
      (a b : ℤ) (xs : List ℤ) (k : ℕ)
      → Does (pos 25) 5 registers (data_is v (b ∷ a ∷ xs) k) (data_is v (a ∷ b ∷ xs) k)
  unfolding ticks Registers.write
  swap-Does a b xs k = on_kernel (runs_to refl (refl, refl, refl))

  -- ( a b -- a b a )
  pub over-Does :
      (a b : ℤ) (xs : List ℤ) (k : ℕ)
      → Does (pos 30) 6 registers (data_is v (b ∷ a ∷ xs) (suc k)) (data_is v (a ∷ b ∷ a ∷ xs) k)
  unfolding ticks Registers.write
  over-Does a b xs k = on_kernel (runs_to refl (refl, refl, refl))

  -- ( a b c -- b c a )
  pub rot-Does :
      (a b c : ℤ) (xs : List ℤ) (k : ℕ)
      → Does (pos 36) 7 registers (data_is v (c ∷ b ∷ a ∷ xs) k) (data_is v (a ∷ c ∷ b ∷ xs) k)
  unfolding ticks Registers.write
  rot-Does a b c xs k = on_kernel (runs_to refl (refl, refl, refl))

  -- ( a b c -- c a b )
  pub nrot-Does :
      (a b c : ℤ) (xs : List ℤ) (k : ℕ)
      → Does (pos 43) 7 registers (data_is v (c ∷ b ∷ a ∷ xs) k) (data_is v (b ∷ a ∷ c ∷ xs) k)
  unfolding ticks Registers.write
  nrot-Does a b c xs k = on_kernel (runs_to refl (refl, refl, refl))

  -- ( a b -- b )
  pub nip-Does :
      (a b : ℤ) (xs : List ℤ) (k : ℕ)
      → Does (pos 50) 4 registers (data_is v (b ∷ a ∷ xs) k) (data_is v (b ∷ xs) (suc k))
  unfolding ticks Registers.write
  nip-Does a b xs k = on_kernel (runs_to refl (refl, refl, refl))

  -- ( a b -- b a b )
  pub tuck-Does :
      (a b : ℤ) (xs : List ℤ) (k : ℕ)
      → Does (pos 54) 6 registers (data_is v (b ∷ a ∷ xs) (suc k)) (data_is v (b ∷ a ∷ b ∷ xs) k)
  unfolding ticks Registers.write
  tuck-Does a b xs k = on_kernel (runs_to refl (refl, refl, refl))

  -- `>R`: the top item moves to the return stack, in 3 steps, where that stack has a free cell.
  to_r-Does :
      (a : ℤ) (xs ys : List ℤ) (k j : ℕ)
      → Does (pos 118) 3 registers (both_are (a ∷ xs) k ys (suc j)) (both_are xs (suc k) (a ∷ ys) j)
  unfolding ticks Registers.write
  to_r-Does a xs ys k j = on_kernel (runs_to refl (refl, refl, refl))

  -- `R>`: the top item of the return stack moves to the data stack, in 3 steps, where that stack
  -- has a free cell.
  from_r-Does :
      (a : ℤ) (xs ys : List ℤ) (k j : ℕ)
      → Does (pos 121) 3 registers (both_are xs (suc k) (a ∷ ys) j) (both_are (a ∷ xs) k ys (suc j))
  unfolding ticks Registers.write
  from_r-Does a xs ys k j = on_kernel (runs_to refl (refl, refl, refl))

  -- `R@`: the top item of the return stack is copied to the data stack, in 4 steps, where that
  -- stack has a free cell.
  r_fetch-Does :
      (a : ℤ) (xs ys : List ℤ) (k j : ℕ)
      → Does (pos 124) 4 registers (both_are xs (suc k) (a ∷ ys) j) (both_are (a ∷ xs) k (a ∷ ys) j)
  unfolding ticks Registers.write
  r_fetch-Does a xs ys k j = on_kernel (runs_to refl (refl, refl, refl))

  -- The words of the return stack, where the stack that they push on has a free cell: `>R` moves the
  -- top item of the data stack to the return stack, in 3 steps; `R>` moves it back, in 3 steps; and
  -- `R@` copies it back, in 4 steps.
  pub return_words :
      (a : ℤ) (xs ys : List ℤ) (k j : ℕ)
      → Does (pos 118) 3 registers (both_are (a ∷ xs) k ys (suc j)) (both_are xs (suc k) (a ∷ ys) j)
        × Does
            (pos 121)
            3
            registers
            (both_are xs (suc k) (a ∷ ys) j)
            (both_are (a ∷ xs) k ys (suc j))
        × Does
            (pos 124)
            4
            registers
            (both_are xs (suc k) (a ∷ ys) j)
            (both_are (a ∷ xs) k (a ∷ ys) j)
  return_words a xs ys k j =
      (to_r-Does a xs ys k j, from_r-Does a xs ys k j, r_fetch-Does a xs ys k j)
