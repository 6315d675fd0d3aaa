-- ===== src/Kernel/Words/MemoryWords.antt =====
-- services/kernel/routines.py: `@`, `!`, `C@`, `C!`, `KEY` and `EMIT`.
use min_cpu_forth.Prelude.{ℕ, suc, ◌<◌, ◌≡◌, refl, some, Option, List, ◌∷◌, subst, arith}
use min_cpu_forth.Prelude.Int.{ℤ, pos}
use min_cpu_forth.Layout.{dictionary_size}
use min_cpu_forth.Memory.{update}
use min_cpu_forth.Registers
use min_cpu_forth.Registers.{RegisterFile}
use min_cpu_forth.CharacterIo.{put_code}
use min_cpu_forth.Emulator.Spec.{Abstract, ticks, continue, set_from, load_cell, store_cell}
use min_cpu_forth.Kernel.Program.{listing}
use min_cpu_forth.Kernel.Words.{World, data_is, machine_at, Does, runs_to, then_does, on_kernel}

-- An address of the dictionary block is one that the abstract machine reads and writes.
pub load_cell-pos :
    (cells : ℕ → ℤ) (n : ℕ) → n < dictionary_size → load_cell cells (pos n) ≡ some (cells n)
load_cell-pos cells n h = ground arith

pub store_cell-pos :
    (s : Abstract) (n : ℕ) (x : ℤ)
    → n < dictionary_size
    → store_cell s (pos n) x ≡ some (record s { cells = update s.cells n x })
store_cell-pos s n x h = ground arith

module _ (r : RegisterFile) where
  fetch_load :
      (c : Option ℤ) (w : World)
      → load_cell w.cells (r "X") ≡ c
      → ticks listing 1 (machine_at (pos 103) r w)
        ≡ continue (ticks listing 0) (set_from c "Y" (machine_at (pos 104) r w))
  unfolding ticks Registers.write
  fetch_load c w e =
      subst
        (λ o.
          ticks listing 1 (machine_at (pos 103) r w)
          ≡ continue (ticks listing 0) (set_from o "Y" (machine_at (pos 104) r w)))
        e refl

  c_fetch_load :
      (c : Option ℤ) (w : World)
      → load_cell w.cells (r "X") ≡ c
      → ticks listing 1 (machine_at (pos 111) r w)
        ≡ continue (ticks listing 0) (set_from c "Y" (machine_at (pos 112) r w))
  unfolding ticks Registers.write
  c_fetch_load c w e =
      subst
        (λ o.
          ticks listing 1 (machine_at (pos 111) r w)
          ≡ continue (ticks listing 0) (set_from o "Y" (machine_at (pos 112) r w)))
        e refl

  store_word_write :
      (o : Option Abstract) (w : World)
      → store_cell (machine_at (pos 109) r w) (r "X") (r "Y") ≡ o
      → ticks listing 1 (machine_at (pos 108) r w) ≡ continue (ticks listing 0) o
  unfolding ticks Registers.write
  store_word_write o w e =
      subst (λ o'. ticks listing 1 (machine_at (pos 108) r w) ≡ continue (ticks listing 0) o') e
        refl

  c_store_write :
      (o : Option Abstract) (w : World)
      → store_cell (machine_at (pos 117) r w) (r "X") (r "Y") ≡ o
      → ticks listing 1 (machine_at (pos 116) r w) ≡ continue (ticks listing 0) o
  unfolding ticks Registers.write
  c_store_write o w e =
      subst (λ o'. ticks listing 1 (machine_at (pos 116) r w) ≡ continue (ticks listing 0) o') e
        refl

module _ (r : RegisterFile) (v : World) where
  -- `@`: an address of the dictionary block on top of the stack is replaced by the content of its
  -- cell, in 4 steps.
  pub fetch-Does :
      (n : ℕ) (xs : List ℤ) (k : ℕ)
      → n < dictionary_size
      → Does (pos 102) 4 r (data_is v (pos n ∷ xs) k) (data_is v (v.cells n ∷ xs) k)
  unfolding ticks Registers.write
  fetch-Does n xs k h =
      let r₁ = Registers.write r "X" (pos n) in
      on_kernel (
        then_does {m = 3} 1 (pos 103) r₁ refl (refl, refl, refl)
          (then_does {m = 2} 1 (pos 104) (Registers.write r₁ "Y" (v.cells n))
            (fetch_load r₁ (some (v.cells n)) (data_is v xs (suc k)) (load_cell-pos v.cells n h))
            (refl, refl, refl) (runs_to refl (refl, refl, refl))))

  -- `C@` does what `@` does.
  pub c_fetch-Does :
      (n : ℕ) (xs : List ℤ) (k : ℕ)
      → n < dictionary_size
      → Does (pos 110) 4 r (data_is v (pos n ∷ xs) k) (data_is v (v.cells n ∷ xs) k)
  unfolding ticks Registers.write
  c_fetch-Does n xs k h =
      let r₁ = Registers.write r "X" (pos n) in
      on_kernel (
        then_does {m = 3} 1 (pos 111) r₁ refl (refl, refl, refl)
          (then_does {m = 2} 1 (pos 112) (Registers.write r₁ "Y" (v.cells n))
            (c_fetch_load r₁ (some (v.cells n)) (data_is v xs (suc k)) (load_cell-pos v.cells n h))
            (refl, refl, refl) (runs_to refl (refl, refl, refl))))

  -- `!`: with an address of the dictionary block on top of the stack and a value below it, the two
  -- are taken and the value is stored in the cell, in 4 steps.
  pub store_word-Does :
      (n : ℕ) (x : ℤ) (xs : List ℤ) (k : ℕ)
      → n < dictionary_size
      → Does
          (pos 106)
          4
          r
          (data_is v (pos n ∷ x ∷ xs) k)
          (data_is (record v { cells = update v.cells n x }) xs (suc (suc k)))
  unfolding ticks Registers.write
  store_word-Does n x xs k h =
      let r₁ = Registers.write (Registers.write r "X" (pos n)) "Y" x in
      on_kernel (
        then_does {m = 2} 2 (pos 108) r₁ refl (refl, refl, refl)
          (then_does {m = 1} 1 (pos 109) r₁
            (store_word_write r₁ _ (data_is v xs (suc (suc k))) (store_cell-pos _ n x h))
            (refl, refl, refl) (runs_to refl (refl, refl, refl))))

  -- `C!` does what `!` does.
  pub c_store-Does :
      (n : ℕ) (x : ℤ) (xs : List ℤ) (k : ℕ)
      → n < dictionary_size
      → Does
          (pos 114)
          4
          r
          (data_is v (pos n ∷ x ∷ xs) k)
          (data_is (record v { cells = update v.cells n x }) xs (suc (suc k)))
  unfolding ticks Registers.write
  c_store-Does n x xs k h =
      let r₁ = Registers.write (Registers.write r "X" (pos n)) "Y" x in
      on_kernel (
        then_does {m = 2} 2 (pos 116) r₁ refl (refl, refl, refl)
          (then_does {m = 1} 1 (pos 117) r₁
            (c_store_write r₁ _ (data_is v xs (suc (suc k))) (store_cell-pos _ n x h))
            (refl, refl, refl) (runs_to refl (refl, refl, refl))))

  -- `KEY`: with a code in the input queue, and a free cell on the data stack, the code is taken
  -- from the queue and pushed, in 3 steps.
  pub key-Does :
      (c : ℤ) (queue xs : List ℤ) (k : ℕ)
      → Does
          (pos 210)
          3
          r
          (data_is (record v { char_input = c ∷ queue }) xs (suc k))
          (data_is (record v { char_input = queue }) (c ∷ xs) k)
  unfolding ticks Registers.write
  key-Does c queue xs k = on_kernel (runs_to refl (refl, refl, refl))

  -- `EMIT`: the top item is taken and appended to the output buffer, in 3 steps.
  pub emit-Does :
      (c : ℤ) (xs : List ℤ) (k : ℕ)
      → Does
          (pos 213)
          3
          r
          (data_is v (c ∷ xs) k)
          (data_is (record v { char_output = put_code c v.char_output }) xs (suc k))
  unfolding ticks Registers.write
  emit-Does c xs k = on_kernel (runs_to refl (refl, refl, refl))
