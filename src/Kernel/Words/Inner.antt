-- ===== src/Kernel/Words/Inner.antt =====
-- services/kernel/routines.py: `NEXT`, `ENTER`, `EXIT`, `LIT` and `BYE`, the inner interpreter.
use min_cpu_forth.Prelude.{
  ℕ, suc, ◌+◌, ◌<◌, ◌≡◌, refl, some, Option, List, ◌∷◌, subst, sym, ap, ◌∙◌,
}
use min_cpu_forth.Prelude.Int.{ℤ, pos, ◌+ℤ◌, int_laws, -ℤ_self, zero_+ℤ, ◌-ℤ◌}
use min_cpu_forth.Layout.{dictionary_size}
use min_cpu_forth.Domain.{Instruction}
use min_cpu_forth.Domain.Register
use min_cpu_forth.Registers
use min_cpu_forth.Registers.{RegisterFile}
use min_cpu_forth.Emulator.Spec.{ticks, continue, set_from, load_cell}
use min_cpu_forth.Emulator.Runs.{ticks-append}
use min_cpu_forth.Kernel.Program.{kernel_program, listing, kernel_program-listing}
use min_cpu_forth.Kernel.Words.{World, data_is, machine_at}
use min_cpu_forth.Kernel.Words.MemoryWords.{load_cell-pos}

-- A world with another return stack.
abbrev pub return_is : World → List ℤ → ℕ → World
return_is v ys j = record v { return_stack = record { items = ys; room = j } }

-- From `pc`, in `n` steps of the kernel, the world becomes `after` and the registers `registers'`,
-- of which `P` holds, and control goes to `pc'`.
pub record Leads (program : List Instruction) (pc : ℤ) (n : ℕ) (registers : RegisterFile)
    (before : World) (pc' : ℤ) (after : World) (P : RegisterFile → Type 0) : Type 0 where
  pub registers' : RegisterFile
  pub runs :
      ticks program n (machine_at pc registers before) ≡ some (machine_at pc' registers' after)
  pub post : P registers'

-- What holds at `NEXT`: the thread pointer, and where the routines return to.
pub record AtNext (ip : ℕ) (r : RegisterFile) : Type 0 where
  pub thread : r Register.ip ≡ pos ip
  pub back : r Register.next_pointer ≡ pos 3

-- What holds where a routine is entered: besides, `W` holds the CFA.
pub record AtRoutine (ip cfa : ℕ) (r : RegisterFile) : Type 0 where
  pub next : AtNext ip r
  pub word : r Register.w ≡ pos cfa

pub suc-pos : (n : ℕ) → pos n +ℤ pos 1 ≡ pos (suc n)
suc-pos n = omega int_laws

module _ (r : RegisterFile) (v : World) where
  next_word :
      (c : Option ℤ)
      → load_cell v.cells (r "IP") ≡ c
      → ticks listing 1 (machine_at (pos 3) r v)
        ≡ continue (ticks listing 0) (set_from c "W" (machine_at (pos 4) r v))
  unfolding ticks Registers.write
  next_word c e =
      subst
        (λ o.
          ticks listing 1 (machine_at (pos 3) r v)
          ≡ continue (ticks listing 0) (set_from o "W" (machine_at (pos 4) r v)))
        e refl

  next_code :
      (c : Option ℤ)
      → load_cell v.cells (r "W") ≡ c
      → ticks listing 1 (machine_at (pos 5) r v)
        ≡ continue (ticks listing 0) (set_from c "XT" (machine_at (pos 6) r v))
  unfolding ticks Registers.write
  next_code c e =
      subst
        (λ o.
          ticks listing 1 (machine_at (pos 5) r v)
          ≡ continue (ticks listing 0) (set_from o "XT" (machine_at (pos 6) r v)))
        e refl

  lit_load :
      (c : Option ℤ)
      → load_cell v.cells (r "IP") ≡ c
      → ticks listing 1 (machine_at (pos 12) r v)
        ≡ continue (ticks listing 0) (set_from c "ACC" (machine_at (pos 13) r v))
  unfolding ticks Registers.write
  lit_load c e =
      subst
        (λ o.
          ticks listing 1 (machine_at (pos 12) r v)
          ≡ continue (ticks listing 0) (set_from o "ACC" (machine_at (pos 13) r v)))
        e refl

-- Two parts of a run, one after the other.
pub Leads-append :
    {program : List Instruction} {pc pc' pc'' : ℤ} {n m : ℕ} {r : RegisterFile} {v v' v'' : World}
    {P Q : RegisterFile → Type 0} (first : Leads program pc n r v pc' v' P)
    → Leads program pc' m first.registers' v' pc'' v'' Q
    → Leads program pc (n + m) r v pc'' v'' Q
Leads-append {program} {n = n} {m} first second = record {
  registers' = second.registers';
  runs = ticks-append program n m _ _ first.runs ∙ second.runs;
  post = second.post;
}

-- `NEXT` fetches a CFA through `IP`, the routine's index through the CFA, and jumps there with
-- `IP` on the next cell.
next_listing :
    (r : RegisterFile) (v : World) (ip cfa : ℕ) (index : ℤ)
    → AtNext ip r
    → ip < dictionary_size
    → cfa < dictionary_size
    → v.cells ip ≡ pos cfa
    → v.cells cfa ≡ index
    → Leads listing (pos 3) 4 r v index v (AtRoutine (suc ip) cfa)
unfolding ticks Registers.write
next_listing r v ip cfa index h lt lt' e e' =
    let r₁ = Registers.write r "W" (pos cfa) in
    let r₂ = Registers.write r₁ "IP" (r "IP" +ℤ pos 1) in
    let r₃ = Registers.write r₂ "XT" index in
    record {
      registers' = r₃;
      runs =
          ticks-append listing 1 3 (machine_at (pos 3) r v) (machine_at (pos 4) r₁ v) (
            next_word r v (some (pos cfa))
              (ap (load_cell v.cells) h.thread ∙ (load_cell-pos v.cells ip lt ∙ ap some e)))
          ∙ (ticks-append listing 1 2 (machine_at (pos 4) r₁ v) (machine_at (pos 5) r₂ v) refl
              ∙ (ticks-append listing 1 1 (machine_at (pos 5) r₂ v) (machine_at (pos 6) r₃ v)
                    (next_code r₂ v (some index) (load_cell-pos v.cells cfa lt' ∙ ap some e'))
                  ∙ refl));
      post = record {
        next = record { thread = ap (λ x. x +ℤ pos 1) h.thread ∙ suc-pos ip; back = h.back };
        word = refl;
      };
    }

-- `ENTER` saves the caller's `IP` and goes to `NEXT` at the cell after the code field. The `SUB` of
-- its `MOV` clears `IP` first.
enter_listing :
    (r : RegisterFile) (v : World) (ip cfa : ℕ) (ys : List ℤ) (j : ℕ)
    → AtRoutine ip cfa r
    → Leads listing
        (pos 7)
        5
        r
        (return_is v ys (suc j))
        (pos 3)
        (return_is v (pos ip ∷ ys) j)
        (AtNext (suc cfa))
unfolding ticks Registers.write
enter_listing r v ip cfa ys j h =
    let r₁ = Registers.write r "W" (r "W" +ℤ pos 1) in
    let r₂ = Registers.write r₁ "IP" (r "IP" -ℤ r "IP") in
    let r₃ = Registers.write r₂ "IP" (r "IP" -ℤ r "IP" +ℤ (r "W" +ℤ pos 1)) in
    record {
      registers' = r₃;
      runs =
          subst
            (λ y.
              ticks listing 5 (machine_at (pos 7) r (return_is v ys (suc j)))
              ≡ some (machine_at (r "NEXTREG") r₃ (return_is v (y ∷ ys) j)))
            h.next.thread refl
          ∙ ap (λ pc. some (machine_at pc r₃ (return_is v (pos ip ∷ ys) j))) h.next.back;
      post = record {
        thread =
            ap (λ z. z +ℤ (r "W" +ℤ pos 1)) (-ℤ_self (r "IP"))
            ∙ (zero_+ℤ (r "W" +ℤ pos 1) ∙ (ap (λ x. x +ℤ pos 1) h.word ∙ suc-pos cfa));
        back = h.next.back;
      };
    }

-- `EXIT` takes the caller's `IP` back.
exit_listing :
    (r : RegisterFile) (v : World) (ip cfa back : ℕ) (ys : List ℤ) (j : ℕ)
    → AtRoutine ip cfa r
    → Leads listing
        (pos 16)
        2
        r
        (return_is v (pos back ∷ ys) j)
        (pos 3)
        (return_is v ys (suc j))
        (AtNext back)
unfolding ticks Registers.write
exit_listing r v ip cfa back ys j h =
    let r₁ = Registers.write r "IP" (pos back) in
    record {
      registers' = r₁;
      runs = ap (λ pc. some (machine_at pc r₁ (return_is v ys (suc j)))) h.next.back;
      post = record { thread = refl; back = h.next.back };
    }

-- `LIT` pushes the cell that `IP` points at, and steps over it.
lit_listing :
    (r : RegisterFile) (v : World) (ip cfa : ℕ) (xs : List ℤ) (k : ℕ)
    → AtRoutine ip cfa r
    → ip < dictionary_size
    → Leads listing
        (pos 12)
        4
        r
        (data_is v xs (suc k))
        (pos 3)
        (data_is v (v.cells ip ∷ xs) k)
        (AtNext (suc ip))
unfolding ticks Registers.write
lit_listing r v ip cfa xs k h lt =
    let r₁ = Registers.write r "ACC" (v.cells ip) in
    let r₂ = Registers.write r₁ "IP" (r "IP" +ℤ pos 1) in
    let w = data_is v xs (suc k) in
    record {
      registers' = r₂;
      runs =
          ticks-append listing 1 3 (machine_at (pos 12) r w) (machine_at (pos 13) r₁ w) (
            lit_load r w (some (v.cells ip))
              (ap (load_cell v.cells) h.next.thread ∙ load_cell-pos v.cells ip lt))
          ∙ ap (λ pc. some (machine_at pc r₂ (data_is v (v.cells ip ∷ xs) k))) h.next.back;
      post = record {
        thread = ap (λ x. x +ℤ pos 1) h.next.thread ∙ suc-pos ip;
        back = h.next.back;
      };
    }

-- What leads somewhere on the listing leads there on the kernel.
pub Leads-kernel :
    {pc pc' : ℤ} {n : ℕ} {r : RegisterFile} {v v' : World} {P : RegisterFile → Type 0}
    → Leads listing pc n r v pc' v' P
    → Leads kernel_program pc n r v pc' v' P
Leads-kernel {pc} {pc'} {n} {r} {v} {v'} {P} h =
    subst (λ p. Leads p pc n r v pc' v' P) (sym kernel_program-listing) h

module _ (r : RegisterFile) (v : World) (ip cfa : ℕ) where
  -- From `NEXT`, with `IP` at a cell of the dictionary block that holds the CFA of a word in the
  -- block, control goes in 4 steps to the index in the code field, with `IP` on the next cell, the
  -- CFA in `W`, and the world unchanged.
  pub next_lem :
      (index : ℤ)
      → AtNext ip r
      → ip < dictionary_size
      → cfa < dictionary_size
      → v.cells ip ≡ pos cfa
      → v.cells cfa ≡ index
      → Leads kernel_program (pos 3) 4 r v index v (AtRoutine (suc ip) cfa)
  next_lem index h lt lt' e e' = Leads-kernel (next_listing r v ip cfa index h lt lt' e e')

  -- `ENTER`, entered with the CFA in `W`, pushes the caller's `IP` on the return stack, where it
  -- has a free cell, and comes to `NEXT` in 5 steps with `IP` on the cell after the code field.
  pub enter_lem :
      (ys : List ℤ) (j : ℕ)
      → AtRoutine ip cfa r
      → Leads kernel_program
          (pos 7)
          5
          r
          (return_is v ys (suc j))
          (pos 3)
          (return_is v (pos ip ∷ ys) j)
          (AtNext (suc cfa))
  enter_lem ys j h = Leads-kernel (enter_listing r v ip cfa ys j h)

  -- `EXIT` pops the address on top of the return stack into `IP` and comes to `NEXT` in 2 steps.
  pub exit_lem :
      (back : ℕ) (ys : List ℤ) (j : ℕ)
      → AtRoutine ip cfa r
      → Leads kernel_program
          (pos 16)
          2
          r
          (return_is v (pos back ∷ ys) j)
          (pos 3)
          (return_is v ys (suc j))
          (AtNext back)
  exit_lem back ys j h = Leads-kernel (exit_listing r v ip cfa back ys j h)

  -- `LIT` pushes the cell of the dictionary block that `IP` points at on the data stack, where it
  -- has a free cell, and comes to `NEXT` in 4 steps with `IP` past that cell.
  pub lit_lem :
      (xs : List ℤ) (k : ℕ)
      → AtRoutine ip cfa r
      → ip < dictionary_size
      → Leads kernel_program
          (pos 12)
          4
          r
          (data_is v xs (suc k))
          (pos 3)
          (data_is v (v.cells ip ∷ xs) k)
          (AtNext (suc ip))
  lit_lem xs k h lt = Leads-kernel (lit_listing r v ip cfa xs k h lt)
