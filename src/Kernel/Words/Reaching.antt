-- ===== src/Kernel/Words/Reaching.antt =====
-- Runs of the kernel with the number of steps left out, and one lemma for each instruction whose
-- effect waits on a value: loads, stores, branches and jumps to a label.
use min_cpu_forth.Prelude.{
  ℕ, suc, ◌+◌, ◌<◌, ◌≡◌, refl, String, Bool, some, List, [], ◌∷◌, ap, ◌∙◌, if◌then◌else◌, arith,
  ◌≤◌, ◌⊎◌, inl, inr, length,
}
use min_cpu_forth.Prelude.Int.{ℤ, pos, ◌+ℤ◌, ◌-ℤ◌, eqb_ℤ, ltb_ℤ, set_value}
use min_cpu_forth.Domain
use min_cpu_forth.Domain.{Instruction}
use min_cpu_forth.Domain.Register
use min_cpu_forth.Layout.{dictionary_size}
use min_cpu_forth.Memory.{update}
use min_cpu_forth.Stack.View.{At}
use min_cpu_forth.Registers
use min_cpu_forth.Registers.{RegisterFile}
use min_cpu_forth.Emulator.{fetch}
use min_cpu_forth.Emulator.Spec.{
  Abstract, effect, effect_of, tick, ticks, continue, load_cell, store_cell, set_from,
}
use min_cpu_forth.Emulator.Runs.{ticks-append}
use min_cpu_forth.Kernel.Program.{listing}
use min_cpu_forth.Kernel.Program.Notation.{unary, binary, immediate, branch}
use min_cpu_forth.Kernel.Words.{World, machine_at, Does, Keeps, on_kernel}
use min_cpu_forth.Kernel.Words.MemoryWords.{load_cell-pos, store_cell-pos}

-- Some number of steps leads from the one machine to the other.
pub record Reaches (s s' : Abstract) : Type 0 where
  pub steps : ℕ
  pub runs : ticks listing steps s ≡ some s'

pub reach : {s s' : Abstract} (n : ℕ) → ticks listing n s ≡ some s' → Reaches s s'
reach n e = record { steps = n; runs = e }

pub stay : {s : Abstract} → Reaches s s
unfolding ticks
stay = record { steps = 0; runs = refl }

infixr 5 ◌>>◌
pub ◌>>◌ : {s s' s'' : Abstract} → Reaches s s' → Reaches s' s'' → Reaches s s''
◌>>◌ {s} {s'} first second = record {
  steps = first.steps + second.steps;
  runs = ticks-append listing first.steps second.steps s s' first.runs ∙ second.runs;
}

-- A run to where `NEXTREG` points is a word's work done.
pub reaches-Does :
    {index : ℤ} {r r' : RegisterFile} {before after : World}
    (done : Reaches (machine_at index r before) (machine_at (r Register.next_pointer) r' after))
    → Keeps r r'
    → Does index done.steps r before after
reaches-Does {r' = r'} done keeps =
    on_kernel (record { registers' = r'; runs = done.runs; keeps = keeps })

-- One step, by the instruction that is fetched.
one_step :
    (index next : ℤ) (i : Instruction) (r : RegisterFile) (v : World) (s : Abstract)
    → fetch listing index ≡ some i
    → index +ℤ pos 1 ≡ next
    → effect i.opcode i.a i.b i.offset (machine_at next r v) ≡ some s
    → Reaches (machine_at index r v) s
unfolding ticks tick
one_step index next i r v s e e' e'' = reach 1 (
    ap (λ o. continue (ticks listing 0) (effect_of o (machine_at index r v))) e
    ∙ (ap (λ pc. continue (ticks listing 0) (effect i.opcode i.a i.b i.offset (machine_at pc r v)))
          e'
        ∙ ap (continue (ticks listing 0)) e''))

module _ (r : RegisterFile) (v : World) where
  pub load_step :
      (index next : ℤ) (dst src : String) (a : ℕ)
      → fetch listing index ≡ some (binary Domain.load dst src)
      → index +ℤ pos 1 ≡ next
      → r src ≡ pos a
      → a < dictionary_size
      → Reaches (machine_at index r v) (machine_at next (Registers.write r dst (v.cells a)) v)
  unfolding effect Registers.write Registers.read
  load_step index next dst src a e e' h lt = one_step index next _ r v _ e e' (
      ap (λ c. set_from c dst (machine_at next r v))
        (ap (load_cell v.cells) h ∙ load_cell-pos v.cells a lt))

  pub store_step :
      (index next : ℤ) (dst src : String) (a : ℕ)
      → fetch listing index ≡ some (binary Domain.store dst src)
      → index +ℤ pos 1 ≡ next
      → r dst ≡ pos a
      → a < dictionary_size
      → Reaches
          (machine_at index r v)
          (machine_at next r (record v { cells = update v.cells a (r src) }))
  unfolding effect Registers.read
  store_step index next dst src a e e' h lt = one_step index next _ r v _ e e' (
      ap (λ z. store_cell (machine_at next r v) z (r src)) h
      ∙ store_cell-pos (machine_at next r v) a (r src) lt)

  pub jz_step :
      (index next target : ℤ) (x : String) (offset : ℤ) (b : Bool)
      → fetch listing index ≡ some (branch Domain.jz x offset)
      → index +ℤ pos 1 ≡ next
      → next +ℤ offset ≡ target
      → eqb_ℤ (r x) (pos 0) ≡ b
      → Reaches (machine_at index r v) (machine_at (if b then target else next) r v)
  unfolding effect Registers.read
  jz_step index next target x offset b e e' e'' h = one_step index next _ r v _ e e' (
      ap (λ t. some (machine_at (if t then next +ℤ offset else next) r v)) h
      ∙ ap (λ z. some (machine_at (if b then z else next) r v)) e'')

  pub js_step :
      (index next target : ℤ) (x : String) (offset : ℤ) (b : Bool)
      → fetch listing index ≡ some (branch Domain.js x offset)
      → index +ℤ pos 1 ≡ next
      → next +ℤ offset ≡ target
      → ltb_ℤ (r x) (pos 0) ≡ b
      → Reaches (machine_at index r v) (machine_at (if b then target else next) r v)
  unfolding effect Registers.read
  js_step index next target x offset b e e' e'' h = one_step index next _ r v _ e e' (
      ap (λ t. some (machine_at (if t then next +ℤ offset else next) r v)) h
      ∙ ap (λ z. some (machine_at (if b then z else next) r v)) e'')

-- The registers after `SET R, label` and `JMP R`.
abbrev pub jumped : RegisterFile → ℤ → RegisterFile
jumped r label =
    Registers.write (Registers.write r "R" (r "R" -ℤ r "R")) "R" (r "R" -ℤ r "R" +ℤ label)

-- `SET R, label` and `JMP R`, from `index` on.
pub jump_step :
    (r : RegisterFile) (v : World) (index second third label : ℤ)
    → fetch listing index ≡ some (binary Domain.sub "R" "R")
    → index +ℤ pos 1 ≡ second
    → fetch listing second ≡ some (immediate Domain.add "R" label)
    → second +ℤ pos 1 ≡ third
    → fetch listing third ≡ some (unary Domain.jmp "R")
    → Reaches (machine_at index r v) (machine_at label (jumped r label) v)
unfolding effect Registers.write Registers.read
jump_step r v index second third label e₁ n₁ e₂ n₂ e₃ =
    one_step index second _ r v _ e₁ n₁ refl
    >> (one_step second third _ (Registers.write r "R" (r "R" -ℤ r "R")) v _ e₂ n₂ refl
        >> one_step third (third +ℤ pos 1) _ (jumped r label) v _ e₃ refl
            (ap (λ pc. some (machine_at pc (jumped r label) v)) (set_value (r "R") label)))

-- Some run leads from a machine to a program index and a world, with registers of which `P` holds.
pub record Gets (s : Abstract) (index : ℤ) (v : World) (P : RegisterFile → Type 0) : Type 0 where
  pub registers' : RegisterFile
  pub reached : Reaches s (machine_at index registers' v)
  pub post : P registers'

-- Cells overwritten from `p` on.
abbrev pub poured : (ℕ → ℤ) → ℕ → List ℤ → ℕ → ℤ
poured cells p [] = cells
poured cells p (x ∷ xs) = poured (update cells p x) (suc p) xs

pub poured-outside :
    (cells : ℕ → ℤ) (p : ℕ) (xs : List ℤ) (j : ℕ)
    → (j < p) ⊎ (p + length xs ≤ j)
    → poured cells p xs j ≡ cells j
poured-outside cells p [] j h = refl
poured-outside cells p (x ∷ xs) j (inl lt) =
    poured-outside (update cells p x) (suc p) xs j (inl (omega arith)) ∙ ground arith
poured-outside cells p (x ∷ xs) j (inr le) =
    poured-outside (update cells p x) (suc p) xs j (inr (omega arith)) ∙ ground arith

pub At-poured : (cells : ℕ → ℤ) (p : ℕ) (xs : List ℤ) → At (poured cells p xs) p xs
At-poured cells p [] = tt
At-poured cells p (x ∷ xs) = (
  poured-outside (update cells p x) (suc p) xs p (inl (omega arith)) ∙ ground arith,
  At-poured (update cells p x) (suc p) xs,
)

pub Keeps-trans : (r r' r'' : RegisterFile) → Keeps r r' → Keeps r' r'' → Keeps r r''
Keeps-trans r r' r'' (a, b, c) (a', b', c') = (a' ∙ a, b' ∙ b, c' ∙ c)
