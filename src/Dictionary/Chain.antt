-- ===== src/Dictionary/Chain.antt =====
-- domain/dtos.py, `DictionaryHeaderDto`: the chain of headers in the memory, from `LATEST` on.
use min_cpu_forth.Prelude.{ℕ, suc, ◌+◌, ◌≤◌, ◌<◌, ◌≡◌, List, [], ◌∷◌, length, arith, ◌∙◌}
use min_cpu_forth.Prelude.Int.{ℤ, pos}
use min_cpu_forth.Stack.View.{At}
use min_cpu_forth.Dictionary.Codec.{cells_of, At-agree}

-- A header: where it begins, its flags as they stand in the memory, and its name.
pub record Entry : Type 0 where
  pub start : ℕ
  pub immediate : ℤ
  pub smudge : ℤ
  pub name : List ℕ

abbrev pub name_field : Entry → ℕ
name_field e = suc (suc (suc e.start))

abbrev pub codes : Entry → List ℤ
codes e = cells_of e.name

abbrev pub code_field : Entry → ℕ
code_field e = suc (name_field e) + length (codes e)

-- The cells that hold a header, but for its link.
pub record Holds (cells : ℕ → ℤ) (e : Entry) : Type 0 where
  pub immediate : cells (suc e.start) ≡ e.immediate
  pub smudge : cells (suc (suc e.start)) ≡ e.smudge
  pub name : At cells (name_field e) (pos (length (codes e)) ∷ codes e)
  pub fits : code_field e ≤ 2048

-- The headers that a name field's address leads to, the latest first; the first cell of each holds
-- the address of the next one's name field, or 0.
abbrev pub Chain : (ℕ → ℤ) → ℤ → List Entry → Type 0
Chain cells at [] = at ≡ pos 0
Chain cells at (e ∷ es) = (at ≡ pos (name_field e)) × Holds cells e × Chain cells (cells e.start) es

-- The headers stand between the variables and `p`.
abbrev pub Within : ℕ → List Entry → Type 0
Within p [] = Unit
Within p (e ∷ es) = (1 < e.start) × (code_field e ≤ p) × Within p es

pub Within-mono : (p q : ℕ) (es : List Entry) → p ≤ q → Within p es → Within q es
Within-mono p q [] le h = tt
Within-mono p q (e ∷ es) le (low, high, h) = (low, omega arith, Within-mono p q es le h)

module _ (cells cells' : ℕ → ℤ) (p : ℕ) (same : (j : ℕ) → 1 < j → j < p → cells' j ≡ cells j) where
  Holds-agree : (e : Entry) → 1 < e.start → code_field e ≤ p → Holds cells e → Holds cells' e
  Holds-agree e low high h = record {
    immediate = same (suc e.start) (omega arith) (omega arith) ∙ h.immediate;
    smudge = same (suc (suc e.start)) (omega arith) (omega arith) ∙ h.smudge;
    name =
        At-agree cells cells' (name_field e) (pos (length (codes e)) ∷ codes e)
          (λ j le lt. same j (omega arith) (omega arith)) h.name;
    fits = h.fits;
  }

  pub Chain-agree :
      (es : List Entry) (at at' : ℤ)
      → at' ≡ at
      → Within p es
      → Chain cells at es
      → Chain cells' at' es
  Chain-agree [] at at' e' w h = e' ∙ h
  Chain-agree (e ∷ es) at at' e' (low, high, w) (e'', held, h) = (
    e' ∙ e'',
    Holds-agree e low high held,
    Chain-agree es (cells e.start) (cells' e.start) (same e.start low (omega arith)) w h,
  )
