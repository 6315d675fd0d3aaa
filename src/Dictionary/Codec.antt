-- ===== src/Dictionary/Codec.antt =====
-- The round trip of counted strings.
use min_cpu_forth.Prelude.{
  ℕ, suc, ◌+◌, ◌≤◌, ◌<◌, ◌≡◌, refl, List, [], ◌∷◌, length, arith, ◌∙◌, ◌⊎◌, inl, inr,
}
use min_cpu_forth.Prelude.Int.{ℤ, pos, ◌+ℤ◌, int_laws}
use min_cpu_forth.Errors.{ok}
use min_cpu_forth.Memory.{Memory, update}
use min_cpu_forth.Memory.Laws.{read-pos, write-pos}
use min_cpu_forth.Stack.View.{At}
use min_cpu_forth.Dictionary.CountedString.{read, write, read_chars, write_chars, store, chr}

-- Every element is a code point.
abbrev pub IsText : List ℕ → Type 0
IsText [] = Unit
IsText (c ∷ cs) = (c < 1114112) × IsText cs

abbrev pub cells_of : List ℕ → List ℤ
cells_of [] = []
cells_of (c ∷ cs) = pos c ∷ cells_of cs

pub length-cells_of : (text : List ℕ) → length (cells_of text) ≡ length text
length-cells_of [] = refl
length-cells_of (c ∷ cs) = ground (arith, length-cells_of cs)

-- Cells that agree with others on a stretch hold there what the others hold.
pub At-agree :
    (cells cells' : ℕ → ℤ) (p : ℕ) (xs : List ℤ)
    → ((j : ℕ) → p ≤ j → j < p + length xs → cells' j ≡ cells j)
    → At cells p xs
    → At cells' p xs
At-agree cells cells' p [] same a = tt
At-agree cells cells' p (x ∷ xs) same (e, a) = (
  same p (omega arith) (omega arith) ∙ e,
  At-agree cells cells' (suc p) xs (λ j le lt. same j (omega arith) (omega arith)) a,
)

-- The cells after the characters have been written from `p` on.
abbrev pub written : (ℕ → ℤ) → ℕ → List ℕ → ℕ → ℤ
written cells p [] = cells
written cells p (c ∷ cs) = written (update cells p (pos c)) (suc p) cs

pub written-outside :
    (cells : ℕ → ℤ) (p : ℕ) (text : List ℕ) (j : ℕ)
    → (j < p) ⊎ (p + length text ≤ j)
    → written cells p text j ≡ cells j
written-outside cells p [] j h = refl
written-outside cells p (c ∷ cs) j (inl lt) =
    written-outside (update cells p (pos c)) (suc p) cs j (inl (omega arith)) ∙ ground arith
written-outside cells p (c ∷ cs) j (inr le) =
    written-outside (update cells p (pos c)) (suc p) cs j (inr (omega arith)) ∙ ground arith

pub At-written :
    (cells : ℕ → ℤ) (p : ℕ) (text : List ℕ) → At (written cells p text) p (cells_of text)
At-written cells p [] = tt
At-written cells p (c ∷ cs) = (
  written-outside (update cells p (pos c)) (suc p) cs p (inl (omega arith)) ∙ ground arith,
  At-written (update cells p (pos c)) (suc p) cs,
)

pub pos-suc : (n : ℕ) → pos n +ℤ pos 1 ≡ pos (suc n)
pos-suc n = omega int_laws

pub pos-add : (n k : ℕ) → pos n +ℤ pos k ≡ pos (n + k)
pos-add n k = omega int_laws

pub store-pos :
    (m : Memory) (n : ℕ) (v : ℤ)
    → n < m.size
    → store (pos n) v m ≡ (ok tt, record m { cells = update m.cells n v })
unfolding store
store-pos m n v h = rw (write-pos m n v h)

write_chars-written :
    (m : Memory) (n : ℕ) (text : List ℕ)
    → n + length text ≤ m.size
    → write_chars (pos n) text m ≡ (ok tt, record m { cells = written m.cells n text })
unfolding write_chars
write_chars-written m n [] h = refl
write_chars-written m n (c ∷ cs) h = rw (
  store-pos m n (pos c) (omega arith),
  pos-suc n,
  write_chars-written (record m { cells = update m.cells n (pos c) }) (suc n) cs (omega arith),
)

chr-pos : (c : ℕ) → c < 1114112 → chr (pos c) ≡ ok c
unfolding chr
chr-pos c h = ground arith

pub read_chars-At :
    (m : Memory) (n : ℕ) (text : List ℕ)
    → IsText text
    → At m.cells n (cells_of text)
    → n + length text ≤ m.size
    → read_chars m (length text) (pos n) ≡ ok text
unfolding read_chars
read_chars-At m n [] t a h = refl
read_chars-At m n (c ∷ cs) (lt, t) (e, a) h = rw (
  read-pos m n (omega arith),
  e,
  chr-pos c lt,
  pos-suc n,
  read_chars-At m (suc n) cs t a (omega arith),
)

module _ (m : Memory) (n : ℕ) (text : List ℕ) (fits : suc n + length text ≤ m.size) where
  abbrev pub counted : Memory
  counted = record {
    size = m.size;
    cells = written (update m.cells n (pos (length text))) (suc n) text;
  }

  pub write-counted : write (pos n) text m ≡ (ok (pos (suc n + length text)), counted)
  unfolding write
  write-counted = rw (
    store-pos m n (pos (length text)) (omega arith),
    pos-suc n,
    write_chars-written (record m { cells = update m.cells n (pos (length text)) }) (suc n) text
        fits,
    pos-add (suc n) (length text),
  )

  pub counted-length : counted.cells n ≡ pos (length text)
  counted-length =
      written-outside (update m.cells n (pos (length text))) (suc n) text n (inl (omega arith))
      ∙ ground arith

  read-counted : IsText text → read counted (pos n) ≡ ok text
  unfolding read
  read-counted t = rw (
    read-pos counted n (omega arith),
    counted-length,
    pos-suc n,
    read_chars-At counted (suc n) text t (At-written _ (suc n) text) fits,
  )

  pub counted-outside : (j : ℕ) → (j < n) ⊎ (suc n + length text ≤ j) → counted.cells j ≡ m.cells j
  counted-outside j (inl lt) =
      written-outside (update m.cells n (pos (length text))) (suc n) text j (inl (omega arith))
      ∙ ground arith
  counted-outside j (inr le) =
      written-outside (update m.cells n (pos (length text))) (suc n) text j (inr le) ∙ ground arith

  -- A counted string of code points that fits into the memory is written without an exception, to
  -- the address just past it; it then reads back as it was, the memory has its size, and no cell
  -- but those of the string has changed.
  pub read-write_text :
      IsText text
      → (m' : Memory) × (write (pos n) text m ≡ (ok (pos (suc n + length text)), m'))
        × (read m' (pos n) ≡ ok text)
        × (m'.size ≡ m.size)
        × ((j : ℕ) → (j < n) ⊎ (suc n + length text ≤ j) → m'.cells j ≡ m.cells j)
  read-write_text t = (counted, write-counted, read-counted t, refl, counted-outside)
