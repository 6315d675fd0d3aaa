-- ===== src/Memory/Laws.antt =====
-- `ListMemoryAdapter`: what a read finds after a write, in range and out of it.
use min_cpu_forth.Prelude.{
  ℕ, suc, ◌+◌, ◌-◌, ◌<◌, ◌≤◌, ◌≡◌, ◌≢◌, ◌⊎◌, refl, arith, ◌∙◌, inl, inr, ltb, true, none, some, ap,
  if◌then◌else◌,
}
use native.Mathlib.Decide.{dec_lt}
use min_cpu_forth.Prelude.Int.{ℤ, pos, negsuc}
use min_cpu_forth.Errors.{ok, err, index_error}
use min_cpu_forth.Memory.{Memory, position, update, read, write}

pub read-pos : (m : Memory) (n : ℕ) → n < m.size → read m (pos n) ≡ ok (m.cells n)
unfolding read
read-pos m n h = ground arith

pub write-pos :
    (m : Memory) (n : ℕ) (v : ℤ)
    → n < m.size
    → write m (pos n) v ≡ ok (record m { cells = update m.cells n v })
unfolding write
write-pos m n v h = ground arith

-- The cell that an index of a list means: counted from its start, or for a negative one from its end.
abbrev pub Means : ℕ → ℤ → ℕ → Type 0
Means size (pos n) i = (n ≡ i) × (i < size)
Means size (negsuc n) i = suc n + i ≡ size

-- An index past either end.
abbrev pub OutOf : ℕ → ℤ → Type 0
OutOf size (pos n) = size ≤ n
OutOf size (negsuc n) = size ≤ n

-- What a write and a read at a cell do.
abbrev Accesses : Memory → ℤ → ℤ → ℕ → Type 0
Accesses m a v i =
    (read m a ≡ ok (m.cells i)) × (write m a v ≡ ok (record m { cells = update m.cells i v }))

negative-position : (size n i : ℕ) → suc n + i ≡ size → position size (negsuc n) ≡ some i
unfolding position
negative-position size n i h =
    ap (λ b. if b then some (size - suc n) else none) below ∙ ap some (omega arith)
  where
    below : ltb n size ≡ true
    below = ground arith

Means-position : (size : ℕ) (a : ℤ) (i : ℕ) → Means size a i → position size a ≡ some i
unfolding position
Means-position size (pos n) i (e, lt) = ground arith
Means-position size (negsuc n) i e = negative-position size n i e

accesses : (m : Memory) (a v : ℤ) (i : ℕ) → Means m.size a i → Accesses m a v i
unfolding read write
accesses m a v i h =
    let e = Means-position m.size a i h in
    (
      ap (λ o. elim o [ none ↦ err index_error | some i ↦ ok (m.cells i) ]) e,
      ap
          (λ o. elim o [
            | none ↦ err index_error
            | some i ↦ ok (record m { cells = update m.cells i v })
          ])
          e,
    )

refuses :
    (m : Memory) (a v : ℤ)
    → OutOf m.size a
    → (read m a ≡ err index_error) × (write m a v ≡ err index_error)
unfolding read write position
refuses m (pos n) v h = (ground arith, ground arith)
refuses m (negsuc n) v h = (ground arith, ground arith)

cell_or_out : (size : ℕ) (a : ℤ) → ((i : ℕ) × Means size a i) ⊎ OutOf size a
cell_or_out size (pos n) = elim (dec_lt n size) [
  | yes lt ↦ inl (n, (refl, lt))
  | no h ↦ inr (omega arith)
]
cell_or_out size (negsuc n) = elim (dec_lt n size) [
  | yes lt ↦ inl (size - suc n, omega arith)
  | no h ↦ inr (omega arith)
]

-- An index, negative ones counting from the end, either means a cell of the list: then a read
-- returns that cell, a write succeeds and puts the value in that cell alone, where a read of the
-- same index finds it, and the size stays. Or it is past an end of the list, and both raise
-- `IndexError`.
pub read-write :
    (m : Memory) (a : ℤ) (v : ℤ)
    → ((i : ℕ) × Means m.size a i
        × (read m a ≡ ok (m.cells i))
        × ((m' : Memory) × (write m a v ≡ ok m')
            × (read m' a ≡ ok v)
            × (m'.size ≡ m.size)
            × (m'.cells i ≡ v)
            × ((j : ℕ) → j ≢ i → m'.cells j ≡ m.cells j)))
      ⊎ (OutOf m.size a × (read m a ≡ err index_error) × (write m a v ≡ err index_error))
read-write m a v = elim (cell_or_out m.size a) [
  | inl (i, h) ↦ inl (
    i,
    h,
    (accesses m a v i h).0,
    (
      record m { cells = update m.cells i v },
      (accesses m a v i h).1,
      (accesses (record m { cells = update m.cells i v }) a v i h).0 ∙ ground arith,
      refl,
      ground arith,
      λ j ne. ground arith,
    ),
  )
  | inr h ↦ inr (h, (refuses m a v h).0, (refuses m a v h).1)
]
