-- ===== src/Memory.antt =====
-- src/min_cpu_forth/adapters/memory.py: `ListMemoryAdapter`. The list is its length and its cells;
-- an address is any integer, and Python lets a negative one count from the end.
pub mod Laws
use min_cpu_forth.Prelude.{ℕ, suc, ◌-◌, Option, none, some, ltb, ◌==◌, if◌then◌else◌}
use min_cpu_forth.Prelude.Int.{ℤ, pos, negsuc}
use min_cpu_forth.Errors.{Result, ok, err, index_error}

pub record Memory : Type 0 where
  pub size : ℕ
  pub cells : ℕ → ℤ

-- `ListMemoryAdapter(size)`: zeroed cells.
unfoldable pub allocate : ℕ → Memory
allocate size = record { size = size; cells = λ _. pos 0 }

-- The position that a list index means, if it is in range.
unfoldable pub position : ℕ → ℤ → Option ℕ
position size (pos n) = if ltb n size then some n else none
position size (negsuc n) = if ltb n size then some (size - suc n) else none

abbrev pub update : (ℕ → ℤ) → ℕ → ℤ → ℕ → ℤ
update cells i v j = if i == j then v else cells j

unfoldable pub read : Memory → ℤ → Result ℤ
unfolding position
read m address = elim (position m.size address) [ none ↦ err index_error | some i ↦ ok (m.cells i) ]

unfoldable pub write : Memory → ℤ → ℤ → Result Memory
unfolding position
write m address value = elim (position m.size address) [
  | none ↦ err index_error
  | some i ↦ ok (record m { cells = update m.cells i value })
]
