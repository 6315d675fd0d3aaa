-- ===== src/Stack.antt =====
-- src/min_cpu_forth/adapters/stack.py: `DownwardStackAdapter`, a stack that grows towards lower
-- addresses in a region of the shared memory.
pub mod View
pub mod Refinement
pub mod Port
use min_cpu_forth.Prelude.{ℕ, Bool, if◌then◌else◌}
use min_cpu_forth.Prelude.Int.{ℤ, pos, ◌+ℤ◌, ◌-ℤ◌, leb_ℤ}
use min_cpu_forth.Errors.{Result, ok, err, stack_overflow, stack_underflow}
use min_cpu_forth.Effects.{Action}
use min_cpu_forth.Layout.{cell_size}
use min_cpu_forth.Memory
use min_cpu_forth.Memory.{Memory, read, write}

pub record Stack : Type 0 where
  pub base : ℤ
  pub floor : ℤ
  pub pointer : ℤ

-- What a call of the adapter changes: its own pointer, and the memory that it shares.
pub record Region : Type 0 where
  pub stack : Stack
  pub memory : Memory

-- `DownwardStackAdapter(memory, base, size)`
unfoldable pub bound_at : ℤ → ℤ → Stack
unfolding ◌-ℤ◌
bound_at base size = record { base = base; floor = base -ℤ size; pointer = base }

abbrev moved : Region → ℤ → Region
moved r p = record { stack = record r.stack { pointer = p }; memory = r.memory }

-- The pointer has moved before the memory is written.
abbrev pushed : Region → Result Memory → Result (Unit {0}) × Region
pushed r (ok m) = (ok tt, record { stack = r.stack; memory = m })
pushed r (err e) = (err e, r)

unfoldable pub push : ℤ → Action Region (Unit {0})
unfolding ◌-ℤ◌
push value r =
    if leb_ℤ r.stack.pointer r.stack.floor
    then (err stack_overflow, r)
    else (let p = r.stack.pointer -ℤ pos cell_size in pushed (moved r p) (write r.memory p value))

abbrev popped : Region → Result ℤ → Result ℤ × Region
popped r (ok value) = (ok value, moved r (r.stack.pointer +ℤ pos cell_size))
popped r (err e) = (err e, r)

unfoldable pub pop : Action Region ℤ
unfolding ◌+ℤ◌
pop r =
    if leb_ℤ r.stack.base r.stack.pointer
    then (err stack_underflow, r)
    else popped r (read r.memory r.stack.pointer)

unfoldable pub peek : Action Region ℤ
peek r =
    if leb_ℤ r.stack.base r.stack.pointer
    then (err stack_underflow, r)
    else (read r.memory r.stack.pointer, r)
