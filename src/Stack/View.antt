-- ===== src/Stack/View.antt =====
-- What `StackPort` promises, on a list of items and a count of free cells, and the relation of
-- that view to the cells of a region.
use min_cpu_forth.Prelude.{ℕ, zero, suc, ◌+◌, ◌≤◌, ◌<◌, ◌≡◌, ◌⊎◌, List, [], ◌∷◌, length}
use min_cpu_forth.Prelude.Int.{ℤ, pos}
use min_cpu_forth.Errors.{Result, ok, err, stack_overflow, stack_underflow}
use min_cpu_forth.Effects.{Action}
use min_cpu_forth.Memory.{Memory}
use min_cpu_forth.Stack.{Stack, Region}

pub record View : Type 0 where
  pub items : List ℤ
  pub room : ℕ

abbrev push_room : List ℤ → ℕ → ℤ → Result (Unit {0}) × View
push_room xs zero x = (err stack_overflow, record { items = xs; room = zero })
push_room xs (suc k) x = (ok tt, record { items = x ∷ xs; room = k })

abbrev pop_items : List ℤ → ℕ → Result ℤ × View
pop_items [] k = (err stack_underflow, record { items = []; room = k })
pop_items (x ∷ xs) k = (ok x, record { items = xs; room = suc k })

abbrev peek_items : List ℤ → ℕ → Result ℤ × View
peek_items [] k = (err stack_underflow, record { items = []; room = k })
peek_items (x ∷ xs) k = (ok x, record { items = x ∷ xs; room = k })

abbrev pub push_view : ℤ → Action View (Unit {0})
push_view x v = push_room v.items v.room x

abbrev pub pop_view : Action View ℤ
pop_view v = pop_items v.items v.room

abbrev pub peek_view : Action View ℤ
peek_view v = peek_items v.items v.room

-- The cells from `p` on hold the items, the top one first.
abbrev pub At : (ℕ → ℤ) → ℕ → List ℤ → Type 0
At cells p [] = Unit
At cells p (x ∷ xs) = (cells p ≡ x) × At cells (suc p) xs

-- A stack over the cells from `lo` to `hi`, with `k` of them free.
abbrev pub stack_at : ℕ → ℕ → ℕ → Stack
stack_at lo hi k = record { base = pos hi; floor = pos lo; pointer = pos (lo + k) }

-- The region between the cells `lo` and `hi` is the stack that the view shows.
pub record Holds (lo hi : ℕ) (v : View) (r : Region) : Type 0 where
  pub stack : r.stack ≡ stack_at lo hi v.room
  pub fills : lo + v.room + length v.items ≡ hi
  pub fits : hi ≤ r.memory.size
  pub at : At r.memory.cells (lo + v.room) v.items

-- Only cells of the region have changed.
pub record Frame (lo hi : ℕ) (m m' : Memory) : Type 0 where
  pub size : m'.size ≡ m.size
  pub outside : (j : ℕ) → (j < lo) ⊎ (hi ≤ j) → m'.cells j ≡ m.cells j

-- A call on the region has ended as the call on the view has, with the same result or error, in a
-- region that shows the view's new state, and has changed nothing outside the region.
pub record Agrees {A : Type 0} (lo hi : ℕ) (r : Region) (expected : Result A × View)
    (out : Result A × Region) : Type 0 where
  pub result : out.0 ≡ expected.0
  pub holds : Holds lo hi expected.1 out.1
  pub frame : Frame lo hi r.memory out.1.memory

-- A method on a region implements one on views.
abbrev pub Refines : {A : Type 0} → ℕ → ℕ → Action Region A → Action View A → Type 0
Refines lo hi m spec = (v : View) (r : Region) → Holds lo hi v r → Agrees lo hi r (spec v) (m r)
