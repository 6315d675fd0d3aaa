-- ===== src/Stack/Port.antt =====
-- src/min_cpu_forth/ports.py, `StackPort`: the operations that the services use of a stack, over
-- any state; and the two stacks that have them, the adapter and its view.
use min_cpu_forth.Prelude.Int.{ℤ}
use min_cpu_forth.Effects.{Action}
use min_cpu_forth.Stack.{Region, push, pop, peek}
use min_cpu_forth.Stack.View.{View, push_view, pop_view, peek_view}

pub record StackPort (S : Type 0) : Type 0 where
  pub push : ℤ → Action S (Unit {0})
  pub pop : Action S ℤ
  pub peek : Action S ℤ

abbrev pub adapter_port : StackPort Region
adapter_port = record { push = push; pop = pop; peek = peek }

abbrev pub view_port : StackPort View
view_port = record { push = push_view; pop = pop_view; peek = peek_view }
