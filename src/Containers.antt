-- ===== src/Containers.antt =====
-- src/min_cpu_forth/containers.py: what `MachineContainer` and `KernelContainer` wire together. The
-- memory is a singleton, so a service is built over the state that it is in.
use min_cpu_forth.Prelude.{false, []}
use min_cpu_forth.Prelude.Int.{pos, ◌-ℤ◌}
use min_cpu_forth.Layout.{
  data_stack_base, data_stack_size, return_stack_base, return_stack_size, memory_size,
}
use min_cpu_forth.Effects.{Action}
use min_cpu_forth.Memory
use min_cpu_forth.Memory.{Memory}
use min_cpu_forth.Registers
use min_cpu_forth.Stack.{Stack, bound_at}
use min_cpu_forth.Dictionary.Words
use min_cpu_forth.Emulator.{Machine}
use min_cpu_forth.Forth.Service
use min_cpu_forth.Forth.Service.{Forth}

-- `MachineContainer.memory`
unfoldable pub memory : Memory
unfolding Memory.allocate
memory = Memory.allocate memory_size

-- `MachineContainer.data_stack`
unfoldable pub data_stack : Stack
unfolding bound_at ◌-ℤ◌
data_stack = bound_at (pos data_stack_base) (pos data_stack_size)

-- `MachineContainer.return_stack`
unfoldable pub return_stack : Stack
unfolding bound_at ◌-ℤ◌
return_stack = bound_at (pos return_stack_base) (pos return_stack_size)

-- `MachineContainer.emulator`
unfoldable pub emulator : Memory → Machine
unfolding data_stack return_stack
emulator shared = record {
  registers = Registers.unset;
  memory = shared;
  data_stack = data_stack;
  return_stack = return_stack;
  char_input = [];
  char_output = [];
  program = [];
  pc = pos 0;
  halted = false;
}

-- `MachineContainer.forth`
unfoldable pub forth : Memory → Forth
unfolding Service.create data_stack return_stack
forth shared = Service.create shared data_stack return_stack Registers.unset

-- `KernelContainer.dictionary`, which empties the dictionary where it is made.
unfoldable pub dictionary : Action Memory (Unit {0})
unfolding Words.reset
dictionary = Words.reset
