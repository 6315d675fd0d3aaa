-- ===== src/Layout.antt =====
-- src/min_cpu_forth/layout.py: the memory map. The three bases that index the memory are numbers.
use min_cpu_forth.Prelude.{ℕ, ◌+◌, ◌-◌}

abbrev pub cell_size : ℕ
cell_size = 1

abbrev pub dictionary_size : ℕ
dictionary_size = 2048

abbrev pub data_stack_size : ℕ
data_stack_size = 1024

abbrev pub return_stack_size : ℕ
return_stack_size = 1024

abbrev pub data_stack_base : ℕ
data_stack_base = dictionary_size + data_stack_size

abbrev pub return_stack_base : ℕ
return_stack_base = data_stack_base + return_stack_size

abbrev pub memory_size : ℕ
memory_size = return_stack_base

abbrev system_vars_base : ℕ
system_vars_base = 0

abbrev pub dp_addr : ℕ
dp_addr = system_vars_base + 0

abbrev pub latest_addr : ℕ
latest_addr = system_vars_base + 1

abbrev system_vars_size : ℕ
system_vars_size = 8

abbrev pub dictionary_base : ℕ
dictionary_base = system_vars_base + system_vars_size

abbrev pub word_buffer_size : ℕ
word_buffer_size = 64

abbrev pub word_buffer_base : ℕ
word_buffer_base = dictionary_size - word_buffer_size
