-- ===== src/Registers.antt =====
-- src/min_cpu_forth/adapters/registers.py: `DictRegisterFileAdapter`. A dictionary that is read by
-- `get(name, 0)` alone is a function of the name.
use min_cpu_forth.Prelude.{String, str_eq, if◌then◌else◌}
use min_cpu_forth.Prelude.Int.{ℤ, pos}

abbrev pub RegisterFile : Type 0
RegisterFile = String → ℤ

-- No register is set: each reads 0.
abbrev pub unset : RegisterFile
unset name = pos 0

unfoldable pub read : RegisterFile → String → ℤ
read registers name = registers name

unfoldable pub write : RegisterFile → String → ℤ → RegisterFile
write registers name value other = if str_eq name other then value else registers other
