-- ===== src/Domain/HeaderField.antt =====
-- domain/dtos.py, `HeaderField`: the offsets of the cells of a dictionary header from its start.
use min_cpu_forth.Prelude.{ℕ}

abbrev pub link : ℕ
link = 0

abbrev pub immediate : ℕ
immediate = 1

abbrev pub smudge : ℕ
smudge = 2

abbrev pub name_length : ℕ
name_length = 3

abbrev pub name : ℕ
name = 4
