-- ===== src/Domain/Register.antt =====
-- domain/register.py: the names of the reserved registers.
use min_cpu_forth.Prelude.{String}

abbrev pub ip : String
ip = "IP"

abbrev pub w : String
w = "W"

abbrev pub xt : String
xt = "XT"

abbrev pub next_pointer : String
next_pointer = "NEXTREG"
