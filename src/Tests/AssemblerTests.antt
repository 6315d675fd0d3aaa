-- ===== src/Tests/AssemblerTests.antt =====
-- The assembler on a small program.
use min_cpu_forth.Prelude.{ℕ, ◌≡◌, refl, String, none, some, List, [], ◌∷◌, length}
use min_cpu_forth.Prelude.Int.{ℤ, pos, negsuc}
use min_cpu_forth.Errors.{ok}
use min_cpu_forth.Domain
use min_cpu_forth.Domain.{Instruction, Line, ResolvedProgram, with_address}
use min_cpu_forth.Assembler.Parser.{parse}
use min_cpu_forth.Assembler.Resolver.{resolve}
use min_cpu_forth.Assembler.Emitter.{emit_lines}
use min_cpu_forth.Assembler.Addresses.{resolve-address}
use min_cpu_forth.Assembler.LabelTable.{Labelled, resolve-Labelled}

abbrev line : ℕ → List String → String → List String → ℤ → Line
line lineno labels mnemonic operands address = record {
  lineno = lineno;
  labels = labels;
  mnemonic = some mnemonic;
  operands = operands;
  address = address;
}

abbrev lines : List Line
lines =
    line 1 ("MAIN" ∷ []) "SET" ("X" ∷ "5" ∷ []) (negsuc 0)
    ∷ line 2 ("DONE" ∷ []) "HALT" [] (negsuc 0)
    ∷ []

abbrev set_line : Line
set_line = line 1 ("MAIN" ∷ []) "SET" ("X" ∷ "5" ∷ []) (pos 0)

abbrev halt_line : Line
halt_line = line 2 ("DONE" ∷ []) "HALT" [] (pos 2)

abbrev resolved : ResolvedProgram
resolved = record {
  lines = set_line ∷ halt_line ∷ [];
  labels = ("MAIN", pos 0) ∷ ("DONE", pos 2) ∷ [];
}

parse_two_lines : parse "MAIN: SET X, 5 ; five\nDONE: HALT" ≡ ok lines
unfolding parse
parse_two_lines = refl

lines-resolved : resolve lines ≡ ok resolved
unfolding resolve
lines-resolved = refl

abbrev set_code : List Instruction
set_code =
    record { opcode = Domain.sub; a = some "X"; b = Domain.reg "X"; offset = none }
    ∷ record { opcode = Domain.add; a = some "X"; b = Domain.imm (pos 5); offset = none }
    ∷ []

set_line-emitted : emit_lines (set_line ∷ []) resolved.labels ≡ ok set_code
unfolding emit_lines
set_line-emitted = refl

resolve-address_example : pos 2 ≡ pos (length set_code)
resolve-address_example =
    resolve-address lines resolved (set_line ∷ []) halt_line [] set_code lines-resolved refl
      set_line-emitted

resolve-Labelled_example : Labelled resolved.labels resolved.lines
resolve-Labelled_example = resolve-Labelled lines resolved lines-resolved
