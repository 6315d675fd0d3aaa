-- ===== src/Assembler/Resolver.antt =====
-- services/assembler/resolver.py: `LabelAddressResolver`.
use min_cpu_forth.Prelude.{ℕ, String, Option, none, some, List, [], ◌∷◌, ◌++◌}
use min_cpu_forth.Prelude.Int.{ℤ, pos, ◌+ℤ◌}
use min_cpu_forth.Errors.{Result, ok, err, assembler_error, ◌>>=◌}
use min_cpu_forth.Domain.{Line, Labels, ResolvedProgram, with_address}
use min_cpu_forth.Assembler.Specs.{lookup, pseudo_op_sizes}

abbrev size_or_one : Option ℕ → ℕ
size_or_one none = 1
size_or_one (some n) = n

-- `_size`, on the line's mnemonic.
unfoldable pub size : Option String → ℕ
unfolding pseudo_op_sizes
size none = 0
size (some mnemonic) = size_or_one (lookup mnemonic pseudo_op_sizes)

-- The inner `for`: each label of a line is recorded at the line's address, and must be new.
unfoldable pub record_labels : List String → ℤ → Labels → Result Labels
record_labels [] address labels = ok labels
record_labels (name ∷ names) address labels = elim (lookup name labels) [
  | some _ ↦ err assembler_error
  | none ↦ record_labels names address (labels ++ (name, address) ∷ [])
]

-- The outer `for`, from an address and a table.
unfoldable pub place : List Line → ℤ → Labels → Result ResolvedProgram
unfolding record_labels size with_address ◌+ℤ◌
place [] address labels = ok (record { lines = []; labels = labels })
place (line ∷ lines) address labels = record_labels line.labels address labels >>= λ labels'.
    place lines (address +ℤ pos (size line.mnemonic)) labels' >>= λ resolved.
    ok (record resolved { lines = with_address line address ∷ resolved.lines })

-- `LabelAddressResolver.resolve`
unfoldable pub resolve : List Line → Result ResolvedProgram
unfolding place
resolve lines = place lines (pos 0) []
