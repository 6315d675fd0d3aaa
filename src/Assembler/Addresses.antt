-- ===== src/Assembler/Addresses.antt =====
-- The two passes of the assembler agree: the addresses that the resolver counts are the positions
-- of the instructions that the emitter emits.
use min_cpu_forth.Prelude.{
  ℕ, ◌+◌, ◌≡◌, refl, ap, ◌∙◌, String, Option, none, some, List, [], ◌∷◌, ◌++◌, length,
  length-append, arith, Option-cases, subst, inl, inr,
}
use min_cpu_forth.Prelude.Int.{ℤ, pos, ◌+ℤ◌, int_laws, zero_+ℤ}
use min_cpu_forth.Errors.{Result, ok, err, ◌>>=◌}
use min_cpu_forth.Domain.{Opcode, Instruction, Line, Labels, ResolvedProgram, with_address, absent}
use min_cpu_forth.Assembler.Specs.{mnemonics, operand_specs}
use min_cpu_forth.Assembler.Resolver.{size, place, resolve, record_labels}
use min_cpu_forth.Assembler.Emitter.{
  emit_set, emit_mov, emit_opcode, emit_mnemonic, emit_line, emit_lines, resolve_register,
  resolve_constant, fill_slots,
}

-- A successful chain has a successful first part.
pub bind-ok {ℓ κ} :
    {A : Type ℓ} {B : Type κ} (m : Result A) (f : A → Result B) (b : B)
    → (m >>= f) ≡ ok b
    → (a : A) × (m ≡ ok a) × (f a ≡ ok b)
bind-ok (ok a) f b e = (a, refl, e)
bind-ok (err x) f b e = cc

length-emit_set :
    (operands : List String) (labels : Labels) (is : List Instruction)
    → emit_set operands labels ≡ ok is
    → length is ≡ 2
unfolding emit_set
length-emit_set [] labels is e = cc
length-emit_set (r ∷ []) labels is e = cc
length-emit_set (r ∷ c ∷ d ∷ rest) labels is e = cc
length-emit_set (r ∷ c ∷ []) labels is e =
    let (name, _, e₁) = bind-ok (resolve_register r) _ is e in
    let (value, _, e₂) = bind-ok (resolve_constant c labels) _ is e₁ in ground arith

length-emit_mov :
    (operands : List String) (is : List Instruction) → emit_mov operands ≡ ok is → length is ≡ 2
unfolding emit_mov
length-emit_mov [] is e = cc
length-emit_mov (r ∷ []) is e = cc
length-emit_mov (r ∷ c ∷ d ∷ rest) is e = cc
length-emit_mov (d ∷ s ∷ []) is e =
    let (dest, _, e₁) = bind-ok (resolve_register d) _ is e in
    let (source, _, e₂) = bind-ok (resolve_register s) _ is e₁ in ground arith

length-one :
    (m : Result Instruction) (is : List Instruction)
    → (m >>= λ i. ok (i ∷ [])) ≡ ok is
    → length is ≡ 1
length-one (ok i) is e = ground arith
length-one (err x) is e = cc

length-emit_opcode :
    (op : Opcode) (line : Line) (labels : Labels) (is : List Instruction)
    → emit_opcode op line labels ≡ ok is
    → length is ≡ 1
unfolding emit_opcode
length-emit_opcode op line labels is e = ground (
  arith,
  length-one
      (fill_slots (operand_specs op) line.operands labels line
        (record { opcode = op; a = none; b = absent; offset = none }))
      is,
)

-- What a line emits is as long as the resolver counts.
length-emit_mnemonic :
    (m : Option String) (line : Line) (labels : Labels) (is : List Instruction)
    → emit_mnemonic m line labels ≡ ok is
    → length is ≡ size m
unfolding emit_mnemonic size
length-emit_mnemonic none line labels is e = ground arith
length-emit_mnemonic (some m) line labels is e = elim (Option-cases (mnemonics m)) [
  | inl unknown ↦
      ground (arith, length-emit_set line.operands labels is, length-emit_mov line.operands is)
  | inr (op, known) ↦ ground (
    arith,
    length-emit_set line.operands labels is,
    length-emit_mov line.operands is,
    length-emit_opcode op line labels is,
  )
]

length-emit_line :
    (line : Line) (labels : Labels) (is : List Instruction)
    → emit_line line labels ≡ ok is
    → length is ≡ size line.mnemonic
unfolding emit_line
length-emit_line line labels is e = length-emit_mnemonic line.mnemonic line labels is e

-- The lines of a placed program, by where each begins.
abbrev Placed : ℤ → List Line → Type 0
Placed address [] = Unit
Placed address (line ∷ lines) =
    (line.address ≡ address) × Placed (address +ℤ pos (size line.mnemonic)) lines

abbrev PlacedResult : ℤ → Result ResolvedProgram → Type 0
PlacedResult address (ok r) = Placed address r.lines
PlacedResult address (err x) = Unit

place-Placed :
    (lines : List Line) (address : ℤ) (labels : Labels) (r : ResolvedProgram)
    → place lines address labels ≡ ok r
    → Placed address r.lines
unfolding place with_address
place-Placed [] address labels r e = subst (PlacedResult address) e tt
place-Placed (line ∷ lines) address labels r e =
    let (labels', _, e₁) = bind-ok (record_labels line.labels address labels) _ r e in
    let (r', e₂, e₃) = bind-ok (place lines (address +ℤ pos (size line.mnemonic)) labels') _ r e₁ in
    subst (PlacedResult address) e₃ (refl, place-Placed lines _ labels' r' e₂)

+ℤ_zero_lem : (a : ℤ) → a ≡ a +ℤ pos 0
+ℤ_zero_lem a = omega int_laws

+ℤ-lengths : (a : ℤ) (n m k : ℕ) → k ≡ n + m → a +ℤ pos n +ℤ pos m ≡ a +ℤ pos k
+ℤ-lengths a n m k e = omega int_laws

Placed-address :
    (front : List Line) (line : Line) (back : List Line) (address : ℤ) (labels : Labels)
    (is : List Instruction)
    → Placed address (front ++ line ∷ back)
    → emit_lines front labels ≡ ok is
    → line.address ≡ address +ℤ pos (length is)
unfolding emit_lines
Placed-address [] line back address labels is p e =
    p.0 ∙ (+ℤ_zero_lem address ∙ ap (λ n. address +ℤ pos n) (ground arith))
Placed-address (l ∷ front) line back address labels is (_, p) e =
    let (is₁, e₁, e₂) = bind-ok (emit_line l labels) _ is e in
    let (is₂, e₃, e₄) = bind-ok (emit_lines front labels) _ is e₂ in
    Placed-address front line back _ labels is₂ p e₃
    ∙ +ℤ-lengths address (size l.mnemonic) (length is₂) (length is)
        (ground (arith, length-append is₁ is₂, length-emit_line l labels is₁ e₁))

-- The address that the resolver gives a line is the number of instructions that the emitter emits
-- for the lines before it: the line's own instructions start there in the program.
pub resolve-address :
    (lines : List Line) (r : ResolvedProgram) (front : List Line) (line : Line) (back : List Line)
    (is : List Instruction)
    → resolve lines ≡ ok r
    → r.lines ≡ front ++ line ∷ back
    → emit_lines front r.labels ≡ ok is
    → line.address ≡ pos (length is)
unfolding resolve
resolve-address lines r front line back is e split emitted =
    Placed-address front line back (pos 0) r.labels is
      (subst (Placed (pos 0)) split (place-Placed lines (pos 0) [] r e)) emitted
    ∙ zero_+ℤ (pos (length is))
