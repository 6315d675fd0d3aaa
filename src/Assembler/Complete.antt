-- ===== src/Assembler/Complete.antt =====
-- services/assembler/emitter.py: the instructions that the assembler emits have the operands that
-- their opcodes ask for.
use min_cpu_forth.Prelude.{
  ◌≡◌, refl, String, Bool, true, false, Option, none, some, List, [], ◌∷◌, ◌++◌, arith, ap, ◌∙◌,
  ◌⊎◌, inl, inr, str_eq, length, ◌==◌, if◌then◌else◌,
}
use min_cpu_forth.Errors.{Result, ok, err, assembler_error, ◌>>=◌}
use min_cpu_forth.Domain
use min_cpu_forth.Domain.{
  Opcode, Instruction, Operand, absent, reg, imm, Line, Labels, ResolvedProgram, Assembly,
  OperandSpec, InstructionField, field_a, field_b, field_offset, OperandKind, register,
  register_or_immediate, offset_kind,
}
use min_cpu_forth.Assembler.Parser.{parse}
use min_cpu_forth.Assembler.Resolver.{resolve}
use min_cpu_forth.Assembler.{assemble}
use min_cpu_forth.Assembler.Specs.{
  operand_specs, mnemonics, set_mnemonic, mov_mnemonic, one_register, two_registers,
  register_and_source, register_and_offset,
}
use min_cpu_forth.Assembler.Emitter.{
  emit_set, emit_mov, fill_slots, emit_opcode, emit_mnemonic, emit_line, emit_lines, emit,
}
use min_cpu_forth.Assembler.Outcome.{Either, Any, >>=-Either, parse-Either, resolve-Either}
use min_cpu_forth.Assembler.Slots.{
  all_filled, Complete, AllComplete, bare, Filled, fill_one, fill_two, fill_source, fill_offset,
  emit_set-Either, emit_mov-Either,
}

refused :
    {A : Type 0} (P : A → Type 0) (b : Bool) (r : Result A)
    → b ≡ false
    → Either P (if b then r else err assembler_error)
refused P true r e = absurd (cc)
refused P false r e = refl

module _ (op : Opcode) (line : Line) (labels : Labels) where
  -- The slots are filled where there is a token for each.
  abbrev checked : List OperandSpec → List String → Result Instruction
  checked slots tokens =
      if length tokens == length slots
      then fill_slots slots tokens labels line (bare op line labels)
      else err assembler_error

  abbrev Checked : List OperandSpec → Type 0
  Checked slots =
      (tokens : List String) → Either (Filled op line labels slots) (checked slots tokens)

  one-Checked : Checked one_register
  one-Checked [] = refl
  one-Checked (x ∷ []) = fill_one op line labels x
  one-Checked (x ∷ y ∷ zs) = refused _ (length (x ∷ y ∷ zs) == 1) _ (ground arith)

  two-Checked : Checked two_registers
  two-Checked [] = refl
  two-Checked (x ∷ []) = refl
  two-Checked (x ∷ y ∷ []) = fill_two op line labels x y
  two-Checked (x ∷ y ∷ z ∷ zs) = refused _ (length (x ∷ y ∷ z ∷ zs) == 2) _ (ground arith)

  source-Checked : Checked register_and_source
  source-Checked [] = refl
  source-Checked (x ∷ []) = refl
  source-Checked (x ∷ y ∷ []) = fill_source op line labels x y
  source-Checked (x ∷ y ∷ z ∷ zs) = refused _ (length (x ∷ y ∷ z ∷ zs) == 2) _ (ground arith)

  offset-Checked : Checked register_and_offset
  offset-Checked [] = refl
  offset-Checked (x ∷ []) = refl
  offset-Checked (x ∷ y ∷ []) = fill_offset op line labels x y
  offset-Checked (x ∷ y ∷ z ∷ zs) = refused _ (length (x ∷ y ∷ z ∷ zs) == 2) _ (ground arith)

  none-Checked : Checked []
  unfolding fill_slots
  none-Checked [] = (refl, refl)
  none-Checked (x ∷ xs) = refused _ (length (x ∷ xs) == 0) _ (ground arith)

opcode-Checked :
    (op : Opcode) (line : Line) (labels : Labels) → Checked op line labels (operand_specs op)
unfolding operand_specs
opcode-Checked Domain.load = two-Checked Domain.load
opcode-Checked Domain.store = two-Checked Domain.store
opcode-Checked Domain.add = source-Checked Domain.add
opcode-Checked Domain.sub = source-Checked Domain.sub
opcode-Checked Domain.and = source-Checked Domain.and
opcode-Checked Domain.or = source-Checked Domain.or
opcode-Checked Domain.invert = one-Checked Domain.invert
opcode-Checked Domain.jmp = one-Checked Domain.jmp
opcode-Checked Domain.jz = offset-Checked Domain.jz
opcode-Checked Domain.js = offset-Checked Domain.js
opcode-Checked Domain.push_d = one-Checked Domain.push_d
opcode-Checked Domain.pop_d = one-Checked Domain.pop_d
opcode-Checked Domain.push_r = one-Checked Domain.push_r
opcode-Checked Domain.pop_r = one-Checked Domain.pop_r
opcode-Checked Domain.in_ = one-Checked Domain.in_
opcode-Checked Domain.out = one-Checked Domain.out
opcode-Checked Domain.halt = none-Checked Domain.halt

Complete-Filled :
    (op : Opcode) (line : Line) (labels : Labels) (i : Instruction)
    → Filled op line labels (operand_specs op) i
    → Complete i
Complete-Filled op line labels i (e, h) = ap (λ o. all_filled (operand_specs o) i) e ∙ h

if_then-Either :
    {A B : Type 0} (Q : A → Type 0) (P : B → Type 0) (b : Bool) (r : Result A) (f : A → Result B)
    → Either Q (if b then r else err assembler_error)
    → ((a : A) → Q a → Either P (f a))
    → Either P (if b then (r >>= f) else err assembler_error)
if_then-Either Q P true r f h next = >>=-Either Q P f r h next
if_then-Either Q P false r f h next = refl

emit_opcode-Either :
    (op : Opcode) (line : Line) (labels : Labels) → Either AllComplete (emit_opcode op line labels)
unfolding emit_opcode
emit_opcode-Either op line labels =
    if_then-Either (Filled op line labels (operand_specs op)) AllComplete
      (length line.operands == length (operand_specs op))
      (fill_slots (operand_specs op) line.operands labels line (bare op line labels))
      (λ i. ok (i ∷ [])) (opcode-Checked op line labels line.operands)
      λ i h. (Complete-Filled op line labels i h, tt)

emit_mnemonic-Either :
    (mnemonic : Option String) (line : Line) (labels : Labels)
    → Either AllComplete (emit_mnemonic mnemonic line labels)
unfolding emit_mnemonic
emit_mnemonic-Either none line labels = tt
emit_mnemonic-Either (some mnemonic) line labels =
    which (str_eq mnemonic set_mnemonic) (str_eq mnemonic mov_mnemonic) (mnemonics mnemonic)
  where
    which :
        (b c : Bool) (o : Option Opcode)
        → Either AllComplete (
            if b
            then emit_set line.operands labels
            else if c
            then emit_mov line.operands
            else elim o [ none ↦ err assembler_error | some op ↦ emit_opcode op line labels ])
    which true c o = emit_set-Either line.operands labels
    which false true o = emit_mov-Either line.operands
    which false false none = refl
    which false false (some op) = emit_opcode-Either op line labels

AllComplete-++ :
    (xs ys : List Instruction) → AllComplete xs → AllComplete ys → AllComplete (xs ++ ys)
AllComplete-++ [] ys h h' = h'
AllComplete-++ (x ∷ xs) ys (c, h) h' = (c, AllComplete-++ xs ys h h')

emit_lines-Either :
    (lines : List Line) (labels : Labels) → Either AllComplete (emit_lines lines labels)
unfolding emit_lines emit_line
emit_lines-Either [] labels = tt
emit_lines-Either (line ∷ lines) labels =
    >>=-Either AllComplete AllComplete _ (emit_line line labels)
      (emit_mnemonic-Either line.mnemonic line labels)
      λ front h.
        >>=-Either AllComplete AllComplete _ (emit_lines lines labels)
          (emit_lines-Either lines labels) λ rest h'. AllComplete-++ front rest h h'

abbrev CompleteAssembly : Assembly → Type 0
CompleteAssembly a = AllComplete a.program

assemble-Either : (source : String) → Either CompleteAssembly (assemble source)
unfolding assemble emit
assemble-Either source =
    >>=-Either Any CompleteAssembly _ (parse source) (parse-Either source) λ lines _.
      >>=-Either Any CompleteAssembly _ (resolve lines) (resolve-Either lines) λ resolved _.
        >>=-Either AllComplete CompleteAssembly _ (emit resolved)
          (emit_lines-Either resolved.lines resolved.labels) λ program h. h

-- On every text the assembler either returns a program, each instruction of which has the operands
-- that the signature of its opcode asks for, or raises `AssemblerError`, and nothing else.
pub assemble-Complete :
    (source : String)
    → ((a : Assembly) × (assemble source ≡ ok a) × AllComplete a.program)
      ⊎ (assemble source ≡ err assembler_error)
assemble-Complete source = outcome (assemble source) (assemble-Either source)
  where
    outcome :
        (r : Result Assembly)
        → Either CompleteAssembly r
        → ((a : Assembly) × (r ≡ ok a) × AllComplete a.program) ⊎ (r ≡ err assembler_error)
    outcome (ok a) h = inl (a, refl, h)
    outcome (err e) h = inr (ap err h)
