-- ===== src/Assembler/Slots.antt =====
-- services/assembler/emitter.py: what the filling of an opcode's slots leaves in an instruction.
use min_cpu_forth.Prelude.{
  ◌≡◌, refl, String, Bool, true, false, Option, none, some, List, [], ◌∷◌, arith, ◌&&◌,
}
use min_cpu_forth.Errors.{Error, Result, ok, err, assembler_error}
use min_cpu_forth.Domain.{
  Opcode, Instruction, Operand, absent, reg, Line, Labels, OperandSpec, InstructionField, field_a,
  field_b, field_offset, OperandKind, register,
}
use min_cpu_forth.Assembler.Specs.{
  operand_specs, one_register, two_registers, register_and_source, register_and_offset,
}
use min_cpu_forth.Assembler.Emitter.{
  resolve_register, resolve_reg_or_immediate, resolve_offset, resolve_constant, emit_set, emit_mov,
  fill_slot, fill_slots,
}
use min_cpu_forth.Assembler.Outcome.{Either, Any, of_errors, >>=-Either}

abbrev is_some : {A : Type 0} → Option A → Bool
is_some none = false
is_some (some a) = true

abbrev is_register : Operand → Bool
is_register (reg name) = true
is_register _ = false

abbrev is_present : Operand → Bool
is_present absent = false
is_present _ = true

-- An instruction has what one slot of an opcode's signature asks for.
abbrev filled : InstructionField → OperandKind → Instruction → Bool
filled field_a kind i = is_some i.a
filled field_b register i = is_register i.b
filled field_b _ i = is_present i.b
filled field_offset kind i = is_some i.offset

abbrev pub all_filled : List OperandSpec → Instruction → Bool
all_filled [] i = true
all_filled (slot ∷ slots) i = filled slot.field slot.kind i && all_filled slots i

-- Every operand of the opcode's signature is there.
abbrev pub Complete : Instruction → Type 0
Complete i = all_filled (operand_specs i.opcode) i ≡ true

abbrev pub AllComplete : List Instruction → Type 0
AllComplete [] = Unit
AllComplete (i ∷ is) = Complete i × AllComplete is

resolve_register-error :
    (token : String) (e : Error) → resolve_register token ≡ err e → e ≡ assembler_error
unfolding resolve_register
resolve_register-error token e h = ground arith

resolve_register-Either : (token : String) → Either Any (resolve_register token)
resolve_register-Either token = of_errors _ (resolve_register-error token)

resolve_offset-error :
    (token : String) (labels : Labels) (line : Line) (e : Error)
    → resolve_offset token labels line ≡ err e
    → e ≡ assembler_error
unfolding resolve_offset
resolve_offset-error token labels line e h = ground arith

resolve_constant-error :
    (token : String) (labels : Labels) (e : Error)
    → resolve_constant token labels ≡ err e
    → e ≡ assembler_error
unfolding resolve_constant
resolve_constant-error token labels e h = ground arith

resolve_source-error :
    (token : String) (labels : Labels) (e : Error)
    → resolve_reg_or_immediate token labels ≡ err e
    → e ≡ assembler_error
unfolding resolve_reg_or_immediate
resolve_source-error token labels e h = ground (arith, resolve_register-error token e)

resolve_source-ok :
    (token : String) (labels : Labels) (o : Operand)
    → resolve_reg_or_immediate token labels ≡ ok o
    → is_present o ≡ true
unfolding resolve_reg_or_immediate
resolve_source-ok token labels o h = ground arith

resolve_source-Either :
    (token : String) (labels : Labels)
    → Either (λ o. is_present o ≡ true) (resolve_reg_or_immediate token labels)
resolve_source-Either token labels =
    outcome (resolve_reg_or_immediate token labels) (resolve_source-ok token labels)
      (resolve_source-error token labels)
  where
    outcome :
        (r : Result Operand)
        → ((o : Operand) → r ≡ ok o → is_present o ≡ true)
        → ((e : Error) → r ≡ err e → e ≡ assembler_error)
        → Either (λ o. is_present o ≡ true) r
    outcome (ok o) good bad = good o refl
    outcome (err e) good bad = bad e refl

pub emit_set-Either :
    (tokens : List String) (labels : Labels) → Either AllComplete (emit_set tokens labels)
unfolding emit_set operand_specs
emit_set-Either [] labels = refl
emit_set-Either (r ∷ []) labels = refl
emit_set-Either (r ∷ c ∷ []) labels =
    >>=-Either Any AllComplete _ (resolve_register r) (resolve_register-Either r) λ name _.
      >>=-Either Any AllComplete _ (resolve_constant c labels)
        (of_errors _ (resolve_constant-error c labels)) λ value _. (refl, (refl, tt))
emit_set-Either (r ∷ c ∷ x ∷ xs) labels = refl

pub emit_mov-Either : (tokens : List String) → Either AllComplete (emit_mov tokens)
unfolding emit_mov operand_specs
emit_mov-Either [] = refl
emit_mov-Either (d ∷ []) = refl
emit_mov-Either (d ∷ s ∷ []) =
    >>=-Either Any AllComplete _ (resolve_register d) (resolve_register-Either d) λ dest _.
      >>=-Either Any AllComplete _ (resolve_register s) (resolve_register-Either s)
        λ source _. (refl, (refl, tt))
emit_mov-Either (d ∷ s ∷ x ∷ xs) = refl

-- The signatures, with as many tokens as they have slots.
module _ (op : Opcode) (line : Line) (labels : Labels) where
  abbrev pub bare : Instruction
  bare = record { opcode = op; a = none; b = absent; offset = none }

  abbrev pub Filled : List OperandSpec → Instruction → Type 0
  Filled slots i = (i.opcode ≡ op) × (all_filled slots i ≡ true)

  -- What the first of two slots has left.
  abbrev Half : Instruction → Type 0
  Half i = (i.opcode ≡ op) × (is_some i.a ≡ true)

  first_slot :
      (x : String)
      → Either Half (fill_slot (record { field = field_a; kind = register }) x labels line bare)
  unfolding fill_slot
  first_slot x =
      >>=-Either Any Half _ (resolve_register x) (resolve_register-Either x) λ name _. (refl, refl)

  pub fill_one :
      (x : String)
      → Either (Filled one_register) (fill_slots one_register (x ∷ []) labels line bare)
  unfolding fill_slots
  fill_one x =
      >>=-Either Half (Filled one_register) _ _ (first_slot x) λ i (e, a). (e, ground arith)

  pub fill_two :
      (x y : String)
      → Either (Filled two_registers) (fill_slots two_registers (x ∷ y ∷ []) labels line bare)
  unfolding fill_slots fill_slot
  fill_two x y = >>=-Either Half (Filled two_registers) _ _ (first_slot x) λ i (e, a).
      >>=-Either (Filled two_registers) (Filled two_registers) _ _
        (>>=-Either Any (Filled two_registers) _ (resolve_register y) (resolve_register-Either y)
          λ name _. (e, ground arith))
        λ i' h. h

  pub fill_source :
      (x y : String)
      → Either
          (Filled register_and_source)
          (fill_slots register_and_source (x ∷ y ∷ []) labels line bare)
  unfolding fill_slots fill_slot
  fill_source x y = >>=-Either Half (Filled register_and_source) _ _ (first_slot x) λ i (e, a).
      >>=-Either (Filled register_and_source) (Filled register_and_source) _ _
        (>>=-Either (λ o. is_present o ≡ true) (Filled register_and_source) _
          (resolve_reg_or_immediate y labels) (resolve_source-Either y labels)
          λ o present. (e, ground arith))
        λ i' h. h

  pub fill_offset :
      (x y : String)
      → Either
          (Filled register_and_offset)
          (fill_slots register_and_offset (x ∷ y ∷ []) labels line bare)
  unfolding fill_slots fill_slot
  fill_offset x y = >>=-Either Half (Filled register_and_offset) _ _ (first_slot x) λ i (e, a).
      >>=-Either (Filled register_and_offset) (Filled register_and_offset) _ _
        (>>=-Either Any (Filled register_and_offset) _ (resolve_offset y labels line)
          (of_errors _ (resolve_offset-error y labels line)) λ distance _. (e, ground arith))
        λ i' h. h
