-- ===== src/Domain/Dtos.antt =====
-- domain/dtos.py: the frozen data classes. A mapping of labels is an association list, in the
-- order of insertion; a tuple is a list.
use min_cpu_forth.Prelude.{ℕ, String, Bool, Option, List}
use min_cpu_forth.Prelude.Int.{ℤ}
use min_cpu_forth.Domain.Isa.{Opcode, InstructionField, OperandKind}

-- The field `b` of an instruction: `None`, a register name or an immediate.
pub data Operand : Type 0 where
  absent : Operand
  reg : String → Operand
  imm : ℤ → Operand

pub record Instruction : Type 0 where
  pub opcode : Opcode
  pub a : Option String
  pub b : Operand
  pub offset : Option ℤ

pub record OperandSpec : Type 0 where
  pub field : InstructionField
  pub kind : OperandKind

-- `address` is -1 until the resolver fills it in.
pub record Line : Type 0 where
  pub lineno : ℕ
  pub labels : List String
  pub mnemonic : Option String
  pub operands : List String
  pub address : ℤ

unfoldable pub with_address : Line → ℤ → Line
with_address line address = record line { address = address }

abbrev pub Labels : Type 0
Labels = List (String × ℤ)

pub record ResolvedProgram : Type 0 where
  pub lines : List Line
  pub labels : Labels

pub record Assembly : Type 0 where
  pub program : List Instruction
  pub labels : Labels

pub record CodeWord : Type 0 where
  pub name : String
  pub routine_label : String
  pub immediate : Bool

-- `word_cfas` maps each installed word to its code field's address.
pub record KernelImage : Type 0 where
  pub program : List Instruction
  pub word_cfas : List (String × ℤ)
  pub boot_ip : ℤ

pub record ColonWord : Type 0 where
  pub name : String
  pub words : List String
  pub immediate : Bool

pub data WordSpec : Type 0 where
  code_word : CodeWord → WordSpec
  colon_word : ColonWord → WordSpec

pub data ThreadItem : Type 0 where
  word_reference : String → ThreadItem
  literal_cell : ℤ → ThreadItem
