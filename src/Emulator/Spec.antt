-- ===== src/Emulator/Spec.antt =====
-- An abstract machine for the emulator: the two stacks are lists, and the memory is the dictionary
-- block alone. Where it answers `none` it promises nothing: an operand of the wrong form, an access
-- outside the block, or an exception.
use min_cpu_forth.Prelude.{
  ℕ, zero, suc, String, Bool, false, true, Option, none, some, List, [], ◌∷◌, ltb, if◌then◌else◌,
}
use min_cpu_forth.Prelude.Int.{ℤ, pos, negsuc, ◌+ℤ◌, ◌-ℤ◌, and_ℤ, or_ℤ, invert, eqb_ℤ, ltb_ℤ}
use min_cpu_forth.Errors.{Result, ok, err}
use min_cpu_forth.Domain
use min_cpu_forth.Domain.{Opcode, Instruction, Operand, absent, reg, imm}
use min_cpu_forth.Layout.{dictionary_size}
use min_cpu_forth.Memory.{update}
use min_cpu_forth.Registers
use min_cpu_forth.Registers.{RegisterFile}
use min_cpu_forth.CharacterIo.{put_code}
use min_cpu_forth.Stack.View.{View, push_view, pop_view}
use min_cpu_forth.Emulator.Fetch.{fetch}

pub record Abstract : Type 0 where
  pub registers : RegisterFile
  pub cells : ℕ → ℤ
  pub data_stack : View
  pub return_stack : View
  pub char_input : List ℤ
  pub char_output : List ℤ
  pub pc : ℤ
  pub halted : Bool

abbrev pub get : Abstract → String → ℤ
unfolding Registers.read
get s name = Registers.read s.registers name

abbrev pub set : String → ℤ → Abstract → Abstract
unfolding Registers.write
set name value s = record s { registers = Registers.write s.registers name value }

abbrev pub load_cell : (ℕ → ℤ) → ℤ → Option ℤ
load_cell cells (pos n) = if ltb n dictionary_size then some (cells n) else none
load_cell cells (negsuc n) = none

abbrev pub store_cell : Abstract → ℤ → ℤ → Option Abstract
store_cell s (pos n) value =
    if ltb n dictionary_size then some (record s { cells = update s.cells n value }) else none
store_cell s (negsuc n) value = none

abbrev source : Abstract → Operand → Option ℤ
unfolding get
source s (imm value) = some value
source s (reg name) = some (get s name)
source s absent = none

abbrev pub set_from : Option ℤ → String → Abstract → Option Abstract
unfolding set
set_from none name s = none
set_from (some value) name s = some (set name value s)

abbrev set_by : (ℤ → ℤ → ℤ) → Option ℤ → String → Abstract → Option Abstract
unfolding set get
set_by op none name s = none
set_by op (some value) name s = some (set name (op (get s name) value) s)

abbrev pub with_data : Abstract → Result (Unit {0}) × View → Option Abstract
with_data s (ok _, v) = some (record s { data_stack = v })
with_data s (err e, v) = none

abbrev pub with_return : Abstract → Result (Unit {0}) × View → Option Abstract
with_return s (ok _, v) = some (record s { return_stack = v })
with_return s (err e, v) = none

abbrev pub from_data : String → Abstract → Result ℤ × View → Option Abstract
unfolding set
from_data name s (ok x, v) = some (set name x (record s { data_stack = v }))
from_data name s (err e, v) = none

abbrev pub from_return : String → Abstract → Result ℤ × View → Option Abstract
unfolding set
from_return name s (ok x, v) = some (set name x (record s { return_stack = v }))
from_return name s (err e, v) = none

abbrev pub from_input : String → Abstract → List ℤ → Option Abstract
unfolding set
from_input name s [] = none
from_input name s (x ∷ queue) = some (set name x (record s { char_input = queue }))

abbrev jump_if : Bool → ℤ → Abstract → Abstract
unfolding ◌+ℤ◌
jump_if test offset s = record s { pc = if test then s.pc +ℤ offset else s.pc }

-- What an instruction does, by its opcode and operands, once `pc` has gone on.
unfoldable pub effect : Opcode → Option String → Operand → Option ℤ → Abstract → Option Abstract
unfolding get set source set_from set_by from_data from_return from_input jump_if ◌+ℤ◌ ◌-ℤ◌ put_code
effect Domain.load (some dst) (reg src) _ s = set_from (load_cell s.cells (get s src)) dst s
effect Domain.store (some dst) (reg src) _ s = store_cell s (get s dst) (get s src)
effect Domain.add (some dst) src _ s = set_by ◌+ℤ◌ (source s src) dst s
effect Domain.sub (some dst) src _ s = set_by ◌-ℤ◌ (source s src) dst s
effect Domain.and (some dst) src _ s = set_by and_ℤ (source s src) dst s
effect Domain.or (some dst) src _ s = set_by or_ℤ (source s src) dst s
effect Domain.invert (some r) _ _ s = some (set r (invert (get s r)) s)
effect Domain.jmp (some r) _ _ s = some (record s { pc = get s r })
effect Domain.jz (some r) _ (some offset) s = some (jump_if (eqb_ℤ (get s r) (pos 0)) offset s)
effect Domain.js (some r) _ (some offset) s = some (jump_if (ltb_ℤ (get s r) (pos 0)) offset s)
effect Domain.push_d (some r) _ _ s = with_data s (push_view (get s r) s.data_stack)
effect Domain.pop_d (some r) _ _ s = from_data r s (pop_view s.data_stack)
effect Domain.push_r (some r) _ _ s = with_return s (push_view (get s r) s.return_stack)
effect Domain.pop_r (some r) _ _ s = from_return r s (pop_view s.return_stack)
effect Domain.in_ (some r) _ _ s = from_input r s s.char_input
effect Domain.out (some r) _ _ s =
    some (record s { char_output = put_code (get s r) s.char_output })
effect Domain.halt _ _ _ s = some (record s { halted = true })
effect _ _ _ _ s = none

abbrev pub effect_of : Option Instruction → Abstract → Option Abstract
unfolding effect ◌+ℤ◌
effect_of none s = none
effect_of (some i) s = effect i.opcode i.a i.b i.offset (record s { pc = s.pc +ℤ pos 1 })

-- One step of the abstract machine over a program.
unfoldable pub tick : List Instruction → Abstract → Option Abstract
unfolding effect_of fetch
tick program s = effect_of (fetch program s.pc) s

abbrev pub continue : (Abstract → Option Abstract) → Option Abstract → Option Abstract
continue k none = none
continue k (some s) = k s

-- `n` steps, none of them after a halt.
unfoldable pub ticks : List Instruction → ℕ → Abstract → Option Abstract
unfolding tick
ticks program zero s = some s
ticks program (suc n) s = elim (s.halted) [
  | true ↦ none
  | false ↦ continue (ticks program n) (tick program s)
]
