-- ===== src/Kernel/Routines/Table.antt =====
-- services/kernel/routines.py: what an entry of the table of primitives is, the offsets that FIND
-- bakes in, and how a text of several lines and a number in an f-string are written.
use Prim.Native.Nat.{◌/◌, ◌%◌}
use Prim.Native.String.{◌++◌}
use min_cpu_forth.Prelude.{ℕ, zero, suc, ◌-◌, String, false, List, [], ◌∷◌, ltb, if◌then◌else◌}
use min_cpu_forth.Domain.{CodeWord}
use min_cpu_forth.Domain.HeaderField

pub record KernelPrimitive : Type 0 where
  pub word : CodeWord
  pub source : String

-- `_primitive`
abbrev pub primitive : String → String → String → KernelPrimitive
primitive name label source = record {
  word = record { name = name; routine_label = label; immediate = false };
  source = source;
}

-- A text of several lines, each ended by a line feed.
abbrev pub unlines : List String → String
unlines [] = String.[]
unlines (l ∷ ls) = l ++ ("\n" ++ unlines ls)

abbrev digit : ℕ → String
digit zero = "0"
digit (suc zero) = "1"
digit (suc (suc zero)) = "2"
digit (suc (suc (suc zero))) = "3"
digit (suc (suc (suc (suc zero)))) = "4"
digit (suc (suc (suc (suc (suc zero))))) = "5"
digit (suc (suc (suc (suc (suc (suc zero)))))) = "6"
digit (suc (suc (suc (suc (suc (suc (suc zero))))))) = "7"
digit (suc (suc (suc (suc (suc (suc (suc (suc zero)))))))) = "8"
digit _ = "9"

abbrev decimal_fuel : ℕ → ℕ → String
decimal_fuel zero n = String.[]
decimal_fuel (suc fuel) n =
    let front = decimal_fuel fuel (n / 10) in if ltb n 10 then digit n else front ++ digit (n % 10)

-- `{n}` in an f-string: the digits of a number below 10 ^ 6.
abbrev pub decimal : ℕ → String
decimal n = decimal_fuel 6 n

abbrev pub immediate_from_name_field : ℕ
immediate_from_name_field = HeaderField.name_length - HeaderField.immediate

abbrev pub smudge_from_name_field : ℕ
smudge_from_name_field = HeaderField.name_length - HeaderField.smudge

abbrev pub link_from_name_field : ℕ
link_from_name_field = HeaderField.name_length
