-- ===== src/Errors.antt =====
-- src/min_cpu_forth/errors.py: the exceptions as values. Python's own `IndexError`, `KeyError`,
-- `ZeroDivisionError`, `TypeError`, `ValueError` and `RecursionError`, which the code lets through,
-- stand beside them. The messages are dropped, but for the two of `StackError`, which the code tells apart by
-- nothing else. Of the hierarchy one relation is kept, in `is_emulator_error`: `InputExhaustedError` is
-- an `EmulatorError`. `value_error` and `recursion_error` stand for what Python's `chr`, `int` and
-- calls raise.
use min_cpu_forth.Prelude.{Bool, true, false, ◌≡◌, refl, ◌⊎◌, inl, inr}

pub data Error : Type 0 where
  stack_overflow stack_underflow : Error
  emulator_error input_exhausted : Error
  assembler_error unknown_word kernel_error : Error
  index_error key_error zero_division type_error value_error recursion_error : Error

-- An instance of `EmulatorError`: the class itself, or `InputExhaustedError`.
abbrev pub is_emulator_error : Error → Bool
is_emulator_error emulator_error = true
is_emulator_error input_exhausted = true
is_emulator_error _ = false

pub data Result {ℓ} (A : Type ℓ) : Type ℓ where
  ok : A → Result A
  err : Error → Result A

-- The rest of a computation, unless an exception has ended it.
infixl 5 ◌>>=◌
abbrev pub ◌>>=◌ {ℓ κ} :
    {A : Type ℓ} {B : Type κ} (first : Result A) (rest : A → Result B) → Result B
err raised >>= rest = err raised
ok value >>= rest = rest value

pub Result-cases {ℓ} :
    {A : Type ℓ} (r : Result A) → ((a : A) × (r ≡ ok a)) ⊎ ((e : Error) × (r ≡ err e))
Result-cases (ok a) = inl (a, refl)
Result-cases (err e) = inr (e, refl)
