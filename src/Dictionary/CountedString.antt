-- ===== src/Dictionary/CountedString.antt =====
-- src/min_cpu_forth/adapters/counted_string.py: `MemoryCountedStringAdapter`. A Python string is the
-- list of its code points.
use min_cpu_forth.Prelude.{ℕ, zero, suc, List, [], ◌∷◌, length, ltb, if◌then◌else◌}
use min_cpu_forth.Prelude.Int.{ℤ, pos, negsuc, ◌+ℤ◌}
use min_cpu_forth.Errors
use min_cpu_forth.Errors.{Result, ok, err, value_error}
use min_cpu_forth.Effects.{Action, pure, ◌>>◌}
use min_cpu_forth.Memory
use min_cpu_forth.Memory.{Memory}

-- Python's `chr`, which raises outside the range of code points; `value_error` also stands for the
-- `OverflowError` that some versions of Python raise beyond a C `int`.
unfoldable pub chr : ℤ → Result ℕ
chr (pos n) = if ltb n 1114112 then ok n else err value_error
chr (negsuc n) = err value_error

-- `range(length)` has no element for a negative length.
abbrev pub times : ℤ → ℕ
times (pos n) = n
times (negsuc n) = 0

abbrev stored : Memory → Result Memory → Result (Unit {0}) × Memory
stored m (ok m') = (ok tt, m')
stored m (err e) = (err e, m)

-- `self._memory.write`
unfoldable pub store : ℤ → ℤ → Action Memory (Unit {0})
unfolding Memory.write
store address value m = stored m (Memory.write m address value)

-- The characters of `count` cells from an address on.
unfoldable pub read_chars : Memory → ℕ → ℤ → Result (List ℕ)
unfolding Memory.read chr ◌+ℤ◌
read_chars m zero address = ok []
read_chars m (suc count) address =
    let rest = read_chars m count (address +ℤ pos 1) in
    Errors.◌>>=◌ (Memory.read m address)
      λ cell. Errors.◌>>=◌ (chr cell) λ c. Errors.◌>>=◌ rest λ cs. ok (c ∷ cs)

-- `MemoryCountedStringAdapter.read`
unfoldable pub read : Memory → ℤ → Result (List ℕ)
unfolding Memory.read read_chars ◌+ℤ◌
read m address =
    Errors.◌>>=◌ (Memory.read m address) λ count. read_chars m (times count) (address +ℤ pos 1)

-- The `for` of `write`: the characters go to the cells from an address on.
unfoldable pub write_chars : ℤ → List ℕ → Action Memory (Unit {0})
unfolding store ◌+ℤ◌
write_chars address [] = pure tt
write_chars address (c ∷ cs) = store address (pos c) >> write_chars (address +ℤ pos 1) cs

-- `MemoryCountedStringAdapter.write`
unfoldable pub write : ℤ → List ℕ → Action Memory ℤ
unfolding store write_chars ◌+ℤ◌
write address text =
    store address (pos (length text))
    >> (write_chars (address +ℤ pos 1) text >> pure (address +ℤ pos 1 +ℤ pos (length text)))
