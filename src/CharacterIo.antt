-- ===== src/CharacterIo.antt =====
-- src/min_cpu_forth/adapters/io.py: the input queue and the output buffer.
use min_cpu_forth.Prelude.{List, [], ◌∷◌, ◌++◌}
use min_cpu_forth.Prelude.Int.{ℤ}
use min_cpu_forth.Errors.{ok, err, input_exhausted}
use min_cpu_forth.Effects.{Action}

-- `QueueCharacterInputAdapter.feed`
unfoldable pub feed : List ℤ → List ℤ → List ℤ
feed values queue = queue ++ values

-- `QueueCharacterInputAdapter.read`
unfoldable pub next_code : Action (List ℤ) ℤ
next_code [] = (err input_exhausted, [])
next_code (value ∷ queue) = (ok value, queue)

-- `BufferCharacterOutputAdapter.write`
unfoldable pub put_code : ℤ → List ℤ → List ℤ
put_code value buffer = buffer ++ value ∷ []
