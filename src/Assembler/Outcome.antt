-- ===== src/Assembler/Outcome.antt =====
-- services/assembler: what each pass raises.
use min_cpu_forth.Prelude.{ℕ, ◌+◌, ◌≡◌, refl, String, List, [], ◌∷◌, ◌++◌, arith}
use min_cpu_forth.Prelude.Int.{ℤ, pos, ◌+ℤ◌}
use min_cpu_forth.Errors.{Error, Result, ok, err, assembler_error, ◌>>=◌}
use min_cpu_forth.Domain.{Line, Labels}
use min_cpu_forth.Assembler.Text.{splitlines}
use min_cpu_forth.Assembler.Parser.{split_mnemonic, parse_line, parse_lines, parse}
use min_cpu_forth.Assembler.Resolver.{size, record_labels, place, resolve}

-- A result of which `P` holds, or an `AssemblerError`.
abbrev pub Either {ℓ} : {A : Type ℓ} (P : A → Type 0) → Result A → Type 0
Either P (ok a) = P a
Either P (err e) = e ≡ assembler_error

abbrev pub Any {ℓ} : {A : Type ℓ} → A → Type 0
Any a = Unit

pub >>=-Either {ℓ κ} :
    {A : Type ℓ} {B : Type κ} (Q : A → Type 0) (P : B → Type 0) (f : A → Result B) (r : Result A)
    → Either Q r
    → ((a : A) → Q a → Either P (f a))
    → Either P (r >>= f)
>>=-Either Q P f (ok a) q next = next a q
>>=-Either Q P f (err e) q next = q

pub of_errors {ℓ} :
    {A : Type ℓ} (r : Result A) → ((e : Error) → r ≡ err e → e ≡ assembler_error) → Either Any r
of_errors (ok a) h = tt
of_errors (err e) h = h e refl

split_mnemonic-error :
    (text : String) (e : Error) → split_mnemonic text ≡ err e → e ≡ assembler_error
unfolding split_mnemonic
split_mnemonic-error text e h = ground arith

parse_line-error :
    (lineno : ℕ) (raw : String) (e : Error) → parse_line lineno raw ≡ err e → e ≡ assembler_error
unfolding parse_line split_mnemonic
parse_line-error lineno raw e h = ground arith

parse_lines-Either : (lineno : ℕ) (raws : List String) → Either Any (parse_lines lineno raws)
unfolding parse_lines
parse_lines-Either lineno [] = tt
parse_lines-Either lineno (raw ∷ raws) =
    >>=-Either Any Any _ (parse_line lineno raw) (of_errors _ (parse_line-error lineno raw))
      λ line _.
        >>=-Either Any Any _ (parse_lines (lineno + 1) raws) (parse_lines-Either (lineno + 1) raws)
          λ lines _. tt

pub parse-Either : (source : String) → Either Any (parse source)
unfolding parse
parse-Either source = parse_lines-Either 1 (splitlines source)

record_labels-error :
    (names : List String) (address : ℤ) (labels : Labels) (e : Error)
    → record_labels names address labels ≡ err e
    → e ≡ assembler_error
unfolding record_labels
record_labels-error [] address labels e h = ground arith
record_labels-error (name ∷ names) address labels e h =
    ground (arith, record_labels-error names address (labels ++ (name, address) ∷ []) e)

place-Either :
    (lines : List Line) (address : ℤ) (labels : Labels) → Either Any (place lines address labels)
unfolding place
place-Either [] address labels = tt
place-Either (line ∷ lines) address labels =
    >>=-Either Any Any _ (record_labels line.labels address labels)
      (of_errors _ (record_labels-error line.labels address labels))
      λ labels' _.
        >>=-Either Any Any _ (place lines (address +ℤ pos (size line.mnemonic)) labels')
          (place-Either lines (address +ℤ pos (size line.mnemonic)) labels') λ resolved _. tt

pub resolve-Either : (lines : List Line) → Either Any (resolve lines)
unfolding resolve
resolve-Either lines = place-Either lines (pos 0) []
