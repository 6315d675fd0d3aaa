-- ===== src/Assembler/LabelTable.antt =====
-- The resolver's table of labels: every label of a placed line stands for the line's address.
use min_cpu_forth.Prelude.{
  ◌≡◌, String, none, some, List, [], ◌∷◌, ◌++◌, arith, Option-cases, inl, inr, subst,
}
use text.Mathlib.TextPositions.{eq_refl}
use min_cpu_forth.Prelude.Int.{ℤ, pos, ◌+ℤ◌}
use min_cpu_forth.Errors.{Result, ok, err}
use min_cpu_forth.Domain.{Line, Labels, ResolvedProgram, with_address}
use min_cpu_forth.Assembler.Specs.{lookup}
use min_cpu_forth.Assembler.Resolver.{size, place, resolve, record_labels}
use min_cpu_forth.Assembler.Addresses.{bind-ok}

-- Each of the names stands for the address in the table.
abbrev pub StandFor : Labels → ℤ → List String → Type 0
StandFor table address [] = Unit
StandFor table address (name ∷ names) =
    (lookup name table ≡ some address) × StandFor table address names

-- Each line's labels stand for its address.
abbrev pub Labelled : Labels → List Line → Type 0
Labelled table [] = Unit
Labelled table (line ∷ lines) = StandFor table line.address line.labels × Labelled table lines

lookup-append :
    (name : String) (table more : Labels) (a : ℤ)
    → lookup name table ≡ some a
    → lookup name (table ++ more) ≡ some a
lookup-append name [] more a e = cc
lookup-append name ((n, b) ∷ table) more a e = ground (arith, lookup-append name table more a)

lookup-append_new :
    (name : String) (table : Labels) (a : ℤ)
    → lookup name table ≡ none
    → lookup name (table ++ (name, a) ∷ []) ≡ some a
lookup-append_new name [] a e = rw (eq_refl name)
lookup-append_new name ((n, b) ∷ table) a e = ground (arith, lookup-append_new name table a)

-- A table that keeps the entries of another.
abbrev Extends : Labels → Labels → Type 0
Extends table table' =
    (name : String) (a : ℤ) → lookup name table ≡ some a → lookup name table' ≡ some a

StandFor-Extends :
    (names : List String) (address : ℤ) (table table' : Labels)
    → Extends table table'
    → StandFor table address names
    → StandFor table' address names
StandFor-Extends [] address table table' keeps h = tt
StandFor-Extends (name ∷ names) address table table' keeps (e, h) =
    (keeps name address e, StandFor-Extends names address table table' keeps h)

record_labels-StandFor :
    (names : List String) (address : ℤ) (table table' : Labels)
    → record_labels names address table ≡ ok table'
    → Extends table table' × StandFor table' address names
unfolding record_labels
record_labels-StandFor [] address table table' e = (λ n a h. cc, tt)
record_labels-StandFor (name ∷ names) address table table' e =
    elim (Option-cases (lookup name table)) [
      | inr (b, taken) ↦ absurd (ground arith)
      | inl free ↦
          let table₁ = table ++ (name, address) ∷ [] in
          let (keeps, rest) = record_labels-StandFor names address table₁ table' (ground arith) in
          (
            λ n a h. keeps n a (lookup-append n table ((name, address) ∷ []) a h),
            (keeps name address (lookup-append_new name table address free), rest),
          )
    ]

abbrev Good : Labels → Result ResolvedProgram → Type 0
Good table (ok r) = Extends table r.labels × Labelled r.labels r.lines
Good table (err x) = Unit

place-Good :
    (lines : List Line) (address : ℤ) (table : Labels) (r : ResolvedProgram)
    → place lines address table ≡ ok r
    → Good table (ok r)
unfolding place with_address
place-Good [] address table r e = subst (Good table) e (λ n a h. h, tt)
place-Good (line ∷ lines) address table r e =
    let (table₁, e₁, e₂) = bind-ok (record_labels line.labels address table) _ r e in
    let (r', e₃, e₄) = bind-ok (place lines (address +ℤ pos (size line.mnemonic)) table₁) _ r e₂ in
    let (keeps, here) = record_labels-StandFor line.labels address table table₁ e₁ in
    let (keeps', rest) = place-Good lines _ table₁ r' e₃ in
    subst (Good table) e₄ (
      λ n a h. keeps' n a (keeps n a h),
      (StandFor-Extends line.labels address table₁ r'.labels keeps' here, rest),
    )

-- In a resolved program each label defined on a line stands, in the table of labels, for the
-- line's address.
pub resolve-Labelled :
    (lines : List Line) (r : ResolvedProgram) → resolve lines ≡ ok r → Labelled r.labels r.lines
unfolding resolve
resolve-Labelled lines r e = (place-Good lines (pos 0) [] r e).1
