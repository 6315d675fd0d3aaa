-- ===== src/Dictionary/Lookup.antt =====
-- adapters/dictionary.py: `find` against a search of the chain of headers.
use min_cpu_forth.Prelude.{
  ℕ, zero, suc, ◌≤◌, ◌≡◌, refl, List, [], ◌∷◌, length, Bool, true, false, Option, none, some, arith,
  if◌then◌else◌,
}
use min_cpu_forth.Prelude.Int.{ℤ, pos, +ℤ_zero, eqb_suc}
use min_cpu_forth.Errors.{ok}
use min_cpu_forth.Memory.{Memory}
use min_cpu_forth.Memory.Laws.{read-pos}
use min_cpu_forth.Dictionary.CountedString
use min_cpu_forth.Dictionary.Codec.{IsText, length-cells_of, read_chars-At, pos-suc, pos-add}
use min_cpu_forth.Dictionary.Variables.{latest}
use min_cpu_forth.Dictionary.Words.{Header, read_header, text_eq, find, find_from, truth}
use min_cpu_forth.Dictionary.Search.{minus_three, plus_two}
use min_cpu_forth.Dictionary.Chain.{Entry, name_field, code_field, Holds, Chain}

-- The header of which the cells are known.
abbrev pub header_of : (ℕ → ℤ) → Entry → Header
header_of cells e = record {
  name = e.name;
  link = cells e.start;
  immediate = truth e.immediate;
  smudge = truth e.smudge;
  cfa = pos (code_field e);
}

-- The first header that bears the name, smudged or not.
unfoldable pub first_named : List ℕ → List Entry → Option Entry
unfolding text_eq
first_named name [] = none
first_named name (e ∷ es) = if text_eq e.name name then some e else first_named name es

abbrev pub AllText : List Entry → Type 0
AllText [] = Unit
AllText (e ∷ es) = IsText e.name × AllText es

abbrev pub shown : (ℕ → ℤ) → Option Entry → Option Header
shown cells none = none
shown cells (some e) = some (header_of cells e)

module _ (m : Memory) (large : 2048 ≤ m.size) where
  read-name :
      (e : Entry)
      → Holds m.cells e
      → IsText e.name
      → CountedString.read m (pos (name_field e)) ≡ ok e.name
  unfolding CountedString.read
  read-name e h t = rw (
    read-pos m (name_field e) (omega (arith, h.fits)),
    h.name.0,
    pos-suc (name_field e),
    length-cells_of e.name,
    read_chars-At m (suc (name_field e)) e.name t h.name.1
        (omega (arith, h.fits, length-cells_of e.name)),
  )

  read_header-Holds :
      (e : Entry)
      → Holds m.cells e
      → IsText e.name
      → read_header m (pos (name_field e)) ≡ ok (header_of m.cells e)
  unfolding read_header
  read_header-Holds e h t = rw (
    read-name e h t,
    minus_three e.start,
    +ℤ_zero (pos e.start),
    read-pos m e.start (omega (arith, h.fits)),
    pos-suc e.start,
    read-pos m (suc e.start) (omega (arith, h.fits)),
    h.immediate,
    plus_two e.start,
    read-pos m (suc (suc e.start)) (omega (arith, h.fits)),
    h.smudge,
    pos-suc (name_field e),
    pos-add (suc (name_field e)) (length e.name),
    length-cells_of e.name,
  )

  find_from-Chain :
      (fuel : ℕ) (name : List ℕ) (at : ℤ) (es : List Entry)
      → Chain m.cells at es
      → AllText es
      → length es ≤ fuel
      → find_from fuel m name at ≡ some (ok (shown m.cells (first_named name es)))
  unfolding find_from first_named
  find_from-Chain zero name at [] h t le = rw h
  find_from-Chain zero name at (e ∷ es) h t le = absurd (omega arith)
  find_from-Chain (suc fuel) name at [] h t le = rw h
  find_from-Chain (suc fuel) name at (e ∷ es) (e', held, h) (t, ts) le = rw (
    e',
    read_header-Holds e held t,
    eqb_suc (suc (suc e.start)),
    minus_three e.start,
    read-pos m e.start (omega (arith, held.fits)),
    find_from-Chain fuel name (m.cells e.start) es h ts (omega arith),
    branch (text_eq e.name name),
  )
    where
      branch :
          (b : Bool)
          → (if b
              then some (ok (some (header_of m.cells e)))
              else some (ok (shown m.cells (first_named name es))))
            ≡ some (ok (shown m.cells (if b then some e else first_named name es)))
      branch true = refl
      branch false = refl

  -- `find`, where `LATEST` leads to a chain of headers whose names are strings of code points: it
  -- ends, as soon as it may look at as many headers as there are, without an exception, and returns
  -- the first header of the chain that bears the name, or none where there is no such header.
  pub find-Chain :
      (fuel : ℕ) (name : List ℕ) (es : List Entry)
      → Chain m.cells (m.cells 1) es
      → AllText es
      → length es ≤ fuel
      → find fuel m name ≡ some (ok (shown m.cells (first_named name es)))
  unfolding find latest
  find-Chain fuel name es h t le =
      rw (read-pos m 1 (omega (arith, large)), find_from-Chain fuel name (m.cells 1) es h t le)
