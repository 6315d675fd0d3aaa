-- ===== src/Dictionary/Search.antt =====
-- `find` after `append_word`.
use min_cpu_forth.Prelude.{
  ℕ, suc, ◌+◌, ◌≤◌, ◌<◌, ◌≡◌, refl, List, [], ◌∷◌, length, Bool, true, false, some, arith, ap, ◌∙◌,
}
use min_cpu_forth.Prelude.Int.{ℤ, pos, ◌+ℤ◌, ◌-ℤ◌, +ℤ_zero, int_laws, eqb_suc}
use min_cpu_forth.Errors.{ok}
use min_cpu_forth.Memory
use min_cpu_forth.Memory.{Memory}
use min_cpu_forth.Memory.Laws.{read-pos}
use min_cpu_forth.Stack.View.{At}
use min_cpu_forth.Dictionary.CountedString
use min_cpu_forth.Dictionary.Codec.{
  IsText, cells_of, length-cells_of, At-agree, At-written, read_chars-At, counted-length, pos-suc,
  pos-add,
}
use min_cpu_forth.Dictionary.Variables.{latest}
use min_cpu_forth.Dictionary.Words.{
  Header, append_word, read_header, text_eq, find, find_from, as_cell, truth,
}
use min_cpu_forth.Dictionary.Append.{
  opened, named, field, coded, finished, append_word-finished, finished-named, finished-opened,
  threaded-size, threaded-below,
}

text_eq_refl : (text : List ℕ) → text_eq text text ≡ true
unfolding text_eq
text_eq_refl [] = refl
text_eq_refl (c ∷ cs) = ground (arith, text_eq_refl cs)

truth-as_cell : (b : Bool) → truth (as_cell b) ≡ b
truth-as_cell true = refl
truth-as_cell false = refl

pub minus_three : (p : ℕ) → pos (suc (suc (suc p))) -ℤ pos 3 ≡ pos p
minus_three p = omega int_laws

pub plus_two : (p : ℕ) → pos p +ℤ pos 2 ≡ pos (suc (suc p))
plus_two p = omega int_laws

-- A header whose cells are known is read as such.
read_header-cells :
    (m : Memory) (p : ℕ) (name : List ℕ) (link : ℤ) (immediate : Bool)
    → CountedString.read m (pos (suc (suc (suc p)))) ≡ ok name
    → suc (suc p) < m.size
    → m.cells p ≡ link
    → m.cells (suc p) ≡ as_cell immediate
    → m.cells (suc (suc p)) ≡ pos 0
    → read_header m (pos (suc (suc (suc p))))
      ≡ ok (record {
        name = name;
        link = link;
        immediate = immediate;
        smudge = false;
        cfa = pos (suc (suc (suc (suc p))) + length name);
      })
unfolding read_header
read_header-cells m p name link immediate text h e e' e'' = rw (
  text,
  minus_three p,
  +ℤ_zero (pos p),
  read-pos m p (omega arith),
  e,
  pos-suc p,
  read-pos m (suc p) (omega arith),
  e',
  plus_two p,
  read-pos m (suc (suc p)) h,
  e'',
  truth-as_cell immediate,
  pos-suc (suc (suc (suc p))),
  pos-add (suc (suc (suc (suc p)))) (length name),
)

module _ (m : Memory) (p : ℕ) (old : ℤ) (name : List ℕ) (code_field : ℤ) (thread : List ℤ)
    (immediate : Bool) (fits : suc (suc (suc (suc p))) + length name + suc (length thread) ≤ m.size)
    (low : 1 < p) where
  abbrev last : Memory
  last = finished m p old name code_field thread immediate fits

  last-size : last.size ≡ m.size
  last-size =
      threaded-size (coded m p old name code_field thread immediate fits)
        (suc (field m p old name code_field thread immediate fits)) thread

  name-At : At last.cells (suc (suc (suc (suc p)))) (cells_of name)
  name-At =
      At-agree (named m p old name code_field thread immediate fits).cells last.cells
        (suc (suc (suc (suc p)))) (cells_of name)
        (λ j le lt.
          finished-named m p old name code_field thread immediate fits j (omega arith)
            (omega (arith, length-cells_of name)))
        (At-written _ (suc (suc (suc (suc p)))) name)

  read-last : IsText name → CountedString.read last (pos (suc (suc (suc p)))) ≡ ok name
  unfolding CountedString.read
  read-last t = rw (
    read-pos last (suc (suc (suc p))) (omega (arith, last-size)),
    finished-named m p old name code_field thread immediate fits (suc (suc (suc p))) (omega arith)
        (omega arith),
    counted-length (opened m p old name code_field thread immediate fits) (suc (suc (suc p))) name
        (omega arith),
    pos-suc (suc (suc (suc p))),
    read_chars-At last (suc (suc (suc (suc p)))) name t name-At (omega (arith, last-size)),
  )

  last-opened :
      (j : ℕ)
      → 1 < j
      → j < suc (suc (suc p))
      → last.cells j ≡ (opened m p old name code_field thread immediate fits).cells j
  last-opened j = finished-opened m p old name code_field thread immediate fits j

  abbrev header : Header
  header = record {
    name = name;
    link = old;
    immediate = immediate;
    smudge = false;
    cfa = pos (field m p old name code_field thread immediate fits);
  }

  header-last : IsText name → read_header last (pos (suc (suc (suc p)))) ≡ ok header
  header-last t =
      read_header-cells last p name old immediate (read-last t) (omega (arith, last-size))
        (last-opened p (omega arith) (omega arith) ∙ ground arith)
        (last-opened (suc p) (omega arith) (omega arith) ∙ ground arith)
        (last-opened (suc (suc p)) (omega arith) (omega arith) ∙ ground arith)

  latest-last : latest last ≡ ok (pos (suc (suc (suc p))))
  unfolding latest
  latest-last = read-pos last 1 (omega (arith, last-size))

  code_field-last : last.cells (field m p old name code_field thread immediate fits) ≡ code_field
  code_field-last = ground (
    arith,
    threaded-below (coded m p old name code_field thread immediate fits)
        (suc (field m p old name code_field thread immediate fits)) thread
        (field m p old name code_field thread immediate fits) (omega arith) (omega arith),
  )

  -- A word appended at `DP`, where it fits and its name is a string of code points, ends without an
  -- exception and returns the address of a cell that holds the code field; `find` then finds it
  -- first, with the link to what was the latest word, its immediate flag, no smudge, and that
  -- address, whatever number of headers it may look at, if it may look at one.
  pub find-append_word :
      (fuel : ℕ)
      → m.cells 0 ≡ pos p
      → m.cells 1 ≡ old
      → IsText name
      → (m' : Memory) × (append_word name code_field thread immediate m ≡ (ok header.cfa, m'))
        × (Memory.read m' header.cfa ≡ ok code_field)
        × (find (suc fuel) m' name ≡ some (ok (some header)))
  unfolding find find_from
  find-append_word fuel e e' t = (
    last,
    append_word-finished m p old name code_field thread immediate fits e e' low,
    code_field-read,
    rw (latest-last, header-last t, text_eq_refl name, eqb_suc (suc (suc p))),
  )
    where
      code_field-read : Memory.read last header.cfa ≡ ok code_field
      code_field-read =
          read-pos last (field m p old name code_field thread immediate fits)
            (omega (arith, last-size))
          ∙ ap ok code_field-last
