-- ===== src/Dictionary/Invariant.antt =====
-- adapters/dictionary.py: what the constructor establishes of the memory and every appended word keeps.
use min_cpu_forth.Prelude.{
  ℕ, suc, ◌+◌, ◌≤◌, ◌<◌, ◌≡◌, refl, List, [], ◌∷◌, length, Bool, arith, ap, ◌∙◌, sym,
}
use min_cpu_forth.Prelude.Int.{ℤ, pos}
use min_cpu_forth.Layout.{dictionary_base}
use min_cpu_forth.Errors.{ok}
use min_cpu_forth.Memory.{Memory, update}
use min_cpu_forth.Dictionary.Codec.{
  cells_of, length-cells_of, At-agree, At-written, counted-length, store-pos,
}
use min_cpu_forth.Dictionary.Variables.{set_dp, set_latest}
use min_cpu_forth.Dictionary.Words.{append_word, as_cell, reset}
use min_cpu_forth.Dictionary.Append.{
  opened, named, field, coded, finished, append_word-finished, finished-named, finished-opened,
  threaded-size, threaded, appended,
}
use min_cpu_forth.Dictionary.Chain.{
  Entry, code_field, Holds, Chain, Within, Within-mono, Chain-agree,
}

-- `DP` is past every header, and `LATEST` leads to the headers, the latest first.
pub record IsDictionary (m : Memory) (p : ℕ) (es : List Entry) : Type 0 where
  pub size : 2048 ≤ m.size
  pub low : 1 < p
  pub high : p ≤ 2048
  pub dp : m.cells 0 ≡ pos p
  pub chain : Chain m.cells (m.cells 1) es
  pub within : Within p es

-- The header that `append_word` makes.
abbrev pub fresh : ℕ → List ℕ → Bool → Entry
fresh p name immediate = record {
  start = p;
  immediate = as_cell immediate;
  smudge = pos 0;
  name = name;
}

-- Where the word ends.
abbrev pub past : ℕ → List ℕ → List ℤ → ℕ
past p name thread = suc (suc (suc (suc p))) + length name + suc (length thread)

-- The constructor leaves a dictionary without a word, from `DICTIONARY_BASE` on.
pub reset-IsDictionary :
    (m : Memory)
    → 2048 ≤ m.size
    → (m' : Memory) × (reset m ≡ (ok tt, m')) × IsDictionary m' dictionary_base []
unfolding reset set_dp set_latest
reset-IsDictionary m h = (
  record m { cells = update (update m.cells 0 (pos dictionary_base)) 1 (pos 0) },
  rw (
    store-pos m 0 (pos dictionary_base) (omega arith),
    store-pos (record m { cells = update m.cells 0 (pos dictionary_base) }) 1 (pos 0) (omega arith),
  ),
  record { size = h; low = omega arith; high = omega arith; dp = refl; chain = refl; within = tt },
)

threaded-dp :
    (m : Memory) (p : ℕ) (xs : List ℤ)
    → m.cells 0 ≡ pos p
    → (threaded m p xs).cells 0 ≡ pos (p + length xs)
threaded-dp m p [] e = e ∙ ap pos (omega arith)
threaded-dp m p (x ∷ xs) e = threaded-dp (appended m p x) (suc p) xs refl ∙ ap pos (omega arith)

module _ (m : Memory) (p : ℕ) (old : ℤ) (name : List ℕ) (code : ℤ) (thread : List ℤ)
    (immediate : Bool) (fits : past p name thread ≤ m.size) (low : 1 < p) where
  abbrev last : Memory
  last = finished m p old name code thread immediate fits

  finished-below : (j : ℕ) → 1 < j → j < p → last.cells j ≡ m.cells j
  finished-below j h lt =
      finished-opened m p old name code thread immediate fits j h (omega arith) ∙ ground arith

  finished-link : last.cells p ≡ old
  finished-link =
      finished-opened m p old name code thread immediate fits p low (omega arith) ∙ ground arith

  finished-dp : last.cells 0 ≡ pos (past p name thread)
  finished-dp =
      threaded-dp (coded m p old name code thread immediate fits)
        (suc (field m p old name code thread immediate fits)) thread refl
      ∙ ap pos (omega arith)

  finished-Holds : past p name thread ≤ 2048 → Holds last.cells (fresh p name immediate)
  finished-Holds block = record {
    immediate =
        finished-opened m p old name code thread immediate fits (suc p) (omega arith) (omega arith)
        ∙ ground arith;
    smudge =
        finished-opened m p old name code thread immediate fits (suc (suc p)) (omega arith)
          (omega arith)
        ∙ ground arith;
    name = (
      finished-named m p old name code thread immediate fits (suc (suc (suc p))) (omega arith)
            (omega arith)
          ∙ (counted-length (opened m p old name code thread immediate fits) (suc (suc (suc p)))
                name (omega arith)
              ∙ ap pos (sym (length-cells_of name))),
      At-agree (named m p old name code thread immediate fits).cells last.cells
          (suc (suc (suc (suc p)))) (cells_of name)
          (λ j le lt.
            finished-named m p old name code thread immediate fits j (omega arith)
              (omega (arith, length-cells_of name)))
          (At-written _ (suc (suc (suc (suc p)))) name),
    );
    fits = omega (arith, length-cells_of name);
  }

-- In a dictionary, a word appended where it fits into the dictionary block ends without an
-- exception; the memory then is a dictionary of the new header and those before it, in this order,
-- with `DP` just past the new word.
pub append_word-IsDictionary :
    (m : Memory) (p : ℕ) (es : List Entry) (name : List ℕ) (code : ℤ) (thread : List ℤ)
    (immediate : Bool)
    → IsDictionary m p es
    → past p name thread ≤ 2048
    → (m' : Memory) × (cfa : ℤ) × (append_word name code thread immediate m ≡ (ok cfa, m'))
      × (cfa ≡ pos (code_field (fresh p name immediate)))
      × IsDictionary m' (past p name thread) (fresh p name immediate ∷ es)
append_word-IsDictionary m p es name code thread immediate h block =
    let fits : past p name thread ≤ m.size = omega (arith, h.size) in
    let m' = finished m p (m.cells 1) name code thread immediate fits in
    (
      m',
      pos (field m p (m.cells 1) name code thread immediate fits),
      append_word-finished m p (m.cells 1) name code thread immediate fits h.dp refl h.low,
      ap pos (omega (arith, length-cells_of name)),
      record {
        size = omega (
          arith,
          h.size,
          threaded-size (coded m p (m.cells 1) name code thread immediate fits)
              (suc (field m p (m.cells 1) name code thread immediate fits)) thread,
        );
        low = omega (arith, h.low);
        high = block;
        dp = finished-dp m p (m.cells 1) name code thread immediate fits h.low;
        chain = (
          refl,
          finished-Holds m p (m.cells 1) name code thread immediate fits h.low block,
          Chain-agree m.cells m'.cells p
              (finished-below m p (m.cells 1) name code thread immediate fits h.low) es (m.cells 1)
              (m'.cells p) (finished-link m p (m.cells 1) name code thread immediate fits h.low)
              h.within h.chain,
        );
        within = (
          h.low,
          omega (arith, length-cells_of name),
          Within-mono p (past p name thread) es (omega arith) h.within,
        );
      },
    )
