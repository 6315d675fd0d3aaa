-- ===== src/Dictionary/Append.antt =====
-- What the appending methods of `MemoryDictionaryAdapter` leave in the memory.
use min_cpu_forth.Prelude.{
  ℕ, suc, ◌+◌, ◌≤◌, ◌<◌, ◌≡◌, refl, List, [], ◌∷◌, length, Bool, arith, ◌∙◌, inl,
}
use min_cpu_forth.Prelude.Int.{ℤ, pos}
use min_cpu_forth.Errors.{ok}
use min_cpu_forth.Memory.{Memory, update}
use min_cpu_forth.Stack.View.{At}
use min_cpu_forth.Memory.Laws.{read-pos}
use min_cpu_forth.Dictionary.Codec.{counted, write-counted, counted-outside, store-pos, pos-suc}
use min_cpu_forth.Dictionary.Variables.{dp, set_dp, latest, set_latest}
use min_cpu_forth.Dictionary.Words.{append_cell, append_thread, append_word, here, as_cell}

-- The memory with `DP` at a cell.
abbrev pub pointed : Memory → ℕ → Memory
pointed m p = record { size = m.size; cells = update m.cells 0 (pos p) }

abbrev pub appended : Memory → ℕ → ℤ → Memory
appended m p v = record { size = m.size; cells = update (update m.cells p v) 0 (pos (suc p)) }

abbrev pub threaded : Memory → ℕ → List ℤ → Memory
threaded m p [] = m
threaded m p (x ∷ xs) = threaded (appended m p x) (suc p) xs

pub dp-pos : (m : Memory) (p : ℕ) → m.cells 0 ≡ pos p → 0 < m.size → dp m ≡ ok (pos p)
unfolding dp
dp-pos m p e h = rw (read-pos m 0 h, e)

set_dp-pos : (m : Memory) (p : ℕ) → 0 < m.size → set_dp (pos p) m ≡ (ok tt, pointed m p)
unfolding set_dp
set_dp-pos m p h = store-pos m 0 (pos p) h

pub append_cell-appended :
    (m : Memory) (p : ℕ) (v : ℤ)
    → m.cells 0 ≡ pos p
    → 0 < p
    → p < m.size
    → append_cell v m ≡ (ok (pos p), appended m p v)
unfolding append_cell here
append_cell-appended m p v e low h = rw (
  dp-pos m p e (omega arith),
  store-pos m p v h,
  pos-suc p,
  set_dp-pos (record m { cells = update m.cells p v }) (suc p) (omega arith),
)

pub append_thread-threaded :
    (m : Memory) (p : ℕ) (xs : List ℤ)
    → m.cells 0 ≡ pos p
    → 0 < p
    → p + length xs ≤ m.size
    → append_thread xs m ≡ (ok tt, threaded m p xs)
unfolding append_thread
append_thread-threaded m p [] e low h = refl
append_thread-threaded m p (x ∷ xs) e low h = rw (
  append_cell-appended m p x e low (omega arith),
  append_thread-threaded (appended m p x) (suc p) xs refl (omega arith) (omega arith),
)

pub threaded-below :
    (m : Memory) (p : ℕ) (xs : List ℤ) (j : ℕ)
    → 0 < j
    → j < p
    → (threaded m p xs).cells j ≡ m.cells j
threaded-below m p [] j low lt = refl
threaded-below m p (x ∷ xs) j low lt =
    threaded-below (appended m p x) (suc p) xs j low (omega arith) ∙ ground arith

pub threaded-size : (m : Memory) (p : ℕ) (xs : List ℤ) → (threaded m p xs).size ≡ m.size
threaded-size m p [] = refl
threaded-size m p (x ∷ xs) = threaded-size (appended m p x) (suc p) xs

module _ (m : Memory) (p : ℕ) (old : ℤ) (name : List ℕ) (code_field : ℤ) (thread : List ℤ)
    (immediate : Bool)
    (fits : suc (suc (suc (suc p))) + length name + suc (length thread) ≤ m.size) where
  -- The three cells below the name.
  abbrev pub opened : Memory
  opened = appended (appended (appended m p old) (suc p) (as_cell immediate)) (suc (suc p)) (pos 0)

  abbrev pub named : Memory
  named = counted opened (suc (suc (suc p))) name (omega arith)

  -- The address past the name, where the code field goes.
  abbrev pub field : ℕ
  field = suc (suc (suc (suc p))) + length name

  abbrev pub coded : Memory
  coded = appended (pointed named field) field code_field

  abbrev pub finished : Memory
  finished = record {
    size = (threaded coded (suc field) thread).size;
    cells = update (threaded coded (suc field) thread).cells 1 (pos (suc (suc (suc p))));
  }

  pub append_word-finished :
      m.cells 0 ≡ pos p
      → m.cells 1 ≡ old
      → 1 < p
      → append_word name code_field thread immediate m ≡ (ok (pos field), finished)
  unfolding append_word latest here set_latest
  append_word-finished e e' low = rw (
    read-pos m 1 (omega arith),
    e',
    append_cell-appended m p old e (omega arith) (omega arith),
    append_cell-appended (appended m p old) (suc p) (as_cell immediate) refl (omega arith)
        (omega arith),
    append_cell-appended (appended (appended m p old) (suc p) (as_cell immediate)) (suc (suc p))
        (pos 0) refl (omega arith) (omega arith),
    dp-pos opened (suc (suc (suc p))) refl (omega arith),
    write-counted opened (suc (suc (suc p))) name (omega arith),
    set_dp-pos named field (omega arith),
    dp-pos (pointed named field) field refl (omega arith),
    append_cell-appended (pointed named field) field code_field refl (omega arith) (omega arith),
    append_thread-threaded coded (suc field) thread refl (omega arith) (omega arith),
    store-pos (threaded coded (suc field) thread) 1 (pos (suc (suc (suc p))))
        (omega (arith, threaded-size coded (suc field) thread)),
  )

  -- Between the variables and the code field stands what the name's writer has left.
  pub finished-named : (j : ℕ) → 1 < j → j < field → finished.cells j ≡ named.cells j
  finished-named j low lt =
      ground (arith, threaded-below coded (suc field) thread j (omega arith) (omega arith))

  pub finished-opened : (j : ℕ) → 1 < j → j < suc (suc (suc p)) → finished.cells j ≡ opened.cells j
  finished-opened j low lt =
      finished-named j low (omega arith)
      ∙ counted-outside opened (suc (suc (suc p))) name (omega arith) j (inl lt)

-- The appended cells hold what was appended.
pub At-threaded : (m : Memory) (p : ℕ) (xs : List ℤ) → 0 < p → At (threaded m p xs).cells p xs
At-threaded m p [] low = tt
At-threaded m p (x ∷ xs) low = (
  threaded-below (appended m p x) (suc p) xs p low (omega arith) ∙ ground arith,
  At-threaded (appended m p x) (suc p) xs (omega arith),
)
