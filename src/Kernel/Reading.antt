-- ===== src/Kernel/Reading.antt =====
-- services/kernel/routines.py: the threads `LIT d WORD FIND` and `LIT d WORD NUMBER`, which take the
-- next token of the input and look it up, or read it as a number.
use min_cpu_forth.Prelude.{
  ℕ, suc, ◌+◌, ◌≤◌, ◌<◌, ◌≡◌, ◌⊎◌, inl, true, List, ◌∷◌, ◌++◌, length, arith, ◌∙◌, sym, subst,
}
use min_cpu_forth.Prelude.Int.{ℤ, pos, eqb_ℤ}
use min_cpu_forth.Registers.{RegisterFile}
use min_cpu_forth.Dictionary.Chain.{Entry, Chain, Within, Chain-agree}
use min_cpu_forth.Kernel.Words.{World, data_is, Does}
use min_cpu_forth.Kernel.Words.Inner.{AtNext}
use min_cpu_forth.Kernel.Words.Threads.{
  Invokes, Step, Steps, Threads, primitive, lit, done, then, Steps-Threads,
}
use min_cpu_forth.Kernel.Words.Scan.{fed, with_cells, AllAre, NoneIs}
use min_cpu_forth.Kernel.Words.Tokens.{buffer, counted, word_run, counted-At, counted-outside}
use min_cpu_forth.Kernel.Words.Digits.{number_value}
use min_cpu_forth.Kernel.Words.Answers.{answer}
use min_cpu_forth.Kernel.Words.Numbers.{number-Does}
use min_cpu_forth.Kernel.Words.Headers.{search}
use min_cpu_forth.Kernel.Words.Found.{found}
use min_cpu_forth.Kernel.Words.Finding.{find-Does}

-- The cells from `ip` on are `LIT`, the delimiter, `WORD` and a word whose code field holds `index`, all
-- of them below the word buffer.
pub record Reads (cells : ℕ → ℤ) (ip : ℕ) (d index : ℤ) : Type 0 where
  pub lit_cfa : ℕ
  pub word_cfa : ℕ
  pub last_cfa : ℕ
  pub literal : Invokes cells ip lit_cfa (pos 12)
  pub delimiter : cells (suc ip) ≡ d
  pub token : Invokes cells (suc (suc ip)) word_cfa (pos 278)
  pub last : Invokes cells (suc (suc (suc ip))) last_cfa index
  pub thread_low : suc (suc (suc ip)) < buffer
  pub last_low : last_cfa < buffer

-- The input: leading delimiters, a token of at most 63 codes without the delimiter, and a delimiter.
pub record Input (d : ℤ) (queue : List ℤ) (c : ℤ) (token rest : List ℤ) : Type 0 where
  pub skip : List ℤ
  pub stop : ℤ
  pub is_at : queue ≡ skip ++ c ∷ (token ++ stop ∷ rest)
  pub skipped : AllAre d skip
  pub kept : NoneIs d (c ∷ token)
  pub stops : eqb_ℤ stop d ≡ true
  pub fits : suc buffer + suc (length token) ≤ 2048

module _ (v : World) (ip : ℕ) (d index c : ℤ) (queue token rest xs : List ℤ) (k : ℕ)
    (thread : Reads v.cells ip d index) (input : Input d queue c token rest) where
  abbrev cells' : ℕ → ℤ
  cells' = counted v.cells (c ∷ token)

  abbrev after_word : World
  after_word = with_cells (fed v rest) cells'

  abbrev start : World
  start = fed (data_is v xs (suc (suc k))) queue

  -- Up to the last word of the thread, with the buffer's address on the stack.
  token_Steps : Steps ip start (suc (suc (suc ip))) (data_is after_word (pos buffer ∷ xs) (suc k))
  token_Steps =
      then
        (subst (λ z. Step ip start (suc (suc ip)) (fed (data_is v (z ∷ xs) (suc k)) queue))
          thread.delimiter
          (lit (fed v queue) thread.lit_cfa xs (suc k) thread.literal
            (omega (arith, thread.token.in_thread))))
        (then
          (primitive thread.word_cfa (pos 278) thread.token λ r.
            subst
              (λ q.
                (n : ℕ) × Does (pos 278) n r (fed (data_is v (d ∷ xs) (suc k)) q)
                  (data_is after_word (pos buffer ∷ xs) (suc k)))
              (sym input.is_at)
              (word_run r v d c input.stop input.skip token rest xs (suc k) input.skipped input.kept
                input.stops input.fits))
          done)

  -- The last word's cells are where they were.
  last-Invokes : Invokes cells' (suc (suc (suc ip))) thread.last_cfa index
  last-Invokes = record {
    in_thread = thread.last.in_thread;
    in_block = thread.last.in_block;
    cell =
        counted-outside v c token (suc (suc (suc ip))) (inl thread.thread_low) ∙ thread.last.cell;
    code_field =
        counted-outside v c token thread.last_cfa (inl thread.last_low) ∙ thread.last.code_field;
  }

  and_then :
      (ys : List ℤ) (j : ℕ)
      → ((r : RegisterFile)
          → (n : ℕ) × Does index n r
              (data_is after_word (pos buffer ∷ xs) (suc k))
              (data_is after_word ys j))
      → Steps ip start (suc (suc (suc (suc ip)))) (data_is after_word ys j)
  and_then ys j does =
      append token_Steps (then (primitive thread.last_cfa index last-Invokes does) done)
    where
      append :
          {v v' v'' : World} {ip ip' ip'' : ℕ}
          → Steps ip v ip' v'
          → Steps ip' v' ip'' v''
          → Steps ip v ip'' v''
      append done rest = rest
      append (then s steps) rest = then s (append steps rest)

-- From `NEXT`, at a thread `LIT d WORD FIND` below the word buffer, with a dictionary below the
-- buffer too and at least two free cells on the data stack: the next token of the input, which has
-- delimiters `d` before it or not, at most 63 codes and a delimiter after it, is read and looked up,
-- and the kernel comes back to `NEXT` with the address of the code field of the first header that is
-- not smudged and bears the token as its name, and 1 above it for an immediate word and -1 for
-- another, or with two zeros; no cell but the buffer's has changed.
pub look_up :
    (v : World) (ip : ℕ) (d c : ℤ) (queue token rest xs : List ℤ) (k p : ℕ) (es : List Entry)
    (r : RegisterFile)
    → Reads v.cells ip d (pos 304)
    → Input d queue c token rest
    → Chain v.cells (v.cells 1) es
    → Within p es
    → p ≤ buffer
    → AtNext ip r
    → (cells' : ℕ → ℤ) × Threads r
        (fed (data_is v xs (suc (suc k))) queue)
        (suc (suc (suc (suc ip))))
        (data_is (with_cells (fed v rest) cells') (found (search (c ∷ token) es) xs) k)
      × ((j : ℕ) → (j < buffer) ⊎ (suc buffer + suc (length token) ≤ j) → cells' j ≡ v.cells j)
look_up v ip d c queue token rest xs k p es r thread input chain within low h = (
  counted v.cells (c ∷ token),
  Steps-Threads r h (
      and_then v ip d (pos 304) c queue token rest xs k thread input
        (found (search (c ∷ token) es) xs) k
        λ r'.
          find-Does (with_cells (fed v rest) (counted v.cells (c ∷ token))) buffer (c ∷ token)
            (counted-At v c token) input.fits xs k r' es chain'),
  counted-outside v c token,
)
  where
    chain' : Chain (counted v.cells (c ∷ token)) (counted v.cells (c ∷ token) 1) es
    chain' =
        Chain-agree v.cells (counted v.cells (c ∷ token)) p
          (λ j lo hi. counted-outside v c token j (inl (omega arith))) es (v.cells 1)
          (counted v.cells (c ∷ token) 1) (counted-outside v c token 1 (inl (omega arith))) within
          chain

-- From `NEXT`, at a thread `LIT d WORD NUMBER` below the word buffer, with at least two free cells on
-- the data stack: the next token of the input, which has delimiters `d` before it or not, at most 63
-- codes and a delimiter after it, is read, and the kernel comes back to `NEXT` with the token's value
-- and 1 above it where it is a decimal number, with a `-` before the digits or not, or with two
-- zeros; no cell but the buffer's has changed.
pub read_number :
    (v : World) (ip : ℕ) (d c : ℤ) (queue token rest xs : List ℤ) (k : ℕ) (r : RegisterFile)
    → Reads v.cells ip d (pos 216)
    → Input d queue c token rest
    → AtNext ip r
    → (cells' : ℕ → ℤ) × Threads r
        (fed (data_is v xs (suc (suc k))) queue)
        (suc (suc (suc (suc ip))))
        (data_is (with_cells (fed v rest) cells') (answer (number_value (c ∷ token)) xs) k)
      × ((j : ℕ) → (j < buffer) ⊎ (suc buffer + suc (length token) ≤ j) → cells' j ≡ v.cells j)
read_number v ip d c queue token rest xs k r thread input h = (
  counted v.cells (c ∷ token),
  Steps-Threads r h (
      and_then v ip d (pos 216) c queue token rest xs k thread input
        (answer (number_value (c ∷ token)) xs) k
        λ r'.
          number-Does (with_cells (fed v rest) (counted v.cells (c ∷ token))) xs k r' buffer
            (c ∷ token) (counted-At v c token) input.fits),
  counted-outside v c token,
)
