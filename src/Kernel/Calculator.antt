-- ===== src/Kernel/Calculator.antt =====
-- From the text of a calculation to the halted emulator: what `boot_thread`, `build`, `boot` and
-- `run` make of numbers and words, against their evaluation on a list of items.
pub mod Halts
use min_cpu_forth.Prelude.{
  ℕ, zero, suc, ◌+◌, ◌≤◌, ◌<◌, ◌≡◌, refl, String, List, [], ◌∷◌, ◌++◌, length, some, arith, ap, sym,
  subst, ◌∙◌, ◌⊎◌, inl, inr, true,
}
use min_cpu_forth.Prelude.Int.{ℤ, pos, ◌-ℤ◌}
use min_cpu_forth.Errors.{Result, ok, err}
use min_cpu_forth.Effects.{Action, pure, after, ◌>>=◌, ◌>>◌, >>=-inversion}
use min_cpu_forth.Memory.{Memory}
use min_cpu_forth.Registers.{RegisterFile}
use min_cpu_forth.Stack.View.{View, At, push_view}
use min_cpu_forth.Stack.Port.{view_port}
use min_cpu_forth.Forth.StackWords.{stack_word}
use min_cpu_forth.Dictionary.Append.{threaded, append_cell-appended, appended}
use min_cpu_forth.Kernel.Words.{World, Does}
use min_cpu_forth.Kernel.Words.Threads.{Step, Steps, Invokes, primitive, lit, done, then}
use min_cpu_forth.Kernel.Agreement.{
  SharedWord, TestWord, entry, test_entry, Follows, Flags, negated, shared_word-Follows,
  test_word-Flags,
}
use min_cpu_forth.Kernel.Builder.{Cfas, cell_of, write_boot, boot_thread}
use min_cpu_forth.Kernel.Installed
use min_cpu_forth.Kernel.Installed.{
  Word, word_name, word_cfa, word_index, installed_cfas, lookup-word_cfa, word_cfa_bound,
  word_cfa_low,
}

-- A number, or one of the words that `ForthService` and the kernel share.
pub data Item : Type 0 where
  number : ℤ → Item
  shared : SharedWord → Item
  test : TestWord → Item

-- The comparisons answer 0 or -1.
abbrev with_flag : Result (Unit {0}) × View → Result (Unit {0}) × View
with_flag (ok u, w) = (ok u, negated w)
with_flag (err e, w) = (err e, w)

-- What an item does to a list of items, by the words of `ForthService`.
abbrev pub evaluate_item : Item → Action View (Unit {0})
evaluate_item (number x) v = push_view x v
evaluate_item (shared w) v = stack_word view_port (entry w).1 v
evaluate_item (test w) v = with_flag (stack_word view_port (test_entry w).1 v)

abbrev pub evaluate : List Item → Action View (Unit {0})
evaluate [] = pure tt
evaluate (i ∷ is) = evaluate_item i >> evaluate is

-- What a user hands to `boot_thread` for an item, and for the whole calculation.
abbrev pub texts : List Item → List (String ⊎ ℤ)
texts [] = inl "BYE" ∷ []
texts (number x ∷ is) = inl "LIT" ∷ inr x ∷ texts is
texts (shared w ∷ is) = inl (word_name (Installed.shared w)) ∷ texts is
texts (test w ∷ is) = inl (word_name (Installed.test w)) ∷ texts is

-- The cells of the thread.
abbrev pub cells_of : List Item → List ℤ
cells_of [] = pos (word_cfa Installed.bye) ∷ []
cells_of (number x ∷ is) = pos (word_cfa Installed.lit) ∷ x ∷ cells_of is
cells_of (shared w ∷ is) = pos (word_cfa (Installed.shared w)) ∷ cells_of is
cells_of (test w ∷ is) = pos (word_cfa (Installed.test w)) ∷ cells_of is

-- A memory that holds the code fields of the words.
abbrev pub Knows : (ℕ → ℤ) → Type 0
Knows cells = (w : Word) → cells (word_cfa w) ≡ word_index w

-- The world of a calculation.
module _ (cells : ℕ → ℤ) (return_view : View) (char_input char_output : List ℤ) where
  abbrev pub at_view : View → World
  at_view w = record {
    cells = cells;
    data_stack = w;
    return_stack = return_view;
    char_input = char_input;
    char_output = char_output;
  }

  module _ (knows : Knows cells) where
    invokes :
        (w : Word) (ip : ℕ)
        → ip < 2048
        → cells ip ≡ pos (word_cfa w)
        → Invokes cells ip (word_cfa w) (word_index w)
    invokes w ip lt e = record {
      in_thread = lt;
      in_block = omega (arith, word_cfa_bound w);
      cell = e;
      code_field = knows w;
    }

    shared_step :
        (w : SharedWord) (ip : ℕ) (v v' : View)
        → ip < 2048
        → cells ip ≡ pos (word_cfa (Installed.shared w))
        → stack_word view_port (entry w).1 v ≡ (ok tt, v')
        → Step ip (at_view v) (suc ip) (at_view v')
    shared_step w ip v v' lt e run =
        let (n, does) =
          subst (Follows (entry w).0 (at_view v)) run (shared_word-Follows (at_view v) w).1 in
        primitive (word_cfa (Installed.shared w)) (entry w).0 (invokes (Installed.shared w) ip lt e)
          (λ r. (n, does r))

    flag_inversion :
        (out : Result (Unit {0}) × View) (w : TestWord) (v v' : View)
        → Flags (test_entry w).0 (at_view v) out
        → with_flag out ≡ (ok tt, v')
        → (n : ℕ) × ((r : RegisterFile) → Does (test_entry w).0 n r (at_view v) (at_view v'))
    flag_inversion (ok u, w₁) w v v' f e =
        subst
          (λ out.
            (n : ℕ) × ((r : RegisterFile) → Does (test_entry w).0 n r (at_view v) (at_view out.1)))
          e f
    flag_inversion (err x, w₁) w v v' f e = absurd (cc)

    test_step :
        (w : TestWord) (ip : ℕ) (v v' : View)
        → ip < 2048
        → cells ip ≡ pos (word_cfa (Installed.test w))
        → with_flag (stack_word view_port (test_entry w).1 v) ≡ (ok tt, v')
        → Step ip (at_view v) (suc ip) (at_view v')
    test_step w ip v v' lt e run =
        let (n, does) =
          flag_inversion (stack_word view_port (test_entry w).1 v) w v v'
            (test_word-Flags (at_view v) w).1 run in
        primitive (word_cfa (Installed.test w)) (test_entry w).0
          (invokes (Installed.test w) ip lt e) (λ r. (n, does r))

    number_step :
        (x : ℤ) (ip : ℕ) (xs : List ℤ) (k : ℕ) (v' : View)
        → suc ip < 2048
        → cells ip ≡ pos (word_cfa Installed.lit)
        → cells (suc ip) ≡ x
        → push_view x (record { items = xs; room = k }) ≡ (ok tt, v')
        → Step ip (at_view (record { items = xs; room = k })) (suc (suc ip)) (at_view v')
    number_step x ip xs zero v' lt e e' run = absurd (cc)
    number_step x ip xs (suc k) v' lt e e' run =
        subst
          (λ w. Step ip (at_view (record { items = xs; room = suc k })) (suc (suc ip)) (at_view w))
          (ap (λ z. record { items = z ∷ xs; room = k }) e' ∙ ap (λ out. out.1) run)
          (lit (at_view (record { items = xs; room = suc k })) (word_cfa Installed.lit) xs k
            (invokes Installed.lit ip (omega arith) e) lt)

    -- A calculation that ends well is a run of its thread, up to the `BYE`.
    pub evaluate-Steps :
        (is : List Item) (ip : ℕ) (v v' : View)
        → ip + length (cells_of is) ≤ 2048
        → At cells ip (cells_of is)
        → evaluate is v ≡ (ok tt, v')
        → (ip' : ℕ) × Steps ip (at_view v) ip' (at_view v')
          × Invokes cells ip' (word_cfa Installed.bye) (pos 18)
    evaluate-Steps [] ip v v' fits (e, _) run = (
      ip,
      subst (λ w. Steps ip (at_view v) ip (at_view w)) (ap (λ out. out.1) run) done,
      invokes Installed.bye ip (omega arith) e,
    )
    evaluate-Steps (number x ∷ is) ip v v' fits (e, (e', a)) run =
        let (_, v₁, e₁, e₂) = >>=-inversion (push_view x) (λ _. evaluate is) v v' tt run in
        let (ip', steps, i) = evaluate-Steps is (suc (suc ip)) v₁ v' (omega arith) a e₂ in
        (ip', then (number_step x ip v.items v.room v₁ (omega arith) e e' e₁) steps, i)
    evaluate-Steps (shared w ∷ is) ip v v' fits (e, a) run =
        let (_, v₁, e₁, e₂) =
          >>=-inversion (stack_word view_port (entry w).1) (λ _. evaluate is) v v' tt run in
        let (ip', steps, i) = evaluate-Steps is (suc ip) v₁ v' (omega arith) a e₂ in
        (ip', then (shared_step w ip v v₁ (omega arith) e e₁) steps, i)
    evaluate-Steps (test w ∷ is) ip v v' fits (e, a) run =
        let (_, v₁, e₁, e₂) =
          >>=-inversion (evaluate_item (test w)) (λ _. evaluate is) v v' tt run in
        let (ip', steps, i) = evaluate-Steps is (suc ip) v₁ v' (omega arith) a e₂ in
        (ip', then (test_step w ip v v₁ (omega arith) e e₁) steps, i)
