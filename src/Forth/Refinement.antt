-- ===== src/Forth/Refinement.antt =====
-- The words of `ForthService` on the stack adapter implement the same words on lists.
use min_cpu_forth.Prelude.{ℕ, refl}
use min_cpu_forth.Prelude.Int.{ℤ}
use min_cpu_forth.Errors.{Result, ok, err}
use min_cpu_forth.Effects.{Action, lift, ◌>>=◌, ◌>>◌}
use min_cpu_forth.Stack.{Region}
use min_cpu_forth.Stack.View.{View, Refines}
use min_cpu_forth.Stack.Port.{adapter_port, view_port}
use min_cpu_forth.Stack.Refinement.{push-Refines, pop-Refines, peek-Refines, >>=-Refines}
use min_cpu_forth.Forth.StackWords.{
  StackWord, dup, drop, swap, over, rot, neg_rot, nip, tuck, plus, minus, times, divide, mod_,
  negate, abs_, one_plus, one_minus, equal, not_equal, less, greater, zero_equal, zero_less, and,
  or, invert_, stack_word, try_binop, binop, unop, word_dup, word_drop, word_swap, word_over,
  word_rot, word_neg_rot, word_nip, word_tuck,
}

module _ (lo hi : ℕ) where
  -- A pop, a peek or a push, and the rest of the word.
  pops :
      {B : Type 0} (f : ℤ → Action Region B) (specs : ℤ → Action View B)
      → ((a : ℤ) → Refines lo hi (f a) (specs a))
      → Refines lo hi (adapter_port.pop >>= f) (view_port.pop >>= specs)
  pops f specs rest = >>=-Refines lo hi _ _ f specs rest (pop-Refines lo hi)

  peeks :
      {B : Type 0} (f : ℤ → Action Region B) (specs : ℤ → Action View B)
      → ((a : ℤ) → Refines lo hi (f a) (specs a))
      → Refines lo hi (adapter_port.peek >>= f) (view_port.peek >>= specs)
  peeks f specs rest = >>=-Refines lo hi _ _ f specs rest (peek-Refines lo hi)

  pushes :
      {B : Type 0} (x : ℤ) (m : Action Region B) (spec : Action View B)
      → Refines lo hi m spec
      → Refines lo hi (adapter_port.push x >> m) (view_port.push x >> spec)
  pushes x m spec rest = >>=-Refines lo hi _ _ _ _ (λ _. rest) (push-Refines lo hi x)

  lift-Refines :
      {A : Type 0} (result : Result A)
      → Refines lo hi (lift {S = Region} result) (lift {S = View} result)
  lift-Refines (ok a) v r h = record {
    result = refl;
    holds = h;
    frame = record { size = refl; outside = λ j o. refl };
  }
  lift-Refines (err e) v r h = record {
    result = refl;
    holds = h;
    frame = record { size = refl; outside = λ j o. refl };
  }

  unop-Refines : (func : ℤ → ℤ) → Refines lo hi (unop adapter_port func) (unop view_port func)
  unop-Refines func = pops _ _ λ a. push-Refines lo hi (func a)

  binop-Refines :
      (func : ℤ → ℤ → ℤ) → Refines lo hi (binop adapter_port func) (binop view_port func)
  unfolding binop
  binop-Refines func = pops _ _ λ b. pops _ _ λ a. push-Refines lo hi (func a b)

  try_binop-Refines :
      (func : ℤ → ℤ → Result ℤ)
      → Refines lo hi (try_binop adapter_port func) (try_binop view_port func)
  unfolding try_binop
  try_binop-Refines func = pops _ _ λ b.
      pops _ _
        λ a. >>=-Refines lo hi _ _ _ _ (λ value. push-Refines lo hi value) (lift-Refines (func a b))

  -- Each word, run on the cells of a region that shows a list of items, ends as it does on the
  -- list: with the same error or none, the items that the word leaves, and no cell outside the
  -- region changed.
  pub stack_word-Refines :
      (w : StackWord) → Refines lo hi (stack_word adapter_port w) (stack_word view_port w)
  unfolding stack_word word_dup word_drop word_swap word_over word_rot word_neg_rot word_nip
      word_tuck
  stack_word-Refines dup = peeks _ _ λ a. push-Refines lo hi a
  stack_word-Refines drop = pops _ _ λ _ v r h. record {
    result = refl;
    holds = h;
    frame = record { size = refl; outside = λ j o. refl };
  }
  stack_word-Refines swap = pops _ _ λ a. pops _ _ λ b. pushes a _ _ (push-Refines lo hi b)
  stack_word-Refines over = pops _ _ λ b. peeks _ _ λ a. pushes b _ _ (push-Refines lo hi a)
  stack_word-Refines rot =
      pops _ _ λ c. pops _ _ λ b. pops _ _ λ a. pushes b _ _ (pushes c _ _ (push-Refines lo hi a))
  stack_word-Refines neg_rot =
      pops _ _ λ c. pops _ _ λ b. pops _ _ λ a. pushes c _ _ (pushes a _ _ (push-Refines lo hi b))
  stack_word-Refines nip = pops _ _ λ a. pops _ _ λ _. push-Refines lo hi a
  stack_word-Refines tuck =
      pops _ _ λ a. pops _ _ λ b. pushes a _ _ (pushes b _ _ (push-Refines lo hi a))
  stack_word-Refines plus = binop-Refines _
  stack_word-Refines minus = binop-Refines _
  stack_word-Refines times = binop-Refines _
  stack_word-Refines divide = try_binop-Refines _
  stack_word-Refines mod_ = try_binop-Refines _
  stack_word-Refines negate = unop-Refines _
  stack_word-Refines abs_ = unop-Refines _
  stack_word-Refines one_plus = unop-Refines _
  stack_word-Refines one_minus = unop-Refines _
  stack_word-Refines equal = binop-Refines _
  stack_word-Refines not_equal = binop-Refines _
  stack_word-Refines less = binop-Refines _
  stack_word-Refines greater = binop-Refines _
  stack_word-Refines zero_equal = unop-Refines _
  stack_word-Refines zero_less = unop-Refines _
  stack_word-Refines and = binop-Refines _
  stack_word-Refines or = binop-Refines _
  stack_word-Refines invert_ = unop-Refines _
