-- ===== src/Forth/Effects.antt =====
-- services/forth.py: the stack effects of the words of the data stack, on lists, and the words on the
-- stack adapter against them.
use min_cpu_forth.Prelude.{ℕ, zero, suc, ◌≡◌, refl, List, [], ◌∷◌, not, subst, ◌∙◌}
use min_cpu_forth.Prelude.Int.{
  ℤ, pos, negsuc, ◌+ℤ◌, ◌-ℤ◌, ◌*ℤ◌, eqb_ℤ, ltb_ℤ, and_ℤ, or_ℤ, invert, abs, floor_div, floor_mod,
  eqb_suc, eqb_negsuc,
}
use min_cpu_forth.Errors.{Result, ok, err, stack_underflow, zero_division}
use min_cpu_forth.Stack.{Region}
use min_cpu_forth.Stack.View.{View, Holds, Frame, Agrees}
use min_cpu_forth.Stack.Port.{adapter_port, view_port}
use min_cpu_forth.Forth.StackWords.{
  StackWord, dup, drop, swap, over, rot, neg_rot, nip, tuck, plus, minus, times, divide, mod_,
  negate, abs_, one_plus, one_minus, equal, not_equal, less, greater, zero_equal, zero_less, and,
  or, invert_, stack_word, try_binop, binop, unop, word_dup, word_drop, word_swap, word_over,
  word_rot, word_neg_rot, word_nip, word_tuck, int_of, divided,
}
use min_cpu_forth.Forth.Refinement.{stack_word-Refines}

-- What happens to the top item, the two top ones or the three top ones; the last argument of `f` is
-- what stands below them, and of the items the deepest one comes first.
abbrev one : (ℤ → List ℤ → List ℤ) → List ℤ → Result (List ℤ)
one f [] = err stack_underflow
one f (a ∷ xs) = ok (f a xs)

abbrev two : (ℤ → ℤ → List ℤ → List ℤ) → List ℤ → Result (List ℤ)
two f [] = err stack_underflow
two f (b ∷ []) = err stack_underflow
two f (b ∷ a ∷ xs) = ok (f a b xs)

abbrev three : (ℤ → ℤ → ℤ → List ℤ → List ℤ) → List ℤ → Result (List ℤ)
three f [] = err stack_underflow
three f (c ∷ []) = err stack_underflow
three f (c ∷ b ∷ []) = err stack_underflow
three f (c ∷ b ∷ a ∷ xs) = ok (f a b c xs)

-- The same for a division.
abbrev quotient : (ℤ → ℤ → ℤ) → List ℤ → Result (List ℤ)
quotient f [] = err stack_underflow
quotient f (b ∷ []) = err stack_underflow
quotient f (pos zero ∷ a ∷ xs) = err zero_division
quotient f (pos (suc n) ∷ a ∷ xs) = ok (f a (pos (suc n)) ∷ xs)
quotient f (negsuc n ∷ a ∷ xs) = ok (f a (negsuc n) ∷ xs)

-- The items that a word leaves, the top one first, or what it raises.
abbrev pub word_effect : StackWord → List ℤ → Result (List ℤ)
word_effect dup = one λ a xs. a ∷ a ∷ xs
word_effect drop = one λ a xs. xs
word_effect swap = two λ a b xs. a ∷ b ∷ xs
word_effect over = two λ a b xs. a ∷ b ∷ a ∷ xs
word_effect rot = three λ a b c xs. a ∷ c ∷ b ∷ xs
word_effect neg_rot = three λ a b c xs. b ∷ a ∷ c ∷ xs
word_effect nip = two λ a b xs. b ∷ xs
word_effect tuck = two λ a b xs. b ∷ a ∷ b ∷ xs
word_effect plus = two λ a b xs. (a +ℤ b) ∷ xs
word_effect minus = two λ a b xs. (a -ℤ b) ∷ xs
word_effect times = two λ a b xs. (a *ℤ b) ∷ xs
word_effect divide = quotient floor_div
word_effect mod_ = quotient floor_mod
word_effect negate = one λ a xs. (pos 0 -ℤ a) ∷ xs
word_effect abs_ = one λ a xs. abs a ∷ xs
word_effect one_plus = one λ a xs. (a +ℤ pos 1) ∷ xs
word_effect one_minus = one λ a xs. (a -ℤ pos 1) ∷ xs
word_effect equal = two λ a b xs. int_of (eqb_ℤ a b) ∷ xs
word_effect not_equal = two λ a b xs. int_of (not (eqb_ℤ a b)) ∷ xs
word_effect less = two λ a b xs. int_of (ltb_ℤ a b) ∷ xs
word_effect greater = two λ a b xs. int_of (ltb_ℤ b a) ∷ xs
word_effect zero_equal = one λ a xs. int_of (eqb_ℤ a (pos 0)) ∷ xs
word_effect zero_less = one λ a xs. int_of (ltb_ℤ a (pos 0)) ∷ xs
word_effect and = two λ a b xs. and_ℤ a b ∷ xs
word_effect or = two λ a b xs. or_ℤ a b ∷ xs
word_effect invert_ = one λ a xs. invert a ∷ xs

-- A word on a list has ended so.
abbrev Leaves : Result (List ℤ) → Result (Unit {0}) × View → Type 0
Leaves (ok ys) out = (out.0 ≡ ok tt) × (out.1.items ≡ ys)
Leaves (err e) out = out.0 ≡ err e

module _ (k : ℕ) where
  abbrev roomy : List ℤ → View
  roomy xs = record { items = xs; room = suc k }

  unop-Leaves :
      (f : ℤ → ℤ) (xs : List ℤ) → Leaves (one (λ a ys. f a ∷ ys) xs) (unop view_port f (roomy xs))
  unop-Leaves f [] = refl
  unop-Leaves f (a ∷ xs) = (refl, refl)

  binop-Leaves :
      (f : ℤ → ℤ → ℤ) (xs : List ℤ)
      → Leaves (two (λ a b ys. f a b ∷ ys) xs) (binop view_port f (roomy xs))
  unfolding binop
  binop-Leaves f [] = refl
  binop-Leaves f (b ∷ []) = refl
  binop-Leaves f (b ∷ a ∷ xs) = (refl, refl)

  quotient-Leaves :
      (f : ℤ → ℤ → ℤ) (xs : List ℤ)
      → Leaves (quotient f xs) (try_binop view_port (divided f) (roomy xs))
  unfolding try_binop
  quotient-Leaves f [] = refl
  quotient-Leaves f (b ∷ []) = refl
  quotient-Leaves f (pos zero ∷ a ∷ xs) = refl
  quotient-Leaves f (pos (suc n) ∷ a ∷ xs) = (rw (eqb_suc n), rw (eqb_suc n))
  quotient-Leaves f (negsuc n ∷ a ∷ xs) = (rw (eqb_negsuc n), rw (eqb_negsuc n))

  stack_word-Leaves :
      (w : StackWord) (xs : List ℤ) → Leaves (word_effect w xs) (stack_word view_port w (roomy xs))
  unfolding stack_word word_dup word_drop word_swap word_over word_rot word_neg_rot word_nip
      word_tuck
  stack_word-Leaves dup [] = refl
  stack_word-Leaves dup (a ∷ xs) = (refl, refl)
  stack_word-Leaves drop [] = refl
  stack_word-Leaves drop (a ∷ xs) = (refl, refl)
  stack_word-Leaves swap [] = refl
  stack_word-Leaves swap (b ∷ []) = refl
  stack_word-Leaves swap (b ∷ a ∷ xs) = (refl, refl)
  stack_word-Leaves over [] = refl
  stack_word-Leaves over (b ∷ []) = refl
  stack_word-Leaves over (b ∷ a ∷ xs) = (refl, refl)
  stack_word-Leaves rot [] = refl
  stack_word-Leaves rot (c ∷ []) = refl
  stack_word-Leaves rot (c ∷ b ∷ []) = refl
  stack_word-Leaves rot (c ∷ b ∷ a ∷ xs) = (refl, refl)
  stack_word-Leaves neg_rot [] = refl
  stack_word-Leaves neg_rot (c ∷ []) = refl
  stack_word-Leaves neg_rot (c ∷ b ∷ []) = refl
  stack_word-Leaves neg_rot (c ∷ b ∷ a ∷ xs) = (refl, refl)
  stack_word-Leaves nip [] = refl
  stack_word-Leaves nip (b ∷ []) = refl
  stack_word-Leaves nip (b ∷ a ∷ xs) = (refl, refl)
  stack_word-Leaves tuck [] = refl
  stack_word-Leaves tuck (b ∷ []) = refl
  stack_word-Leaves tuck (b ∷ a ∷ xs) = (refl, refl)
  stack_word-Leaves plus xs = binop-Leaves ◌+ℤ◌ xs
  stack_word-Leaves minus xs = binop-Leaves ◌-ℤ◌ xs
  stack_word-Leaves times xs = binop-Leaves ◌*ℤ◌ xs
  stack_word-Leaves divide xs = quotient-Leaves floor_div xs
  stack_word-Leaves mod_ xs = quotient-Leaves floor_mod xs
  stack_word-Leaves negate xs = unop-Leaves (λ a. pos 0 -ℤ a) xs
  stack_word-Leaves abs_ xs = unop-Leaves abs xs
  stack_word-Leaves one_plus xs = unop-Leaves (λ a. a +ℤ pos 1) xs
  stack_word-Leaves one_minus xs = unop-Leaves (λ a. a -ℤ pos 1) xs
  stack_word-Leaves equal xs = binop-Leaves (λ a b. int_of (eqb_ℤ a b)) xs
  stack_word-Leaves not_equal xs = binop-Leaves (λ a b. int_of (not (eqb_ℤ a b))) xs
  stack_word-Leaves less xs = binop-Leaves (λ a b. int_of (ltb_ℤ a b)) xs
  stack_word-Leaves greater xs = binop-Leaves (λ a b. int_of (ltb_ℤ b a)) xs
  stack_word-Leaves zero_equal xs = unop-Leaves (λ a. int_of (eqb_ℤ a (pos 0))) xs
  stack_word-Leaves zero_less xs = unop-Leaves (λ a. int_of (ltb_ℤ a (pos 0))) xs
  stack_word-Leaves and xs = binop-Leaves and_ℤ xs
  stack_word-Leaves or xs = binop-Leaves or_ℤ xs
  stack_word-Leaves invert_ xs = unop-Leaves invert xs

-- The region shows the items that a word leaves, or the word has raised.
abbrev pub Ends : ℕ → ℕ → Result (List ℤ) → Result (Unit {0}) × Region → Type 0
Ends lo hi (ok ys) out =
    (out.0 ≡ ok tt) × ((room : ℕ) × Holds lo hi (record { items = ys; room = room }) out.1)
Ends lo hi (err e) out = out.0 ≡ err e

Leaves-Ends :
    (lo hi : ℕ) (effect : Result (List ℤ)) (r : Region) (spec : Result (Unit {0}) × View)
    (out : Result (Unit {0}) × Region)
    → Leaves effect spec
    → Agrees lo hi r spec out
    → Ends lo hi effect out
Leaves-Ends lo hi (ok ys) r spec out (e, e') h = (
  h.result ∙ e,
  (
    spec.1.room,
    subst (λ xs. Holds lo hi (record { items = xs; room = spec.1.room }) out.1) e' h.holds,
  ),
)
Leaves-Ends lo hi (err x) r spec out e h = h.result ∙ e

-- Each of the 26 words of `ForthService` that use the data stack alone, on a region that shows a
-- list of items and has a free cell: where the list has the items that the word takes, and a
-- divisor is not 0, the word returns and the region shows the items of its stack effect; else it
-- raises the underflow error or `ZeroDivisionError`. No cell outside the region changes.
pub stack_word-effect :
    (lo hi : ℕ) (w : StackWord) (xs : List ℤ) (k : ℕ) (r : Region)
    → Holds lo hi (record { items = xs; room = suc k }) r
    → Ends lo hi (word_effect w xs) (stack_word adapter_port w r)
      × Frame lo hi r.memory (stack_word adapter_port w r).1.memory
stack_word-effect lo hi w xs k r h =
    let d = stack_word-Refines lo hi w (record { items = xs; room = suc k }) r h in
    (Leaves-Ends lo hi (word_effect w xs) r _ _ (stack_word-Leaves k w xs) d, d.frame)
