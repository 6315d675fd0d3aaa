-- ===== src/Kernel/Agreement.antt =====
-- The kernel's routines against the words of `ForthService` of the same names.
use min_cpu_forth.Prelude.{
  ℕ, suc, ◌≡◌, refl, Bool, true, false, not, List, [], ◌∷◌, subst, String, some,
}
use min_cpu_forth.Prelude.Int.{ℤ, pos, ◌-ℤ◌, eqb_ℤ, ltb_ℤ}
use min_cpu_forth.Errors.{Result, ok, err}
use min_cpu_forth.Registers.{RegisterFile}
use min_cpu_forth.Stack.View.{View}
use min_cpu_forth.Stack.Port.{view_port}
use min_cpu_forth.Forth.StackWords
use min_cpu_forth.Forth.StackWords.{StackWord, stack_word, binop, int_of}
use min_cpu_forth.Assembler.Specs.{lookup}
use min_cpu_forth.Kernel.Program.{listing_labels}
use min_cpu_forth.Kernel.Words.{World, data_is, Does, flag}
use min_cpu_forth.Kernel.Words.StackWords.{
  dup-Does, drop-Does, swap-Does, over-Does, rot-Does, nrot-Does, nip-Does, tuck-Does,
}
use min_cpu_forth.Kernel.Words.ArithmeticWords.{
  plus-Does, minus-Does, one_plus-Does, one_minus-Does, bit_and-Does, bit_or-Does, bit_invert-Does,
  negate-Does, abs-Does,
}
use min_cpu_forth.Kernel.Words.FlagWords.{
  equals-Does, not_equals-Does, less_than-Does, greater_than-Does, zero_eq-Does, zero_lt-Does,
}

-- The words that leave an item computed without a test, and have a routine for every operand.
pub data SharedWord : Type 0 where
  dup drop swap over rot neg_rot nip tuck : SharedWord
  plus minus negate abs one_plus one_minus and or invert : SharedWord

-- The comparisons.
pub data TestWord : Type 0 where
  equal not_equal less greater zero_equal zero_less : TestWord

-- Where the routine starts, and the word of `ForthService`.
abbrev pub entry : SharedWord → ℤ × StackWord
entry dup = (pos 19, StackWords.dup)
entry drop = (pos 23, StackWords.drop)
entry swap = (pos 25, StackWords.swap)
entry over = (pos 30, StackWords.over)
entry rot = (pos 36, StackWords.rot)
entry neg_rot = (pos 43, StackWords.neg_rot)
entry nip = (pos 50, StackWords.nip)
entry tuck = (pos 54, StackWords.tuck)
entry plus = (pos 60, StackWords.plus)
entry minus = (pos 65, StackWords.minus)
entry negate = (pos 81, StackWords.negate)
entry abs = (pos 86, StackWords.abs_)
entry one_plus = (pos 94, StackWords.one_plus)
entry one_minus = (pos 98, StackWords.one_minus)
entry and = (pos 196, StackWords.and)
entry or = (pos 201, StackWords.or)
entry invert = (pos 206, StackWords.invert_)

abbrev pub test_entry : TestWord → ℤ × StackWord
test_entry equal = (pos 128, StackWords.equal)
test_entry not_equal = (pos 140, StackWords.not_equal)
test_entry less = (pos 152, StackWords.less)
test_entry greater = (pos 164, StackWords.greater)
test_entry zero_equal = (pos 176, StackWords.zero_equal)
test_entry zero_less = (pos 186, StackWords.zero_less)

-- The routine's label.
abbrev pub label : SharedWord → String
label dup = "DUP"
label drop = "DROP"
label swap = "SWAP"
label over = "OVER"
label rot = "ROT"
label neg_rot = "NROT"
label nip = "NIP"
label tuck = "TUCK"
label plus = "PLUS"
label minus = "MINUS"
label negate = "NEGATE"
label abs = "ABS"
label one_plus = "ONEPLUS"
label one_minus = "ONEMINUS"
label and = "BITAND"
label or = "BITOR"
label invert = "BITINVERT"

abbrev pub test_label : TestWord → String
test_label equal = "EQUALS"
test_label not_equal = "NOTEQUALS"
test_label less = "LESSTHAN"
test_label greater = "GREATERTHAN"
test_label zero_equal = "ZEROEQ"
test_label zero_less = "ZEROLT"

lookup-label : (w : SharedWord) → lookup (label w) listing_labels ≡ some (entry w).0
lookup-label dup = refl
lookup-label drop = refl
lookup-label swap = refl
lookup-label over = refl
lookup-label rot = refl
lookup-label neg_rot = refl
lookup-label nip = refl
lookup-label tuck = refl
lookup-label plus = refl
lookup-label minus = refl
lookup-label negate = refl
lookup-label abs = refl
lookup-label one_plus = refl
lookup-label one_minus = refl
lookup-label and = refl
lookup-label or = refl
lookup-label invert = refl

lookup-test_label : (w : TestWord) → lookup (test_label w) listing_labels ≡ some (test_entry w).0
lookup-test_label equal = refl
lookup-test_label not_equal = refl
lookup-test_label less = refl
lookup-test_label greater = refl
lookup-test_label zero_equal = refl
lookup-test_label zero_less = refl

-- Where the word has ended well, the routine changes the data stack as the word has, and changes
-- nothing else.
abbrev pub Follows : ℤ → World → Result (Unit {0}) × View → Type 0
Follows index v (err e, w) = Unit
Follows index v (ok _, w) =
    (n : ℕ) × ((r : RegisterFile) → Does index n r v (record v { data_stack = w }))

-- The same but for the flag: the routine's is -1 where the word's is 1.
abbrev negated_top : List ℤ → ℕ → View
negated_top [] k = record { items = []; room = k }
negated_top (x ∷ xs) k = record { items = (pos 0 -ℤ x) ∷ xs; room = k }

abbrev pub negated : View → View
negated w = negated_top w.items w.room

abbrev pub Flags : ℤ → World → Result (Unit {0}) × View → Type 0
Flags index v (err e, w) = Unit
Flags index v (ok _, w) =
    (n : ℕ) × ((r : RegisterFile) → Does index n r v (record v { data_stack = negated w }))

module _ (v : World) where
  shared :
      (w : SharedWord) (xs : List ℤ) (k : ℕ)
      → Follows
          (entry w).0
          (data_is v xs k)
          (stack_word view_port (entry w).1 (record { items = xs; room = k }))
  unfolding stack_word binop StackWords.word_dup StackWords.word_drop StackWords.word_swap
      StackWords.word_over StackWords.word_rot StackWords.word_neg_rot StackWords.word_nip
      StackWords.word_tuck
  shared dup (a ∷ xs) (suc k) = (4, λ r. dup-Does r v a xs k)
  shared drop (a ∷ xs) k = (2, λ r. drop-Does r v a xs k)
  shared swap (b ∷ a ∷ xs) k = (5, λ r. swap-Does r v a b xs k)
  shared over (b ∷ a ∷ xs) (suc k) = (6, λ r. over-Does r v a b xs k)
  shared rot (c ∷ b ∷ a ∷ xs) k = (7, λ r. rot-Does r v a b c xs k)
  shared neg_rot (c ∷ b ∷ a ∷ xs) k = (7, λ r. nrot-Does r v a b c xs k)
  shared nip (b ∷ a ∷ xs) k = (_, λ r. nip-Does r v a b xs k)
  shared tuck (b ∷ a ∷ xs) (suc k) = (_, λ r. tuck-Does r v a b xs k)
  shared plus (b ∷ a ∷ xs) k = (5, λ r. plus-Does r v a b xs k)
  shared minus (b ∷ a ∷ xs) k = (5, λ r. minus-Does r v a b xs k)
  shared negate (a ∷ xs) k = (5, λ r. negate-Does r v a xs k)
  shared abs (a ∷ xs) k = (_, λ r. abs-Does r v a xs k)
  shared one_plus (a ∷ xs) k = (4, λ r. one_plus-Does r v a xs k)
  shared one_minus (a ∷ xs) k = (4, λ r. one_minus-Does r v a xs k)
  shared and (b ∷ a ∷ xs) k = (5, λ r. bit_and-Does r v a b xs k)
  shared or (b ∷ a ∷ xs) k = (5, λ r. bit_or-Does r v a b xs k)
  shared invert (a ∷ xs) k = (4, λ r. bit_invert-Does r v a xs k)
  shared _ _ _ = tt

  -- Each routine, at its label's index in the assembled kernel, against the word: where the word of
  -- `ForthService` ends without an exception, the routine leaves what it leaves on the data stack,
  -- and the rest of the world as it was.
  pub shared_word-Follows :
      (w : SharedWord)
      → (lookup (label w) listing_labels ≡ some (entry w).0)
        × Follows (entry w).0 v (stack_word view_port (entry w).1 v.data_stack)
  shared_word-Follows w = (lookup-label w, shared w v.data_stack.items v.data_stack.room)

  flag-int_of : (t : Bool) → flag t ≡ pos 0 -ℤ int_of t
  unfolding ◌-ℤ◌
  flag-int_of true = refl
  flag-int_of false = refl

  flagged :
      {index : ℤ} {n : ℕ} {before : World} (t : Bool) (xs : List ℤ) (k : ℕ)
      → ((r : RegisterFile) → Does index n r before (data_is v (flag t ∷ xs) k))
      → (m : ℕ) × ((r : RegisterFile)
          → Does index m r before (data_is v ((pos 0 -ℤ int_of t) ∷ xs) k))
  flagged {index} {n} {before} t xs k d =
      (n, λ r. subst (λ z. Does index n r before (data_is v (z ∷ xs) k)) (flag-int_of t) (d r))

  test :
      (w : TestWord) (xs : List ℤ) (k : ℕ)
      → Flags
          (test_entry w).0
          (data_is v xs k)
          (stack_word view_port (test_entry w).1 (record { items = xs; room = k }))
  unfolding stack_word binop
  test equal (b ∷ a ∷ xs) k = flagged (eqb_ℤ a b) xs (suc k) (λ r. equals-Does r v a b xs k)
  test not_equal (b ∷ a ∷ xs) k =
      flagged (not (eqb_ℤ a b)) xs (suc k) (λ r. not_equals-Does r v a b xs k)
  test less (b ∷ a ∷ xs) k = flagged (ltb_ℤ a b) xs (suc k) (λ r. less_than-Does r v a b xs k)
  test greater (b ∷ a ∷ xs) k = flagged (ltb_ℤ b a) xs (suc k) (λ r. greater_than-Does r v a b xs k)
  test zero_equal (a ∷ xs) k = flagged (eqb_ℤ a (pos 0)) xs k (λ r. zero_eq-Does r v a xs k)
  test zero_less (a ∷ xs) k = flagged (ltb_ℤ a (pos 0)) xs k (λ r. zero_lt-Does r v a xs k)
  test _ _ _ = tt

  -- Each comparison's routine, at its label's index in the assembled kernel, against the word: where
  -- the word of `ForthService` ends without an exception and leaves a flag, 1 or 0, the routine
  -- leaves the flag's negative, -1 or 0, the same items below it, and the rest of the world as it
  -- was.
  pub test_word-Flags :
      (w : TestWord)
      → (lookup (test_label w) listing_labels ≡ some (test_entry w).0)
        × Flags (test_entry w).0 v (stack_word view_port (test_entry w).1 v.data_stack)
  test_word-Flags w = (lookup-test_label w, test w v.data_stack.items v.data_stack.room)
