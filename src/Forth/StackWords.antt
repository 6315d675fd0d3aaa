-- ===== src/Forth/StackWords.antt =====
-- services/forth.py: the words of `ForthService` that use the data stack alone, over any
-- implementation of `StackPort`.
use min_cpu_forth.Prelude.{Bool, true, false, not, if◌then◌else◌}
use min_cpu_forth.Prelude.Int.{
  ℤ, pos, ◌+ℤ◌, ◌-ℤ◌, ◌*ℤ◌, eqb_ℤ, ltb_ℤ, and_ℤ, or_ℤ, invert, abs, floor_div, floor_mod,
}
use min_cpu_forth.Errors.{Result, ok, err, zero_division}
use min_cpu_forth.Effects.{Action, lift, ◌>>=◌, ◌>>◌}
use min_cpu_forth.Stack.Port.{StackPort}

pub data StackWord : Type 0 where
  dup drop swap over rot neg_rot nip tuck : StackWord
  plus minus times divide mod_ negate abs_ one_plus one_minus : StackWord
  equal not_equal less greater zero_equal zero_less and or invert_ : StackWord

-- `int(test)`
abbrev pub int_of : Bool → ℤ
int_of true = pos 1
int_of false = pos 0

-- `a // b` and `a % b` raise for a divisor of 0.
abbrev pub divided : (ℤ → ℤ → ℤ) → ℤ → ℤ → Result ℤ
divided op a b = if eqb_ℤ b (pos 0) then err zero_division else ok (op a b)

module _ {S : Type 0} (port : StackPort S) where
  open port use {push, pop, peek}

  -- `_binop`, where the operator may raise.
  unfoldable pub try_binop : (ℤ → ℤ → Result ℤ) → Action S (Unit {0})
  try_binop func = do b ← pop; a ← pop; value ← lift (func a b); push value

  unfoldable pub binop : (ℤ → ℤ → ℤ) → Action S (Unit {0})
  binop func = do b ← pop; a ← pop; push (func a b)

  -- A pop, and a push of a function of the value.
  abbrev pub unop : (ℤ → ℤ) → Action S (Unit {0})
  unop func = do a ← pop; push (func a)

  unfoldable pub word_dup : Action S (Unit {0})
  word_dup = do a ← peek; push a

  unfoldable pub word_drop : Action S (Unit {0})
  word_drop = pop >>= λ _ s. (ok tt, s)

  unfoldable pub word_swap : Action S (Unit {0})
  word_swap = do a ← pop; b ← pop; push a; push b

  unfoldable pub word_over : Action S (Unit {0})
  word_over = do b ← pop; a ← peek; push b; push a

  unfoldable pub word_rot : Action S (Unit {0})
  word_rot = do c ← pop; b ← pop; a ← pop; push b; push c; push a

  unfoldable pub word_neg_rot : Action S (Unit {0})
  word_neg_rot = do c ← pop; b ← pop; a ← pop; push c; push a; push b

  unfoldable pub word_nip : Action S (Unit {0})
  word_nip = do a ← pop; _ ← pop; push a

  unfoldable pub word_tuck : Action S (Unit {0})
  word_tuck = do a ← pop; b ← pop; push a; push b; push a

  -- The entries of `build_minimal_dictionary` for these words.
  unfoldable pub stack_word : StackWord → Action S (Unit {0})
  unfolding try_binop binop word_dup word_drop word_swap word_over word_rot word_neg_rot word_nip
      word_tuck ◌+ℤ◌ ◌-ℤ◌ ◌*ℤ◌ floor_div floor_mod abs and_ℤ or_ℤ invert
  stack_word dup = word_dup
  stack_word drop = word_drop
  stack_word swap = word_swap
  stack_word over = word_over
  stack_word rot = word_rot
  stack_word neg_rot = word_neg_rot
  stack_word nip = word_nip
  stack_word tuck = word_tuck
  stack_word plus = binop ◌+ℤ◌
  stack_word minus = binop ◌-ℤ◌
  stack_word times = binop ◌*ℤ◌
  stack_word divide = try_binop (divided floor_div)
  stack_word mod_ = try_binop (divided floor_mod)
  stack_word negate = unop λ a. pos 0 -ℤ a
  stack_word abs_ = unop abs
  stack_word one_plus = unop λ a. a +ℤ pos 1
  stack_word one_minus = unop λ a. a -ℤ pos 1
  stack_word equal = binop λ a b. int_of (eqb_ℤ a b)
  stack_word not_equal = binop λ a b. int_of (not (eqb_ℤ a b))
  stack_word less = binop λ a b. int_of (ltb_ℤ a b)
  stack_word greater = binop λ a b. int_of (ltb_ℤ b a)
  stack_word zero_equal = unop λ a. int_of (eqb_ℤ a (pos 0))
  stack_word zero_less = unop λ a. int_of (ltb_ℤ a (pos 0))
  stack_word and = binop and_ℤ
  stack_word or = binop or_ℤ
  stack_word invert_ = unop invert
