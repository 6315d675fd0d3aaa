-- ===== src/Emulator/Bounded.antt =====
-- services/emulator.py with adapters/stack.py: a stack whose pointer is between its floor and its base
-- stays so under every call, and raises nothing but its own errors.
use min_cpu_forth.Prelude.{
  ℕ, zero, suc, ◌+◌, ◌-◌, ◌≤◌, ◌≡◌, refl, List, [], ◌∷◌, length, Bool, true, false, arith, ap, ◌∙◌,
  sym, subst,
}
use min_cpu_forth.Prelude.Int.{ℤ, pos}
use min_cpu_forth.Errors.{
  Error, Result, ok, err, stack_overflow, stack_underflow, emulator_error, input_exhausted,
  index_error,
}
use min_cpu_forth.Effects.{Action, after}
use min_cpu_forth.Stack.{Stack, Region, push, pop}
use min_cpu_forth.Stack.View.{View, At, Holds, Agrees, push_view, pop_view}
use min_cpu_forth.Stack.Refinement.{push-Refines, pop-Refines}

-- The exceptions of the emulator and of the ports that it calls.
abbrev pub expected : Error → Bool
expected stack_overflow = true
expected stack_underflow = true
expected emulator_error = true
expected input_exhausted = true
expected index_error = true
expected _ = false

abbrev pub Allowed : {A : Type 0} → Result A → Type 0
Allowed (ok a) = Unit
Allowed (err e) = expected e ≡ true

-- The object is as `I` says, and an exception, if there is one, is expected.
abbrev pub Fine : {S A : Type 0} → (S → Type 0) → Result A × S → Type 0
Fine I (r, s) = I s × Allowed r

pub after-Fine :
    {S A B : Type 0} (I : S → Type 0) (f : A → Action S B) (r : Result A) (s : S)
    → Fine I (r, s)
    → ((a : A) (s' : S) → I s' → Fine I (f a s'))
    → Fine I (after f r s)
after-Fine I f (ok a) s (h, _) next = next a s h
after-Fine I f (err e) s (h, allowed) next = (h, allowed)

-- A pointer between the floor and the base.
pub record Bounded (lo hi : ℕ) (s : Stack) : Type 0 where
  pub pointer : ℕ
  pub is_at : s ≡ record { base = pos hi; floor = pos lo; pointer = pos pointer }
  pub low : lo ≤ pointer
  pub high : pointer ≤ hi

abbrev cells_from : (ℕ → ℤ) → ℕ → ℕ → List ℤ
cells_from cells p zero = []
cells_from cells p (suc n) = cells p ∷ cells_from cells (suc p) n

length-cells_from : (cells : ℕ → ℤ) (p n : ℕ) → length (cells_from cells p n) ≡ n
length-cells_from cells p zero = refl
length-cells_from cells p (suc n) = ap suc (length-cells_from cells (suc p) n)

At-cells_from : (cells : ℕ → ℤ) (p n : ℕ) → At cells p (cells_from cells p n)
At-cells_from cells p zero = tt
At-cells_from cells p (suc n) = (refl, At-cells_from cells (suc p) n)

-- A region of a memory of some size.
abbrev pub InRegion : ℕ → ℕ → ℕ → Region → Type 0
InRegion lo hi size r = Bounded lo hi r.stack × (r.memory.size ≡ size)

module _ (lo hi size : ℕ) (fits : hi ≤ size) where
  abbrev view_of : (ℕ → ℤ) → ℕ → View
  view_of cells p = record { items = cells_from cells p (hi - p); room = p - lo }

  region-Holds :
      (r : Region) (h : InRegion lo hi size r) → Holds lo hi (view_of r.memory.cells h.0.pointer) r
  region-Holds r (b, e) = record {
    stack =
        b.is_at
        ∙ ap (λ n. record { base = pos hi; floor = pos lo; pointer = pos n })
            (omega (arith, b.low));
    fills =
        omega (arith, b.low, b.high, length-cells_from r.memory.cells b.pointer (hi - b.pointer));
    fits = omega arith;
    at =
        subst (λ n. At r.memory.cells n (cells_from r.memory.cells b.pointer (hi - b.pointer)))
          (omega (arith, b.low)) (At-cells_from r.memory.cells b.pointer (hi - b.pointer));
  }

  Holds-Bounded : (v : View) (r : Region) → Holds lo hi v r → Bounded lo hi r.stack
  Holds-Bounded v r h = record {
    pointer = lo + v.room;
    is_at = h.stack;
    low = omega arith;
    high = omega (arith, h.fills);
  }

  Agrees-Fine :
      {A : Type 0} (r : Region) (spec : Result A × View) (out : Result A × Region)
      → r.memory.size ≡ size
      → Allowed spec.0
      → Agrees lo hi r spec out
      → Fine (InRegion lo hi size) out
  Agrees-Fine r spec out e allowed h =
      ((Holds-Bounded spec.1 out.1 h.holds, h.frame.size ∙ e), subst Allowed (sym h.result) allowed)

  push-Allowed :
      (x : ℤ) (xs : List ℤ) (k : ℕ) → Allowed (push_view x (record { items = xs; room = k })).0
  push-Allowed x xs zero = refl
  push-Allowed x xs (suc k) = tt

  pop-Allowed : (xs : List ℤ) (k : ℕ) → Allowed (pop_view (record { items = xs; room = k })).0
  pop-Allowed [] k = refl
  pop-Allowed (x ∷ xs) k = tt

  pub push-Fine :
      (x : ℤ) (r : Region) → InRegion lo hi size r → Fine (InRegion lo hi size) (push x r)
  push-Fine x r h =
      let v = view_of r.memory.cells h.0.pointer in
      Agrees-Fine r (push_view x v) (push x r) h.1 (push-Allowed x v.items v.room)
        (push-Refines lo hi x v r (region-Holds r h))

  pub pop-Fine : (r : Region) → InRegion lo hi size r → Fine (InRegion lo hi size) (pop r)
  pop-Fine r h =
      let v = view_of r.memory.cells h.0.pointer in
      Agrees-Fine r (pop_view v) (pop r) h.1 (pop-Allowed v.items v.room)
        (pop-Refines lo hi v r (region-Holds r h))
