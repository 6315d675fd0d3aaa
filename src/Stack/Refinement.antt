-- ===== src/Stack/Refinement.antt =====
-- `DownwardStackAdapter` implements the view: `push`, `pop` and `peek`, errors included.
use min_cpu_forth.Prelude.{
  ℕ, zero, suc, ◌+◌, ◌≤◌, ◌<◌, ◌≡◌, refl, List, [], ◌∷◌, length, arith, ap, sym, subst, ◌∙◌,
}
use min_cpu_forth.Prelude.Int.{ℤ, ◌+ℤ◌, ◌-ℤ◌}
use min_cpu_forth.Errors.{Result, ok, err, stack_overflow, stack_underflow}
use min_cpu_forth.Effects.{Action, ◌>>=◌, after}
use min_cpu_forth.Memory.{Memory, update}
use min_cpu_forth.Memory.Laws.{read-pos, write-pos}
use min_cpu_forth.Stack.{Region, push, pop, peek}
use min_cpu_forth.Stack.View.{
  View, Holds, At, Frame, Agrees, Refines, stack_at, push_view, pop_view, peek_view,
}

pub At-update :
    (cells : ℕ → ℤ) (i p : ℕ) (v : ℤ) (xs : List ℤ)
    → i < p
    → At cells p xs
    → At (update cells i v) p xs
At-update cells i p v [] h a = tt
At-update cells i p v (x ∷ xs) h (e, a) =
    (ground arith, At-update cells i (suc p) v xs (omega arith) a)

pub At-update_above :
    (cells : ℕ → ℤ) (i p : ℕ) (v : ℤ) (xs : List ℤ)
    → p + length xs ≤ i
    → At cells p xs
    → At (update cells i v) p xs
At-update_above cells i p v [] h a = tt
At-update_above cells i p v (x ∷ xs) h (e, a) =
    (ground arith, At-update_above cells i (suc p) v xs (omega arith) a)

pub add-suc : (a b : ℕ) → a + suc b ≡ suc (a + b)
add-suc a b = omega arith

module _ (lo hi : ℕ) (m : Memory) where
  abbrev pub region : ℕ → Region
  region k = record { stack = stack_at lo hi k; memory = m }

  push-region_full : (x : ℤ) → push x (region 0) ≡ (err stack_overflow, region 0)
  unfolding push
  push-region_full x = ground arith

  abbrev pub filled : ℕ → ℤ → Memory
  filled k x = record m { cells = update m.cells (lo + k) x }

  pub push-region :
      (k : ℕ) (x : ℤ)
      → lo + k < m.size
      → push x (region (suc k)) ≡ (ok tt, record { stack = stack_at lo hi k; memory = filled k x })
  unfolding push ◌-ℤ◌
  push-region k x h = ground (arith, write-pos m (lo + k) x h)

  pop-region_empty : (k : ℕ) → lo + k ≡ hi → pop (region k) ≡ (err stack_underflow, region k)
  unfolding pop
  pop-region_empty k h = ground arith

  pub pop-region :
      (k : ℕ) → lo + k < hi → hi ≤ m.size → pop (region k) ≡ (ok (m.cells (lo + k)), region (suc k))
  unfolding pop ◌+ℤ◌
  pop-region k h fits = ground (arith, read-pos m (lo + k))

  peek-region_empty : (k : ℕ) → lo + k ≡ hi → peek (region k) ≡ (err stack_underflow, region k)
  unfolding peek
  peek-region_empty k h = ground arith

  peek-region :
      (k : ℕ) → lo + k < hi → hi ≤ m.size → peek (region k) ≡ (ok (m.cells (lo + k)), region k)
  unfolding peek
  peek-region k h fits = ground (arith, read-pos m (lo + k))

-- A region whose stack stands where the view says is the region of the view.
region-eq : (lo hi : ℕ) (v : View) (r : Region) → Holds lo hi v r → region lo hi r.memory v.room ≡ r
region-eq lo hi v r h = λ i. record { stack = sym h.stack i; memory = r.memory }

module _ (lo hi : ℕ) (m : Memory) (fits : hi ≤ m.size) where
  Frame-refl : Frame lo hi m m
  Frame-refl = record { size = refl; outside = λ j h. refl }

  module _ (xs : List ℤ) (k : ℕ) (fills : lo + k + length xs ≡ hi)
      (at : At m.cells (lo + k) xs) where
    abbrev shown : View
    shown = record { items = xs; room = k }

    Holds-region : Holds lo hi shown (region lo hi m k)
    Holds-region = record { stack = refl; fills = fills; fits = fits; at = at }

    -- A call that has changed nothing.
    unchanged :
        {A : Type 0} (result : Result A)
        → Agrees lo hi (region lo hi m k) (result, shown) (result, region lo hi m k)
    unchanged result = record { result = refl; holds = Holds-region; frame = Frame-refl }

  push-Agrees-region :
      (x : ℤ) (xs : List ℤ) (k : ℕ)
      → lo + k + length xs ≡ hi
      → At m.cells (lo + k) xs
      → Agrees lo hi
          (region lo hi m k)
          (push_view x (record { items = xs; room = k }))
          (push x (region lo hi m k))
  push-Agrees-region x xs zero fills at =
      rw (push-region_full lo hi m x) (unchanged xs 0 fills at (err stack_overflow))
  push-Agrees-region x xs (suc k) fills at = rw (push-region lo hi m k x (omega arith)) (record {
    result = refl;
    holds = record {
      stack = refl;
      fills = omega arith;
      fits = fits;
      at = (
        ground arith,
        At-update m.cells (lo + k) (suc (lo + k)) x xs (omega arith)
            (subst (λ p. At m.cells p xs) (add-suc lo k) at),
      );
    };
    frame = record { size = refl; outside = λ j h. ground arith };
  })

  pop-Agrees-region :
      (xs : List ℤ) (k : ℕ)
      → lo + k + length xs ≡ hi
      → At m.cells (lo + k) xs
      → Agrees lo hi
          (region lo hi m k)
          (pop_view (record { items = xs; room = k }))
          (pop (region lo hi m k))
  pop-Agrees-region [] k fills at =
      rw (pop-region_empty lo hi m k (omega arith)) (unchanged [] k fills at (err stack_underflow))
  pop-Agrees-region (x ∷ xs) k fills (e, at) =
      rw (pop-region lo hi m k (omega arith) fits) (record {
        result = ap ok e;
        holds = record {
          stack = refl;
          fills = omega arith;
          fits = fits;
          at = subst (λ p. At m.cells p xs) (sym (add-suc lo k)) at;
        };
        frame = Frame-refl;
      })

  peek-Agrees-region :
      (xs : List ℤ) (k : ℕ)
      → lo + k + length xs ≡ hi
      → At m.cells (lo + k) xs
      → Agrees lo hi
          (region lo hi m k)
          (peek_view (record { items = xs; room = k }))
          (peek (region lo hi m k))
  peek-Agrees-region [] k fills at =
      rw (peek-region_empty lo hi m k (omega arith)) (unchanged [] k fills at (err stack_underflow))
  peek-Agrees-region (x ∷ xs) k fills (e, at) =
      rw (peek-region lo hi m k (omega arith) fits) (record {
        result = ap ok e;
        holds = record { stack = refl; fills = fills; fits = fits; at = (e, at) };
        frame = Frame-refl;
      })

-- On a region that shows a view, `push` puts the value on top in the next free cell and changes no
-- cell outside the region, or raises `stack overflow` and changes nothing when no cell is free.
pub push-Refines : (lo hi : ℕ) (x : ℤ) → Refines lo hi (push x) (push_view x)
push-Refines lo hi x v r h =
    subst (λ r'. Agrees lo hi r' (push_view x v) (push x r')) (region-eq lo hi v r h)
      (push-Agrees-region lo hi r.memory h.fits x v.items v.room h.fills h.at)

pub pop-Refines : (lo hi : ℕ) → Refines lo hi pop pop_view
pop-Refines lo hi v r h =
    subst (λ r'. Agrees lo hi r' (pop_view v) (pop r')) (region-eq lo hi v r h)
      (pop-Agrees-region lo hi r.memory h.fits v.items v.room h.fills h.at)

pub peek-Refines : (lo hi : ℕ) → Refines lo hi peek peek_view
peek-Refines lo hi v r h =
    subst (λ r'. Agrees lo hi r' (peek_view v) (peek r')) (region-eq lo hi v r h)
      (peek-Agrees-region lo hi r.memory h.fits v.items v.room h.fills h.at)

pop-memory : (r : Region) → (pop r).1.memory ≡ r.memory
unfolding pop
pop-memory r = ground arith

peek-same : (r : Region) → (peek r).1 ≡ r
unfolding peek
peek-same r = ground arith

-- On a region that shows a list of items, `pop` returns the top item and frees its cell, or raises
-- the underflow error and leaves the pointer when there is no item; no cell of the memory changes,
-- whether it returns or raises.
pub pop_lem :
    (lo hi : ℕ) (v : View) (r : Region)
    → Holds lo hi v r
    → Agrees lo hi r (pop_view v) (pop r) × ((pop r).1.memory ≡ r.memory)
pop_lem lo hi v r h = (pop-Refines lo hi v r h, pop-memory r)

-- On a region that shows a list of items, `peek` returns the top item, or raises the underflow
-- error when there is none, and changes neither the pointer nor any cell of the memory, whether it
-- returns or raises.
pub peek_lem :
    (lo hi : ℕ) (v : View) (r : Region)
    → Holds lo hi v r
    → Agrees lo hi r (peek_view v) (peek r) × ((peek r).1 ≡ r)
peek_lem lo hi v r h = (peek-Refines lo hi v r h, peek-same r)

Frame-trans :
    {lo hi : ℕ} {m m' m'' : Memory} → Frame lo hi m m' → Frame lo hi m' m'' → Frame lo hi m m''
Frame-trans f g = record { size = g.size ∙ f.size; outside = λ j h. g.outside j h ∙ f.outside j h }

module _ {A B : Type 0} (lo hi : ℕ) (m : Action Region A) (spec : Action View A)
    (f : A → Action Region B) (specs : A → Action View B)
    (rest : (a : A) → Refines lo hi (f a) (specs a)) where
  after-Agrees :
      (result : Result A) (v : View) (r r₁ : Region)
      → Holds lo hi v r₁
      → Frame lo hi r.memory r₁.memory
      → Agrees lo hi r (after specs result v) (after f result r₁)
  after-Agrees (ok a) v r r₁ h fr =
      let d = rest a v r₁ h in
      record { result = d.result; holds = d.holds; frame = Frame-trans fr d.frame }
  after-Agrees (err e) v r r₁ h fr = record { result = refl; holds = h; frame = fr }

  -- A chain of calls implements the chain of their specifications, also where an exception ends it.
  pub >>=-Refines : Refines lo hi m spec → Refines lo hi (m >>= f) (spec >>= specs)
  >>=-Refines first v r h =
      let d = first v r h in
      subst (λ result. Agrees lo hi r ((spec >>= specs) v) (after f result (m r).1)) (sym d.result)
        (after-Agrees (spec v).0 (spec v).1 r (m r).1 d.holds d.frame)
