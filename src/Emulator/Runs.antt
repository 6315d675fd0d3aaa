-- ===== src/Emulator/Runs.antt =====
-- `step` and `run` against the abstract machine.
use min_cpu_forth.Prelude.{
  ℕ, zero, suc, ◌+◌, ◌≡◌, refl, Option, none, some, List, false, arith, Bool-cases, inl, inr,
  Option-cases, subst, ap, ◌∙◌, sym,
}
use min_cpu_forth.Prelude.Int.{pos, ◌+ℤ◌}
use mathlib.Core.Option.{some-injective}
use min_cpu_forth.Errors.{ok}
use min_cpu_forth.Effects.{after}
use min_cpu_forth.Domain.{Instruction}
use min_cpu_forth.Memory.{Memory}
use min_cpu_forth.Emulator.{Machine, step, run, perform, fetch, handler}
use min_cpu_forth.Emulator.Spec.{Abstract, effect, effect_of, tick, ticks, continue}
use min_cpu_forth.Emulator.Shows.{concrete, Shows, Simulates}
use min_cpu_forth.Emulator.Refinement.{effect-Simulates}

zero-add : (n : ℕ) → 0 + n ≡ n
zero-add n = omega arith

suc-add : (n k : ℕ) → suc n + k ≡ suc (n + k)
suc-add n k = omega arith

-- One round of the loop of `run`.
run-step :
    (k : ℕ) (m m' : Machine) → m.halted ≡ false → step m ≡ (ok tt, m') → run (suc k) m ≡ run k m'
unfolding run
run-step k m m' live e = rw (live, run) (ap (λ out. after (λ _. run k) out.0 out.1) e)

ticks-step :
    (program : List Instruction) (n : ℕ) (s s₁ : Abstract)
    → s.halted ≡ false
    → tick program s ≡ some s₁
    → ticks program (suc n) s ≡ ticks program n s₁
unfolding ticks
ticks-step program n s s₁ live e = rw (live, ticks) (ap (continue (ticks program n)) e)

ticks_inversion :
    (program : List Instruction) (n : ℕ) (s s' : Abstract)
    → ticks program (suc n) s ≡ some s'
    → (s.halted ≡ false) × ((s₁ : Abstract) × (tick program s ≡ some s₁))
unfolding ticks
ticks_inversion program n s s' e = elim (Bool-cases s.halted) [
  | inl stopped ↦ ground arith
  | inr live ↦ elim (Option-cases (tick program s)) [
    | inl stuck ↦ ground arith
    | inr next ↦ (live, next)
  ]
]

-- A run in two parts: the second goes on where the first stopped.
pub ticks-append :
    (program : List Instruction) (n m : ℕ) (s s' : Abstract)
    → ticks program n s ≡ some s'
    → ticks program (n + m) s ≡ ticks program m s'
unfolding ticks
ticks-append program zero m s s' e =
    ap (λ k. ticks program k s) (zero-add m) ∙ ap (ticks program m) (some-injective _ _ e)
ticks-append program (suc n) m s s' e =
    let (live, (s₁, e₁)) = ticks_inversion program n s s' e in
    ap (λ k. ticks program k s) (suc-add n m)
    ∙ (ticks-step program (n + m) s s₁ live e₁
        ∙ ticks-append program n m s₁ s' (sym (ticks-step program n s s₁ live e₁) ∙ e))

-- A run that can go on was live after each of its first steps.
pub ticks_prefix :
    (program : List Instruction) (n k : ℕ) (s s' : Abstract)
    → ticks program (n + suc k) s ≡ some s'
    → (s₁ : Abstract) × (ticks program n s ≡ some s₁) × (s₁.halted ≡ false)
unfolding ticks
ticks_prefix program zero k s s' e =
    let (live, _) =
      ticks_inversion program k s s' (ap (λ j. ticks program j s) (sym (zero-add (suc k))) ∙ e) in
    (s, refl, live)
ticks_prefix program (suc n) k s s' e =
    let e' = ap (λ j. ticks program j s) (sym (suc-add n (suc k))) ∙ e in
    let (live, (s₁, e₁)) = ticks_inversion program (n + suc k) s s' e' in
    let (s₂, e₂, live₂) =
      ticks_prefix program n k s₁ s' (sym (ticks-step program (n + suc k) s s₁ live e₁) ∙ e') in
    (s₂, ticks-step program n s s₁ live e₁ ∙ e₂, live₂)

module _ (program : List Instruction) where
  perform-Simulates :
      (o : Option Instruction) (s : Abstract) (memory : Memory)
      → Shows memory s.cells s.data_stack s.return_stack
      → Simulates program (effect_of o s) (perform o (concrete s memory program))
  unfolding effect handler ◌+ℤ◌
  perform-Simulates none s memory h = tt
  perform-Simulates (some i) s memory h =
      effect-Simulates program memory (record s { pc = s.pc +ℤ pos 1 }) i.opcode i.a i.b i.offset h

  -- Where the abstract machine makes a step, `step` returns, in a machine that stands for the
  -- abstract one's next state.
  pub tick-Simulates :
      (s : Abstract) (memory : Memory)
      → Shows memory s.cells s.data_stack s.return_stack
      → Simulates program (tick program s) (step (concrete s memory program))
  unfolding tick step
  tick-Simulates s memory h = perform-Simulates (fetch program s.pc) s memory h

  -- `n` steps of the abstract machine are the first `n` steps of `run`, for every budget that is
  -- left: it goes on from a machine that stands for where they lead.
  pub run-ticks :
      (n : ℕ) (s s' : Abstract) (memory : Memory)
      → Shows memory s.cells s.data_stack s.return_stack
      → ticks program n s ≡ some s'
      → (memory' : Memory) × ((budget : ℕ)
          → run (n + budget) (concrete s memory program) ≡ run budget (concrete s' memory' program))
        × Shows memory' s'.cells s'.data_stack s'.return_stack
  unfolding ticks
  run-ticks zero s s' memory h e =
      subst
        (λ t.
          (memory' : Memory) × ((budget : ℕ)
            → run (0 + budget) (concrete s memory program)
              ≡ run budget (concrete t memory' program))
          × Shows memory' t.cells t.data_stack t.return_stack)
        (some-injective _ _ e)
        (memory, λ budget. ap (λ k. run k (concrete s memory program)) (zero-add budget), h)
  run-ticks (suc n) s s' memory h e =
      let (live, (s₁, e₁)) = ticks_inversion program n s s' e in
      let (m₁, p₁, h₁) =
        subst (λ o. Simulates program o (step (concrete s memory program))) e₁
          (tick-Simulates s memory h) in
      let (m₂, p₂, h₂) = run-ticks n s₁ s' m₁ h₁ (sym (ticks-step program n s s₁ live e₁) ∙ e) in
      (
        m₂,
        λ budget.
            ap (λ k. run k (concrete s memory program)) (suc-add n budget)
            ∙ (run-step (n + budget) _ _ live p₁ ∙ p₂ budget),
        h₂,
      )
