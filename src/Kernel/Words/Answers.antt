-- ===== src/Kernel/Words/Answers.antt =====
-- services/kernel/routines.py: the ends of `NUMBER`, which push the value and a flag.
use min_cpu_forth.Prelude.{
  ℕ, suc, ◌≡◌, refl, true, false, Option, none, some, List, ◌∷◌, ap, ◌∙◌, subst,
}
use min_cpu_forth.Prelude.Int.{ℤ, pos, ◌+ℤ◌, ◌-ℤ◌, eqb_ℤ, set_value, -ℤ_self, int_laws}
use min_cpu_forth.Domain.Register
use min_cpu_forth.Registers
use min_cpu_forth.Registers.{RegisterFile}
use min_cpu_forth.Emulator.Spec.{Abstract, ticks}
use min_cpu_forth.Kernel.Words.{World, data_is, machine_at, Keeps}
use min_cpu_forth.Kernel.Words.Reaching.{Reaches, Gets, reach, ◌>>◌, jz_step}
use min_cpu_forth.Kernel.Words.Digits.{negated, Outcome}

-- What `NUMBER` leaves on the stack: the value and 1, or two zeros.
abbrev pub answer : Option ℤ → List ℤ → List ℤ
answer (some n) xs = pos 1 ∷ n ∷ xs
answer none xs = pos 0 ∷ pos 0 ∷ xs

minus_value : (t n : ℤ) → n -ℤ n -ℤ (t -ℤ t +ℤ n) ≡ pos 0 -ℤ n
minus_value t n = omega int_laws

abbrev flagged : RegisterFile → RegisterFile
flagged r =
    let f = r "FLAG" -ℤ r "FLAG" in Registers.write (Registers.write r "FLAG" f) "FLAG" (f +ℤ pos 1)

module _ (v : World) (xs : List ℤ) (k : ℕ) where
  abbrev pub below : World
  below = data_is v xs (suc (suc k))

  abbrev pub Answered : RegisterFile → Abstract → Option ℤ → Type 0
  Answered r start o = Gets start (r Register.next_pointer) (data_is v (answer o xs) k) (Keeps r)

  -- From `NUM_FAIL` on.
  pub fail_end :
      (r r' : RegisterFile) → Keeps r r' → Answered r (machine_at (pos 274) r' below) none
  unfolding ticks Registers.write
  fail_end r r' keeps =
      let z = r' "Z" -ℤ r' "Z" in
      let r₁ = Registers.write r' "Z" z in
      record {
        registers' = r₁;
        reached =
            subst
              (λ y.
                Reaches (machine_at (pos 274) r' below)
                  (machine_at (r Register.next_pointer) r₁ (data_is v (y ∷ y ∷ xs) k)))
              (-ℤ_self (r' "Z"))
              (subst
                (λ p.
                  Reaches (machine_at (pos 274) r' below)
                    (machine_at p r₁ (data_is v (z ∷ z ∷ xs) k)))
                keeps.2 (reach 4 refl));
        post = keeps;
      }

  abbrev Pushes : RegisterFile → ℤ → ℤ → ℤ → Type 0
  Pushes r p f n =
      Reaches (machine_at (pos 269) r below) (machine_at p (flagged r) (data_is v (f ∷ n ∷ xs) k))

  -- From `NUM_POS` on.
  push_number :
      (r r' : RegisterFile) (n : ℤ)
      → Keeps r r'
      → r' "N" ≡ n
      → Answered r (machine_at (pos 269) r' below) (some n)
  unfolding ticks Registers.write
  push_number r r' n keeps e =
      let f = r' "FLAG" -ℤ r' "FLAG" +ℤ pos 1 in
      record {
        registers' = flagged r';
        reached =
            subst (λ y. Pushes r' (r Register.next_pointer) y n) (set_value (r' "FLAG") (pos 1))
              (subst (λ y. Pushes r' (r Register.next_pointer) f y) e
                (subst (λ p. Pushes r' p f (r' "N")) keeps.2
                  (reach {s = machine_at (pos 269) r' below}
                    {s' = machine_at (r' Register.next_pointer) (flagged r')
                      (data_is v (f ∷ r' "N" ∷ xs) k)}
                    5 refl)));
        post = keeps;
      }

  pub before :
      (r : RegisterFile) {start s : Abstract} (o : Option ℤ)
      → Reaches start s
      → Answered r s o
      → Answered r start o
  before r o first h = record {
    registers' = h.registers';
    reached = first >> h.reached;
    post = h.post;
  }

  -- From `NUM_DONE` or `NUM_FAIL` on, where no `-` was read.
  pub plain_end :
      (r : RegisterFile) (start : Abstract) (o : Option ℤ)
      → Outcome r below (pos 0) start o
      → Answered r start o
  unfolding ticks Registers.write
  plain_end r start (some n) h =
      before r (some n)
        (h.reached
          >> jz_step h.registers' below (pos 264) (pos 265) (pos 269) "NEG" (pos 4) true refl refl
              refl (ap (λ z. eqb_ℤ z (pos 0)) h.post.sign))
        (push_number r h.registers' n h.post.keeps h.post.value)
  plain_end r start none h = before r none h.reached (fail_end r h.registers' h.post)

  abbrev turned : RegisterFile → RegisterFile
  turned r =
      let t = r "T" -ℤ r "T" in
      let n = r "N" -ℤ r "N" in
      Registers.write
        (Registers.write (Registers.write (Registers.write r "T" t) "T" (t +ℤ r "N")) "N" n) "N"
        (n -ℤ (t +ℤ r "N"))

  -- The same where a `-` was.
  pub minus_end :
      (r : RegisterFile) (start : Abstract) (o : Option ℤ)
      → Outcome r below (pos 1) start o
      → Answered r start (negated o)
  unfolding ticks Registers.write
  minus_end r start (some n) h =
      let r' = h.registers' in
      before r (some (pos 0 -ℤ n))
        (h.reached
          >> (jz_step r' below (pos 264) (pos 265) (pos 269) "NEG" (pos 4) false refl refl refl
                (ap (λ z. eqb_ℤ z (pos 0)) h.post.sign)
              >> reach {s = machine_at (pos 265) r' below}
                  {s' = machine_at (pos 269) (turned r') below} 4 refl))
        (push_number r (turned r') (pos 0 -ℤ n) h.post.keeps
          (minus_value (r' "T") (r' "N") ∙ ap (λ z. pos 0 -ℤ z) h.post.value))
  minus_end r start none h = before r none h.reached (fail_end r h.registers' h.post)
