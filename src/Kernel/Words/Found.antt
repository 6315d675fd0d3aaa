-- ===== src/Kernel/Words/Found.antt =====
-- services/kernel/routines.py: the ends of `FIND`, which push an address and a flag, or two zeros.
use min_cpu_forth.Prelude.{
  ℕ, suc, ◌≡◌, refl, Bool, true, false, Option, none, some, List, ◌∷◌, subst, if◌then◌else◌,
}
use min_cpu_forth.Prelude.Int.{ℤ, pos, negsuc, ◌+ℤ◌, ◌-ℤ◌, eqb_ℤ, set_value, -ℤ_self, int_laws}
use min_cpu_forth.Domain.Register
use min_cpu_forth.Registers
use min_cpu_forth.Registers.{RegisterFile}
use min_cpu_forth.Emulator.Spec.{Abstract, ticks}
use min_cpu_forth.Dictionary.Chain.{Entry, code_field}
use min_cpu_forth.Kernel.Words.{World, data_is, machine_at, Keeps}
use min_cpu_forth.Kernel.Words.Reaching.{Reaches, Gets, reach, ◌>>◌}

-- What `FIND` leaves on the stack.
abbrev pub found : Option Entry → List ℤ → List ℤ
found none xs = pos 0 ∷ pos 0 ∷ xs
found (some e) xs =
    (if eqb_ℤ e.immediate (pos 0) then negsuc 0 else pos 1) ∷ pos (code_field e) ∷ xs

minus_one : (z : ℤ) → z -ℤ z -ℤ pos 1 ≡ negsuc 0
minus_one z = omega int_laws

module _ (v : World) (xs : List ℤ) (k : ℕ) where
  abbrev pub below : World
  below = data_is v xs (suc (suc k))

  abbrev pub Answers : RegisterFile → Abstract → Option Entry → Type 0
  Answers r start o = Gets start (r Register.next_pointer) (data_is v (found o xs) k) (Keeps r)

  pub before :
      (r : RegisterFile) {start s : Abstract} (o : Option Entry)
      → Reaches start s
      → Answers r s o
      → Answers r start o
  before r o first h = record {
    registers' = h.registers';
    reached = first >> h.reached;
    post = h.post;
  }

  -- From `FIND_NOTFOUND` on.
  pub none_end : (r r' : RegisterFile) → Keeps r r' → Answers r (machine_at (pos 375) r' below) none
  unfolding ticks Registers.write
  none_end r r' keeps =
      let z = r' "T" -ℤ r' "T" in
      let r₁ = Registers.write r' "T" z in
      let start = machine_at (pos 375) r' below in
      record {
        registers' = r₁;
        reached =
            subst
              (λ y.
                Reaches start (machine_at (r Register.next_pointer) r₁ (data_is v (y ∷ y ∷ xs) k)))
              (-ℤ_self (r' "T"))
              (subst (λ p. Reaches start (machine_at p r₁ (data_is v (z ∷ z ∷ xs) k))) keeps.2
                (reach {s = start}
                  {s' = machine_at (r' Register.next_pointer) r₁ (data_is v (z ∷ z ∷ xs) k)} 4
                  refl));
        post = keeps;
      }

  -- What is pushed last: the flag, from `FIND_NORMAL` on or before it.
  pub flag_end :
      (r r' : RegisterFile) (c : ℤ) (b : Bool)
      → Keeps r r'
      → Gets
          (machine_at (if b then pos 364 else pos 360) r' (data_is v (c ∷ xs) (suc k)))
          (r Register.next_pointer)
          (data_is v ((if b then negsuc 0 else pos 1) ∷ c ∷ xs) k)
          (Keeps r)
  unfolding ticks Registers.write
  flag_end r r' c true keeps =
      let f = r' "FLAG" -ℤ r' "FLAG" in
      let r₁ = Registers.write (Registers.write r' "FLAG" f) "FLAG" (f -ℤ pos 1) in
      let start = machine_at (pos 364) r' (data_is v (c ∷ xs) (suc k)) in
      record {
        registers' = r₁;
        reached =
            subst
              (λ y.
                Reaches start (machine_at (r Register.next_pointer) r₁ (data_is v (y ∷ c ∷ xs) k)))
              (minus_one (r' "FLAG"))
              (subst (λ p. Reaches start (machine_at p r₁ (data_is v ((f -ℤ pos 1) ∷ c ∷ xs) k)))
                keeps.2
                (reach {s = start}
                  {s' = machine_at (r' Register.next_pointer) r₁
                    (data_is v ((f -ℤ pos 1) ∷ c ∷ xs) k)}
                  4 refl));
        post = keeps;
      }
  flag_end r r' c false keeps =
      let f = r' "FLAG" -ℤ r' "FLAG" in
      let r₁ = Registers.write (Registers.write r' "FLAG" f) "FLAG" (f +ℤ pos 1) in
      let start = machine_at (pos 360) r' (data_is v (c ∷ xs) (suc k)) in
      record {
        registers' = r₁;
        reached =
            subst
              (λ y.
                Reaches start (machine_at (r Register.next_pointer) r₁ (data_is v (y ∷ c ∷ xs) k)))
              (set_value (r' "FLAG") (pos 1))
              (subst (λ p. Reaches start (machine_at p r₁ (data_is v ((f +ℤ pos 1) ∷ c ∷ xs) k)))
                keeps.2
                (reach {s = start}
                  {s' = machine_at (r' Register.next_pointer) r₁
                    (data_is v ((f +ℤ pos 1) ∷ c ∷ xs) k)}
                  4 refl));
        post = keeps;
      }
