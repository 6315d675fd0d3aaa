-- ===== src/Kernel/Words/FlagWords.antt =====
-- services/kernel/routines.py: the comparisons, which answer 0 or -1.
use min_cpu_forth.Prelude.{
  ℕ, suc, ◌≡◌, refl, Bool, true, false, not, List, ◌∷◌, subst, arith, if◌then◌else◌,
}
use min_cpu_forth.Prelude.Int.{ℤ, pos, negsuc, ◌-ℤ◌, eqb_ℤ, ltb_ℤ, set_value, -ℤ_parts}
use min_cpu_forth.Registers
use min_cpu_forth.Registers.{RegisterFile}
use min_cpu_forth.Emulator.Spec.{ticks}
use min_cpu_forth.Kernel.Program.{listing}
use min_cpu_forth.Kernel.Words.{World, data_is, Does, DoesIn, runs_to, then_does, on_kernel, flag}

eqb-sub : (a b : ℤ) → eqb_ℤ (a -ℤ b) (pos 0) ≡ eqb_ℤ a b
eqb-sub a b = ground (arith, -ℤ_parts a b)

ltb-sub : (a b : ℤ) → ltb_ℤ (a -ℤ b) (pos 0) ≡ ltb_ℤ a b
ltb-sub a b = ground (arith, -ℤ_parts a b)

module _ (registers : RegisterFile) (v : World) where
  equals_tail :
      (xs : List ℤ) (k : ℕ) (t : Bool)
      → DoesIn listing
          (if t then pos 136 else pos 132)
          4
          registers
          (data_is v xs (suc k))
          (data_is v (flag t ∷ xs) k)
  unfolding ticks Registers.write
  equals_tail xs k true =
      subst
        (λ z. DoesIn listing (pos 136) 4 registers (data_is v xs (suc k)) (data_is v (z ∷ xs) k))
        (set_value (registers "Z") (negsuc 0)) (runs_to refl (refl, refl, refl))
  equals_tail xs k false =
      subst
        (λ z. DoesIn listing (pos 132) 4 registers (data_is v xs (suc k)) (data_is v (z ∷ xs) k))
        (set_value (registers "Z") (pos 0)) (runs_to refl (refl, refl, refl))

  not_equals_tail :
      (xs : List ℤ) (k : ℕ) (t : Bool)
      → DoesIn listing
          (if t then pos 148 else pos 144)
          4
          registers
          (data_is v xs (suc k))
          (data_is v (flag (not t) ∷ xs) k)
  unfolding ticks Registers.write
  not_equals_tail xs k true =
      subst
        (λ z. DoesIn listing (pos 148) 4 registers (data_is v xs (suc k)) (data_is v (z ∷ xs) k))
        (set_value (registers "Z") (pos 0)) (runs_to refl (refl, refl, refl))
  not_equals_tail xs k false =
      subst
        (λ z. DoesIn listing (pos 144) 4 registers (data_is v xs (suc k)) (data_is v (z ∷ xs) k))
        (set_value (registers "Z") (negsuc 0)) (runs_to refl (refl, refl, refl))

  less_than_tail :
      (xs : List ℤ) (k : ℕ) (t : Bool)
      → DoesIn listing
          (if t then pos 160 else pos 156)
          4
          registers
          (data_is v xs (suc k))
          (data_is v (flag t ∷ xs) k)
  unfolding ticks Registers.write
  less_than_tail xs k true =
      subst
        (λ z. DoesIn listing (pos 160) 4 registers (data_is v xs (suc k)) (data_is v (z ∷ xs) k))
        (set_value (registers "Z") (negsuc 0)) (runs_to refl (refl, refl, refl))
  less_than_tail xs k false =
      subst
        (λ z. DoesIn listing (pos 156) 4 registers (data_is v xs (suc k)) (data_is v (z ∷ xs) k))
        (set_value (registers "Z") (pos 0)) (runs_to refl (refl, refl, refl))

  greater_than_tail :
      (xs : List ℤ) (k : ℕ) (t : Bool)
      → DoesIn listing
          (if t then pos 172 else pos 168)
          4
          registers
          (data_is v xs (suc k))
          (data_is v (flag t ∷ xs) k)
  unfolding ticks Registers.write
  greater_than_tail xs k true =
      subst
        (λ z. DoesIn listing (pos 172) 4 registers (data_is v xs (suc k)) (data_is v (z ∷ xs) k))
        (set_value (registers "Z") (negsuc 0)) (runs_to refl (refl, refl, refl))
  greater_than_tail xs k false =
      subst
        (λ z. DoesIn listing (pos 168) 4 registers (data_is v xs (suc k)) (data_is v (z ∷ xs) k))
        (set_value (registers "Z") (pos 0)) (runs_to refl (refl, refl, refl))

  zero_eq_tail :
      (xs : List ℤ) (k : ℕ) (t : Bool)
      → DoesIn listing
          (if t then pos 182 else pos 178)
          4
          registers
          (data_is v xs (suc k))
          (data_is v (flag t ∷ xs) k)
  unfolding ticks Registers.write
  zero_eq_tail xs k true =
      subst
        (λ z. DoesIn listing (pos 182) 4 registers (data_is v xs (suc k)) (data_is v (z ∷ xs) k))
        (set_value (registers "Z") (negsuc 0)) (runs_to refl (refl, refl, refl))
  zero_eq_tail xs k false =
      subst
        (λ z. DoesIn listing (pos 178) 4 registers (data_is v xs (suc k)) (data_is v (z ∷ xs) k))
        (set_value (registers "Z") (pos 0)) (runs_to refl (refl, refl, refl))

  zero_lt_tail :
      (xs : List ℤ) (k : ℕ) (t : Bool)
      → DoesIn listing
          (if t then pos 192 else pos 188)
          4
          registers
          (data_is v xs (suc k))
          (data_is v (flag t ∷ xs) k)
  unfolding ticks Registers.write
  zero_lt_tail xs k true =
      subst
        (λ z. DoesIn listing (pos 192) 4 registers (data_is v xs (suc k)) (data_is v (z ∷ xs) k))
        (set_value (registers "Z") (negsuc 0)) (runs_to refl (refl, refl, refl))
  zero_lt_tail xs k false =
      subst
        (λ z. DoesIn listing (pos 188) 4 registers (data_is v xs (suc k)) (data_is v (z ∷ xs) k))
        (set_value (registers "Z") (pos 0)) (runs_to refl (refl, refl, refl))

module _ (registers : RegisterFile) (v : World) where
  -- ( a b -- a=b )
  pub equals-Does :
      (a b : ℤ) (xs : List ℤ) (k : ℕ)
      → Does
          (pos 128)
          8
          registers
          (data_is v (b ∷ a ∷ xs) k)
          (data_is v (flag (eqb_ℤ a b) ∷ xs) (suc k))
  unfolding ticks Registers.write
  equals-Does a b xs k =
      subst
        (λ t.
          Does (pos 128) 8 registers (data_is v (b ∷ a ∷ xs) k) (data_is v (flag t ∷ xs) (suc k)))
        (eqb-sub a b)
        (on_kernel (
          then_does 4 _
            (Registers.write (Registers.write (Registers.write registers "X" b) "Y" a) "Y" (a -ℤ b))
            refl (refl, refl, refl) (equals_tail _ v xs (suc k) (eqb_ℤ (a -ℤ b) (pos 0)))))

  -- ( a b -- a<>b )
  pub not_equals-Does :
      (a b : ℤ) (xs : List ℤ) (k : ℕ)
      → Does
          (pos 140)
          8
          registers
          (data_is v (b ∷ a ∷ xs) k)
          (data_is v (flag (not (eqb_ℤ a b)) ∷ xs) (suc k))
  unfolding ticks Registers.write
  not_equals-Does a b xs k =
      subst
        (λ t.
          Does (pos 140) 8 registers (data_is v (b ∷ a ∷ xs) k)
            (data_is v (flag (not t) ∷ xs) (suc k)))
        (eqb-sub a b)
        (on_kernel (
          then_does 4 _
            (Registers.write (Registers.write (Registers.write registers "X" b) "Y" a) "Y" (a -ℤ b))
            refl (refl, refl, refl) (not_equals_tail _ v xs (suc k) (eqb_ℤ (a -ℤ b) (pos 0)))))

  -- ( a b -- a<b )
  pub less_than-Does :
      (a b : ℤ) (xs : List ℤ) (k : ℕ)
      → Does
          (pos 152)
          8
          registers
          (data_is v (b ∷ a ∷ xs) k)
          (data_is v (flag (ltb_ℤ a b) ∷ xs) (suc k))
  unfolding ticks Registers.write
  less_than-Does a b xs k =
      subst
        (λ t.
          Does (pos 152) 8 registers (data_is v (b ∷ a ∷ xs) k) (data_is v (flag t ∷ xs) (suc k)))
        (ltb-sub a b)
        (on_kernel (
          then_does 4 _
            (Registers.write (Registers.write (Registers.write registers "X" b) "Y" a) "Y" (a -ℤ b))
            refl (refl, refl, refl) (less_than_tail _ v xs (suc k) (ltb_ℤ (a -ℤ b) (pos 0)))))

  -- ( a b -- a>b )
  pub greater_than-Does :
      (a b : ℤ) (xs : List ℤ) (k : ℕ)
      → Does
          (pos 164)
          8
          registers
          (data_is v (b ∷ a ∷ xs) k)
          (data_is v (flag (ltb_ℤ b a) ∷ xs) (suc k))
  unfolding ticks Registers.write
  greater_than-Does a b xs k =
      subst
        (λ t.
          Does (pos 164) 8 registers (data_is v (b ∷ a ∷ xs) k) (data_is v (flag t ∷ xs) (suc k)))
        (ltb-sub b a)
        (on_kernel (
          then_does 4 _
            (Registers.write (Registers.write (Registers.write registers "X" b) "Y" a) "X" (b -ℤ a))
            refl (refl, refl, refl) (greater_than_tail _ v xs (suc k) (ltb_ℤ (b -ℤ a) (pos 0)))))

  -- ( a -- a=0 )
  pub zero_eq-Does :
      (a : ℤ) (xs : List ℤ) (k : ℕ)
      → Does
          (pos 176)
          6
          registers
          (data_is v (a ∷ xs) k)
          (data_is v (flag (eqb_ℤ a (pos 0)) ∷ xs) k)
  unfolding ticks Registers.write
  zero_eq-Does a xs k = on_kernel (
      then_does 2 _ (Registers.write registers "X" a) refl (refl, refl, refl)
        (zero_eq_tail _ v xs k (eqb_ℤ a (pos 0))))

  -- ( a -- a<0 )
  pub zero_lt-Does :
      (a : ℤ) (xs : List ℤ) (k : ℕ)
      → Does
          (pos 186)
          6
          registers
          (data_is v (a ∷ xs) k)
          (data_is v (flag (ltb_ℤ a (pos 0)) ∷ xs) k)
  unfolding ticks Registers.write
  zero_lt-Does a xs k = on_kernel (
      then_does 2 _ (Registers.write registers "X" a) refl (refl, refl, refl)
        (zero_lt_tail _ v xs k (ltb_ℤ a (pos 0))))
