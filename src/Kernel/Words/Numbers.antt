-- ===== src/Kernel/Words/Numbers.antt =====
-- services/kernel/routines.py: `NUMBER`, from the address of a counted text to its value and a flag.
use min_cpu_forth.Prelude.{
  ℕ, suc, ◌+◌, ◌≤◌, ◌<◌, ◌≡◌, refl, Bool, true, false, none, List, [], ◌∷◌, length, arith, ap, ◌∙◌,
  if◌then◌else◌,
}
use min_cpu_forth.Prelude.Int.{
  ℤ, pos, ◌+ℤ◌, ◌-ℤ◌, eqb_ℤ, set_value, difference, -ℤ_self, suc-pred, eqb_suc,
}
use min_cpu_forth.Registers
use min_cpu_forth.Registers.{RegisterFile}
use min_cpu_forth.Stack.View.{At}
use min_cpu_forth.Dictionary.Codec.{pos-suc}
use min_cpu_forth.Emulator.Spec.{ticks}
use min_cpu_forth.Kernel.Words.{World, data_is, machine_at, Does, Keeps}
use min_cpu_forth.Kernel.Words.Reaching.{
  Reaches, Gets, reach, ◌>>◌, reaches-Does, load_step, jz_step, jump_step, jumped,
}
use min_cpu_forth.Kernel.Words.Digits.{
  digits_value, signed_digits, number_value, Scanning, Outcome-after, digits_loop,
}
use min_cpu_forth.Kernel.Words.Answers.{
  answer, below, Answered, before, fail_end, plain_end, minus_end,
}

-- The registers after `NEG` has been set, `PTR` moved on and `LEN` lowered.
abbrev signed : RegisterFile → RegisterFile
signed r =
    let s = r "NEG" -ℤ r "NEG" in
    let r₁ = Registers.write (Registers.write r "NEG" s) "NEG" (s +ℤ pos 1) in
    Registers.write (Registers.write r₁ "PTR" (r "PTR" +ℤ pos 1)) "LEN" (r "LEN" -ℤ pos 1)

-- The registers after `LOAD C, PTR`, `MOV T, C` and `SUB T, 45`.
abbrev looked_at : RegisterFile → ℤ → RegisterFile
looked_at r c =
    let t = r "T" -ℤ r "T" in
    Registers.write (Registers.write (Registers.write (Registers.write r "C" c) "T" t) "T" (t +ℤ c))
      "T" (t +ℤ c -ℤ pos 45)

module _ (v : World) (xs : List ℤ) (k : ℕ) where
  -- Up to the test of the length, with the length and the place of the first code.
  number_start :
      (r : RegisterFile) (a n : ℕ)
      → v.cells a ≡ pos n
      → a < 2048
      → Gets
          (machine_at (pos 216) r (data_is v (pos a ∷ xs) (suc k)))
          (pos 221)
          (below v xs k)
          (λ r'. Keeps r r' × Scanning r' (pos 0) (pos 0) (suc a) n)
  unfolding ticks Registers.write
  number_start r a n e lt =
      let r₀ = Registers.write r "PTR" (pos a) in
      let r₁ = Registers.write r₀ "LEN" (v.cells a) in
      let r₂ =
        Registers.write
          (Registers.write (Registers.write r₁ "PTR" (pos a +ℤ pos 1)) "N" (r "N" -ℤ r "N")) "NEG"
          (r "NEG" -ℤ r "NEG") in
      record {
        registers' = r₂;
        reached =
            reach {s' = machine_at (pos 217) r₀ (below v xs k)} 1 refl
            >> (load_step r₀ (below v xs k) (pos 217) (pos 218) "LEN" "PTR" a refl refl refl lt
                >> reach {s = machine_at (pos 218) r₁ (below v xs k)}
                    {s' = machine_at (pos 221) r₂ (below v xs k)} 3 refl);
        post = (
          (refl, refl, refl),
          record {
            value = -ℤ_self (r "N");
            sign = -ℤ_self (r "NEG");
            place = pos-suc a;
            count = e;
          },
        );
      }

  -- After a `-`.
  minus_read :
      (r r' : RegisterFile) (cs : List ℤ) (p : ℕ)
      → Keeps r r'
      → Scanning r' (pos 0) (pos 0) p (suc (length cs))
      → At v.cells (suc p) cs
      → suc p + length cs ≤ 2048
      → Answered v xs k r (machine_at (pos 230) r' (below v xs k)) (signed_digits cs)
  unfolding ticks Registers.write number_value signed_digits
  minus_read r r' [] p keeps h a fits =
      let r₁ = signed r' in
      before v xs k r none
        (reach {s = machine_at (pos 230) r' (below v xs k)}
            {s' = machine_at (pos 234) r₁ (below v xs k)} 4 refl
          >> jz_step r₁ (below v xs k) (pos 234) (pos 235) (pos 274) "LEN" (pos 39) true refl refl
              refl (ap (λ z. eqb_ℤ (z -ℤ pos 1) (pos 0)) h.count))
        (fail_end v xs k r r₁ keeps)
  minus_read r r' (c ∷ cs) p keeps h a fits =
      let r₁ = signed r' in
      minus_end v xs k r (machine_at (pos 230) r' (below v xs k)) (digits_value (pos 0) (c ∷ cs)) (
        Outcome-after (below v xs k) r r₁ (pos 1) _ _ (digits_value (pos 0) (c ∷ cs))
          (reach {s = machine_at (pos 230) r' (below v xs k)}
              {s' = machine_at (pos 234) r₁ (below v xs k)} 4 refl
            >> jz_step r₁ (below v xs k) (pos 234) (pos 235) (pos 274) "LEN" (pos 39) false refl
                refl refl
                (ap (λ z. eqb_ℤ (z -ℤ pos 1) (pos 0)) h.count
                  ∙ (ap (λ z. eqb_ℤ z (pos 0)) (suc-pred (suc (length cs))) ∙ eqb_suc (length cs))))
          keeps
          (digits_loop (below v xs k) (c ∷ cs) r₁ (pos 0) (pos 1) (suc p)
            (record {
              value = h.value;
              sign = set_value (r' "NEG") (pos 1);
              place = ap (λ z. z +ℤ pos 1) h.place ∙ pos-suc p;
              count = ap (λ z. z -ℤ pos 1) h.count ∙ suc-pred (suc (length cs));
            })
            a fits))

  -- The first code, which is a `-` or not.
  first_read :
      (r r' : RegisterFile) (c : ℤ) (cs : List ℤ) (p : ℕ) (b : Bool)
      → Keeps r r'
      → Scanning r' (pos 0) (pos 0) p (suc (length cs))
      → At v.cells p (c ∷ cs)
      → p + suc (length cs) ≤ 2048
      → eqb_ℤ c (pos 45) ≡ b
      → Answered v xs k r
          (machine_at (pos 221) r' (below v xs k))
          (if b then signed_digits cs else digits_value (pos 0) (c ∷ cs))
  unfolding ticks Registers.write number_value signed_digits
  first_read r r' c cs p b keeps h (e, a) fits e' =
      let r₁ = looked_at r' (v.cells p) in
      let first =
        jz_step r' (below v xs k) (pos 221) (pos 222) (pos 274) "LEN" (pos 52) false refl refl refl
          (ap (λ z. eqb_ℤ z (pos 0)) h.count ∙ eqb_suc (length cs))
        >> (load_step r' (below v xs k) (pos 222) (pos 223) "C" "PTR" p refl refl h.place
              (omega arith)
            >> (reach {s = machine_at (pos 223) (Registers.write r' "C" (v.cells p)) (below v xs k)}
                  {s' = machine_at (pos 226) r₁ (below v xs k)} 3 refl
                >> jz_step r₁ (below v xs k) (pos 226) (pos 227) (pos 230) "T" (pos 3) b refl refl
                    refl
                    (difference (r' "T") (v.cells p) (pos 45)
                      ∙ (ap (λ z. eqb_ℤ z (pos 45)) e ∙ e')))) in
      branches b first
    where
      branches :
          (b : Bool)
          → Reaches (machine_at (pos 221) r' (below v xs k)) (
              machine_at (if b then pos 230 else pos 227) (looked_at r' (v.cells p)) (below v xs k))
          → Answered v xs k r
              (machine_at (pos 221) r' (below v xs k))
              (if b then signed_digits cs else digits_value (pos 0) (c ∷ cs))
      branches true first = before v xs k r (signed_digits cs) first (
          minus_read r (looked_at r' (v.cells p)) cs p keeps
            (record { value = h.value; sign = h.sign; place = h.place; count = h.count }) a
            (omega arith))
      branches false first =
          let r₁ = looked_at r' (v.cells p) in
          plain_end v xs k r _ (digits_value (pos 0) (c ∷ cs)) (
            Outcome-after (below v xs k) r (jumped r₁ (pos 235)) (pos 0) _ _
              (digits_value (pos 0) (c ∷ cs))
              (first
                >> jump_step r₁ (below v xs k) (pos 227) (pos 228) (pos 229) (pos 235) refl refl
                    refl refl refl)
              keeps
              (digits_loop (below v xs k) (c ∷ cs) (jumped r₁ (pos 235)) (pos 0) (pos 0) p
                (record { value = h.value; sign = h.sign; place = h.place; count = h.count }) (e, a)
                fits))

  whole :
      (r r' : RegisterFile) (cs : List ℤ) (p : ℕ)
      → Keeps r r'
      → Scanning r' (pos 0) (pos 0) p (length cs)
      → At v.cells p cs
      → p + length cs ≤ 2048
      → Answered v xs k r (machine_at (pos 221) r' (below v xs k)) (number_value cs)
  unfolding ticks Registers.write number_value signed_digits
  whole r r' [] p keeps h a fits =
      before v xs k r none
        (jz_step r' (below v xs k) (pos 221) (pos 222) (pos 274) "LEN" (pos 52) true refl refl refl
          (ap (λ z. eqb_ℤ z (pos 0)) h.count))
        (fail_end v xs k r r' keeps)
  whole r r' (c ∷ cs) p keeps h a fits = first_read r r' c cs p _ keeps h a fits refl

  -- `NUMBER`, with the address of a counted text in the dictionary block on top of the data stack,
  -- and a free cell above it: it ends, and leaves the value of the text and 1 above it where the
  -- text is a decimal number, with a `-` before the digits or not, and two zeros where it is none,
  -- the empty text and a `-` alone among them; no cell of the block changes.
  pub number-Does :
      (r : RegisterFile) (a : ℕ) (cs : List ℤ)
      → At v.cells a (pos (length cs) ∷ cs)
      → suc a + length cs ≤ 2048
      → (n : ℕ) × Does
          (pos 216)
          n
          r
          (data_is v (pos a ∷ xs) (suc k))
          (data_is v (answer (number_value cs) xs) k)
  number-Does r a cs (e, at) fits =
      let first = number_start r a (length cs) e (omega arith) in
      let last = whole r first.registers' cs (suc a) first.post.0 first.post.1 at fits in
      (_, reaches-Does (first.reached >> last.reached) last.post)
