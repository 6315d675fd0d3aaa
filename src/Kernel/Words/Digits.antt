-- ===== src/Kernel/Words/Digits.antt =====
-- services/kernel/routines.py: the loop of `NUMBER` over digits, and the value of a decimal text.
use min_cpu_forth.Prelude.{
  ℕ, suc, ◌+◌, ◌≤◌, ◌<◌, ◌≡◌, refl, Bool, true, false, Option, none, some, List, [], ◌∷◌, length,
  arith, ap, ◌∙◌, if◌then◌else◌,
}
use min_cpu_forth.Prelude.Int.{
  ℤ, pos, ◌+ℤ◌, ◌-ℤ◌, ◌*ℤ◌, eqb_ℤ, ltb_ℤ, set_value, *ℤ_parts, int_laws, suc-pred, eqb_suc,
}
use min_cpu_forth.Registers
use min_cpu_forth.Registers.{RegisterFile}
use min_cpu_forth.Stack.View.{At}
use min_cpu_forth.Dictionary.Codec.{pos-suc}
use min_cpu_forth.Emulator.Spec.{Abstract, ticks}
use min_cpu_forth.Kernel.Words.{World, machine_at, Keeps}
use min_cpu_forth.Kernel.Words.Reaching.{
  Reaches, Gets, reach, ◌>>◌, load_step, jz_step, js_step, jump_step, jumped, Keeps-trans,
}

-- A code below `0` or above `9` is no digit.
abbrev choose : Bool → Bool → Option ℤ → Option ℤ
choose true u o = none
choose false true o = o
choose false false o = none

-- The value of decimal digits after those that make `acc`.
unfoldable pub digits_value : ℤ → List ℤ → Option ℤ
digits_value acc [] = some acc
digits_value acc (c ∷ cs) =
    choose (ltb_ℤ (c -ℤ pos 48) (pos 0)) (ltb_ℤ (c -ℤ pos 48 -ℤ pos 10) (pos 0))
      (digits_value (acc *ℤ pos 10 +ℤ (c -ℤ pos 48)) cs)

abbrev pub negated : Option ℤ → Option ℤ
negated none = none
negated (some n) = some (pos 0 -ℤ n)

unfoldable pub signed_digits : List ℤ → Option ℤ
unfolding digits_value
signed_digits [] = none
signed_digits (c ∷ cs) = negated (digits_value (pos 0) (c ∷ cs))

-- The value of a text of digits, with a `-` before them or not; a text without a digit has none.
unfoldable pub number_value : List ℤ → Option ℤ
unfolding digits_value signed_digits
number_value [] = none
number_value (c ∷ cs) = if eqb_ℤ c (pos 45) then signed_digits cs else digits_value (pos 0) (c ∷ cs)

times_ten : (a : ℤ) → a +ℤ a +ℤ (a +ℤ a) +ℤ (a +ℤ a +ℤ (a +ℤ a)) +ℤ (a +ℤ a) ≡ a *ℤ pos 10
times_ten a = omega (int_laws, *ℤ_parts a 10)

-- The registers after `MOV DIGIT, C` and `SUB DIGIT, 48`, and after `MOV T, DIGIT` and `SUB T, 10`.
abbrev digit_of : RegisterFile → RegisterFile
digit_of r =
    let d = r "DIGIT" -ℤ r "DIGIT" in
    Registers.write (Registers.write (Registers.write r "DIGIT" d) "DIGIT" (d +ℤ r "C")) "DIGIT"
      (d +ℤ r "C" -ℤ pos 48)

abbrev above_of : RegisterFile → RegisterFile
above_of r =
    let t = r "T" -ℤ r "T" in
    Registers.write (Registers.write (Registers.write r "T" t) "T" (t +ℤ r "DIGIT")) "T"
      (t +ℤ r "DIGIT" -ℤ pos 10)

-- The registers after a digit has been taken in.
abbrev taken_in : RegisterFile → RegisterFile
taken_in r =
    let t = r "T" -ℤ r "T" in
    let t₁ = t +ℤ r "N" in
    let t₂ = t₁ +ℤ t₁ in
    let u = r "U" -ℤ r "U" in
    let t₃ = t₂ +ℤ t₂ in
    let t₄ = t₃ +ℤ t₃ in
    let t₅ = t₄ +ℤ (u +ℤ t₂) in
    let n = r "N" -ℤ r "N" in
    let r₁ = Registers.write (Registers.write (Registers.write r "T" t) "T" t₁) "T" t₂ in
    let r₂ = Registers.write (Registers.write r₁ "U" u) "U" (u +ℤ t₂) in
    let r₃ = Registers.write (Registers.write (Registers.write r₂ "T" t₃) "T" t₄) "T" t₅ in
    let r₄ = Registers.write (Registers.write r₃ "N" n) "N" (n +ℤ t₅) in
    let r₅ = Registers.write r₄ "N" (n +ℤ t₅ +ℤ r "DIGIT") in
    Registers.write (Registers.write r₅ "PTR" (r "PTR" +ℤ pos 1)) "LEN" (r "LEN" -ℤ pos 1)

taken_value :
    (t u n d : ℤ)
    → n
        -ℤ n
        +ℤ (t
            -ℤ t
            +ℤ n
            +ℤ (t -ℤ t +ℤ n)
            +ℤ (t -ℤ t +ℤ n +ℤ (t -ℤ t +ℤ n))
            +ℤ (t -ℤ t +ℤ n +ℤ (t -ℤ t +ℤ n) +ℤ (t -ℤ t +ℤ n +ℤ (t -ℤ t +ℤ n)))
            +ℤ (u -ℤ u +ℤ (t -ℤ t +ℤ n +ℤ (t -ℤ t +ℤ n))))
        +ℤ d
      ≡ n *ℤ pos 10 +ℤ d
taken_value t u n d = rw (
  set_value t n,
  set_value u (n +ℤ n),
  set_value n (n +ℤ n +ℤ (n +ℤ n) +ℤ (n +ℤ n +ℤ (n +ℤ n)) +ℤ (n +ℤ n)),
  times_ten n,
)

-- What `NUM_LOOP` works on: the value so far, the sign, and the codes that are left.
pub record Scanning (r : RegisterFile) (acc s : ℤ) (p n : ℕ) : Type 0 where
  pub value : r "N" ≡ acc
  pub sign : r "NEG" ≡ s
  pub place : r "PTR" ≡ pos p
  pub count : r "LEN" ≡ pos n

pub record Scanned (r : RegisterFile) (n s : ℤ) (r' : RegisterFile) : Type 0 where
  pub keeps : Keeps r r'
  pub value : r' "N" ≡ n
  pub sign : r' "NEG" ≡ s

-- At `NUM_DONE` with the value, or at `NUM_FAIL`.
abbrev pub Outcome : RegisterFile → World → ℤ → Abstract → Option ℤ → Type 0
Outcome r v s start (some n) = Gets start (pos 264) v (Scanned r n s)
Outcome r v s start none = Gets start (pos 274) v (Keeps r)

module _ (v : World) where
  -- A code that is taken for a digit, or not, from `NUM_LOOP` on.
  read_digit :
      (r : RegisterFile) (acc s c : ℤ) (p n : ℕ) (t : Bool)
      → Scanning r acc s p (suc n)
      → v.cells p ≡ c
      → p < 2048
      → ltb_ℤ (c -ℤ pos 48) (pos 0) ≡ t
      → Reaches (machine_at (pos 235) r v) (
          machine_at
            (if t then pos 274 else pos 241)
            (digit_of (Registers.write r "C" (v.cells p)))
            v)
  unfolding ticks Registers.write
  read_digit r acc s c p n t h e lt e' =
      let r₁ = Registers.write r "C" (v.cells p) in
      jz_step r v (pos 235) (pos 236) (pos 264) "LEN" (pos 28) false refl refl refl
        (ap (λ z. eqb_ℤ z (pos 0)) h.count ∙ eqb_suc n)
      >> (load_step r v (pos 236) (pos 237) "C" "PTR" p refl refl h.place lt
          >> (reach {s = machine_at (pos 237) r₁ v} {s' = machine_at (pos 240) (digit_of r₁) v} 3
                refl
              >> js_step (digit_of r₁) v (pos 240) (pos 241) (pos 274) "DIGIT" (pos 33) t refl refl
                  refl
                  (ap (λ z. ltb_ℤ (z -ℤ pos 48) (pos 0)) (set_value (r "DIGIT") (v.cells p))
                    ∙ (ap (λ z. ltb_ℤ (z -ℤ pos 48) (pos 0)) e ∙ e'))))

  -- The digit's upper bound.
  check_above :
      (r : RegisterFile) (c : ℤ) (u : Bool)
      → r "DIGIT" ≡ c -ℤ pos 48
      → ltb_ℤ (c -ℤ pos 48 -ℤ pos 10) (pos 0) ≡ u
      → Reaches
          (machine_at (pos 241) r v)
          (machine_at (if u then pos 248 else pos 245) (above_of r) v)
  unfolding ticks Registers.write
  check_above r c u hd e =
      reach {s = machine_at (pos 241) r v} {s' = machine_at (pos 244) (above_of r) v} 3 refl
      >> js_step (above_of r) v (pos 244) (pos 245) (pos 248) "T" (pos 3) u refl refl refl (
          ap (λ z. ltb_ℤ (z -ℤ pos 10) (pos 0)) (set_value (r "T") (r "DIGIT"))
          ∙ (ap (λ z. ltb_ℤ (z -ℤ pos 10) (pos 0)) hd ∙ e))

  -- `NUM_DIGIT_OK`, and back to the head of the loop.
  take_in :
      (r : RegisterFile)
      → Reaches (machine_at (pos 248) r v) (machine_at (pos 235) (jumped (taken_in r) (pos 235)) v)
  unfolding ticks Registers.write
  take_in r =
      reach {s = machine_at (pos 248) r v} {s' = machine_at (pos 261) (taken_in r) v} 13 refl
      >> jump_step (taken_in r) v (pos 261) (pos 262) (pos 263) (pos 235) refl refl refl refl refl

  -- What a first part of a run adds to an outcome.
  pub Outcome-after :
      (r r₁ : RegisterFile) (s : ℤ) (s₀ s₁ : Abstract) (o : Option ℤ)
      → Reaches s₀ s₁
      → Keeps r r₁
      → Outcome r₁ v s s₁ o
      → Outcome r v s s₀ o
  Outcome-after r r₁ s s₀ s₁ (some n) first keeps h = record {
    registers' = h.registers';
    reached = first >> h.reached;
    post = record {
      keeps = Keeps-trans r r₁ h.registers' keeps h.post.keeps;
      value = h.post.value;
      sign = h.post.sign;
    };
  }
  Outcome-after r r₁ s s₀ s₁ none first keeps h = record {
    registers' = h.registers';
    reached = first >> h.reached;
    post = Keeps-trans r r₁ h.registers' keeps h.post;
  }

  -- A code after its two tests, given what the rest of the loop does where it is a digit.
  digit-Outcome :
      (r : RegisterFile) (acc s c : ℤ) (p n : ℕ) (t u : Bool) (o : Option ℤ)
      → Scanning r acc s p (suc n)
      → v.cells p ≡ c
      → p < 2048
      → ltb_ℤ (c -ℤ pos 48) (pos 0) ≡ t
      → ltb_ℤ (c -ℤ pos 48 -ℤ pos 10) (pos 0) ≡ u
      → ((r' : RegisterFile)
          → Scanning r' (acc *ℤ pos 10 +ℤ (c -ℤ pos 48)) s (suc p) n
          → Outcome r' v s (machine_at (pos 235) r' v) o)
      → Outcome r v s (machine_at (pos 235) r v) (choose t u o)
  unfolding ticks Registers.write
  digit-Outcome r acc s c p n true u o h e lt et eu more = record {
    registers' = digit_of (Registers.write r "C" (v.cells p));
    reached = read_digit r acc s c p n true h e lt et;
    post = (refl, refl, refl);
  }
  digit-Outcome r acc s c p n false false o h e lt et eu more =
      let r₁ = digit_of (Registers.write r "C" (v.cells p)) in
      let digit : r₁ "DIGIT" ≡ c -ℤ pos 48 =
        ap (λ z. z -ℤ pos 48) (set_value (r "DIGIT") (v.cells p) ∙ e) in
      record {
        registers' = jumped (above_of r₁) (pos 274);
        reached =
            read_digit r acc s c p n false h e lt et
            >> (check_above r₁ c false digit eu
                >> jump_step (above_of r₁) v (pos 245) (pos 246) (pos 247) (pos 274) refl refl refl
                    refl refl);
        post = (refl, refl, refl);
      }
  digit-Outcome r acc s c p n false true o h e lt et eu more =
      let r₁ = digit_of (Registers.write r "C" (v.cells p)) in
      let digit : r₁ "DIGIT" ≡ c -ℤ pos 48 =
        ap (λ z. z -ℤ pos 48) (set_value (r "DIGIT") (v.cells p) ∙ e) in
      let r₂ = above_of r₁ in
      let r₃ = jumped (taken_in r₂) (pos 235) in
      Outcome-after r r₃ s _ _ o
        (read_digit r acc s c p n false h e lt et >> (check_above r₁ c true digit eu >> take_in r₂))
        (refl, refl, refl)
        (more r₃ (record {
          value =
              taken_value (r₂ "T") (r "U") (r "N") (r₁ "DIGIT")
              ∙ (ap (λ z. z *ℤ pos 10 +ℤ r₁ "DIGIT") h.value ∙ ap (λ z. acc *ℤ pos 10 +ℤ z) digit);
          sign = h.sign;
          place = ap (λ z. z +ℤ pos 1) h.place ∙ pos-suc p;
          count = ap (λ z. z -ℤ pos 1) h.count ∙ suc-pred n;
        }))

  -- `NUM_LOOP` computes the value of the digits, or fails where there is none.
  pub digits_loop :
      (cs : List ℤ) (r : RegisterFile) (acc s : ℤ) (p : ℕ)
      → Scanning r acc s p (length cs)
      → At v.cells p cs
      → p + length cs ≤ 2048
      → Outcome r v s (machine_at (pos 235) r v) (digits_value acc cs)
  unfolding ticks digits_value
  digits_loop [] r acc s p h a fits = record {
    registers' = r;
    reached =
        jz_step r v (pos 235) (pos 236) (pos 264) "LEN" (pos 28) true refl refl refl
          (ap (λ z. eqb_ℤ z (pos 0)) h.count);
    post = record { keeps = (refl, refl, refl); value = h.value; sign = h.sign };
  }
  digits_loop (c ∷ cs) r acc s p h (e, a) fits =
      digit-Outcome r acc s c p (length cs) (ltb_ℤ (c -ℤ pos 48) (pos 0))
        (ltb_ℤ (c -ℤ pos 48 -ℤ pos 10) (pos 0)) (digits_value (acc *ℤ pos 10 +ℤ (c -ℤ pos 48)) cs) h
        e (omega arith) refl refl
        (λ r' h'. digits_loop cs r' (acc *ℤ pos 10 +ℤ (c -ℤ pos 48)) s (suc p) h' a (omega arith))
