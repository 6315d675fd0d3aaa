-- ===== src/Kernel/Words/Names.antt =====
-- services/kernel/routines.py: how `FIND` compares a header with the name that is looked up.
use min_cpu_forth.Prelude.{
  ℕ, suc, ◌+◌, ◌≤◌, ◌<◌, ◌≡◌, refl, Bool, true, false, List, [], ◌∷◌, length, arith, ap, ◌∙◌, ◌&&◌,
  if◌then◌else◌,
}
use min_cpu_forth.Prelude.Int.{ℤ, pos, ◌+ℤ◌, ◌-ℤ◌, eqb_ℤ, difference, suc-pred, eqb_suc}
use min_cpu_forth.Registers
use min_cpu_forth.Registers.{RegisterFile}
use min_cpu_forth.Stack.View.{At}
use min_cpu_forth.Dictionary.Codec.{pos-suc}
use min_cpu_forth.Emulator.Spec.{Abstract, ticks}
use min_cpu_forth.Kernel.Words.{World, machine_at, Keeps}
use min_cpu_forth.Kernel.Words.Reaching.{
  Reaches, Gets, reach, ◌>>◌, load_step, jz_step, jump_step, jumped, Keeps-trans,
}

-- `==` on names.
unfoldable pub same_name : List ℤ → List ℤ → Bool
same_name [] [] = true
same_name [] (y ∷ ys) = false
same_name (x ∷ xs) [] = false
same_name (x ∷ xs) (y ∷ ys) = eqb_ℤ x y && same_name xs ys

pub same_name-length :
    (xs ys : List ℤ) → eqb_ℤ (pos (length xs)) (pos (length ys)) ≡ false → same_name xs ys ≡ false
unfolding same_name
same_name-length [] [] h = ground arith
same_name-length [] (y ∷ ys) h = refl
same_name-length (x ∷ xs) [] h = refl
same_name-length (x ∷ xs) (y ∷ ys) h = ground (arith, same_name-length xs ys (ground arith))

-- What a comparison leaves as it was: besides the reserved registers, those of the search.
pub record Still (r r' : RegisterFile) : Type 0 where
  pub keeps : Keeps r r'
  pub current : r' "CUR" ≡ r "CUR"
  pub address : r' "NAMEADDR" ≡ r "NAMEADDR"
  pub count : r' "SLEN" ≡ r "SLEN"

pub Still-trans : (r r' r'' : RegisterFile) → Still r r' → Still r' r'' → Still r r''
Still-trans r r' r'' h h' = record {
  keeps = Keeps-trans r r' r'' h.keeps h'.keeps;
  current = h'.current ∙ h.current;
  address = h'.address ∙ h.address;
  count = h'.count ∙ h.count;
}

-- At `FIND_MATCH`, or at `FIND_NEXT`.
abbrev pub Verdict : RegisterFile → ℤ → Bool → RegisterFile → Type 0
Verdict r w true r' = Still r r' × (r' "WLEN" ≡ w)
Verdict r w false r' = Still r r'

abbrev pub verdict_index : Bool → ℤ
verdict_index true = pos 350
verdict_index false = pos 368

abbrev pub Judged : World → RegisterFile → ℤ → Abstract → Bool → Type 0
Judged v r w start b = Gets start (verdict_index b) v (Verdict r w b)

-- Where the two names are read, and how many codes are left.
pub record Comparing (r : RegisterFile) (w : ℤ) (p q n : ℕ) : Type 0 where
  pub word : r "WPTR" ≡ pos p
  pub sought : r "SPTR" ≡ pos q
  pub left : r "COUNT" ≡ pos n
  pub width : r "WLEN" ≡ w

module _ (v : World) where
  pub Judged-after :
      (r r₁ : RegisterFile) (w : ℤ) (s₀ s₁ : Abstract) (b : Bool)
      → Reaches s₀ s₁
      → Still r r₁
      → Judged v r₁ w s₁ b
      → Judged v r w s₀ b
  Judged-after r r₁ w s₀ s₁ true first h more = record {
    registers' = more.registers';
    reached = first >> more.reached;
    post = (Still-trans r r₁ more.registers' h more.post.0, more.post.1);
  }
  Judged-after r r₁ w s₀ s₁ false first h more = record {
    registers' = more.registers';
    reached = first >> more.reached;
    post = Still-trans r r₁ more.registers' h more.post;
  }

  -- A jump to `FIND_NEXT`.
  pub no_match :
      (r r₁ : RegisterFile) (w : ℤ) (s₀ : Abstract) (index : ℤ)
      → Reaches s₀ (machine_at index r₁ v)
      → ((t : RegisterFile)
          → Reaches (machine_at index t v) (machine_at (pos 368) (jumped t (pos 368)) v))
      → Still r r₁
      → Judged v r w s₀ false
  unfolding Registers.write
  no_match r r₁ w s₀ index first jump h = record {
    registers' = jumped r₁ (pos 368);
    reached = first >> jump r₁;
    post = record { keeps = h.keeps; current = h.current; address = h.address; count = h.count };
  }

  abbrev read_both : RegisterFile → ℤ → ℤ → RegisterFile
  read_both r x y =
      let t = r "T" -ℤ r "T" in
      let r₁ = Registers.write (Registers.write r "WC" x) "SC" y in
      Registers.write (Registers.write (Registers.write r₁ "T" t) "T" (t +ℤ x)) "T" (t +ℤ x -ℤ y)

  abbrev moved_on : RegisterFile → RegisterFile
  moved_on r =
      Registers.write
        (Registers.write (Registers.write r "WPTR" (r "WPTR" +ℤ pos 1)) "SPTR" (r "SPTR" +ℤ pos 1))
        "COUNT" (r "COUNT" -ℤ pos 1)

  -- One code of each.
  codes_read :
      (r : RegisterFile) (w : ℤ) (p q n : ℕ) (x y : ℤ) (b : Bool)
      → Comparing r w p q (suc n)
      → v.cells p ≡ x
      → v.cells q ≡ y
      → p < 2048
      → q < 2048
      → eqb_ℤ x y ≡ b
      → Reaches
          (machine_at (pos 334) r v)
          (machine_at (if b then pos 344 else pos 341) (read_both r (v.cells p) (v.cells q)) v)
  unfolding ticks Registers.write
  codes_read r w p q n x y b h e e' lt lt' e'' =
      let r₁ = Registers.write r "WC" (v.cells p) in
      let r₂ = Registers.write r₁ "SC" (v.cells q) in
      let r₃ = read_both r (v.cells p) (v.cells q) in
      jz_step r v (pos 334) (pos 335) (pos 350) "COUNT" (pos 15) false refl refl refl
        (ap (λ z. eqb_ℤ z (pos 0)) h.left ∙ eqb_suc n)
      >> (load_step r v (pos 335) (pos 336) "WC" "WPTR" p refl refl h.word lt
          >> (load_step r₁ v (pos 336) (pos 337) "SC" "SPTR" q refl refl h.sought lt'
              >> (reach {s = machine_at (pos 337) r₂ v} {s' = machine_at (pos 340) r₃ v} 3 refl
                  >> jz_step r₃ v (pos 340) (pos 341) (pos 344) "T" (pos 3) b refl refl refl (
                      difference (r "T") (v.cells p) (v.cells q)
                      ∙ (ap (λ z. eqb_ℤ z (v.cells q)) e ∙ (ap (eqb_ℤ x) e' ∙ e''))))))

  codes-Judged :
      (r : RegisterFile) (w : ℤ) (p q n : ℕ) (x y : ℤ) (b rest : Bool)
      → Comparing r w p q (suc n)
      → v.cells p ≡ x
      → v.cells q ≡ y
      → p < 2048
      → q < 2048
      → eqb_ℤ x y ≡ b
      → ((r' : RegisterFile)
          → Comparing r' w (suc p) (suc q) n
          → Judged v r' w (machine_at (pos 334) r' v) rest)
      → Judged v r w (machine_at (pos 334) r v) (b && rest)
  unfolding ticks Registers.write
  codes-Judged r w p q n x y false rest h e e' lt lt' e'' more =
      let r₁ = read_both r (v.cells p) (v.cells q) in
      no_match r r₁ w _ (pos 341) (codes_read r w p q n x y false h e e' lt lt' e'')
        (λ t. jump_step t v (pos 341) (pos 342) (pos 343) (pos 368) refl refl refl refl refl)
        (record { keeps = (refl, refl, refl); current = refl; address = refl; count = refl })
  codes-Judged r w p q n x y true rest h e e' lt lt' e'' more =
      let r₁ = read_both r (v.cells p) (v.cells q) in
      let r₂ = moved_on r₁ in
      Judged-after r (jumped r₂ (pos 334)) w _ _ rest
        (codes_read r w p q n x y true h e e' lt lt' e''
          >> (reach {s = machine_at (pos 344) r₁ v} {s' = machine_at (pos 347) r₂ v} 3 refl
              >> jump_step r₂ v (pos 347) (pos 348) (pos 349) (pos 334) refl refl refl refl refl))
        (record { keeps = (refl, refl, refl); current = refl; address = refl; count = refl })
        (more (jumped r₂ (pos 334)) (record {
          word = ap (λ z. z +ℤ pos 1) h.word ∙ pos-suc p;
          sought = ap (λ z. z +ℤ pos 1) h.sought ∙ pos-suc q;
          left = ap (λ z. z -ℤ pos 1) h.left ∙ suc-pred n;
          width = h.width;
        }))

  -- `FIND_CHARS`, on names of one length.
  pub chars_loop :
      (xs ys : List ℤ) (r : RegisterFile) (w : ℤ) (p q : ℕ)
      → length xs ≡ length ys
      → Comparing r w p q (length ys)
      → At v.cells p xs
      → At v.cells q ys
      → p + length xs ≤ 2048
      → q + length ys ≤ 2048
      → Judged v r w (machine_at (pos 334) r v) (same_name xs ys)
  unfolding ticks same_name
  chars_loop [] [] r w p q l h a a' le le' = record {
    registers' = r;
    reached =
        jz_step r v (pos 334) (pos 335) (pos 350) "COUNT" (pos 15) true refl refl refl
          (ap (λ z. eqb_ℤ z (pos 0)) h.left);
    post = (
      record { keeps = (refl, refl, refl); current = refl; address = refl; count = refl },
      h.width,
    );
  }
  chars_loop [] (y ∷ ys) r w p q l h a a' le le' = absurd (omega arith)
  chars_loop (x ∷ xs) [] r w p q l h a a' le le' = absurd (omega arith)
  chars_loop (x ∷ xs) (y ∷ ys) r w p q l h (e, a) (e', a') le le' =
      codes-Judged r w p q (length ys) x y (eqb_ℤ x y) (same_name xs ys) h e e' (omega arith)
        (omega arith) refl
        (λ r' h'.
          chars_loop xs ys r' w (suc p) (suc q) (omega arith) h' a a' (omega arith) (omega arith))
