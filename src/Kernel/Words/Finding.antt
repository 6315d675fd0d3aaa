-- ===== src/Kernel/Words/Finding.antt =====
-- services/kernel/routines.py: `FIND`, against a search of the chain of headers.
use min_cpu_forth.Prelude.{
  ℕ, suc, ◌+◌, ◌≤◌, ◌≡◌, refl, Bool, true, false, Option, none, some, List, [], ◌∷◌, length, arith,
  ap, ◌∙◌, subst, if◌then◌else◌,
}
use min_cpu_forth.Prelude.Int.{ℤ, pos, ◌+ℤ◌, ◌-ℤ◌, eqb_ℤ, set_value, int_laws}
use min_cpu_forth.Registers
use min_cpu_forth.Registers.{RegisterFile}
use min_cpu_forth.Stack.View.{At}
use min_cpu_forth.Emulator.Spec.{Abstract, ticks}
use min_cpu_forth.Dictionary.Chain.{Entry, name_field, codes, code_field, Holds, Chain}
use min_cpu_forth.Kernel.Words.{World, data_is, machine_at, Does, Keeps}
use min_cpu_forth.Kernel.Words.Reaching.{
  Reaches, reach, ◌>>◌, reaches-Does, load_step, jz_step, jump_step, jumped, Keeps-trans,
}
use min_cpu_forth.Kernel.Words.Names.{Judged}
use min_cpu_forth.Kernel.Words.Headers.{
  search, matches, lowered, Searching, Searching-Still, header-Judged,
}
use min_cpu_forth.Kernel.Words.Found.{found, below, Answers, before, none_end, flag_end}

minus_two : (p : ℕ) → pos (suc (suc p)) -ℤ pos 2 ≡ pos p
minus_two p = omega int_laws

minus_three : (p : ℕ) → pos (suc (suc (suc p))) -ℤ pos 3 ≡ pos p
minus_three p = omega int_laws

-- The registers with the address of the code field on the way to the stack.
abbrev addressed : RegisterFile → RegisterFile
addressed r =
    let c = r "CFA" -ℤ r "CFA" +ℤ r "CUR" in
    Registers.write
      (Registers.write (Registers.write (Registers.write r "CFA" (r "CFA" -ℤ r "CFA")) "CFA" c)
        "CFA" (c +ℤ pos 1))
      "CFA" (c +ℤ pos 1 +ℤ r "WLEN")

cfa_value : (p n : ℕ) (z : ℤ) → z -ℤ z +ℤ pos p +ℤ pos 1 +ℤ pos n ≡ pos (suc p + n)
cfa_value p n z = omega int_laws

module _ (v : World) (a : ℕ) (name : List ℤ) (text : At v.cells a (pos (length name) ∷ name))
    (text_fits : suc a + length name ≤ 2048) (xs : List ℤ) (k : ℕ) where
  -- From `FIND_MATCH` on.
  match_end :
      (r r' : RegisterFile) (e : Entry)
      → Keeps r r'
      → Searching r' (pos (name_field e)) a name
      → r' "WLEN" ≡ pos (length (codes e))
      → Holds v.cells e
      → Answers v xs k r (machine_at (pos 350) r' (below v xs k)) (some e)
  unfolding ticks Registers.write
  match_end r r' e keeps h width held =
      let start = machine_at (pos 350) r' (below v xs k) in
      let r₁ = addressed r' in
      let c = r₁ "CFA" in
      let r₂ = lowered r₁ (r₁ "CUR") (pos 2) in
      let r₃ = Registers.write r₂ "IMM" (v.cells (suc e.start)) in
      let pushed : r₁ "CFA" ≡ pos (code_field e) =
        ap (λ z. r' "CFA" -ℤ r' "CFA" +ℤ z +ℤ pos 1 +ℤ r' "WLEN") h.current
        ∙ (ap (λ z. r' "CFA" -ℤ r' "CFA" +ℤ pos (name_field e) +ℤ pos 1 +ℤ z) width
            ∙ cfa_value (name_field e) (length (codes e)) (r' "CFA")) in
      let w = data_is v (pos (code_field e) ∷ xs) (suc k) in
      let last = flag_end v xs k r r₃ (pos (code_field e)) (eqb_ℤ e.immediate (pos 0)) keeps in
      record {
        registers' = last.registers';
        reached =
            subst (λ z. Reaches start (machine_at (pos 358) r₂ (data_is v (z ∷ xs) (suc k)))) pushed
              (reach {s = start} {s' = machine_at (pos 358) r₂ (data_is v (c ∷ xs) (suc k))} 8 refl)
            >> (load_step r₂ w (pos 358) (pos 359) "IMM" "T" (suc e.start) refl refl
                  (ap (λ z. z -ℤ pos 2) (set_value (r' "T") (r' "CUR") ∙ h.current)
                    ∙ minus_two (suc e.start))
                  (omega (arith, held.fits))
                >> (jz_step r₃ w (pos 359) (pos 360) (pos 364) "IMM" (pos 4)
                      (eqb_ℤ e.immediate (pos 0)) refl refl refl
                      (ap (λ z. eqb_ℤ z (pos 0)) held.immediate)
                    >> last.reached));
        post = last.post;
      }

  -- `FIND_NEXT`: the link.
  next_read :
      (r : RegisterFile) (e : Entry)
      → Searching r (pos (name_field e)) a name
      → Holds v.cells e
      → Reaches (machine_at (pos 368) r (below v xs k)) (
          machine_at
            (pos 309)
            (jumped
              (Registers.write (lowered r (r "CUR") (pos 3)) "CUR" (v.cells e.start))
              (pos 309))
            (below v xs k))
  unfolding ticks Registers.write
  next_read r e h held =
      let r₁ = lowered r (r "CUR") (pos 3) in
      let r₂ = Registers.write r₁ "CUR" (v.cells e.start) in
      reach {s = machine_at (pos 368) r (below v xs k)}
        {s' = machine_at (pos 371) r₁ (below v xs k)} 3 refl
      >> (load_step r₁ (below v xs k) (pos 371) (pos 372) "CUR" "T" e.start refl refl
            (ap (λ z. z -ℤ pos 3) (set_value (r "T") (r "CUR") ∙ h.current) ∙ minus_three e.start)
            (omega (arith, held.fits))
          >> jump_step r₂ (below v xs k) (pos 372) (pos 373) (pos 374) (pos 309) refl refl refl refl
              refl)

  -- After a header has been looked at, given what the rest of the search does.
  judged :
      (r : RegisterFile) (e : Entry) (start : Abstract) (b : Bool) (o : Option Entry)
      → Searching r (pos (name_field e)) a name
      → Holds v.cells e
      → Judged (below v xs k) r (pos (length (codes e))) start b
      → ((r' : RegisterFile)
          → Searching r' (v.cells e.start) a name
          → Answers v xs k r' (machine_at (pos 309) r' (below v xs k)) o)
      → Answers v xs k r start (if b then some e else o)
  unfolding ticks Registers.write
  judged r e start true o h held j more =
      before v xs k r (some e) j.reached
        (match_end r j.registers' e j.post.0.keeps (Searching-Still h j.post.0) j.post.1 held)
  judged r e start false o h held j more =
      let r₁ = j.registers' in
      let h₁ = Searching-Still h j.post in
      let r₂ =
        jumped (Registers.write (lowered r₁ (r₁ "CUR") (pos 3)) "CUR" (v.cells e.start))
          (pos 309) in
      let rest = more r₂ (record { current = refl; address = h₁.address; count = h₁.count }) in
      record {
        registers' = rest.registers';
        reached =
            subst (λ p. Reaches start (machine_at p rest.registers' (data_is v (found o xs) k)))
              j.post.keeps.2 (j.reached >> (next_read r₁ e h₁ held >> rest.reached));
        post = Keeps-trans r r₁ rest.registers' j.post.keeps rest.post;
      }

  -- `FIND_LOOP`.
  find_loop :
      (es : List Entry) (r : RegisterFile) (at : ℤ)
      → Searching r at a name
      → Chain v.cells at es
      → Answers v xs k r (machine_at (pos 309) r (below v xs k)) (search name es)
  unfolding ticks search matches
  find_loop [] r at h chain =
      before v xs k r none
        (jz_step r (below v xs k) (pos 309) (pos 310) (pos 375) "CUR" (pos 65) true refl refl refl
          (ap (λ z. eqb_ℤ z (pos 0)) (h.current ∙ chain)))
        (none_end v xs k r r (refl, refl, refl))
  find_loop (e ∷ es) r at h (e', held, chain) =
      let h' : Searching r (pos (name_field e)) a name = record {
        current = h.current ∙ e';
        address = h.address;
        count = h.count;
      } in
      judged r e _ (matches name e) (search name es) h' held
        (header-Judged (below v xs k) a name text text_fits r e _ h' held refl)
        (λ r' h''. find_loop es r' (v.cells e.start) h'' chain)

  -- `FIND`, with the address of a counted text in the dictionary block on top of the data stack, a
  -- free cell above it, and in `LATEST` the address that leads to a chain of headers in the block:
  -- it ends, and leaves the address of the code field of the first header of the chain that is not
  -- smudged and bears the text as its name, and above it 1 where that is an immediate word and -1
  -- where it is not; or two zeros, where there is no such header. No cell of the block changes.
  pub find-Does :
      (r : RegisterFile) (es : List Entry)
      → Chain v.cells (v.cells 1) es
      → (n : ℕ) × Does
          (pos 304)
          n
          r
          (data_is v (pos a ∷ xs) (suc k))
          (data_is v (found (search name es) xs) k)
  unfolding ticks Registers.write
  find-Does r es chain =
      let r₀ = Registers.write r "NAMEADDR" (pos a) in
      let r₁ = Registers.write r₀ "SLEN" (v.cells a) in
      let t = r "T" -ℤ r "T" in
      let r₂ = Registers.write (Registers.write r₁ "T" t) "T" (t +ℤ pos 1) in
      let r₃ = Registers.write r₂ "CUR" (v.cells 1) in
      let last =
        find_loop es r₃ (v.cells 1) (record { current = refl; address = refl; count = text.0 })
          chain in
      (
        _,
        reaches-Does
            (reach {s = machine_at (pos 304) r (data_is v (pos a ∷ xs) (suc k))}
                {s' = machine_at (pos 305) r₀ (below v xs k)} 1 refl
              >> (load_step r₀ (below v xs k) (pos 305) (pos 306) "SLEN" "NAMEADDR" a refl refl refl
                    (omega (arith, text_fits))
                  >> (reach {s = machine_at (pos 306) r₁ (below v xs k)}
                        {s' = machine_at (pos 308) r₂ (below v xs k)} 2 refl
                      >> (load_step r₂ (below v xs k) (pos 308) (pos 309) "CUR" "T" 1 refl refl
                            (set_value (r "T") (pos 1)) (omega arith)
                          >> last.reached))))
            last.post,
      )
