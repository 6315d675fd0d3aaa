-- ===== src/Kernel/Words/Tokens.antt =====
-- services/kernel/routines.py: `WORD`, which reads a token from the input into the word buffer.
use min_cpu_forth.Prelude.{
  ℕ, suc, ◌+◌, ◌≤◌, ◌<◌, ◌≡◌, refl, true, List, [], ◌∷◌, ◌++◌, length, arith, ap, ◌∙◌, subst, ◌⊎◌,
  inl, inr,
}
use min_cpu_forth.Prelude.Int.{ℤ, pos, ◌+ℤ◌, ◌-ℤ◌, eqb_ℤ, set_value, -ℤ_self}
use min_cpu_forth.Domain.Register
use min_cpu_forth.Memory.{update}
use min_cpu_forth.Dictionary.Codec.{pos-suc}
use min_cpu_forth.Registers
use min_cpu_forth.Registers.{RegisterFile}
use min_cpu_forth.Stack.View.{At}
use min_cpu_forth.Emulator.Spec.{ticks}
use min_cpu_forth.Kernel.Words.{World, data_is, machine_at, Does, Keeps}
use min_cpu_forth.Kernel.Words.Reaching.{
  Reaches, Gets, reach, ◌>>◌, reaches-Does, store_step, poured, poured-outside, At-poured,
  Keeps-trans,
}
use min_cpu_forth.Kernel.Words.Scan.{
  fed, with_cells, AllAre, NoneIs, Collecting, Collected, skip_loop, collect_loop,
}

-- Where the buffer begins.
abbrev pub buffer : ℕ
buffer = 1984

-- The cells after the token has been counted.
abbrev pub counted : (ℕ → ℤ) → List ℤ → ℕ → ℤ
counted cells token = update (poured cells (suc buffer) token) buffer (pos (length token))

At-update_below :
    (cells : ℕ → ℤ) (i p : ℕ) (x : ℤ) (xs : List ℤ)
    → i < p
    → At cells p xs
    → At (update cells i x) p xs
At-update_below cells i p x [] lt a = tt
At-update_below cells i p x (y ∷ ys) lt (e, a) =
    (ground arith, At-update_below cells i (suc p) x ys (omega arith) a)

module _ (r : RegisterFile) (xs : List ℤ) (k : ℕ) where
  -- From `WORD_END` on.
  word_end :
      (w : World) (r' : RegisterFile) (n : ℕ)
      → Collected r n r'
      → Gets
          (machine_at (pos 299) r' (data_is w xs (suc k)))
          (r Register.next_pointer)
          (data_is (with_cells w (update w.cells buffer (pos n))) (pos buffer ∷ xs) k)
          (Keeps r)
  unfolding ticks Registers.write
  word_end w r' n h =
      let r₁ =
        Registers.write (Registers.write r' "PTR" (r' "PTR" -ℤ r' "PTR")) "PTR"
          (r' "PTR" -ℤ r' "PTR" +ℤ pos buffer) in
      let w' = with_cells w (update w.cells buffer (pos n)) in
      record {
        registers' = r₁;
        reached =
            reach {s = machine_at (pos 299) r' (data_is w xs (suc k))}
              {s' = machine_at (pos 301) r₁ (data_is w xs (suc k))} 2 refl
            >> (subst
                  (λ z. Reaches (machine_at (pos 301) r₁ (data_is w xs (suc k))) (
                    machine_at (pos 302) r₁
                      (data_is (with_cells w (update w.cells buffer z)) xs (suc k))))
                  h.count
                  (store_step r₁ (data_is w xs (suc k)) (pos 301) (pos 302) "PTR" "LEN" buffer refl
                    refl (set_value (r' "PTR") (pos buffer)) (omega arith))
                >> subst
                    (λ z.
                      Reaches (machine_at (pos 302) r₁ (data_is w' xs (suc k)))
                        (machine_at (r Register.next_pointer) r₁ (data_is w' (z ∷ xs) k)))
                    (set_value (r' "PTR") (pos buffer))
                    (subst
                      (λ z.
                        Reaches (machine_at (pos 302) r₁ (data_is w' xs (suc k)))
                          (machine_at z r₁ (data_is w' (r₁ "PTR" ∷ xs) k)))
                      h.keeps.2 (reach 2 refl)));
        post = h.keeps;
      }

Collected-trans :
    (r r' r'' : RegisterFile) {n : ℕ} → Keeps r r' → Collected r' n r'' → Collected r n r''
Collected-trans r r' r'' keeps h = record {
  keeps = Keeps-trans r r' r'' keeps h.keeps;
  count = h.count;
}

module _ (v : World) (c : ℤ) (token : List ℤ) where
  pub counted-At : At (counted v.cells (c ∷ token)) buffer (pos (suc (length token)) ∷ c ∷ token)
  counted-At = (
    ground arith,
    At-update_below _ buffer (suc buffer) _ (c ∷ token) (omega arith)
        (At-poured v.cells (suc buffer) (c ∷ token)),
  )

  pub counted-outside :
      (j : ℕ)
      → (j < buffer) ⊎ (suc buffer + suc (length token) ≤ j)
      → counted v.cells (c ∷ token) j ≡ v.cells j
  counted-outside j (inl lt) =
      ground (arith, poured-outside v.cells (suc buffer) (c ∷ token) j (inl (omega arith)))
  counted-outside j (inr le) =
      ground (arith, poured-outside v.cells (suc buffer) (c ∷ token) j (inr le))

module _ (r : RegisterFile) (v : World) (d c stop : ℤ) (skip token rest xs : List ℤ) (k : ℕ)
    (all : AllAre d skip) (none : NoneIs d (c ∷ token)) (stops : eqb_ℤ stop d ≡ true)
    (fits : suc buffer + suc (length token) ≤ 2048) where
  abbrev below : World
  below = data_is v xs (suc k)

  -- Up to `WORD_COLLECT`, with the first code of the token read.
  word_start :
      Gets
        (machine_at (pos 278) r (fed (data_is v (d ∷ xs) k) (skip ++ c ∷ (token ++ stop ∷ rest))))
        (pos 288)
        (fed below (token ++ stop ∷ rest))
        (λ r'. Keeps r r' × Collecting r' c d (suc buffer) 0 r')
  unfolding ticks Registers.write
  word_start =
      let queue = skip ++ c ∷ (token ++ stop ∷ rest) in
      let r₀ = Registers.write r "DELIM" d in
      let first = skip_loop below d skip c (token ++ stop ∷ rest) r₀ refl all none.0 in
      let r₁ = first.registers' in
      let p = r₁ "PTR" -ℤ r₁ "PTR" +ℤ pos buffer in
      let r₂ =
        Registers.write
          (Registers.write
            (Registers.write (Registers.write r₁ "PTR" (r₁ "PTR" -ℤ r₁ "PTR")) "PTR" p) "PTR"
            (p +ℤ pos 1))
          "LEN" (r₁ "LEN" -ℤ r₁ "LEN") in
      record {
        registers' = r₂;
        reached =
            reach {s' = machine_at (pos 279) r₀ (fed below queue)} 1 refl
            >> (first.reached
                >> reach {s' = machine_at (pos 288) r₂ (fed below (token ++ stop ∷ rest))} 4 refl);
        post = (
          first.post.keeps,
          record {
            reading = record {
              keeps = (refl, refl, refl);
              current = first.post.current;
              delimiter = first.post.delimiter;
            };
            place = ap (λ z. z +ℤ pos 1) (set_value (r₁ "PTR") (pos buffer)) ∙ pos-suc buffer;
            count = -ℤ_self (r₁ "LEN");
          },
        );
      }

  -- The cells that are left do not depend on the registers.
  pub word_run :
      (n : ℕ) × Does
        (pos 278)
        n
        r
        (fed (data_is v (d ∷ xs) k) (skip ++ c ∷ (token ++ stop ∷ rest)))
        (data_is (with_cells (fed v rest) (counted v.cells (c ∷ token))) (pos buffer ∷ xs) k)
  word_run =
      let first = word_start in
      let middle =
        collect_loop d token below first.registers' c stop rest (suc buffer) 0 first.post.1 none.1
          stops fits in
      let keeps =
        subst (λ n. Collected r n middle.registers') (zero_plus (suc (length token)))
          (Collected-trans r first.registers' middle.registers' first.post.0 middle.post) in
      let last =
        word_end r xs k (with_cells (fed v rest) (poured v.cells (suc buffer) (c ∷ token)))
          middle.registers' (suc (length token)) keeps in
      (_, reaches-Does (first.reached >> (middle.reached >> last.reached)) last.post)
    where
      zero_plus : (n : ℕ) → 0 + n ≡ n
      zero_plus n = omega arith

  -- `WORD`: with a delimiter on top of the stack, and the input leading delimiters, a token of at
  -- most 63 codes without the delimiter, and a delimiter, all of these are read; the word buffer then
  -- holds the token's length and its codes, no other cell has changed, and the buffer's address
  -- replaces the delimiter on the stack.
  pub word-Does :
      (cells' : ℕ → ℤ) × ((n : ℕ) × Does
          (pos 278)
          n
          r
          (fed (data_is v (d ∷ xs) k) (skip ++ c ∷ (token ++ stop ∷ rest)))
          (data_is (with_cells (fed v rest) cells') (pos buffer ∷ xs) k))
      × At cells' buffer (pos (suc (length token)) ∷ c ∷ token)
      × ((j : ℕ) → (j < buffer) ⊎ (suc buffer + suc (length token) ≤ j) → cells' j ≡ v.cells j)
  word-Does =
      (counted v.cells (c ∷ token), word_run, counted-At v c token, counted-outside v c token)
