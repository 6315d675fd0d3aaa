-- ===== src/Kernel/Words/Scan.antt =====
-- services/kernel/routines.py: the two loops of `WORD`, which skip delimiters and collect a token.
use min_cpu_forth.Prelude.{
  ℕ, suc, ◌+◌, ◌≤◌, ◌<◌, ◌≡◌, refl, Bool, true, false, List, [], ◌∷◌, ◌++◌, length, arith, ap, ◌∙◌,
  subst, if◌then◌else◌,
}
use min_cpu_forth.Prelude.Int.{ℤ, pos, negsuc, ◌+ℤ◌, ◌-ℤ◌, eqb_ℤ, difference, int_laws}
use min_cpu_forth.Memory.{update}
use min_cpu_forth.Dictionary.Codec.{pos-suc}
use min_cpu_forth.Registers
use min_cpu_forth.Registers.{RegisterFile}
use min_cpu_forth.Emulator.Spec.{ticks}
use min_cpu_forth.Kernel.Words.{World, machine_at, Keeps}
use min_cpu_forth.Kernel.Words.Reaching.{
  Reaches, Gets, reach, ◌>>◌, store_step, jz_step, jump_step, jumped, poured,
}

-- A world with another input.
abbrev pub fed : World → List ℤ → World
fed v queue = record v { char_input = queue }

-- Every code is the delimiter, or none is.
abbrev pub AllAre : ℤ → List ℤ → Type 0
AllAre d [] = Unit
AllAre d (x ∷ xs) = (eqb_ℤ x d ≡ true) × AllAre d xs

abbrev pub NoneIs : ℤ → List ℤ → Type 0
NoneIs d [] = Unit
NoneIs d (x ∷ xs) = (eqb_ℤ x d ≡ false) × NoneIs d xs

-- The registers after `IN C`, `MOV T, C` and `SUB T, DELIM`.
abbrev compared : RegisterFile → ℤ → RegisterFile
compared r c =
    Registers.write
      (Registers.write (Registers.write (Registers.write r "C" c) "T" (r "T" -ℤ r "T")) "T"
        (r "T" -ℤ r "T" +ℤ c))
      "T" (r "T" -ℤ r "T" +ℤ c -ℤ r "DELIM")

-- What `WORD` keeps in its registers: the delimiter and the code that it has read last.
pub record Reading (r : RegisterFile) (c d : ℤ) (r' : RegisterFile) : Type 0 where
  pub keeps : Keeps r r'
  pub current : r' "C" ≡ c
  pub delimiter : r' "DELIM" ≡ d

module _ (v : World) (d : ℤ) where
  skip_read :
      (r : RegisterFile) (c : ℤ) (queue : List ℤ) (b : Bool)
      → eqb_ℤ c (r "DELIM") ≡ b
      → Reaches
          (machine_at (pos 279) r (fed v (c ∷ queue)))
          (machine_at (if b then pos 279 else pos 284) (compared r c) (fed v queue))
  unfolding ticks Registers.write
  skip_read r c queue b e =
      reach {s' = machine_at (pos 283) (compared r c) (fed v queue)} 4 refl
      >> jz_step (compared r c) (fed v queue) (pos 283) (pos 284) (pos 279) "T" (negsuc 4) b refl
          refl refl (difference (r "T") c (r "DELIM") ∙ e)

  -- Leading delimiters are read and dropped.
  pub skip_loop :
      (skip : List ℤ) (c : ℤ) (queue : List ℤ) (r : RegisterFile)
      → r "DELIM" ≡ d
      → AllAre d skip
      → eqb_ℤ c d ≡ false
      → Gets
          (machine_at (pos 279) r (fed v (skip ++ c ∷ queue)))
          (pos 284)
          (fed v queue)
          (Reading r c d)
  unfolding Registers.write
  skip_loop [] c queue r hd all e = record {
    registers' = compared r c;
    reached = skip_read r c queue false (ap (eqb_ℤ c) hd ∙ e);
    post = record { keeps = (refl, refl, refl); current = refl; delimiter = hd };
  }
  skip_loop (x ∷ skip) c queue r hd (e', all) e =
      let rest = skip_loop skip c queue (compared r x) hd all e in
      record {
        registers' = rest.registers';
        reached = skip_read r x (skip ++ c ∷ queue) true (ap (eqb_ℤ x) hd ∙ e') >> rest.reached;
        post = record {
          keeps = rest.post.keeps;
          current = rest.post.current;
          delimiter = rest.post.delimiter;
        };
      }

-- The registers after `ADD PTR, 1` and `ADD LEN, 1`.
abbrev advanced : RegisterFile → RegisterFile
advanced r = Registers.write (Registers.write r "PTR" (r "PTR" +ℤ pos 1)) "LEN" (r "LEN" +ℤ pos 1)

-- What `WORD` keeps while it collects: besides, where the next code goes and how many there are.
pub record Collecting (r : RegisterFile) (c d : ℤ) (p n : ℕ) (r' : RegisterFile) : Type 0 where
  pub reading : Reading r c d r'
  pub place : r' "PTR" ≡ pos p
  pub count : r' "LEN" ≡ pos n

pub record Collected (r : RegisterFile) (n : ℕ) (r' : RegisterFile) : Type 0 where
  pub keeps : Keeps r r'
  pub count : r' "LEN" ≡ pos n

abbrev pub with_cells : World → (ℕ → ℤ) → World
with_cells v cells = record v { cells = cells }

module _ (d : ℤ) where
  -- From `WORD_COLLECT` over one more code, to the branch.
  collect_read :
      (v : World) (r : RegisterFile) (p : ℕ) (c x : ℤ) (queue : List ℤ) (b : Bool)
      → r "PTR" ≡ pos p
      → r "C" ≡ c
      → p < 2048
      → eqb_ℤ x (r "DELIM") ≡ b
      → Reaches (machine_at (pos 288) r (fed v (x ∷ queue))) (
          machine_at
            (if b then pos 299 else pos 296)
            (compared (advanced r) x)
            (with_cells (fed v queue) (update v.cells p c)))
  unfolding ticks Registers.write
  collect_read v r p c x queue b hp hc lt e =
      let v' = with_cells (fed v (x ∷ queue)) (update v.cells p c) in
      let r' = compared (advanced r) x in
      subst
        (λ z.
          Reaches (machine_at (pos 288) r (fed v (x ∷ queue)))
            (machine_at (pos 289) r (with_cells (fed v (x ∷ queue)) (update v.cells p z))))
        hc (store_step r (fed v (x ∷ queue)) (pos 288) (pos 289) "PTR" "C" p refl refl hp lt)
      >> (reach {s = machine_at (pos 289) r v'}
            {s' = machine_at (pos 295) r' (with_cells (fed v queue) (update v.cells p c))} 6 refl
          >> jz_step r' (with_cells (fed v queue) (update v.cells p c)) (pos 295) (pos 296)
              (pos 299) "T" (pos 3) b refl refl refl (difference (r "T") x (r "DELIM") ∙ e))

  pub collect_loop :
      (token : List ℤ) (v : World) (r : RegisterFile) (c stop : ℤ) (rest : List ℤ) (p n : ℕ)
      → Collecting r c d p n r
      → NoneIs d token
      → eqb_ℤ stop d ≡ true
      → p + suc (length token) ≤ 2048
      → Gets
          (machine_at (pos 288) r (fed v (token ++ stop ∷ rest)))
          (pos 299)
          (with_cells (fed v rest) (poured v.cells p (c ∷ token)))
          (Collected r (n + suc (length token)))
  unfolding ticks Registers.write
  collect_loop [] v r c stop rest p n h none e fits = record {
    registers' = compared (advanced r) stop;
    reached =
        collect_read v r p c stop rest true h.place h.reading.current (omega arith)
          (ap (eqb_ℤ stop) h.reading.delimiter ∙ e);
    post = record { keeps = (refl, refl, refl); count = ap (λ z. z +ℤ pos 1) h.count ∙ next n };
  }
    where
      next : (n : ℕ) → pos n +ℤ pos 1 ≡ pos (n + 1)
      next n = omega int_laws
  collect_loop (x ∷ token) v r c stop rest p n h (ne, none) e fits =
      let r₁ = compared (advanced r) x in
      let more =
        collect_loop token (with_cells v (update v.cells p c)) (jumped r₁ (pos 288)) x stop rest
          (suc p) (suc n)
          (record {
            reading = record {
              keeps = (refl, refl, refl);
              current = refl;
              delimiter = h.reading.delimiter;
            };
            place = ap (λ z. z +ℤ pos 1) h.place ∙ pos-suc p;
            count = ap (λ z. z +ℤ pos 1) h.count ∙ pos-suc n;
          })
          none e (omega arith) in
      record {
        registers' = more.registers';
        reached =
            collect_read v r p c x (token ++ stop ∷ rest) false h.place h.reading.current
              (omega arith) (ap (eqb_ℤ x) h.reading.delimiter ∙ ne)
            >> (jump_step r₁ _ (pos 296) (pos 297) (pos 298) (pos 288) refl refl refl refl refl
                >> more.reached);
        post = record {
          keeps = more.post.keeps;
          count = more.post.count ∙ ap pos (add_suc n (suc (length token)));
        };
      }
    where
      add_suc : (a b : ℕ) → suc a + b ≡ a + suc b
      add_suc a b = omega arith
