-- ===== src/Kernel/Words/Headers.antt =====
-- services/kernel/routines.py: the headers that `FIND` walks, and how it looks at one of them.
use min_cpu_forth.Prelude.{
  ℕ, suc, ◌+◌, ◌≤◌, ◌≡◌, refl, Bool, true, false, List, [], ◌∷◌, length, arith, ap, ◌∙◌, sym, subst,
  ◌&&◌, Option, none, some, if◌then◌else◌,
}
use min_cpu_forth.Prelude.Int.{ℤ, pos, ◌+ℤ◌, ◌-ℤ◌, eqb_ℤ, set_value, difference, suc-pred, eqb_suc}
use min_cpu_forth.Registers
use min_cpu_forth.Registers.{RegisterFile}
use min_cpu_forth.Stack.View.{At}
use min_cpu_forth.Dictionary.Codec.{pos-suc}
use min_cpu_forth.Emulator.Spec.{ticks}
use min_cpu_forth.Dictionary.Chain.{Entry, name_field, codes, Holds}
use min_cpu_forth.Kernel.Words.{World, machine_at}
use min_cpu_forth.Kernel.Words.Reaching.{Reaches, reach, ◌>>◌, load_step, jz_step, jump_step}
use min_cpu_forth.Kernel.Words.Names.{
  same_name, same_name-length, Still, Judged, Judged-after, no_match, chars_loop,
}

-- A header that is not smudged and bears the name.
unfoldable pub matches : List ℤ → Entry → Bool
unfolding same_name
matches name e = eqb_ℤ e.smudge (pos 0) && same_name (codes e) name

-- The first header that bears the name.
unfoldable pub search : List ℤ → List Entry → Option Entry
unfolding same_name matches
search name [] = none
search name (e ∷ es) = if matches name e then some e else search name es

-- The registers after `MOV dst, src` and `SUB dst, n`.
abbrev pub lowered : RegisterFile → ℤ → ℤ → RegisterFile
lowered r z n =
    let t = r "T" -ℤ r "T" in
    Registers.write (Registers.write (Registers.write r "T" t) "T" (t +ℤ z)) "T" (t +ℤ z -ℤ n)

-- Before the names are compared.
abbrev lined_up : RegisterFile → RegisterFile
lined_up r =
    let w = r "WPTR" -ℤ r "WPTR" in
    let s = r "SPTR" -ℤ r "SPTR" in
    let c = r "COUNT" -ℤ r "COUNT" in
    let r₁ = Registers.write (Registers.write r "WPTR" w) "WPTR" (w +ℤ r "CUR") in
    let r₂ = Registers.write r₁ "WPTR" (w +ℤ r "CUR" +ℤ pos 1) in
    let r₃ = Registers.write (Registers.write r₂ "SPTR" s) "SPTR" (s +ℤ r "NAMEADDR") in
    let r₄ = Registers.write r₃ "SPTR" (s +ℤ r "NAMEADDR" +ℤ pos 1) in
    Registers.write (Registers.write r₄ "COUNT" c) "COUNT" (c +ℤ r "SLEN")

-- What `FIND_LOOP` works on: a header, and the text that is looked up.
pub record Searching (r : RegisterFile) (at : ℤ) (a : ℕ) (name : List ℤ) : Type 0 where
  pub current : r "CUR" ≡ at
  pub address : r "NAMEADDR" ≡ pos a
  pub count : r "SLEN" ≡ pos (length name)

pub Searching-Still :
    {r r' : RegisterFile} {at : ℤ} {a : ℕ} {name : List ℤ}
    → Searching r at a name
    → Still r r'
    → Searching r' at a name
Searching-Still h s = record {
  current = s.current ∙ h.current;
  address = s.address ∙ h.address;
  count = s.count ∙ h.count;
}

module _ (v : World) (a : ℕ) (name : List ℤ) (text : At v.cells a (pos (length name) ∷ name))
    (text_fits : suc a + length name ≤ 2048) where
  -- The smudge flag.
  smudge_read :
      (r : RegisterFile) (e : Entry) (t : Bool)
      → Searching r (pos (name_field e)) a name
      → Holds v.cells e
      → eqb_ℤ e.smudge (pos 0) ≡ t
      → Reaches (machine_at (pos 309) r v) (
          machine_at
            (if t then pos 318 else pos 315)
            (Registers.write (lowered r (r "CUR") (pos 1)) "SMUDGE" (v.cells (suc (suc e.start))))
            v)
  unfolding ticks Registers.write
  smudge_read r e t h held e' =
      let r₁ = lowered r (r "CUR") (pos 1) in
      let r₂ = Registers.write r₁ "SMUDGE" (v.cells (suc (suc e.start))) in
      jz_step r v (pos 309) (pos 310) (pos 375) "CUR" (pos 65) false refl refl refl
        (ap (λ z. eqb_ℤ z (pos 0)) h.current ∙ eqb_suc (suc (suc e.start)))
      >> (reach {s = machine_at (pos 310) r v} {s' = machine_at (pos 313) r₁ v} 3 refl
          >> (load_step r₁ v (pos 313) (pos 314) "SMUDGE" "T" (suc (suc e.start)) refl refl
                (ap (λ z. z -ℤ pos 1) (set_value (r "T") (r "CUR") ∙ h.current)
                  ∙ suc-pred (suc (suc e.start)))
                (omega (arith, held.fits))
              >> jz_step r₂ v (pos 314) (pos 315) (pos 318) "SMUDGE" (pos 3) t refl refl refl
                  (ap (λ z. eqb_ℤ z (pos 0)) held.smudge ∙ e')))

  -- The length.
  length_read :
      (r : RegisterFile) (e : Entry) (u : Bool)
      → Searching r (pos (name_field e)) a name
      → Holds v.cells e
      → eqb_ℤ (pos (length (codes e))) (pos (length name)) ≡ u
      → Reaches (machine_at (pos 318) r v) (
          machine_at
            (if u then pos 326 else pos 323)
            (lowered
              (Registers.write r "WLEN" (v.cells (name_field e)))
              (v.cells (name_field e))
              (r "SLEN"))
            v)
  unfolding ticks Registers.write
  length_read r e u h held e' =
      let w = v.cells (name_field e) in
      let r₁ = Registers.write r "WLEN" w in
      let r₂ = lowered r₁ w (r "SLEN") in
      load_step r v (pos 318) (pos 319) "WLEN" "CUR" (name_field e) refl refl h.current
        (omega (arith, held.fits))
      >> (reach {s = machine_at (pos 319) r₁ v} {s' = machine_at (pos 322) r₂ v} 3 refl
          >> jz_step r₂ v (pos 322) (pos 323) (pos 326) "T" (pos 3) u refl refl refl (
              difference (r "T") w (r "SLEN")
              ∙ (ap (λ z. eqb_ℤ z (r "SLEN")) held.name.0
                  ∙ (ap (eqb_ℤ (pos (length (codes e)))) h.count ∙ e'))))

  -- The names, where their lengths agree.
  names-Judged :
      (r : RegisterFile) (e : Entry) (u : Bool)
      → Searching r (pos (name_field e)) a name
      → Holds v.cells e
      → eqb_ℤ (pos (length (codes e))) (pos (length name)) ≡ u
      → Judged v r
          (pos (length (codes e)))
          (machine_at (pos 318) r v)
          (u && same_name (codes e) name)
  unfolding ticks Registers.write
  names-Judged r e false h held e' =
      no_match v r _ (pos (length (codes e))) _ (pos 323) (length_read r e false h held e')
        (λ t. jump_step t v (pos 323) (pos 324) (pos 325) (pos 368) refl refl refl refl refl)
        (record { keeps = (refl, refl, refl); current = refl; address = refl; count = refl })
  names-Judged r e true h held e' =
      let w = v.cells (name_field e) in
      let r₁ = lowered (Registers.write r "WLEN" w) w (r "SLEN") in
      let r₂ = lined_up r₁ in
      Judged-after v r r₂ (pos (length (codes e))) _ _ (same_name (codes e) name)
        (length_read r e true h held e'
          >> reach {s = machine_at (pos 326) r₁ v} {s' = machine_at (pos 334) r₂ v} 8 refl)
        (record { keeps = (refl, refl, refl); current = refl; address = refl; count = refl })
        (chars_loop v (codes e) name r₂ (pos (length (codes e))) (suc (name_field e)) (suc a)
          (ground arith)
          (record {
            word =
                ap (λ z. z +ℤ pos 1) (set_value (r "WPTR") (r "CUR") ∙ h.current)
                ∙ pos-suc (name_field e);
            sought =
                ap (λ z. z +ℤ pos 1) (set_value (r "SPTR") (r "NAMEADDR") ∙ h.address) ∙ pos-suc a;
            left = set_value (r "COUNT") (r "SLEN") ∙ h.count;
            width = held.name.0;
          })
          held.name.1 text.1 held.fits text_fits)

  -- A header, smudged or not.
  pub header-Judged :
      (r : RegisterFile) (e : Entry) (t : Bool)
      → Searching r (pos (name_field e)) a name
      → Holds v.cells e
      → eqb_ℤ e.smudge (pos 0) ≡ t
      → Judged v r
          (pos (length (codes e)))
          (machine_at (pos 309) r v)
          (t && same_name (codes e) name)
  unfolding ticks Registers.write
  header-Judged r e false h held e' =
      no_match v r _ (pos (length (codes e))) _ (pos 315) (smudge_read r e false h held e')
        (λ t. jump_step t v (pos 315) (pos 316) (pos 317) (pos 368) refl refl refl refl refl)
        (record { keeps = (refl, refl, refl); current = refl; address = refl; count = refl })
  header-Judged r e true h held e' =
      let r₁ =
        Registers.write (lowered r (r "CUR") (pos 1)) "SMUDGE" (v.cells (suc (suc e.start))) in
      let still : Still r r₁ = record {
        keeps = (refl, refl, refl);
        current = refl;
        address = refl;
        count = refl;
      } in
      Judged-after v r r₁ (pos (length (codes e))) _ _ (same_name (codes e) name)
        (smudge_read r e true h held e') still
        (subst (Judged v r₁ (pos (length (codes e))) (machine_at (pos 318) r₁ v)) (agree _ refl)
          (names-Judged r₁ e _ (Searching-Still h still) held refl))
    where
      agree :
          (u : Bool)
          → eqb_ℤ (pos (length (codes e))) (pos (length name)) ≡ u
          → u && same_name (codes e) name ≡ same_name (codes e) name
      agree true h = refl
      agree false h = sym (same_name-length (codes e) name h)
