-- ===== src/Kernel/Lookup.antt =====
-- services/kernel/routines.py and adapters/dictionary.py: the kernel's `FIND` against `find`.
use min_cpu_forth.Prelude.{
  ℕ, suc, ◌+◌, ◌≤◌, ◌<◌, ◌≡◌, refl, List, [], ◌∷◌, length, Option, none, some, arith, ap, ◌∙◌, sym,
  subst, ◌&&◌, if◌then◌else◌,
}
use min_cpu_forth.Prelude.Int.{ℤ, pos, negsuc, eqb_ℤ}
use min_cpu_forth.Errors.{ok}
use min_cpu_forth.Memory.{Memory}
use min_cpu_forth.Registers.{RegisterFile}
use min_cpu_forth.Stack.View.{At}
use min_cpu_forth.Dictionary.Codec.{cells_of, length-cells_of}
use min_cpu_forth.Dictionary.Words.{Header, text_eq, find}
use min_cpu_forth.Dictionary.Chain.{Entry, codes, Chain, Chain-agree}
use min_cpu_forth.Dictionary.Invariant.{IsDictionary}
use min_cpu_forth.Dictionary.Lookup.{AllText, first_named, shown, find-Chain}
use min_cpu_forth.Kernel.Words.{World, data_is, Does}
use min_cpu_forth.Kernel.Words.Names.{same_name}
use min_cpu_forth.Kernel.Words.Headers.{matches, search}
use min_cpu_forth.Kernel.Words.Found.{found}
use min_cpu_forth.Kernel.Words.Finding.{find-Does}

abbrev pub NoneSmudged : List Entry → Type 0
NoneSmudged [] = Unit
NoneSmudged (e ∷ es) = (e.smudge ≡ pos 0) × NoneSmudged es

-- What `FIND` leaves for a header that `find` returns, or for none.
abbrev pub told : Option Header → List ℤ → List ℤ
told none xs = pos 0 ∷ pos 0 ∷ xs
told (some h) xs = (if h.immediate then pos 1 else negsuc 0) ∷ h.cfa ∷ xs

same_name-cells_of : (a b : List ℕ) → same_name (cells_of a) (cells_of b) ≡ text_eq a b
unfolding same_name text_eq
same_name-cells_of [] [] = refl
same_name-cells_of [] (d ∷ ds) = refl
same_name-cells_of (c ∷ cs) [] = refl
same_name-cells_of (c ∷ cs) (d ∷ ds) = ground (arith, same_name-cells_of cs ds)

matches-text_eq :
    (name : List ℕ) (e : Entry) → e.smudge ≡ pos 0 → matches (cells_of name) e ≡ text_eq e.name name
unfolding matches
matches-text_eq name e h =
    ap (λ z. eqb_ℤ z (pos 0) && same_name (codes e) (cells_of name)) h
    ∙ same_name-cells_of e.name name

search-first_named :
    (name : List ℕ) (es : List Entry)
    → NoneSmudged es
    → search (cells_of name) es ≡ first_named name es
unfolding search first_named
search-first_named name [] h = refl
search-first_named name (e ∷ es) (h, hs) =
    ap (λ b. if b then some e else search (cells_of name) es) (matches-text_eq name e h)
    ∙ ap (λ o. if text_eq e.name name then some e else o) (search-first_named name es hs)

found-told : (cells : ℕ → ℤ) (o : Option Entry) (xs : List ℤ) → found o xs ≡ told (shown cells o) xs
found-told cells none xs = refl
found-told cells (some e) xs = ground arith

-- Where the memory is a dictionary of which the names are strings of code points and no header is
-- smudged, and the kernel's machine has the same dictionary block, with the address of a text that
-- stands counted in the block on top of the data stack, and a free cell above it: `find` of that
-- text returns a header or none, as soon as it may look at as many headers as there are, and the
-- kernel's `FIND` ends and leaves that header's code field address and above it 1 for an immediate
-- word and -1 for another, or two zeros for none.
pub find-told :
    (m : Memory) (v : World) (p : ℕ) (es : List Entry) (name : List ℕ) (a : ℕ) (xs : List ℤ) (k : ℕ)
    (r : RegisterFile) (fuel : ℕ)
    → IsDictionary m p es
    → AllText es
    → NoneSmudged es
    → ((j : ℕ) → j < 2048 → v.cells j ≡ m.cells j)
    → At v.cells a (pos (length name) ∷ cells_of name)
    → suc a + length name ≤ 2048
    → length es ≤ fuel
    → (o : Option Header) × (find fuel m name ≡ some (ok o))
      × ((n : ℕ) × Does (pos 304) n r (data_is v (pos a ∷ xs) (suc k)) (data_is v (told o xs) k))
find-told m v p es name a xs k r fuel d texts plain same (e, at) fits le =
    let chain : Chain v.cells (v.cells 1) es =
      Chain-agree m.cells v.cells p (λ j low lt. same j (omega (arith, d.high))) es (m.cells 1)
        (v.cells 1) (same 1 (omega arith)) d.within d.chain in
    let run =
      find-Does v a (cells_of name) (e ∙ ap pos (sym (length-cells_of name)), at)
        (omega (arith, length-cells_of name)) xs k r es chain in
    (
      shown m.cells (first_named name es),
      find-Chain m d.size fuel name es d.chain texts le,
      (
        run.0,
        subst (λ ys. Does (pos 304) run.0 r (data_is v (pos a ∷ xs) (suc k)) (data_is v ys k))
            (ap (λ o. found o xs) (search-first_named name es plain)
              ∙ found-told m.cells (first_named name es) xs)
            run.1,
      ),
    )
