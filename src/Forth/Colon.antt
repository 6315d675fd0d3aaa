-- ===== src/Forth/Colon.antt =====
-- services/forth.py: the order in which a colon definition runs its words, and the unknown ones.
use min_cpu_forth.Prelude.{ℕ, suc, ◌≡◌, String, none, some, List, [], ◌∷◌, ◌++◌, ap, ◌∙◌, sym}
use min_cpu_forth.Errors.{ok, err, unknown_word}
use min_cpu_forth.Effects.{Action, after, >>=-inversion}
use min_cpu_forth.Assembler.Specs.{lookup}
use min_cpu_forth.Forth.Service.{Forth, Word, colon, call, each, call_or_unknown, found}

module _ (f : Word → Action Forth (Unit {0})) where
  -- A sequence whose first part has ended well goes on from there.
  each-append :
      (names more : List String) (s s' : Forth)
      → each f names s ≡ (ok tt, s')
      → each f (names ++ more) s ≡ each f more s'
  unfolding each
  each-append [] more s s' e = ap (λ out. each f more out.1) e
  each-append (name ∷ names) more s s' e =
      let first = call_or_unknown f (lookup name s.dictionary) in
      let (u, s₁, e₁, e₂) = >>=-inversion first (λ _. each f names) s s' tt e in
      ap (λ out. after (λ _. each f (names ++ more)) out.0 out.1) e₁
      ∙ each-append names more s₁ s' e₂

  each-unknown :
      (bad : String) (rest : List String) (s : Forth)
      → lookup bad s.dictionary ≡ none
      → each f (bad ∷ rest) s ≡ (err unknown_word, s)
  unfolding each
  each-unknown bad rest s e =
      ap (λ o. after (λ _. each f rest) (call_or_unknown f o s).0 (call_or_unknown f o s).1) e

call-definition :
    (depth : ℕ) (name : String) (names : List String) (s : Forth)
    → lookup name s.colon_defs ≡ some names
    → call (suc depth) (colon name) s ≡ each (call depth) names s
unfolding call
call-definition depth name names s e = ap (λ o. after (each (call depth)) (found o) s) e

-- Where a call of one colon definition ends well, a call of another, which has the same words and
-- then a word that the dictionary at that point does not have, whatever words after it, runs the
-- same words to the same state, and raises `UnknownWordError` there.
pub call-unknown_word :
    (depth : ℕ) (known broken bad : String) (names rest : List String) (s s' : Forth)
    → lookup known s.colon_defs ≡ some names
    → lookup broken s.colon_defs ≡ some (names ++ bad ∷ rest)
    → call (suc depth) (colon known) s ≡ (ok tt, s')
    → lookup bad s'.dictionary ≡ none
    → call (suc depth) (colon broken) s ≡ (err unknown_word, s')
call-unknown_word depth known broken bad names rest s s' e e' ends missing =
    call-definition depth broken (names ++ bad ∷ rest) s e'
    ∙ (each-append (call depth) names (bad ∷ rest) s s'
          (sym (call-definition depth known names s e) ∙ ends)
        ∙ each-unknown (call depth) bad rest s' missing)
