-- ===== src/Forth/Depth.antt =====
-- Colon definitions and the depth that the interpreter allows them.
use min_cpu_forth.Prelude.{ℕ, zero, suc, ◌≡◌, refl, String, some, List, ◌∷◌, ap, ◌∙◌, sym, subst}
use text.Mathlib.TextPositions.{eq_refl}
use min_cpu_forth.Errors.{Result, ok, err, recursion_error}
use min_cpu_forth.Effects.{Action, after}
use min_cpu_forth.Assembler.Specs.{lookup}
use min_cpu_forth.Forth.Service.{
  Forth, colon, call, each, call_or_unknown, definition_of, add_colon_def,
}

after-err :
    (f : Unit {0} → Action Forth (Unit {0})) (result : Result (Unit {0})) (s : Forth)
    → result ≡ err recursion_error
    → (after f result s).0 ≡ err recursion_error
after-err f result s e = rw e

module _ (name : String) (names : List String) (s : Forth) where
  abbrev defined : Forth
  unfolding add_colon_def
  defined = add_colon_def name (name ∷ names) s

  definition-defined : (definition_of name defined).0 ≡ ok (name ∷ names)
  unfolding add_colon_def
  definition-defined = rw (eq_refl name)

  word-defined : lookup name defined.dictionary ≡ some (colon name)
  unfolding add_colon_def
  word-defined = rw (eq_refl name)

-- A colon definition whose first word is itself raises `RecursionError`, whatever depth is allowed.
pub call-recursion_error :
    (depth : ℕ) (name : String) (names : List String) (s : Forth)
    → (call depth (colon name) (add_colon_def name (name ∷ names) s)).0 ≡ err recursion_error
unfolding call each add_colon_def
call-recursion_error zero name names s = refl
call-recursion_error (suc depth) name names s =
    let s' = defined name names s in
    subst (λ d. (after (each (call depth)) d s').0 ≡ err recursion_error)
      (sym (definition-defined name names s))
      (after-err (λ _. each (call depth) names) _ _
        (ap (λ o. (call_or_unknown (call depth) o s').0) (word-defined name names s)
          ∙ call-recursion_error depth name names s))
