-- ===== src/Effects.antt =====
-- Methods that change an object and may raise: the object comes back after a raise too, since
-- what was written stays written.
use min_cpu_forth.Prelude.{◌≡◌, refl}
use min_cpu_forth.Errors.{Error, Result, ok, err}

abbrev pub Action : Type 0 → Type 0 → Type 0
Action S A = S → Result A × S

module _ {S A : Type 0} where
  abbrev pub pure : A → Action S A
  pure a s = (ok a, s)

  abbrev pub raise : Error → Action S A
  raise e s = (err e, s)

  abbrev pub gets : (S → A) → Action S A
  gets f s = (ok (f s), s)

abbrev pub modify : {S : Type 0} → (S → S) → Action S (Unit {0})
modify f s = (ok tt, f s)

-- A value that is already there, or an exception.
abbrev pub lift : {S A : Type 0} → Result A → Action S A
lift (ok a) = pure a
lift (err e) = raise e

-- What a method does after another one that has ended in `r` at `s`.
abbrev pub after : {S A B : Type 0} → (A → Action S B) → Result A → S → Result B × S
after f (ok a) s = f a s
after f (err e) s = (err e, s)

infixl 5 ◌>>=◌ ◌>>◌
abbrev pub ◌>>=◌ : {S A B : Type 0} → Action S A → (A → Action S B) → Action S B
◌>>=◌ m f s = let (r, s') = m s in after f r s'

abbrev pub ◌>>◌ : {S B : Type 0} → Action S (Unit {0}) → Action S B → Action S B
m >> k = m >>= λ _. k

-- The method `m` has returned `a` and left the object as `s'`.
abbrev pub Returns : {S A : Type 0} → Action S A → S → A → S → Type 0
Returns m s a s' = m s ≡ (ok a, s')

after_inversion :
    {S A B : Type 0} (f : A → Action S B) (r : Result A) (s s' : S) (b : B)
    → after f r s ≡ (ok b, s')
    → (a : A) × (r ≡ ok a) × (f a s ≡ (ok b, s'))
after_inversion f (ok a) s s' b e = (a, refl, e)
after_inversion f (err x) s s' b e = absurd (cc)

-- A chain that has ended well has two parts that have.
pub >>=-inversion :
    {S A B : Type 0} (m : Action S A) (f : A → Action S B) (s s' : S) (b : B)
    → (m >>= f) s ≡ (ok b, s')
    → (a : A) × (s₁ : S) × (m s ≡ (ok a, s₁)) × (f a s₁ ≡ (ok b, s'))
>>=-inversion m f s s' b e =
    let (a, e₁, e₂) = after_inversion f (m s).0 (m s).1 s' b e in
    (a, (m s).1, λ i. (e₁ i, (m s).1), e₂)
