-- ===== src/Prelude/Result.antt =====
-- Code that throws: a value or an error, the `do` blocks over it, and loops that may throw.
use mathlib.Core.Path.{◌≡◌, refl, subst}
use mathlib.Core.Bool.{Bool, true, false}
use mathlib.Core.List.{List, [], ◌∷◌, map}
use sauryctf.Prelude.Lists.{All₂}

pub data Result {ε ℓ} (E : Type ε) (A : Type ℓ) : Type (ε ⊔ ℓ) where
  err : E → Result E A
  ok : A → Result E A

module _ {ε ℓ κ} {E : Type ε} {A : Type ℓ} {B : Type κ} where
  infixl 5 ◌>>=◌
  -- What follows an `await` or a call that may throw.
  abbrev pub ◌>>=◌ : Result E A → (A → Result E B) → Result E B
  err e >>= next = err e
  ok a >>= next = next a

  pub bind-eq-ok :
      (m : Result E A) (next : A → Result E B) {b : B}
      → (m >>= next) ≡ ok b
      → (a : A) × (m ≡ ok a) × (next a ≡ ok b)
  bind-eq-ok (err e) next h = cc
  bind-eq-ok (ok a) next h = (a, refl, h)

module _ {ε κ} {E : Type ε} {B : Type κ} where
  infixl 5 ◌>>◌
  abbrev pub ◌>>◌ : Result E (Unit {0}) → Result E B → Result E B
  check >> rest = check >>= λ _. rest

  pub ok-inj : {r : Result E B} {b c : B} → r ≡ ok b → r ≡ ok c → b ≡ c
  ok-inj h k = cc

-- `if (c) throw e`.
module _ {ε} {E : Type ε} where
  abbrev pub throw_if : Bool → E → Result E (Unit {0})
  throw_if false e = ok tt
  throw_if true e = err e

-- A `for` loop whose body may throw, over the state that it changes.
module _ {ℓ κ μ} {E : Type μ} {A : Type ℓ} {S : Type κ} where
  abbrev pub for_each : (S → A → Result E S) → List A → S → Result E S
  for_each body [] s = ok s
  for_each body (x ∷ xs) s = body s x >>= for_each body xs

-- `xs.map(f)` where `f` may throw.
module _ {ℓ κ μ} {E : Type μ} {A : Type ℓ} {B : Type κ} where
  abbrev pub map_result : (A → Result E B) → List A → Result E (List B)
  map_result f [] = ok []
  map_result f (x ∷ xs) = f x >>= λ y. map_result f xs >>= λ ys. ok (y ∷ ys)

-- A successful `map` gives each result in its place; `g` prepares the elements.
pub map_result-ok :
    {E A B C : Type 0} (f : B → Result E C) (g : A → B) (xs : List A) (ys : List C)
    → map_result f (map g xs) ≡ ok ys
    → All₂ (λ x y. f (g x) ≡ ok y) xs ys
map_result-ok f g [] [] h = tt
map_result-ok f g [] (y ∷ ys) h = cc
map_result-ok f g (x ∷ xs) ys h =
    let (z, e, h₁) = bind-eq-ok (f (g x)) _ h in
    let (zs, es, h₂) = bind-eq-ok (map_result f (map g xs)) _ h₁ in
    let same : z ∷ zs ≡ ys = cc in
    subst (λ l. All₂ (λ a b. f (g a) ≡ ok b) (x ∷ xs) l) same (e, map_result-ok f g xs zs es)

pub map_result-each :
    {E A B : Type 0} (f : A → Result E B) (xs : List A) (ys : List B)
    → map_result f xs ≡ ok ys
    → All₂ (λ x y. f x ≡ ok y) xs ys
map_result-each f [] [] h = tt
map_result-each f [] (y ∷ ys) h = cc
map_result-each f (x ∷ xs) ys h =
    let (z, e, h₁) = bind-eq-ok (f x) _ h in
    let (zs, es, h₂) = bind-eq-ok (map_result f xs) _ h₁ in
    let kept : z ∷ zs ≡ ys = cc in
    subst (λ l. All₂ (λ a b. f a ≡ ok b) (x ∷ xs) l) kept (e, map_result-each f xs zs es)

pub throw_if-ok : {E : Type 0} (b : Bool) (e : E) (u : Unit {0}) → throw_if b e ≡ ok u → b ≡ false
throw_if-ok true e u h = cc
throw_if-ok false e u h = refl
