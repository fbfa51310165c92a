-- ===== src/Prelude/Lists.antt =====
-- Lists measured by native numbers, predicates on lists by recursion, and the laws of `map` and
-- `filter` for a Boolean test.
use Prim.Native.Nat.{ℕ, suc, ◌+◌}
use mathlib.Core.Path.{◌≡◌, refl, ap, ap₂}
use mathlib.Core.Bool.{Bool, true, false, ◌&&◌}
use mathlib.Core.List.{List, [], ◌∷◌, ◌++◌, map}
use native.Mathlib.Omega.{arith}
use sauryctf.Prelude.Tests.{if◌then◌else◌}

module _ {ℓ} {A : Type ℓ} where
  abbrev pub length : List A → ℕ
  length [] = 0
  length (x ∷ xs) = suc (length xs)

  -- `Array.prototype.filter`.
  abbrev pub filter : (A → Bool) → List A → List A
  filter p [] = []
  filter p (x ∷ xs) = if p x then x ∷ filter p xs else filter p xs

  abbrev pub any : (A → Bool) → List A → Bool
  any p [] = false
  any p (x ∷ xs) = if p x then true else any p xs

  abbrev pub all : (A → Bool) → List A → Bool
  all p [] = true
  all p (x ∷ xs) = p x && all p xs

  -- How many elements pass a test.
  abbrev pub count : (A → Bool) → List A → ℕ
  count p [] = 0
  count p (x ∷ xs) = if p x then suc (count p xs) else count p xs

  pub length-append : (xs ys : List A) → length (xs ++ ys) ≡ length xs + length ys
  length-append [] ys = omega arith
  length-append (x ∷ xs) ys = omega (arith, length-append xs ys)

  pub length-filter : (p : A → Bool) (xs : List A) → length (filter p xs) ≡ count p xs
  length-filter p [] = refl
  length-filter p (x ∷ xs) = ground (arith, length-filter p xs)

  pub filter-append :
      (p : A → Bool) (xs ys : List A) → filter p (xs ++ ys) ≡ filter p xs ++ filter p ys
  filter-append p [] ys = refl
  filter-append p (x ∷ xs) ys = ground (arith, filter-append p xs ys)

  pub filter-snoc_out :
      (p : A → Bool) (xs : List A) (x : A) → p x ≡ false → filter p (xs ++ x ∷ []) ≡ filter p xs
  filter-snoc_out p [] x h = ground arith
  filter-snoc_out p (y ∷ ys) x h = ground (arith, filter-snoc_out p ys x h)

  pub filter-snoc_in :
      (p : A → Bool) (xs : List A) (x : A)
      → p x ≡ true
      → filter p (xs ++ x ∷ []) ≡ filter p xs ++ x ∷ []
  filter-snoc_in p [] x h = ground arith
  filter-snoc_in p (y ∷ ys) x h = ground (arith, filter-snoc_in p ys x h)

  pub any-append :
      (p : A → Bool) (xs ys : List A) → any p (xs ++ ys) ≡ (if any p xs then true else any p ys)
  any-append p [] ys = refl
  any-append p (x ∷ xs) ys = ground (arith, any-append p xs ys)

  pub count-append : (p : A → Bool) (xs ys : List A) → count p (xs ++ ys) ≡ count p xs + count p ys
  count-append p [] ys = omega arith
  count-append p (x ∷ xs) ys = ground (arith, count-append p xs ys)

-- A predicate that holds of each element, by recursion.
abbrev pub All {ℓ κ} : {A : Type ℓ} → (A → Type κ) → List A → Type κ
All P [] = Unit
All P (x ∷ xs) = P x × All P xs

module _ {ℓ κ} {A : Type ℓ} (P : A → Type κ) where
  pub All-append : (xs ys : List A) → All P xs → All P ys → All P (xs ++ ys)
  All-append [] ys hx hy = hy
  All-append (x ∷ xs) ys hx hy = (hx.0, All-append xs ys hx.1 hy)

  pub All-of_forall : ((a : A) → P a) → (xs : List A) → All P xs
  All-of_forall h [] = tt
  All-of_forall h (x ∷ xs) = (h x, All-of_forall h xs)

module _ {ℓ κ} {A : Type ℓ} {B : Type κ} where
  pub length-map : (f : A → B) (xs : List A) → length (map f xs) ≡ length xs
  length-map f [] = refl
  length-map f (x ∷ xs) = ap suc (length-map f xs)

  pub count-map :
      (f : A → B) (p : B → Bool) (xs : List A) → count p (map f xs) ≡ count (λ x. p (f x)) xs
  count-map f p [] = refl
  count-map f p (x ∷ xs) = ground (arith, count-map f p xs)

  -- A relation that holds between the elements of two lists, place by place.
  abbrev pub All₂ : (A → B → Type 0) → List A → List B → Type 0
  All₂ R [] [] = Unit
  All₂ R (x ∷ xs) (y ∷ ys) = R x y × All₂ R xs ys
  All₂ R [] (y ∷ ys) = ⊥
  All₂ R (x ∷ xs) [] = ⊥

  pub All₂-imp :
      (R S : A → B → Type 0) (xs : List A) (ys : List B)
      → ((x : A) (y : B) → R x y → S x y)
      → All₂ R xs ys
      → All₂ S xs ys
  All₂-imp R S [] [] f h = tt
  All₂-imp R S (x ∷ xs) (y ∷ ys) f h = (f x y h.0, All₂-imp R S xs ys f h.1)
  All₂-imp R S [] (y ∷ ys) f h = h
  All₂-imp R S (x ∷ xs) [] f h = h

  pub All₂-append :
      (R : A → B → Type 0) (xs : List A) (ys : List B) (xs' : List A) (ys' : List B)
      → All₂ R xs ys
      → All₂ R xs' ys'
      → All₂ R (xs ++ xs') (ys ++ ys')
  All₂-append R [] [] xs' ys' h k = k
  All₂-append R (x ∷ xs) (y ∷ ys) xs' ys' h k = (h.0, All₂-append R xs ys xs' ys' h.1 k)
  All₂-append R [] (y ∷ ys) xs' ys' h k = absurd h
  All₂-append R (x ∷ xs) [] xs' ys' h k = absurd h

  -- `xs.map((x, index) => f(index, x))`, from a first index.
  abbrev pub map_from : (ℕ → A → B) → ℕ → List A → List B
  map_from f i [] = []
  map_from f i (x ∷ xs) = f i x ∷ map_from f (suc i) xs

  pub length-map_from : (f : ℕ → A → B) (i : ℕ) (xs : List A) → length (map_from f i xs) ≡ length xs
  length-map_from f i [] = refl
  length-map_from f i (x ∷ xs) = ap suc (length-map_from f (suc i) xs)

module _ {ℓ κ} {A : Type ℓ} {B : Type κ} {C : Type 0} (f : A → C) (g : B → C) where
  -- Lists whose elements have the same key, place by place, have the same keys.
  pub All₂-map : (xs : List A) (ys : List B) → All₂ (λ x y. g y ≡ f x) xs ys → map g ys ≡ map f xs
  All₂-map [] [] h = refl
  All₂-map (x ∷ xs) (y ∷ ys) h = ap₂ (λ c cs. c ∷ cs) h.0 (All₂-map xs ys h.1)
  All₂-map [] (y ∷ ys) h = absurd h
  All₂-map (x ∷ xs) [] h = absurd h

module _ {ℓ κ} {A : Type ℓ} {B : Type κ} where
  pub All-of_All₂ :
      (R : A → B → Type 0) (P : B → Type 0) (xs : List A) (ys : List B)
      → ((x : A) (y : B) → R x y → P y)
      → All₂ R xs ys
      → All P ys
  All-of_All₂ R P [] [] f h = tt
  All-of_All₂ R P (x ∷ xs) (y ∷ ys) f h = (f x y h.0, All-of_All₂ R P xs ys f h.1)
  All-of_All₂ R P [] (y ∷ ys) f h = absurd h
  All-of_All₂ R P (x ∷ xs) [] f h = absurd h

  pub All-of_map :
      (f : A → B) (P : B → Type 0) (xs : List A) → All P (map f xs) → All (λ x. P (f x)) xs
  All-of_map f P [] h = tt
  All-of_map f P (x ∷ xs) h = (h.0, All-of_map f P xs h.1)

  pub All-map :
      (f : A → B) (P : B → Type 0) (xs : List A) → All (λ x. P (f x)) xs → All P (map f xs)
  All-map f P [] h = tt
  All-map f P (x ∷ xs) h = (h.0, All-map f P xs h.1)

module _ {ℓ} {A : Type ℓ} where
  pub All-filter : (P : A → Type 0) (p : A → Bool) (xs : List A) → All P xs → All P (filter p xs)
  All-filter P p [] h = tt
  All-filter P p (x ∷ xs) h = ground (arith, All-filter P p xs h.1)

  pub All-imp : (P Q : A → Type 0) (xs : List A) → ((a : A) → P a → Q a) → All P xs → All Q xs
  All-imp P Q [] f h = tt
  All-imp P Q (x ∷ xs) f h = (f x h.0, All-imp P Q xs f h.1)
