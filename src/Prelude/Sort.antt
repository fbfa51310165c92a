-- ===== src/Prelude/Sort.antt =====
-- `Array.prototype.toSorted`: a stable sort, which puts an element behind its equals.
use Prim.Native.Nat.{Ordering}
use mathlib.Core.Path.{◌≡◌, refl}
use mathlib.Core.Bool.{Bool}
use mathlib.Core.List.{List, [], ◌∷◌, Perm}
use mathlib.Core.List.Perm
use native.Mathlib.Omega.{arith}
use sauryctf.Prelude.Lists.{All, length, count}
use sauryctf.Prelude.Order.{Before, IsComparator}

module _ {ℓ} {A : Type ℓ} (cmp : A → A → Ordering) where
  -- Put an element before the first that does not precede it.
  unfoldable pub insert_sorted : A → List A → List A
  insert_sorted x [] = x ∷ []
  insert_sorted x (y ∷ ys) = elim (cmp x y) [
    | Ordering.gt ↦ y ∷ insert_sorted x ys
    | _ ↦ x ∷ y ∷ ys
  ]

  unfoldable pub to_sorted : List A → List A
  unfolding insert_sorted
  to_sorted [] = []
  to_sorted (x ∷ xs) = insert_sorted x (to_sorted xs)

  -- Every element comes before all that follow it.
  abbrev pub IsAscending : List A → Type 0
  IsAscending [] = Unit
  IsAscending (x ∷ xs) = All (Before cmp x) xs × IsAscending xs

  -- Sorting rearranges: the test of an element is met as often.
  count-insert_sorted :
      (p : A → Bool) (x : A) (ys : List A) → count p (insert_sorted x ys) ≡ count p (x ∷ ys)
  unfolding insert_sorted
  count-insert_sorted p x [] = refl
  count-insert_sorted p x (y ∷ ys) = ground (arith, count-insert_sorted p x ys)

  pub count-to_sorted : (p : A → Bool) (xs : List A) → count p (to_sorted xs) ≡ count p xs
  unfolding to_sorted
  count-to_sorted p [] = refl
  count-to_sorted p (x ∷ xs) =
      ground (arith, count-insert_sorted p x (to_sorted xs), count-to_sorted p xs)

  length-insert_sorted : (x : A) (ys : List A) → length (insert_sorted x ys) ≡ length (x ∷ ys)
  unfolding insert_sorted
  length-insert_sorted x [] = refl
  length-insert_sorted x (y ∷ ys) = ground (arith, length-insert_sorted x ys)

  pub length-to_sorted : (xs : List A) → length (to_sorted xs) ≡ length xs
  unfolding to_sorted
  length-to_sorted [] = refl
  length-to_sorted (x ∷ xs) =
      ground (arith, length-insert_sorted x (to_sorted xs), length-to_sorted xs)

  module _ {κ} (P : A → Type κ) where
    All-insert_sorted : (x : A) (ys : List A) → P x → All P ys → All P (insert_sorted x ys)
    unfolding insert_sorted
    All-insert_sorted x [] h hs = (h, tt)
    All-insert_sorted x (y ∷ ys) h hs = ground (arith, All-insert_sorted x ys h hs.1)

    pub All-to_sorted : (xs : List A) → All P xs → All P (to_sorted xs)
    unfolding to_sorted
    All-to_sorted [] hs = tt
    All-to_sorted (x ∷ xs) hs = All-insert_sorted x (to_sorted xs) hs.0 (All-to_sorted xs hs.1)

module _ {ℓ} {A : Type ℓ} (cmp : A → A → Ordering) where
  insert_sorted-perm : (x : A) (ys : List A) → Perm (insert_sorted cmp x ys) (x ∷ ys)
  unfolding insert_sorted
  insert_sorted-perm x [] = Perm.rfl
  insert_sorted-perm x (y ∷ ys) =
      elim (cmp x y)
        as (λ o.
          Perm (elim o [ Ordering.gt ↦ y ∷ insert_sorted cmp x ys | _ ↦ x ∷ y ∷ ys ])
            (x ∷ y ∷ ys)) [
              | Ordering.gt ↦ Perm.trans (Perm.cons y (insert_sorted-perm x ys)) (Perm.swap x y ys)
              | _ ↦ Perm.rfl
            ]

  -- The result is a rearrangement of the input.
  pub to_sorted-perm : (xs : List A) → Perm (to_sorted cmp xs) xs
  unfolding to_sorted
  to_sorted-perm [] = Perm.rfl
  to_sorted-perm (x ∷ xs) =
      Perm.trans (insert_sorted-perm x (to_sorted cmp xs)) (Perm.cons x (to_sorted-perm xs))

module _ {ℓ} {A : Type ℓ} {cmp : A → A → Ordering} (c : IsComparator cmp) where
  All-Before :
      (x y : A) (ys : List A) → Before cmp x y → All (Before cmp y) ys → All (Before cmp x) ys
  All-Before x y [] h hs = tt
  All-Before x y (z ∷ ys) h hs = (c.trans x y z h hs.0, All-Before x y ys h hs.1)

  Before-of_gt : (x y : A) → cmp x y ≡ Ordering.gt → Before cmp y x
  Before-of_gt x y h = ground (arith, c.anti x y)

  insert_sorted-IsAscending :
      (x : A) (ys : List A) → IsAscending cmp ys → IsAscending cmp (insert_sorted cmp x ys)
  unfolding insert_sorted
  insert_sorted-IsAscending x [] h = (tt, tt)
  insert_sorted-IsAscending x (y ∷ ys) h = ground (
    arith,
    Before-of_gt x y,
    All-Before x y ys,
    All-insert_sorted cmp (Before cmp y) x ys,
    insert_sorted-IsAscending x ys h.1,
  )

  -- With a comparator that is one, the result ascends.
  pub to_sorted-IsAscending : (xs : List A) → IsAscending cmp (to_sorted cmp xs)
  unfolding to_sorted
  to_sorted-IsAscending [] = tt
  to_sorted-IsAscending (x ∷ xs) =
      insert_sorted-IsAscending x (to_sorted cmp xs) (to_sorted-IsAscending xs)
