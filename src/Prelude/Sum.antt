-- ===== src/Prelude/Sum.antt =====
-- Sums of integers over a list, which no rearrangement changes.
use Prim.Native.Nat.{Ordering}
use mathlib.Core.Path.{◌≡◌, refl, ap, ◌∙◌}
use mathlib.Core.List.{List, [], ◌∷◌}
use native.Mathlib.Omega.{arith}
use sauryctf.Prelude.Int.{ℤ, pos, ◌+ℤ◌, +ℤ_swap}
use sauryctf.Prelude.Sort.{insert_sorted, to_sorted}

module _ {ℓ} {A : Type ℓ} (f : A → ℤ) where
  abbrev pub sum_by : List A → ℤ
  sum_by [] = pos 0
  sum_by (x ∷ xs) = f x +ℤ sum_by xs

  sum_by-insert_sorted :
      (cmp : A → A → Ordering) (x : A) (xs : List A)
      → sum_by (insert_sorted cmp x xs) ≡ f x +ℤ sum_by xs
  unfolding insert_sorted
  sum_by-insert_sorted cmp x [] = refl
  sum_by-insert_sorted cmp x (y ∷ ys) =
      ground (arith, sum_by-insert_sorted cmp x ys, +ℤ_swap (f x) (f y) (sum_by ys))

  pub sum_by-to_sorted :
      (cmp : A → A → Ordering) (xs : List A) → sum_by (to_sorted cmp xs) ≡ sum_by xs
  unfolding to_sorted
  sum_by-to_sorted cmp [] = refl
  sum_by-to_sorted cmp (x ∷ xs) =
      sum_by-insert_sorted cmp x (to_sorted cmp xs) ∙ ap (λ z. f x +ℤ z) (sum_by-to_sorted cmp xs)
