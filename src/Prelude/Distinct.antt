-- ===== src/Prelude/Distinct.antt =====
-- Lists in which no key stands twice, and the maps that are made of them.
use Prim.Native.Nat.{◌≤◌, Ordering}
use mathlib.Core.Path.{◌≡◌, refl, ap, ◌∙◌}
use mathlib.Core.Logic.{inl, inr}
use mathlib.Core.Bool.{true, false, ◌||◌}
use mathlib.Core.List.{List, [], ◌∷◌, ◌++◌, map}
use mathlib.Core.Option.{some}
use native.Mathlib.Omega.{arith}
use sauryctf.Prelude.Tests.{if◌then◌else◌, is_some, Bool-cases}
use sauryctf.Prelude.Lists.{count, count-map}
use sauryctf.Prelude.Keys.{Key}
use sauryctf.Prelude.Dict.{Dict, get, set, values, contains, IsKeyed}
use sauryctf.Prelude.Sort.{to_sorted, count-to_sorted}

module _ {ℓ} {K : Type ℓ} ⦃e : Key K⦄ where
  -- No element stands twice.
  abbrev pub IsDistinct : List K → Type 0
  IsDistinct [] = Unit
  IsDistinct (k ∷ ks) = (contains ks k ≡ false) × IsDistinct ks

  pub contains-append :
      (k : K) (xs ys : List K) → contains (xs ++ ys) k ≡ (contains xs k || contains ys k)
  contains-append k [] ys = refl
  contains-append k (x ∷ xs) ys = ground (arith, contains-append k xs ys)

  pub IsDistinct-snoc :
      (k : K) (xs : List K) → IsDistinct xs → contains xs k ≡ false → IsDistinct (xs ++ k ∷ [])
  IsDistinct-snoc k [] d h = (refl, tt)
  IsDistinct-snoc k (x ∷ xs) d h = ground (
    arith,
    IsDistinct-snoc k xs d.1,
    contains-append x xs (k ∷ []),
    e.same_iff x k,
    e.same_iff k x,
  )

  pub IsDistinct-middle :
      (xs : List K) (k : K) (ys : List K) → IsDistinct (xs ++ k ∷ ys) → contains xs k ≡ false
  IsDistinct-middle [] k ys d = refl
  IsDistinct-middle (x ∷ xs) k ys d = ground (
    arith,
    IsDistinct-middle xs k ys d.1,
    contains-append x xs (k ∷ ys),
    e.same_iff x k,
    e.same_iff k x,
  )

  -- Of two parts of a list without repetition, the second has none either.
  pub IsDistinct-append_right : (xs ys : List K) → IsDistinct (xs ++ ys) → IsDistinct ys
  IsDistinct-append_right [] ys d = d
  IsDistinct-append_right (x ∷ xs) ys d = IsDistinct-append_right xs ys d.1

-- Rearranging a list keeps it without repetition: that is a matter of counts.
module _ {ℓ} {K : Type ℓ} ⦃e : Key K⦄ where
  count_of_contains : (k : K) (ks : List K) → contains ks k ≡ true → 1 ≤ count (λ j. e.same k j) ks
  count_of_contains k [] h = cc
  count_of_contains k (j ∷ ks) h =
      ground (arith, count_of_contains k ks, e.same_iff k j, e.same_iff j k)

  count_of_not_contains :
      (k : K) (ks : List K) → contains ks k ≡ false → count (λ j. e.same k j) ks ≡ 0
  count_of_not_contains k [] h = refl
  count_of_not_contains k (j ∷ ks) h =
      ground (arith, count_of_not_contains k ks, e.same_iff k j, e.same_iff j k)

  pub count-le-one : (k : K) (ks : List K) → IsDistinct ks → count (λ j. e.same k j) ks ≤ 1
  count-le-one k [] h = omega arith
  count-le-one k (j ∷ ks) h = ground (
    arith,
    count-le-one k ks h.1,
    count_of_not_contains j ks h.0,
    e.same_iff k j,
    λ (q : k ≡ j). ap (λ i. count (λ j. e.same i j) ks) q,
  )

  pub IsDistinct-of_counts :
      (ks : List K) → ((k : K) → count (λ j. e.same k j) ks ≤ 1) → IsDistinct ks
  IsDistinct-of_counts [] h = tt
  IsDistinct-of_counts (j ∷ ks) h = (
    elim (Bool-cases (contains ks j)) [
      | inl there ↦
          absurd (ground (arith, h j, count_of_contains j ks there, (e.same_iff j j).1 refl))
      | inr gone ↦ gone
    ],
    IsDistinct-of_counts ks (λ k. ground (arith, h k)),
  )

module _ {ℓ κ} {K : Type ℓ} ⦃e : Key K⦄ {V : Type κ} (key : V → K) where
  pub IsDistinct-to_sorted :
      (cmp : V → V → Ordering) (xs : List V)
      → IsDistinct (map key xs)
      → IsDistinct (map key (to_sorted cmp xs))
  IsDistinct-to_sorted cmp xs h = IsDistinct-of_counts (map key (to_sorted cmp xs)) λ k. omega (
    arith,
    count-map key (λ j. e.same k j) (to_sorted cmp xs),
    count-to_sorted cmp (λ x. e.same k (key x)) xs,
    count-map key (λ j. e.same k j) xs,
    count-le-one k (map key xs) h,
  )

  pub contains-to_sorted :
      (cmp : V → V → Ordering) (xs : List V) (k : K)
      → contains (map key (to_sorted cmp xs)) k ≡ contains (map key xs) k
  contains-to_sorted cmp xs k = ground (
    arith,
    count-map key (λ j. e.same k j) (to_sorted cmp xs),
    count-to_sorted cmp (λ x. e.same k (key x)) xs,
    count-map key (λ j. e.same k j) xs,
    count_of_contains k (map key xs),
    count_of_not_contains k (map key xs),
    count_of_contains k (map key (to_sorted cmp xs)),
    count_of_not_contains k (map key (to_sorted cmp xs)),
  )

-- The entries that pair each element with its key.
module _ {ℓ κ} {K : Type ℓ} ⦃e : Key K⦄ {V : Type κ} (key : V → K) where
  abbrev pub keyed : List V → Dict K V
  keyed [] = []
  keyed (x ∷ xs) = (key x, x) ∷ keyed xs

  pub get-keyed : (k : K) (xs : List V) → is_some (get k (keyed xs)) ≡ contains (map key xs) k
  get-keyed k [] = refl
  get-keyed k (x ∷ xs) = ground (arith, e.same_iff k (key x), e.same_iff (key x) k, get-keyed k xs)

  pub values-keyed : (xs : List V) → values (keyed xs) ≡ xs
  values-keyed [] = refl
  values-keyed (x ∷ xs) = ap (◌∷◌ x) (values-keyed xs)

  pub IsDistinct-of_IsKeyed : (xs : List V) → IsKeyed (keyed xs) → IsDistinct (map key xs)
  IsDistinct-of_IsKeyed [] h = tt
  IsDistinct-of_IsKeyed (x ∷ xs) h =
      ground (arith, get-keyed (key x) xs, IsDistinct-of_IsKeyed xs h.1)

-- The entries that pair a value with a key, both made of an element.
module _ {ℓ κ μ} {K : Type ℓ} ⦃e : Key K⦄ {V : Type κ} {W : Type μ} (key : V → K)
    (val : V → W) where
  abbrev pub index : List V → Dict K W
  index [] = []
  index (x ∷ xs) = (key x, val x) ∷ index xs

  pub index-append : (xs ys : List V) → index (xs ++ ys) ≡ index xs ++ index ys
  index-append [] ys = refl
  index-append (x ∷ xs) ys = ap (λ d. (key x, val x) ∷ d) (index-append xs ys)

  pub get-index : (k : K) (xs : List V) → is_some (get k (index xs)) ≡ contains (map key xs) k
  get-index k [] = refl
  get-index k (x ∷ xs) = ground (arith, e.same_iff k (key x), e.same_iff (key x) k, get-index k xs)

  pub index-IsKeyed : (xs : List V) → IsDistinct (map key xs) → IsKeyed (index xs)
  index-IsKeyed [] h = tt
  index-IsKeyed (x ∷ xs) h = (ground (arith, get-index (key x) xs, h.0), index-IsKeyed xs h.1)

module _ {ℓ κ μ} {K : Type ℓ} ⦃e : Key K⦄ {V : Type κ} {W : Type μ} (key : V → K) where
  -- The values with that of one key changed.
  abbrev pub changed : K → (W → W) → (V → W) → V → W
  changed k f val x = if e.same k (key x) then f (val x) else val x

  index-changed_other :
      (k : K) (f : W → W) (val : V → W) (xs : List V)
      → contains (map key xs) k ≡ false
      → index key (changed k f val) xs ≡ index key val xs
  index-changed_other k f val [] h = refl
  index-changed_other k f val (x ∷ xs) h = ground (arith, index-changed_other k f val xs)

  -- Writing back a changed value changes the value of the one element with that key.
  pub set-index :
      (k : K) (f : W → W) (val : V → W) (xs : List V) (w : W)
      → get k (index key val xs) ≡ some w
      → IsDistinct (map key xs)
      → set k (f w) (index key val xs) ≡ index key (changed k f val) xs
  set-index k f val [] w h d = cc
  set-index k f val (x ∷ xs) w h d = elim (Bool-cases (e.same k (key x))) [
    | inl here ↦
        let same = (e.same_iff k (key x)).0 here in
        let found : w ≡ val x = ground arith in
        ground (
          arith,
          ap f found,
          index-changed_other k f val xs (ap (contains (map key xs)) same ∙ d.0),
        )
    | inr on ↦ ground (arith, set-index k f val xs w (rw on at h) d.1)
  ]

  pub values-index : (val : V → W) (xs : List V) → values (index key val xs) ≡ map val xs
  values-index val [] = refl
  values-index val (x ∷ xs) = ap (◌∷◌ (val x)) (values-index val xs)
