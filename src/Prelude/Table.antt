-- ===== src/Prelude/Table.antt =====
-- Tables of a database as lists of rows: the first row that a test holds of, and the update of the
-- row with an identifier.
use sauryctf.Prelude.Tests.{if◌then◌else◌, Bool-cases}
use sauryctf.Prelude.Lists.{All, All₂, any}
use sauryctf.Prelude.Keys.{eqb, eqb_iff, eqb_refl, string_key}
use sauryctf.Prelude.Dict.{contains}
use sauryctf.Prelude.Distinct.{IsDistinct}
use Prim.Native.String.{String}
use sauryctf.Prelude.Result.{Result, ok, err}
use mathlib.Core.Logic.{inl, inr}
use mathlib.Core.Path.{◌∙◌, ◌≡◌, refl, sym, ap, ap₂, subst}
use mathlib.Core.Bool.{Bool, true, false}
use mathlib.Core.List.{List, [], ◌∷◌, ◌++◌, map}
use mathlib.Core.Option.{Option, none, some}
use native.Mathlib.Omega.{arith}

module _ {ℓ} {A : Type ℓ} where
  -- `rows[0]` of a `SELECT … WHERE`.
  abbrev pub find : (A → Bool) → List A → Option A
  find p [] = none
  find p (x ∷ xs) = if p x then some x else find p xs

  -- `UPDATE … SET … WHERE id = $1`.
  abbrev pub update_where : (A → Bool) → (A → A) → List A → List A
  update_where p f [] = []
  update_where p f (x ∷ xs) = (if p x then f x else x) ∷ update_where p f xs

  pub find-test : (p : A → Bool) (xs : List A) (x : A) → find p xs ≡ some x → p x ≡ true
  find-test p [] x h = cc
  find-test p (y ∷ ys) x h = ground (arith, find-test p ys x, λ (e : y ≡ x). ap p e)

  pub find-snoc :
      (p : A → Bool) (xs : List A) (x : A)
      → find p xs ≡ none
      → p x ≡ true
      → find p (xs ++ x ∷ []) ≡ some x
  find-snoc p [] x h k = ground arith
  find-snoc p (y ∷ ys) x h k = ground (arith, find-snoc p ys x)

  pub find-snoc_kept :
      (p : A → Bool) (xs : List A) (x y : A) → find p xs ≡ some y → find p (xs ++ x ∷ []) ≡ some y
  find-snoc_kept p [] x y h = cc
  find-snoc_kept p (z ∷ zs) x y h = ground (arith, find-snoc_kept p zs x y)

  pub any-of_find : (p : A → Bool) (xs : List A) (x : A) → find p xs ≡ some x → any p xs ≡ true
  any-of_find p [] x h = cc
  any-of_find p (y ∷ ys) x h = ground (arith, any-of_find p ys x)

  pub any-of_none : (p : A → Bool) (xs : List A) → find p xs ≡ none → any p xs ≡ false
  any-of_none p [] h = refl
  any-of_none p (x ∷ xs) h = ground (arith, any-of_none p xs)

  -- A row is found again after an update that the test does not see.
  pub find-update_where :
      (p q : A → Bool) (f : A → A) (xs : List A) (x : A)
      → ((y : A) → p (f y) ≡ p y)
      → find p xs ≡ some x
      → find p (update_where q f xs) ≡ some (if q x then f x else x)
  find-update_where p q f [] x k h = cc
  find-update_where p q f (y ∷ ys) x k h = elim (Bool-cases (p y)) [
    | inl here ↦
        let same : y ≡ x = ground arith in
        elim (Bool-cases (q y)) [
          | inl hit ↦
              let hit_x : q x ≡ true = ap q (sym same) ∙ hit in
              rw (hit, hit_x) (rw (k y ∙ here) (ap (λ c. some (f c)) same))
          | inr miss ↦
              let miss_x : q x ≡ false = ap q (sym same) ∙ miss in
              rw (miss, miss_x) (rw here (ap some same))
        ]
    | inr gone ↦
        let rest = find-update_where p q f ys x k (ground arith) in
        elim (Bool-cases (q y)) [
          | inl hit ↦ rw hit (rw (k y ∙ gone) rest)
          | inr miss ↦ rw miss (rw gone rest)
        ]
  ]

module _ {ℓ κ} {A : Type ℓ} (P : A → Type κ) (p : A → Bool) where
  pub All-find : (xs : List A) (x : A) → All P xs → find p xs ≡ some x → P x
  All-find [] x a h = cc
  All-find (y ∷ ys) x a h = elim (Bool-cases (p y)) [
    | inl here ↦ let e : y ≡ x = ground arith in subst P e a.0
    | inr gone ↦ All-find ys x a.1 (ground arith)
  ]

  pub All-update_where :
      (f : A → A) (xs : List A)
      → ((x : A) → p x ≡ true → P x → P (f x))
      → All P xs
      → All P (update_where p f xs)
  All-update_where f [] k a = tt
  All-update_where f (x ∷ xs) k a = (
    elim (Bool-cases (p x)) [ inl here ↦ rw here (k x here a.0) | inr gone ↦ rw gone a.0 ],
    All-update_where f xs k a.1,
  )

module _ {ℓ κ} {A : Type ℓ} {K : Type κ} (key : A → K) (p : A → Bool) where
  -- An update that keeps a key of the rows keeps the column of that key.
  pub map-update_where :
      (f : A → A) (xs : List A)
      → ((x : A) → key (f x) ≡ key x)
      → map key (update_where p f xs) ≡ map key xs
  map-update_where f [] k = refl
  map-update_where f (x ∷ xs) k =
      ap₂ (λ c cs. c ∷ cs)
        (elim (Bool-cases (p x)) [ inl here ↦ rw here (k x) | inr gone ↦ rw gone refl ])
        (map-update_where f xs k)

-- `if (!row) throw e`.
abbrev pub or_throw {ℓ κ} : {E : Type κ} {A : Type ℓ} → Option A → E → Result E A
or_throw none e = err e
or_throw (some a) e = ok a

module _ {ℓ} {A : Type ℓ} (key : A → String) where
  -- An update of a key that no row has changes nothing.
  update_where-other :
      (f : A → A) (k : String) (xs : List A)
      → contains (map key xs) k ≡ false
      → update_where (λ x. eqb (key x) k) f xs ≡ xs
  update_where-other f k [] h = refl
  update_where-other f k (x ∷ xs) h =
      ground (arith, update_where-other f k xs, eqb_iff (key x) k, eqb_iff k (key x))

  find-contains :
      (p : A → Bool) (xs : List A) (x : A)
      → find p xs ≡ some x
      → contains (map key xs) (key x) ≡ true
  find-contains p [] x h = cc
  find-contains p (y ∷ ys) x h =
      ground (arith, find-contains p ys x, eqb_iff (key x) (key y), λ (e : y ≡ x). ap key e)

  module _ (R : A → A → Type 0) (stays : (x : A) → R x x) where
    All₂-refl : (xs : List A) → All₂ R xs xs
    All₂-refl [] = tt
    All₂-refl (x ∷ xs) = (stays x, All₂-refl xs)

    -- The update of the row that was found changes that row alone.
    pub update_found :
        (p : A → Bool) (f : A → A) (xs : List A) (x : A)
        → IsDistinct (map key xs)
        → find p xs ≡ some x
        → R x (f x)
        → All₂ R xs (update_where (λ y. eqb (key y) (key x)) f xs)
    update_found p f [] x d h r = cc
    update_found p f (y ∷ ys) x d h r = elim (Bool-cases (p y)) [
      | inl here ↦
          let e : y ≡ x = ground arith in
          subst (λ z. All₂ R (y ∷ ys) (update_where (λ w. eqb (key w) (key z)) f (y ∷ ys))) e
            (rw (eqb_refl (key y), update_where-other f (key y) ys d.0)
              (subst (λ z. R z (f z)) (sym e) r, All₂-refl ys))
      | inr gone ↦
          let later : find p ys ≡ some x = ground arith in
          let there = find-contains p ys x later in
          let other : eqb (key y) (key x) ≡ false = ground (
            arith,
            eqb_iff (key y) (key x),
            d.0,
            there,
            λ (e : key y ≡ key x). ap (contains (map key ys)) e,
          ) in
          (rw other (stays y), update_found p f ys x d.1 later r)
    ]

pub or_throw-ok : {E A : Type 0} (o : Option A) (e : E) (a : A) → or_throw o e ≡ ok a → o ≡ some a
or_throw-ok none e a h = cc
or_throw-ok (some b) e a h = cc
