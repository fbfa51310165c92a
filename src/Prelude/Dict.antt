-- ===== src/Prelude/Dict.antt =====
-- JavaScript's `Map`, in the order of insertion, and its `Set` as a list of keys.
use mathlib.Core.Path.{◌≡◌, refl}
use mathlib.Core.Bool.{Bool}
use mathlib.Core.Option.{Option, none, some}
use mathlib.Core.List.{List, [], ◌∷◌, ◌++◌}
use native.Mathlib.Omega.{arith}
use sauryctf.Prelude.Tests.{if◌then◌else◌, is_some}
use sauryctf.Prelude.Lists.{any}
use sauryctf.Prelude.Keys.{Key}

abbrev pub Dict {ℓ κ} : Type ℓ → Type κ → Type (ℓ ⊔ κ)
Dict K V = List (K × V)

-- `set.has(key)`.
abbrev pub contains {ℓ} : {K : Type ℓ} ⦃e : Key K⦄ → List K → K → Bool
contains ⦃e⦄ s k = any (λ j. e.same k j) s

-- `[...map.values()]`.
abbrev pub values {ℓ κ} : {K : Type ℓ} {V : Type κ} → Dict K V → List V
values [] = []
values ((k, v) ∷ d) = v ∷ values d

module _ {ℓ κ} {K : Type ℓ} ⦃e : Key K⦄ {V : Type κ} where
  -- `map.get(key)`, with `none` for `undefined`.
  abbrev pub get : K → Dict K V → Option V
  get k [] = none
  get k ((j, v) ∷ d) = if e.same k j then some v else get k d

  -- `map.has(key)`.
  abbrev pub has : K → Dict K V → Bool
  has k d = is_some (get k d)

  -- `map.set(key, value)`: a new key goes to the end.
  abbrev pub set : K → V → Dict K V → Dict K V
  set k v [] = (k, v) ∷ []
  set k v ((j, w) ∷ d) = if e.same k j then (j, v) ∷ d else (j, w) ∷ set k v d

  pub get-set :
      (j k : K) (v : V) (d : Dict K V)
      → get j (set k v d) ≡ (if e.same j k then some v else get j d)
  get-set j k v [] = refl
  get-set j k v ((i, w) ∷ d) =
      ground (arith, e.same_iff j k, e.same_iff k i, e.same_iff j i, get-set j k v d)

  -- No key stands twice.
  abbrev pub IsKeyed : Dict K V → Type κ
  IsKeyed [] = Unit
  IsKeyed ((k, v) ∷ d) = (get k d ≡ none) × IsKeyed d

  pub get-append :
      (k : K) (d d' : Dict K V) → get k (d ++ d') ≡ (if has k d then get k d else get k d')
  get-append k [] d' = refl
  get-append k ((j, v) ∷ d) d' = ground (arith, get-append k d d')

  -- Setting a key that is not there appends it.
  pub set_new : (k : K) (v : V) (d : Dict K V) → get k d ≡ none → set k v d ≡ d ++ (k, v) ∷ []
  set_new k v [] h = refl
  set_new k v ((j, w) ∷ d) h = ground (arith, set_new k v d)

  pub set-IsKeyed : (k : K) (v : V) (d : Dict K V) → IsKeyed d → IsKeyed (set k v d)
  set-IsKeyed k v [] h = (refl, tt)
  set-IsKeyed k v ((j, w) ∷ d) h =
      ground (arith, set-IsKeyed k v d h.1, get-set j k v d, e.same_iff j k, e.same_iff k j)

-- `set.add(key)`.
abbrev pub add {ℓ} : {K : Type ℓ} ⦃e : Key K⦄ → K → List K → List K
add k s = if contains s k then s else s ++ k ∷ []
