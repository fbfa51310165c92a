-- ===== src/Submissions/Replay/Check/Unique.antt =====
-- The maps from identifiers to facts
-- (`uniqueById` in apps/web/server/domains/submissions/scoring-replay.ts).
use sauryctf.Prelude.{String, none, ◌≡◌, sym, ap, ◌∙◌, List, [], ◌∷◌, ◌++◌, arith}
use sauryctf.Prelude.Keys.{string_key, pair_key}
use sauryctf.Prelude.Dict.{Dict, get, IsKeyed, set_new, set-IsKeyed}
use sauryctf.Prelude.Distinct.{keyed}
use sauryctf.Prelude.Result.{ok, bind-eq-ok, for_each}
use sauryctf.Submissions.Replay.Facts.{FactKind}
use sauryctf.Submissions.Replay.Check.{add_unique, unique_by_id}
use mathlib.Core.Path.{subst}
use mathlib.Core.List.{append-nil, append_assoc}

module _ {A : Type 0} (id : A → String) (kind : FactKind) where
  add_unique-ok :
      (d d' : Dict String A) (x : A)
      → add_unique id kind d x ≡ ok d'
      → (get (id x) d ≡ none) × (d' ≡ d ++ (id x, x) ∷ [])
  unfolding add_unique
  add_unique-ok d d' x h = ground (arith, set_new (id x) x d)

  unique-from :
      (xs : List A) (d d' : Dict String A)
      → for_each (add_unique id kind) xs d ≡ ok d'
      → IsKeyed d
      → (d' ≡ d ++ keyed id xs) × IsKeyed d'
  unique-from [] d d' h k =
      let e : d ≡ d' = cc in (sym e ∙ sym (append-nil d), subst (λ x. IsKeyed x) e k)
  unique-from (x ∷ xs) d d' h k =
      let (d₁, e₁, h₁) = bind-eq-ok (add_unique id kind d x) (for_each (add_unique id kind) xs) h in
      let (fresh, e₂) = add_unique-ok d d₁ x e₁ in
      let k₁ =
        subst (λ y. IsKeyed y) (set_new (id x) x d fresh ∙ sym e₂) (set-IsKeyed (id x) x d k) in
      let (e₃, k₃) = unique-from xs d₁ d' h₁ k₁ in
      (e₃ ∙ ap (λ y. y ++ keyed id xs) e₂ ∙ append_assoc d ((id x, x) ∷ []) (keyed id xs), k₃)

  -- Where the identifiers pass the check the map has the facts in their order, each under its own
  -- identifier, and no identifier twice.
  pub unique_by_id-ok :
      (xs : List A) {d : Dict String A}
      → unique_by_id id kind xs ≡ ok d
      → (d ≡ keyed id xs) × IsKeyed d
  unfolding unique_by_id
  unique_by_id-ok xs h = unique-from xs [] _ h tt
