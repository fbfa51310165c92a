-- ===== src/Participations/Lifecycle/Changes.antt =====
-- The two ways in which the table of participations changes.
use mathlib.Core.List.{map-append}
use mathlib.Core.Path.{subst}
use sauryctf.Prelude.{
  Bool, true, false, ◌≡◌, sym, some, List, [], ◌∷◌, ◌++◌, map, All, All-append, All₂,
}
use sauryctf.Prelude.Keys.{eqb, string_key, pair_key}
use sauryctf.Prelude.Dict.{contains}
use sauryctf.Prelude.Distinct.{IsDistinct, IsDistinct-snoc}
use sauryctf.Prelude.Table.{find, update_where, update_found, map-update_where}
use sauryctf.Participations.Tables.{Participation}
use sauryctf.Participations.Lifecycle.{meets_checks, place_of, IsTable, may_follow}

-- A row and what became of it; it keeps its constraints under a condition on the other tables.
pub record Follows (G : Type 0) (p q : Participation) : Type 0 where
  pub same_id : q.id ≡ p.id
  pub same_place : place_of q ≡ place_of p
  pub edge : may_follow p.status q.status ≡ true
  pub checked : G → meets_checks p ≡ true → meets_checks q ≡ true

pub data Change (G : Type 0) (ps : List Participation) : List Participation → Type 0 where
  inserted :
      (x : Participation)
      → contains (map (λ p. p.id) ps) x.id ≡ false
      → contains (map place_of ps) (place_of x) ≡ false
      → (G → meets_checks x ≡ true)
      → Change G ps (ps ++ x ∷ [])
  updated :
      (q : Participation → Bool) (p : Participation) (f : Participation → Participation)
      → find q ps ≡ some p
      → ((x : Participation) → (f x).id ≡ x.id)
      → ((x : Participation) → place_of (f x) ≡ place_of x)
      → Follows G p (f p)
      → Change G ps (update_where (λ x. eqb x.id p.id) f ps)

All-of_follows :
    (ps qs : List Participation)
    → All₂ (λ p q. meets_checks p ≡ true → meets_checks q ≡ true) ps qs
    → All (λ p. meets_checks p ≡ true) ps
    → All (λ p. meets_checks p ≡ true) qs
All-of_follows [] [] a h = tt
All-of_follows (p ∷ ps) (q ∷ qs) a h = (a.0 h.0, All-of_follows ps qs a.1 h.1)
All-of_follows [] (q ∷ qs) a h = absurd a
All-of_follows (p ∷ ps) [] a h = absurd a

pub Change-ids :
    {G : Type 0} {ps qs : List Participation}
    → Change G ps qs
    → IsDistinct (map (λ p. p.id) ps)
    → IsDistinct (map (λ p. p.id) qs)
Change-ids {ps = ps} (inserted x new free checked) d =
    subst IsDistinct (sym (map-append (λ p. p.id) ps (x ∷ [])))
      (IsDistinct-snoc x.id (map (λ p. p.id) ps) d new)
Change-ids {ps = ps} (updated q p f found ids places follows) d =
    subst IsDistinct (sym (map-update_where (λ x. x.id) (λ x. eqb x.id p.id) f ps ids)) d

pub Change-IsTable :
    {G : Type 0} {ps qs : List Participation} → G → Change G ps qs → IsTable ps → IsTable qs
Change-IsTable {ps = ps} g (inserted x new free checked) t = record {
  checks = All-append (λ p. meets_checks p ≡ true) ps (x ∷ []) t.checks (checked g, tt);
  ids = Change-ids (inserted x new free checked) t.ids;
  places =
      subst IsDistinct (sym (map-append place_of ps (x ∷ [])))
        (IsDistinct-snoc (place_of x) (map place_of ps) t.places free);
}
Change-IsTable {ps = ps} g (updated q p f found ids places follows) t = record {
  checks =
      All-of_follows ps (update_where (λ x. eqb x.id p.id) f ps)
        (update_found (λ x. x.id) (λ x y. meets_checks x ≡ true → meets_checks y ≡ true) (λ x h. h)
          q f ps p t.ids found (follows.checked g))
        t.checks;
  ids = Change-ids (updated q p f found ids places follows) t.ids;
  places =
      subst IsDistinct (sym (map-update_where place_of (λ x. eqb x.id p.id) f ps places)) t.places;
}
