-- ===== src/Submissions/Replay/Totals/Loops.antt =====
-- The two loops over the accumulators, and the scores that are made of them
-- (apps/web/server/domains/submissions/scoring-replay.ts).
use sauryctf.Prelude.{
  String, true, Option, none, some, ◌≡◌, refl, ◌∙◌, ap, List, [], ◌∷◌, map, is_some, All, All₂,
  Ordering, if◌then◌else◌,
}
use mathlib.Core.Path.{subst}
use sauryctf.Prelude.Int.{ℤ}
use sauryctf.Prelude.Keys.{eqb, string_key}
use sauryctf.Prelude.Dict.{Dict, get, set, values}
use sauryctf.Prelude.Distinct.{IsDistinct, index, changed, set-index, values-index}
use sauryctf.Prelude.Sort.{to_sorted}
use sauryctf.Prelude.Result.{
  Result, ok, err, bind-eq-ok, ◌>>=◌, for_each, map_result, map_result-ok,
}
use sauryctf.Submissions.Replay.Facts.{
  ParticipationFact, SolveFact, ScoreAdjustmentFact, ReplayError, compare_adjustment_facts,
}
use sauryctf.Submissions.Replay.Totals.{
  Accumulator, accumulator_of, accumulators_of, update_at, add_solve, add_adjustment,
  ParticipationScore, participation_score, participation_scores, by_participation_id,
}
use sauryctf.Submissions.Replay.Totals.Credit.{
  with_solve, with_adjustment, with_solves, with_adjustments, credit_solve-ok, credit_adjustment-ok,
}

update_at-ok :
    (key : String) (missing : ReplayError) (change : Accumulator → Result ReplayError Accumulator)
    (d d' : Dict String Accumulator)
    → update_at key missing change d ≡ ok d'
    → (a a' : Accumulator) × (get key d ≡ some a) × (change a ≡ ok a') × (d' ≡ set key a' d)
unfolding update_at
update_at-ok key missing change d d' h = found (get key d) refl h
  where
    found :
        (o : Option Accumulator)
        → get key d ≡ o
        → elim o [ none ↦ err missing | some a ↦ change a >>= λ a'. ok (set key a' d) ] ≡ ok d'
        → (a a' : Accumulator) × (get key d ≡ some a) × (change a ≡ ok a') × (d' ≡ set key a' d)
    found none e k = cc
    found (some a) e k =
        let (a', changed, done) = bind-eq-ok (change a) (λ b. ok (set key b d)) k in
        (a, a', e, changed, cc)

abbrev ids : List ParticipationFact → List String
ids = map (λ p. p.id)

-- The accumulators as a map of the participations.
abbrev table : (ParticipationFact → Accumulator) → List ParticipationFact → Dict String Accumulator
table = index (λ p. p.id)

accumulators_of-table : (ps : List ParticipationFact) → accumulators_of ps ≡ table accumulator_of ps
unfolding accumulators_of
accumulators_of-table [] = refl
accumulators_of-table (p ∷ ps) = ap (λ d. (p.id, accumulator_of p) ∷ d) (accumulators_of-table ps)

module _ (ps : List ParticipationFact) (distinct : IsDistinct (ids ps)) where
  module _ (points : Dict String ℤ) where
    add_solve-table :
        (val : ParticipationFact → Accumulator) (x : SolveFact) (d : Dict String Accumulator)
        → add_solve points (table val ps) x ≡ ok d
        → (d
            ≡ table
                (λ p. if eqb x.participation_id p.id then with_solve points x (val p) else val p)
                ps)
          × (is_some (get x.challenge_id points) ≡ true)
    unfolding add_solve
    add_solve-table val x d h =
        let (a, a', found, credited, put) = update_at-ok _ _ _ (table val ps) d h in
        let (changed_so, priced) = credit_solve-ok points x a credited in
        (
          put
              ∙ ap (λ b. set x.participation_id b (table val ps)) changed_so
              ∙ set-index (λ p. p.id) x.participation_id (with_solve points x) val ps a found
                  distinct,
          priced,
        )

    solves-table :
        (xs : List SolveFact) (val : ParticipationFact → Accumulator) (d : Dict String Accumulator)
        → for_each (add_solve points) xs (table val ps) ≡ ok d
        → (d ≡ table (λ p. with_solves points xs p.id (val p)) ps)
          × All (λ x. is_some (get x.challenge_id points) ≡ true) xs
    solves-table [] val d h = (cc, tt)
    solves-table (x ∷ xs) val d h =
        let (t, e, h') = bind-eq-ok (add_solve points (table val ps) x) _ h in
        let (so, priced) = add_solve-table val x t e in
        let (rest, all) =
          solves-table xs
            (λ p. if eqb x.participation_id p.id then with_solve points x (val p) else val p) d
            (subst (λ y. for_each (add_solve points) xs y ≡ ok d) so h') in
        (rest, (priced, all))

  add_adjustment-table :
      (val : ParticipationFact → Accumulator) (x : ScoreAdjustmentFact)
      (d : Dict String Accumulator)
      → add_adjustment (table val ps) x ≡ ok d
      → d ≡ table (λ p. if eqb x.participation_id p.id then with_adjustment x (val p) else val p) ps
  unfolding add_adjustment
  add_adjustment-table val x d h =
      let (a, a', found, credited, put) = update_at-ok _ _ _ (table val ps) d h in
      put
      ∙ ap (λ b. set x.participation_id b (table val ps)) (credit_adjustment-ok x a credited)
      ∙ set-index (λ p. p.id) x.participation_id (with_adjustment x) val ps a found distinct

  adjustments-table :
      (xs : List ScoreAdjustmentFact) (val : ParticipationFact → Accumulator)
      (d : Dict String Accumulator)
      → for_each add_adjustment xs (table val ps) ≡ ok d
      → d ≡ table (λ p. with_adjustments xs p.id (val p)) ps
  adjustments-table [] val d h = cc
  adjustments-table (x ∷ xs) val d h =
      let (t, e, h') = bind-eq-ok (add_adjustment (table val ps) x) _ h in
      adjustments-table xs
        (λ p. if eqb x.participation_id p.id then with_adjustment x (val p) else val p) d
        (subst (λ y. for_each add_adjustment xs y ≡ ok d) (add_adjustment-table val x t e) h')

-- The final accumulator of a participation.
abbrev pub final :
    Dict String ℤ → List SolveFact → List ScoreAdjustmentFact → ParticipationFact → Accumulator
final points solves adjustments p =
    with_adjustments adjustments p.id (with_solves points solves p.id (accumulator_of p))

module _ (locale_compare : String → String → Ordering) where
  -- The scores are those of the final accumulators, one for each participation, sorted.
  pub participation_scores-ok :
      (points : Dict String ℤ) (ps : List ParticipationFact) (solves : List SolveFact)
      (adjustments : List ScoreAdjustmentFact) (r : List ParticipationScore)
      → participation_scores locale_compare points ps solves adjustments ≡ ok r
      → IsDistinct (ids ps)
      → (scores : List ParticipationScore) × (r
          ≡ to_sorted (by_participation_id locale_compare) scores)
        × All₂
            (λ p x.
              participation_score locale_compare (
                final points solves
                  (to_sorted (compare_adjustment_facts locale_compare) adjustments)
                  p)
              ≡ ok x)
            ps
            scores
        × All (λ x. is_some (get x.challenge_id points) ≡ true) solves
  unfolding participation_scores
  participation_scores-ok points ps solves adjustments r h k =
      let sorted = to_sorted (compare_adjustment_facts locale_compare) adjustments in
      let (d₁, credited, h₁) =
        bind-eq-ok (for_each (add_solve points) solves (accumulators_of ps)) _ h in
      let (d₂, adjusted, h₂) = bind-eq-ok (for_each add_adjustment sorted d₁) _ h₁ in
      let (scores, made, h₃) =
        bind-eq-ok (map_result (participation_score locale_compare) (values d₂)) _ h₂ in
      let (e₁, priced) = solves-table ps k points solves accumulator_of d₁ (
        subst (λ y. for_each (add_solve points) solves y ≡ ok d₁) (accumulators_of-table ps)
          credited) in
      let e₂ =
        adjustments-table ps k sorted (λ p. with_solves points solves p.id (accumulator_of p)) d₂
          (subst (λ y. for_each add_adjustment sorted y ≡ ok d₂) e₁ adjusted) in
      let e₃ = ap values e₂ ∙ values-index (λ p. p.id) (final points solves sorted) ps in
      (
        scores,
        cc,
        map_result-ok (participation_score locale_compare) (final points solves sorted) ps scores
            (subst (λ y. map_result (participation_score locale_compare) y ≡ ok scores) e₃ made),
        priced,
      )
