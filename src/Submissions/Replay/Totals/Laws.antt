-- ===== src/Submissions/Replay/Totals/Laws.antt =====
-- The score of a participation against its facts
-- (apps/web/server/domains/submissions/scoring-replay.ts).
use sauryctf.Prelude.{String, true, ◌≡◌, sym, ap, ◌∙◌, List, filter, count, arith, Ordering}
use sauryctf.Prelude.Int.{ℤ, ◌+ℤ◌, is_safe_integer, zero_+ℤ}
use sauryctf.Prelude.Keys.{eqb, string_key}
use sauryctf.Prelude.Dict.{Dict}
use sauryctf.Prelude.Sort.{to_sorted}
use sauryctf.Prelude.Sum.{sum_by-to_sorted}
use sauryctf.Prelude.Result.{ok, map_result}
use sauryctf.Submissions.Replay.Facts.{
  ParticipationFact, SolveFact, ScoreAdjustmentFact, safe_add, compare_adjustment_facts,
}
use sauryctf.Submissions.Replay.Totals.{
  Accumulator, accumulator_of, ParticipationScore, summary_of, participation_score, by_challenge,
}
use sauryctf.Submissions.Replay.Totals.Credit.{
  with_solves, sum_points, sum_adjustments, solve_points-with_solves, solves-with_solves,
  count-with_solves, kept-with_solves, adjustment_points-with_adjustments, kept-with_adjustments,
}
use sauryctf.Submissions.Replay.Totals.Loops.{final}

-- The score of a participation, read off the facts: `points` are the challenges' points.
pub record IsTotalOf (points : Dict String ℤ) (solves : List SolveFact)
    (adjustments : List ScoreAdjustmentFact) (p : ParticipationFact) (x : ParticipationScore)
    : Type 0 where
  pub participation : x.participation_id ≡ p.id
  pub team : x.team_id ≡ p.team_id
  pub name : x.team_name ≡ p.team_name
  pub division : x.division_id ≡ p.division_id
  pub status : x.status ≡ p.status
  pub solve_count : x.official_solve_count ≡ count (λ s. eqb s.participation_id p.id) solves
  pub solve_sum : x.solve_points ≡ sum_points points p.id solves
  pub adjustment_sum : x.adjustment_points ≡ sum_adjustments p.id adjustments
  pub total : x.total_points ≡ x.solve_points +ℤ x.adjustment_points
  pub total_safe : is_safe_integer x.total_points ≡ true

module _ (locale_compare : String → String → Ordering) where
  -- The solves that the score lists: the participation's, in the order of the challenges.
  abbrev pub IsListOf : List SolveFact → ParticipationFact → ParticipationScore → Type 0
  IsListOf solves p x =
      map_result summary_of
        (to_sorted (by_challenge locale_compare) (filter (λ s. eqb s.participation_id p.id) solves))
      ≡ ok x.solves

  participation_score-ok :
      (a : Accumulator) (x : ParticipationScore)
      → participation_score locale_compare a ≡ ok x
      → (x.participation_id ≡ a.participation.id)
        × (x.team_id ≡ a.participation.team_id)
        × (x.team_name ≡ a.participation.team_name)
        × (x.division_id ≡ a.participation.division_id)
        × (x.status ≡ a.participation.status)
        × (x.official_solve_count ≡ a.official_solve_count)
        × (x.solve_points ≡ a.solve_points)
        × (x.adjustment_points ≡ a.adjustment_points)
        × (x.total_points ≡ a.solve_points +ℤ a.adjustment_points)
        × (is_safe_integer x.total_points ≡ true)
        × (map_result summary_of (to_sorted (by_challenge locale_compare) a.solves) ≡ ok x.solves)
  unfolding participation_score safe_add
  participation_score-ok a x h = ground arith

  module _ (points : Dict String ℤ) (solves : List SolveFact)
      (adjustments : List ScoreAdjustmentFact) where
    abbrev finished : ParticipationFact → Accumulator
    finished = final points solves (to_sorted (compare_adjustment_facts locale_compare) adjustments)

    pub final-IsTotalOf :
        (p : ParticipationFact) (x : ParticipationScore)
        → participation_score locale_compare (finished p) ≡ ok x
        → IsTotalOf points solves adjustments p x × IsListOf solves p x
    final-IsTotalOf p x h =
        let sorted = to_sorted (compare_adjustment_facts locale_compare) adjustments in
        let b = with_solves points solves p.id (accumulator_of p) in
        let (kp, ks, kl, kc) = kept-with_adjustments p.id sorted b in
        let (jp, ja) = kept-with_solves points p.id solves (accumulator_of p) in
        let same : (finished p).participation ≡ p = kp ∙ jp in
        let (e₁, e₂, e₃, e₄, e₅, e₆, e₇, e₈, e₉, safe, listed) =
          participation_score-ok (finished p) x h in
        (
          record {
            participation = e₁ ∙ ap (λ q. q.id) same;
            team = e₂ ∙ ap (λ q. q.team_id) same;
            name = e₃ ∙ ap (λ q. q.team_name) same;
            division = e₄ ∙ ap (λ q. q.division_id) same;
            status = e₅ ∙ ap (λ q. q.status) same;
            solve_count =
                e₆ ∙ kc ∙ count-with_solves points p.id solves (accumulator_of p) ∙ omega arith;
            solve_sum =
                e₇
                ∙ ks
                ∙ solve_points-with_solves points p.id solves (accumulator_of p)
                ∙ zero_+ℤ _;
            adjustment_sum =
                e₈
                ∙ adjustment_points-with_adjustments p.id sorted b
                ∙ ap (λ z. z +ℤ sum_adjustments p.id sorted) ja
                ∙ zero_+ℤ _
                ∙ sum_by-to_sorted _ (compare_adjustment_facts locale_compare) adjustments;
            total =
                e₉
                ∙ ap (λ z. z +ℤ (finished p).adjustment_points) (sym e₇)
                ∙ ap (λ z. x.solve_points +ℤ z) (sym e₈);
            total_safe = safe;
          },
          ap (λ l. map_result summary_of (to_sorted (by_challenge locale_compare) l))
                (sym (kl ∙ solves-with_solves points p.id solves (accumulator_of p)))
              ∙ listed,
        )
