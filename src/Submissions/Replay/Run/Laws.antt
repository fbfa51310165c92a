-- ===== src/Submissions/Replay/Run/Laws.antt =====
-- What a replay that succeeds has computed
-- (`replayContestScoring` in apps/web/server/domains/submissions/scoring-replay.ts).
use mathlib.Core.List.{Perm}
use mathlib.Core.Path.{subst, subst₂}
use sauryctf.Prelude.{
  String, ◌≡◌, sym, ap, ◌∙◌, List, map, map_from, filter, All, All₂, All₂-imp, Ordering,
}
use sauryctf.Prelude.Keys.{eqb, string_key, pair_key}
use sauryctf.Prelude.Order.{IsComparator}
use sauryctf.Prelude.Dict.{values}
use sauryctf.Prelude.Distinct.{IsDistinct, values-keyed}
use sauryctf.Prelude.Sort.{to_sorted}
use sauryctf.Prelude.Result.{ok}
use sauryctf.Submissions.Scoring.{FloatMath}
use sauryctf.Submissions.Replay.Facts.{ContestScoringFacts, is_accepted}
use sauryctf.Submissions.Replay.Check.{pair_of, solves_of, check_solves, check_submissions}
use sauryctf.Submissions.Replay.Check.Solves.{IsSound, IsChecked, check_solves-IsChecked}
use sauryctf.Submissions.Replay.Check.Covered.{IsCovered, check_submissions-ok}
use sauryctf.Submissions.Replay.Challenges.{by_challenge_id}
use sauryctf.Submissions.Replay.Challenges.Laws.{IsScoreOf, points_of, score_challenges-ok}
use sauryctf.Submissions.Replay.Totals.{
  ParticipationScore, participation_scores, by_participation_id,
}
use sauryctf.Submissions.Replay.Totals.Loops.{participation_scores-ok}
use sauryctf.Submissions.Replay.Totals.Laws.{IsTotalOf, IsListOf, final-IsTotalOf}
use sauryctf.Submissions.Replay.Ranking.{rank_summary}
use sauryctf.Submissions.Replay.Ranking.Laws.{IsRanking, ranking_summary-IsRanking}
use sauryctf.Submissions.Replay.Run.{
  ContestScoringReplay, FactMaps, official_solves, replay_contest_scoring,
}
use sauryctf.Submissions.Replay.Run.Steps.{
  challenges_by_id, participations_by_id, submissions_by_id, IsRun, replay-IsRun,
}

-- The facts of a contest fit together.
pub record IsConsistent (locale_compare : String → String → Ordering) (facts : ContestScoringFacts)
    : Type 0 where
  pub challenge_ids : IsDistinct (map (λ c. c.id) facts.challenges)
  pub participation_ids : IsDistinct (map (λ p. p.id) facts.participations)
  pub submission_ids : IsDistinct (map (λ s. s.id) facts.submissions)
  pub solve_ids : IsDistinct (map (λ s. s.id) facts.solves)
  pub adjustment_ids : IsDistinct (map (λ a. a.id) facts.adjustments)
  pub solves_sound :
      All
        (IsSound (challenges_by_id facts) (participations_by_id facts) (submissions_by_id facts))
        (official_solves locale_compare facts.solves)
  pub solved_once : IsDistinct (map pair_of (official_solves locale_compare facts.solves))
  pub submissions_solved_once :
      IsDistinct (map (λ s. s.submission_id) (official_solves locale_compare facts.solves))
  pub submissions_covered :
      All
        (IsCovered
          (challenges_by_id facts)
          (participations_by_id facts)
          (submissions_by_id facts)
          (map (λ s. s.submission_id) (official_solves locale_compare facts.solves)))
        facts.submissions

abbrev maps_of : ContestScoringFacts → FactMaps
maps_of facts = record {
  challenges = challenges_by_id facts;
  participations = participations_by_id facts;
  submissions = submissions_by_id facts;
}

module _ (m : FloatMath) (locale_compare : String → String → Ordering) where
  module _ (facts : ContestScoringFacts) (r : ContestScoringReplay)
      (h : replay_contest_scoring m locale_compare facts ≡ ok r) where
    -- The run, with the maps as the facts determine them.
    run : IsRun m locale_compare facts r
    run = replay-IsRun m locale_compare facts r h

    same_maps : run.maps ≡ maps_of facts
    same_maps = cc (run.mapped.challenges, run.mapped.participations, run.mapped.submissions)

    checked_solves :
        IsChecked
          (challenges_by_id facts)
          (participations_by_id facts)
          (submissions_by_id facts)
          (official_solves locale_compare facts.solves)
          run.checked
    checked_solves =
        check_solves-IsChecked _ _ _ (official_solves locale_compare facts.solves) run.checked (
          subst
            (λ (y : FactMaps).
              check_solves y.challenges y.participations y.submissions
                (official_solves locale_compare facts.solves)
              ≡ ok run.checked)
            same_maps run.solves_checked)

    covered :
        All
          (IsCovered
            (challenges_by_id facts)
            (participations_by_id facts)
            (submissions_by_id facts)
            run.checked.solved_submission_ids)
          facts.submissions
    covered = check_submissions-ok _ _ _ run.checked.solved_submission_ids facts.submissions tt (
        subst
          (λ (y : FactMaps).
            check_submissions y.challenges y.participations y.submissions
              run.checked.solved_submission_ids facts.submissions
            ≡ ok tt)
          same_maps run.submissions_checked)

    scored :
        All₂
          (λ c x. IsScoreOf m locale_compare (solves_of c.id run.checked.solves_by_challenge) c x)
          (to_sorted (by_challenge_id locale_compare) facts.challenges)
          r.challenge_scores
        × (run.scored.scored.challenge_points ≡ points_of r.challenge_scores)
    scored =
        let same : values run.maps.challenges ≡ facts.challenges =
          ap values run.mapped.challenges ∙ values-keyed (λ c. c.id) facts.challenges in
        let (all, points) =
          score_challenges-ok m locale_compare run.checked.solves_by_challenge run.maps.challenges
            run.scored.scored run.scored.challenges_scored
            (subst (λ y. IsDistinct (map (λ c. c.id) y)) (sym same) run.mapped.challenge_ids) in
        (
          subst₂
              (λ y z.
                All₂
                  (λ c x.
                    IsScoreOf m locale_compare (solves_of c.id run.checked.solves_by_challenge) c x)
                  (to_sorted (by_challenge_id locale_compare) y) z)
              same (sym run.scored.challenge_scores) all,
          points ∙ ap points_of (sym run.scored.challenge_scores),
        )

    -- A replay succeeds only on facts that fit together: no identifier stands twice, every official
    -- solve belongs to one correct official submission of the same challenge, participation and
    -- time, no participation solves a challenge twice, and no correct official submission is
    -- without a solve.
    pub replay-IsConsistent : IsConsistent locale_compare facts
    replay-IsConsistent = record {
      challenge_ids = run.mapped.challenge_ids;
      participation_ids = run.mapped.participation_ids;
      submission_ids = run.mapped.submission_ids;
      solve_ids = run.mapped.solve_ids;
      adjustment_ids = run.mapped.adjustment_ids;
      solves_sound = checked_solves.sound;
      solved_once = checked_solves.pairs_distinct;
      submissions_solved_once = checked_solves.ids_distinct;
      submissions_covered =
          subst
            (λ y.
              All
                (IsCovered (challenges_by_id facts) (participations_by_id facts)
                  (submissions_by_id facts) y)
                facts.submissions)
            checked_solves.submission_ids covered;
    }

    -- The scores of the challenges, in the order of their identifiers: the count is that of the
    -- official solves of the challenge, whose orders run from 1 without a gap; the points are the
    -- policy's value at that count; the first solve is the one of order 1.
    pub replay-challenge_scores :
        All₂
          (λ c x.
            IsScoreOf m locale_compare
              (filter (λ s. eqb c.id s.challenge_id) (official_solves locale_compare facts.solves))
              c
              x)
          (to_sorted (by_challenge_id locale_compare) facts.challenges)
          r.challenge_scores
    replay-challenge_scores =
        All₂-imp _ _ _ _
          (λ c x. subst (λ l. IsScoreOf m locale_compare l c x) (checked_solves.by_challenge c.id))
          scored.0

    -- The scores of the participations, in the order of their identifiers: one for each, with the
    -- count of its official solves, the sum of its solved challenges' points as they are now, the
    -- sum of its adjustments, and the total of the two sums, which is a safe integer.
    pub replay-participation_scores :
        (scores : List ParticipationScore) × (r.participation_scores
          ≡ to_sorted (by_participation_id locale_compare) scores)
        × All₂
            (λ p x.
              IsTotalOf
                (points_of r.challenge_scores)
                (official_solves locale_compare facts.solves)
                facts.adjustments
                p
                x
              × IsListOf locale_compare (official_solves locale_compare facts.solves) p x)
            facts.participations
            scores
    replay-participation_scores =
        let solves = official_solves locale_compare facts.solves in
        let same : values run.maps.participations ≡ facts.participations =
          ap values run.mapped.participations ∙ values-keyed (λ p. p.id) facts.participations in
        let (scores, sorted, all, _) =
          participation_scores-ok locale_compare (points_of r.challenge_scores) facts.participations
            solves facts.adjustments r.participation_scores
            (subst₂
              (λ y z.
                participation_scores locale_compare y z solves facts.adjustments
                ≡ ok r.participation_scores)
              scored.1 same run.scored.participations_scored)
            run.mapped.participation_ids in
        (
          scores,
          sorted,
          All₂-imp _ _ _ _
              (final-IsTotalOf locale_compare (points_of r.challenge_scores) solves
                facts.adjustments)
              all,
        )

    -- The ranking has the ranks 1, 2 and so on; it lists the accepted participations, each once; no
    -- entry has fewer points than a later one, and among equals none has a later last score.
    pub replay-IsRanking :
        IsComparator locale_compare
        → IsRanking 0 r.ranking_summary
          × ((ranked : List ParticipationScore) × (r.ranking_summary
                ≡ map_from rank_summary 0 ranked)
              × Perm ranked (filter (λ x. is_accepted x.status) r.participation_scores))
    replay-IsRanking collation =
        subst
          (λ y.
            IsRanking 0 y
            × ((ranked : List ParticipationScore) × (y ≡ map_from rank_summary 0 ranked)
                × Perm ranked (filter (λ x. is_accepted x.status) r.participation_scores)))
          (sym run.scored.ranking) (ranking_summary-IsRanking collation r.participation_scores)
