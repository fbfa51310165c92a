-- ===== src/Submissions/Replay/Run.antt =====
-- `replayContestScoring` (apps/web/server/domains/submissions/scoring-replay.ts).
pub mod Steps
pub mod Laws
use sauryctf.Prelude.{ℕ, String, List, Ordering, filter, length, if◌then◌else◌}
use sauryctf.Prelude.Int.{ℤ, pos}
use sauryctf.Prelude.Dict.{Dict, values}
use sauryctf.Prelude.Sort.{to_sorted}
use sauryctf.Prelude.Result.{Result, ok, err, ◌>>◌, ◌>>=◌}
use sauryctf.Submissions.Scoring.{FloatMath}
use sauryctf.Submissions.Replay.Facts.{
  ContestScoringFacts, ChallengeFact, ParticipationFact, SubmissionFact, SolveFact,
  ScoreAdjustmentFact, FactKind, SumLabel, ReplayError, is_official, compare_solve_facts, safe_add,
}
use sauryctf.Submissions.Replay.Check.{SolveState, unique_by_id, check_solves, check_submissions}
use sauryctf.Submissions.Replay.Challenges.{ChallengeScore, score_challenges}
use sauryctf.Submissions.Replay.Totals.{ParticipationScore, participation_scores}
use sauryctf.Submissions.Replay.Ranking.{RankSummary, ranking_summary}

-- `ContestScoringReplay`.
pub record ContestScoringReplay : Type 0 where
  pub fact_version : ℤ
  pub challenge_scores : List ChallengeScore
  pub participation_scores : List ParticipationScore
  pub ranking_summary : List RankSummary

-- The facts by their identifiers.
pub record FactMaps : Type 0 where
  pub challenges : Dict String ChallengeFact
  pub participations : Dict String ParticipationFact
  pub submissions : Dict String SubmissionFact

-- The five calls of `uniqueById`.
unfoldable pub map_facts : ContestScoringFacts → Result ReplayError FactMaps
map_facts facts = do
  challenges ← unique_by_id (λ c. c.id) FactKind.challenge facts.challenges
  participations ← unique_by_id (λ p. p.id) FactKind.participation facts.participations
  submissions ← unique_by_id (λ s. s.id) FactKind.submission facts.submissions
  _ ← unique_by_id (λ s. s.id) FactKind.solve facts.solves
  _ ← unique_by_id (λ a. a.id) FactKind.score_adjustment facts.adjustments
  ok (record {
    challenges = challenges;
    participations = participations;
    submissions = submissions;
  })

-- The loops over the official solves and over the submissions.
unfoldable pub check_facts :
    FactMaps → List SolveFact → List SubmissionFact → Result ReplayError SolveState
check_facts maps solves submissions = do
  checked ← check_solves maps.challenges maps.participations maps.submissions solves
  check_submissions maps.challenges maps.participations maps.submissions
      checked.solved_submission_ids submissions
  ok checked

module _ (locale_compare : String → String → Ordering) where
  -- The official solves, in the order in which they are replayed.
  unfoldable pub official_solves : List SolveFact → List SolveFact
  official_solves solves =
      to_sorted (compare_solve_facts locale_compare) (filter (λ s. is_official s.mode) solves)

module _ (m : FloatMath) (locale_compare : String → String → Ordering) where
  -- The scores, from the checked facts on.
  unfoldable pub score_facts :
      FactMaps
      → SolveState
      → List SolveFact
      → List ScoreAdjustmentFact
      → Result ReplayError ContestScoringReplay
  score_facts maps checked solves adjustments = do
    scored ← score_challenges m locale_compare maps.challenges checked.solves_by_challenge
    scores ←
        participation_scores locale_compare scored.challenge_points (values maps.participations)
          solves adjustments
    version ← safe_add (pos (length solves)) (pos (length adjustments)) SumLabel.fact_version
    ok (record {
      fact_version = version;
      challenge_scores = scored.challenge_scores;
      participation_scores = scores;
      ranking_summary = ranking_summary locale_compare scores;
    })

  unfoldable pub replay_contest_scoring :
      ContestScoringFacts → Result ReplayError ContestScoringReplay
  replay_contest_scoring facts = do
    maps ← map_facts facts
    checked ← check_facts maps (official_solves locale_compare facts.solves) facts.submissions
    score_facts maps checked (official_solves locale_compare facts.solves) facts.adjustments
