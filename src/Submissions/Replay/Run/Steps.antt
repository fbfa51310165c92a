-- ===== src/Submissions/Replay/Run/Steps.antt =====
-- The steps of a replay that succeeds
-- (`replayContestScoring` in apps/web/server/domains/submissions/scoring-replay.ts).
use mathlib.Core.Path.{subst}
use sauryctf.Prelude.{String, ◌≡◌, List, map, Ordering, length, arith}
use sauryctf.Prelude.Int.{pos}
use sauryctf.Prelude.Keys.{string_key}
use sauryctf.Prelude.Dict.{Dict, IsKeyed, values}
use sauryctf.Prelude.Distinct.{IsDistinct, keyed, IsDistinct-of_IsKeyed}
use sauryctf.Prelude.Result.{ok, bind-eq-ok}
use sauryctf.Submissions.Scoring.{FloatMath}
use sauryctf.Submissions.Replay.Facts.{
  ContestScoringFacts, ChallengeFact, ParticipationFact, SubmissionFact, SolveFact,
  ScoreAdjustmentFact, FactKind, SumLabel, safe_add,
}
use sauryctf.Submissions.Replay.Check.{SolveState, unique_by_id, check_solves, check_submissions}
use sauryctf.Submissions.Replay.Check.Unique.{unique_by_id-ok}
use sauryctf.Submissions.Replay.Challenges.{ScoreState, score_challenges}
use sauryctf.Submissions.Replay.Totals.{participation_scores}
use sauryctf.Submissions.Replay.Ranking.{ranking_summary}
use sauryctf.Submissions.Replay.Run.{
  ContestScoringReplay, FactMaps, map_facts, check_facts, score_facts, official_solves,
  replay_contest_scoring,
}

-- The facts by their identifiers.
abbrev pub challenges_by_id : ContestScoringFacts → Dict String ChallengeFact
challenges_by_id facts = keyed (λ c. c.id) facts.challenges

abbrev pub participations_by_id : ContestScoringFacts → Dict String ParticipationFact
participations_by_id facts = keyed (λ p. p.id) facts.participations

abbrev pub submissions_by_id : ContestScoringFacts → Dict String SubmissionFact
submissions_by_id facts = keyed (λ s. s.id) facts.submissions

module _ {A : Type 0} (id : A → String) (kind : FactKind) where
  -- Facts that pass the check are keyed, and no identifier stands twice.
  unique-keyed :
      (xs : List A) (d : Dict String A)
      → unique_by_id id kind xs ≡ ok d
      → (d ≡ keyed id xs) × IsDistinct (map id xs)
  unique-keyed xs d h =
      let (e, k) = unique_by_id-ok id kind xs h in
      (e, IsDistinct-of_IsKeyed id xs (subst (λ y. IsKeyed y) e k))

-- What the five calls of `uniqueById` establish.
pub record IsMapped (facts : ContestScoringFacts) (maps : FactMaps) : Type 0 where
  pub challenges : maps.challenges ≡ challenges_by_id facts
  pub participations : maps.participations ≡ participations_by_id facts
  pub submissions : maps.submissions ≡ submissions_by_id facts
  pub challenge_ids : IsDistinct (map (λ c. c.id) facts.challenges)
  pub participation_ids : IsDistinct (map (λ p. p.id) facts.participations)
  pub submission_ids : IsDistinct (map (λ s. s.id) facts.submissions)
  pub solve_ids : IsDistinct (map (λ s. s.id) facts.solves)
  pub adjustment_ids : IsDistinct (map (λ a. a.id) facts.adjustments)

map_facts-steps :
    (facts : ContestScoringFacts) (maps : FactMaps)
    → map_facts facts ≡ ok maps
    → (unique_by_id (λ c. c.id) FactKind.challenge facts.challenges ≡ ok maps.challenges)
      × (unique_by_id (λ p. p.id) FactKind.participation facts.participations
          ≡ ok maps.participations)
      × (unique_by_id (λ s. s.id) FactKind.submission facts.submissions ≡ ok maps.submissions)
      × ((d : Dict String SolveFact) × (unique_by_id (λ s. s.id) FactKind.solve facts.solves
            ≡ ok d))
      × ((d : Dict String ScoreAdjustmentFact) × (unique_by_id
              (λ a. a.id)
              FactKind.score_adjustment
              facts.adjustments
            ≡ ok d))
unfolding map_facts
map_facts-steps facts maps h = ground arith

map_facts-IsMapped :
    (facts : ContestScoringFacts) (maps : FactMaps)
    → map_facts facts ≡ ok maps
    → IsMapped facts maps
map_facts-IsMapped facts maps h =
    let (uc, up, us, (d, uv), (d', ua)) = map_facts-steps facts maps h in
    let (ec, dc) =
      unique-keyed (λ c. c.id) FactKind.challenge facts.challenges maps.challenges uc in
    let (ep, dp) =
      unique-keyed (λ p. p.id) FactKind.participation facts.participations maps.participations up in
    let (es, ds) =
      unique-keyed (λ s. s.id) FactKind.submission facts.submissions maps.submissions us in
    record {
      challenges = ec;
      participations = ep;
      submissions = es;
      challenge_ids = dc;
      participation_ids = dp;
      submission_ids = ds;
      solve_ids = (unique-keyed (λ s. s.id) FactKind.solve facts.solves d uv).1;
      adjustment_ids =
          (unique-keyed (λ a. a.id) FactKind.score_adjustment facts.adjustments d' ua).1;
    }

check_facts-ok :
    (maps : FactMaps) (solves : List SolveFact) (submissions : List SubmissionFact) (s : SolveState)
    → check_facts maps solves submissions ≡ ok s
    → (check_solves maps.challenges maps.participations maps.submissions solves ≡ ok s)
      × (check_submissions maps.challenges maps.participations maps.submissions
            s.solved_submission_ids submissions
          ≡ ok tt)
unfolding check_facts
check_facts-ok maps solves submissions s h = ground arith

module _ (m : FloatMath) (locale_compare : String → String → Ordering) where
  -- What the steps after the checks have returned.
  pub record IsScored (maps : FactMaps) (checked : SolveState) (solves : List SolveFact)
      (adjustments : List ScoreAdjustmentFact) (r : ContestScoringReplay) : Type 0 where
    pub scored : ScoreState
    pub challenges_scored :
        score_challenges m locale_compare maps.challenges checked.solves_by_challenge ≡ ok scored
    pub challenge_scores : r.challenge_scores ≡ scored.challenge_scores
    pub participations_scored :
        participation_scores locale_compare scored.challenge_points
          (values maps.participations)
          solves
          adjustments
        ≡ ok r.participation_scores
    pub ranking : r.ranking_summary ≡ ranking_summary locale_compare r.participation_scores
    pub version :
        safe_add (pos (length solves)) (pos (length adjustments)) SumLabel.fact_version
        ≡ ok r.fact_version

  score_facts-IsScored :
      (maps : FactMaps) (checked : SolveState) (solves : List SolveFact)
      (adjustments : List ScoreAdjustmentFact) (r : ContestScoringReplay)
      → score_facts m locale_compare maps checked solves adjustments ≡ ok r
      → IsScored maps checked solves adjustments r
  unfolding score_facts
  score_facts-IsScored maps checked solves adjustments r h =
      let (s, e, h') =
        bind-eq-ok (score_challenges m locale_compare maps.challenges checked.solves_by_challenge) _
          h in
      record {
        scored = s;
        challenges_scored = e;
        challenge_scores = ground arith;
        participations_scored = ground arith;
        ranking = ground arith;
        version = ground arith;
      }

  -- A replay that succeeds has passed all the checks, and its parts are what the steps return.
  pub record IsRun (facts : ContestScoringFacts) (r : ContestScoringReplay) : Type 0 where
    pub maps : FactMaps
    pub checked : SolveState
    pub mapped : IsMapped facts maps
    pub solves_checked :
        check_solves maps.challenges maps.participations maps.submissions
          (official_solves locale_compare facts.solves)
        ≡ ok checked
    pub submissions_checked :
        check_submissions maps.challenges maps.participations maps.submissions
          checked.solved_submission_ids facts.submissions
        ≡ ok tt
    pub scored :
        IsScored maps checked (official_solves locale_compare facts.solves) facts.adjustments r

  pub replay-IsRun :
      (facts : ContestScoringFacts) (r : ContestScoringReplay)
      → replay_contest_scoring m locale_compare facts ≡ ok r
      → IsRun facts r
  unfolding replay_contest_scoring
  replay-IsRun facts r h =
      let solves = official_solves locale_compare facts.solves in
      let (maps, e₁, h₁) = bind-eq-ok (map_facts facts) _ h in
      let (checked, e₂, h₂) = bind-eq-ok (check_facts maps solves facts.submissions) _ h₁ in
      let (k₁, k₂) = check_facts-ok maps solves facts.submissions checked e₂ in
      record {
        maps = maps;
        checked = checked;
        mapped = map_facts-IsMapped facts maps e₁;
        solves_checked = k₁;
        submissions_checked = k₂;
        scored = score_facts-IsScored maps checked solves facts.adjustments r h₂;
      }
