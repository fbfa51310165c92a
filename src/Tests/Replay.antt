-- ===== src/Tests/Replay.antt =====
-- A contest with two challenges and three teams, replayed.
use sauryctf.Prelude.{
  some, ℕ, compare, filter, map_from, All₂, String, none, List, [], ◌∷◌, Ordering, ◌≡◌, refl,
  if◌then◌else◌,
}
use sauryctf.Prelude.Int.{ℤ, pos, negsuc, ◌+ℤ◌, ◌-ℤ◌, leb_ℤ}
use sauryctf.Prelude.Date.{at}
use sauryctf.Prelude.Result.{ok, err}
use sauryctf.Prelude.Sort.{to_sorted}
use Prim.Native.Char.{code}
use mathlib.Core.List.{Perm}
use sauryctf.Prelude.Keys.{eqb}
use sauryctf.Prelude.Order.{IsComparator, on-IsComparator, compare-IsComparator}
use sauryctf.Submissions.Scoring.{
  ScoringPolicy, FloatMath, calculate_challenge_score, policy_value, decayed, is_scoring_policy,
}
use sauryctf.Submissions.Replay.Facts.{
  ChallengeFact, ParticipationFact, SubmissionFact, SolveFact, ContestScoringFacts, SubmissionMode,
  SubmissionResult, ParticipationStatus, safe_add, duplicate_pair, compare_solve_facts,
  compare_adjustment_facts, is_accepted,
}
use sauryctf.Submissions.Replay.Check.{
  unique_by_id, matches_submission, check_solves, check_submissions,
}
use sauryctf.Submissions.Replay.Challenges.{
  FirstSolve, check_orders, first_solve_of, score_challenges, by_challenge_id,
}
use sauryctf.Submissions.Replay.Challenges.Laws.{IsScoreOf, points_of}
use sauryctf.Submissions.Replay.Totals.{
  SolveSummary, ParticipationScore, later_date, participation_scores, by_participation_id,
}
use sauryctf.Submissions.Replay.Totals.Laws.{IsTotalOf, IsListOf}
use sauryctf.Submissions.Replay.Ranking.{
  rank_summary, compare_replayed_participation_scores, ranking_summary,
}
use sauryctf.Submissions.Replay.Ranking.Laws.{IsRanking}
use sauryctf.Submissions.Replay.Run.{
  ContestScoringReplay, official_solves, map_facts, check_facts, score_facts,
  replay_contest_scoring,
}
use sauryctf.Submissions.Replay.Run.Laws.{
  IsConsistent, replay-IsConsistent, replay-challenge_scores, replay-participation_scores,
  replay-IsRanking,
}

-- Coarse doubles: integers, with an exponential that is 1 from 0 on and 0 below.
abbrev pub coarse : FloatMath
coarse = record {
  Float = ℤ;
  of_ℤ = λ n. n;
  add = ◌+ℤ◌;
  mul = λ a b. if leb_ℤ (pos 1) b then a else pos 0;
  div = λ a b. a;
  exp = λ a. if leb_ℤ (pos 0) a then pos 1 else pos 0;
  floor = λ a. a;
}

-- A collation by the first letter alone.
unfoldable pub first_code : String → ℕ
first_code String.[] = 0
first_code (String.◌∷◌ c s) = code c

abbrev pub initial_compare : String → String → Ordering
initial_compare a b = compare (first_code a) (first_code b)

pub initial_compare-IsComparator : IsComparator initial_compare
initial_compare-IsComparator = on-IsComparator first_code compare-IsComparator

abbrev challenge_facts : List ChallengeFact
challenge_facts =
    record { id = "web"; scoring_policy = ScoringPolicy.decay_v1 (pos 500) (pos 100) (pos 10) }
    ∷ record { id = "pwn"; scoring_policy = ScoringPolicy.fixed_v1 (pos 300) }
    ∷ []

abbrev participant : String → String → ParticipationStatus → ParticipationFact
participant id team status = record {
  id = id;
  team_id = team;
  team_name = team;
  division_id = none;
  status = status;
}

abbrev solved : String → String → String → ℤ → SolveFact
solved id c p order = record {
  id = id;
  submission_id = id;
  challenge_id = c;
  participation_id = p;
  mode = SubmissionMode.official;
  solve_order = order;
  solved_at = at 40;
}

abbrev submitted : String → String → String → SubmissionResult → SubmissionFact
submitted id c p result = record {
  id = id;
  challenge_id = c;
  participation_id = p;
  mode = SubmissionMode.official;
  result = result;
  submitted_at = at 40;
}

abbrev pub facts : ContestScoringFacts
facts = record {
  challenges = challenge_facts;
  participations =
      participant "a" "ta" ParticipationStatus.accepted
      ∷ participant "b" "tb" ParticipationStatus.accepted
      ∷ participant "c" "tc" ParticipationStatus.withdrawn
      ∷ [];
  submissions =
      submitted "s1" "web" "a" SubmissionResult.correct
      ∷ submitted "s2" "web" "b" SubmissionResult.correct
      ∷ submitted "s3" "pwn" "b" SubmissionResult.correct
      ∷ submitted "s4" "pwn" "a" SubmissionResult.incorrect
      ∷ [];
  solves =
      solved "s1" "web" "a" (pos 1)
      ∷ solved "s2" "web" "b" (pos 2)
      ∷ solved "s3" "pwn" "b" (pos 1)
      ∷ [];
  adjustments =
      record { id = "x"; participation_id = "a"; points_delta = negsuc 9; created_at = at 90 } ∷ [];
}

abbrev summary : String → String → SolveSummary
summary id c = record { solve_id = id; challenge_id = c; solved_at = 40 }

abbrev first_of : String → String → FirstSolve
first_of id p = record { solve_id = id; submission_id = id; participation_id = p; solved_at = 40 }

abbrev score_a : ParticipationScore
score_a = record {
  participation_id = "a";
  team_id = "ta";
  team_name = "ta";
  division_id = none;
  status = ParticipationStatus.accepted;
  solves = summary "s1" "web" ∷ [];
  official_solve_count = 1;
  solve_points = pos 100;
  adjustment_points = negsuc 9;
  total_points = pos 90;
  last_scoring_at = some 90;
}

abbrev score_b : ParticipationScore
score_b = record {
  participation_id = "b";
  team_id = "tb";
  team_name = "tb";
  division_id = none;
  status = ParticipationStatus.accepted;
  solves = summary "s3" "pwn" ∷ summary "s2" "web" ∷ [];
  official_solve_count = 2;
  solve_points = pos 400;
  adjustment_points = pos 0;
  total_points = pos 400;
  last_scoring_at = some 40;
}

abbrev score_c : ParticipationScore
score_c = record {
  participation_id = "c";
  team_id = "tc";
  team_name = "tc";
  division_id = none;
  status = ParticipationStatus.withdrawn;
  solves = [];
  official_solve_count = 0;
  solve_points = pos 0;
  adjustment_points = pos 0;
  total_points = pos 0;
  last_scoring_at = none;
}

abbrev pub replayed : ContestScoringReplay
replayed = record {
  fact_version = pos 4;
  challenge_scores =
      record {
        challenge_id = "pwn";
        official_solve_count = 1;
        current_points = pos 300;
        first_solve = some (first_of "s3" "b");
      }
      ∷ record {
        challenge_id = "web";
        official_solve_count = 2;
        current_points = pos 100;
        first_solve = some (first_of "s1" "a");
      }
      ∷ [];
  participation_scores = score_a ∷ score_b ∷ score_c ∷ [];
  ranking_summary = rank_summary 0 score_b ∷ rank_summary 1 score_a ∷ [];
}

pub facts-replayed : replay_contest_scoring coarse initial_compare facts ≡ ok replayed
unfolding replay_contest_scoring map_facts check_facts score_facts unique_by_id matches_submission
    check_solves check_submissions score_challenges check_orders first_solve_of participation_scores
    later_date safe_add ranking_summary compare_replayed_participation_scores official_solves
    compare_solve_facts compare_adjustment_facts first_code to_sorted calculate_challenge_score
    policy_value decayed is_scoring_policy ◌+ℤ◌ ◌-ℤ◌
facts-replayed = refl

-- Two solves of one challenge by one participation are refused.
abbrev twice_solved : ContestScoringFacts
twice_solved = record facts {
  submissions = submitted "s5" "web" "a" SubmissionResult.correct ∷ facts.submissions;
  solves = solved "s5" "web" "a" (pos 3) ∷ facts.solves;
}

twice_refused :
    replay_contest_scoring coarse initial_compare twice_solved ≡ err (duplicate_pair ("a", "web"))
unfolding replay_contest_scoring map_facts check_facts score_facts unique_by_id matches_submission
    check_solves check_submissions official_solves compare_solve_facts first_code to_sorted
twice_refused = refl

replay-IsConsistent_example : IsConsistent initial_compare facts
replay-IsConsistent_example =
    replay-IsConsistent coarse initial_compare facts replayed facts-replayed

replay-challenge_scores_example :
    All₂
      (λ c x.
        IsScoreOf coarse initial_compare
          (filter (λ s. eqb c.id s.challenge_id) (official_solves initial_compare facts.solves))
          c
          x)
      (to_sorted (by_challenge_id initial_compare) facts.challenges)
      replayed.challenge_scores
replay-challenge_scores_example =
    replay-challenge_scores coarse initial_compare facts replayed facts-replayed

replay-participation_scores_example :
    (scores : List ParticipationScore) × (replayed.participation_scores
      ≡ to_sorted (by_participation_id initial_compare) scores)
    × All₂
        (λ p x.
          IsTotalOf
            (points_of replayed.challenge_scores)
            (official_solves initial_compare facts.solves)
            facts.adjustments
            p
            x
          × IsListOf initial_compare (official_solves initial_compare facts.solves) p x)
        facts.participations
        scores
replay-participation_scores_example =
    replay-participation_scores coarse initial_compare facts replayed facts-replayed

replay-IsRanking_example :
    IsRanking 0 replayed.ranking_summary
    × ((ranked : List ParticipationScore) × (replayed.ranking_summary
          ≡ map_from rank_summary 0 ranked)
        × Perm ranked (filter (λ x. is_accepted x.status) replayed.participation_scores))
replay-IsRanking_example =
    replay-IsRanking coarse initial_compare facts replayed facts-replayed
      initial_compare-IsComparator
