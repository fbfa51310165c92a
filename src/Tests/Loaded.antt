-- ===== src/Tests/Loaded.antt =====
-- The facts of a stored solve, loaded and replayed.
use sauryctf.Prelude.{none, some, [], ◌∷◌, ◌≡◌, refl}
use sauryctf.Prelude.Int.{pos, ◌+ℤ◌}
use sauryctf.Prelude.Date.{at}
use sauryctf.Prelude.Sort.{to_sorted}
use sauryctf.Prelude.Result.{ok}
use sauryctf.Submissions.Scoring.{
  ScoringPolicy, calculate_challenge_score, policy_value, is_scoring_policy,
}
use sauryctf.Submissions.Replay.Facts.{
  ContestScoringFacts, ParticipationStatus, SubmissionMode, SubmissionResult, safe_add,
  compare_solve_facts, compare_adjustment_facts,
}
use sauryctf.Submissions.Replay.Check.{
  unique_by_id, matches_submission, check_solves, check_submissions,
}
use sauryctf.Submissions.Replay.Challenges.{check_orders, first_solve_of, score_challenges}
use sauryctf.Submissions.Replay.Totals.{ParticipationScore, later_date, participation_scores}
use sauryctf.Submissions.Replay.Ranking.{
  rank_summary, compare_replayed_participation_scores, ranking_summary,
}
use sauryctf.Submissions.Replay.Run.{
  ContestScoringReplay, official_solves, map_facts, check_facts, score_facts,
  replay_contest_scoring,
}
use sauryctf.Submissions.Store.Append.{version_in}
use sauryctf.Submissions.Store.Load.{load, challenge_fact}
use sauryctf.Submissions.Store.Loaded.{replay-version}
use sauryctf.Tests.Replay.{coarse, initial_compare, first_code}
use sauryctf.Tests.Flags.{solved_tables, solved-IsConsistent}

abbrev loaded_facts : ContestScoringFacts
loaded_facts = record {
  challenges = record { id = "web"; scoring_policy = ScoringPolicy.fixed_v1 (pos 100) } ∷ [];
  participations =
      record {
        id = "p";
        team_id = "t";
        team_name = "Team";
        division_id = none;
        status = ParticipationStatus.accepted;
      }
      ∷ [];
  submissions =
      record {
        id = "s1";
        challenge_id = "web";
        participation_id = "p";
        mode = SubmissionMode.official;
        result = SubmissionResult.correct;
        submitted_at = at 20;
      }
      ∷ [];
  solves =
      record {
        id = "v1";
        submission_id = "s1";
        challenge_id = "web";
        participation_id = "p";
        mode = SubmissionMode.official;
        solve_order = pos 1;
        solved_at = at 20;
      }
      ∷ [];
  adjustments = [];
}

loaded : load solved_tables "c" none ≡ ok loaded_facts
unfolding load challenge_fact is_scoring_policy to_sorted
loaded = refl

abbrev score : ParticipationScore
score = record {
  participation_id = "p";
  team_id = "t";
  team_name = "Team";
  division_id = none;
  status = ParticipationStatus.accepted;
  solves = record { solve_id = "v1"; challenge_id = "web"; solved_at = 20 } ∷ [];
  official_solve_count = 1;
  solve_points = pos 100;
  adjustment_points = pos 0;
  total_points = pos 100;
  last_scoring_at = some 20;
}

abbrev loaded_replay : ContestScoringReplay
loaded_replay = record {
  fact_version = pos 1;
  challenge_scores =
      record {
        challenge_id = "web";
        official_solve_count = 1;
        current_points = pos 100;
        first_solve = some (record {
          solve_id = "v1";
          submission_id = "s1";
          participation_id = "p";
          solved_at = 20;
        });
      }
      ∷ [];
  participation_scores = score ∷ [];
  ranking_summary = rank_summary 0 score ∷ [];
}

loaded_replayed : replay_contest_scoring coarse initial_compare loaded_facts ≡ ok loaded_replay
unfolding replay_contest_scoring map_facts check_facts score_facts unique_by_id matches_submission
    check_solves check_submissions score_challenges check_orders first_solve_of participation_scores
    later_date safe_add ranking_summary compare_replayed_participation_scores official_solves
    compare_solve_facts compare_adjustment_facts first_code to_sorted calculate_challenge_score
    policy_value is_scoring_policy ◌+ℤ◌
loaded_replayed = refl

replay-version_example : pos 1 ≡ pos (version_in "c" solved_tables.versions)
replay-version_example =
    replay-version coarse initial_compare solved_tables "c" loaded_facts loaded_replay
      solved-IsConsistent loaded loaded_replayed
