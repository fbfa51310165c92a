-- ===== src/Tests/Freezes.antt =====
-- Two solves whose times run against their orders: the second transaction to reach the tables took
-- its time first. A board that is frozen between the two times has the second solve only.
use sauryctf.Prelude.{none, some, [], ◌∷◌, ◌≡◌, refl}
use sauryctf.Prelude.Int.{pos}
use sauryctf.Prelude.Date.{at}
use sauryctf.Prelude.Sort.{to_sorted}
use sauryctf.Prelude.Result.{Result, ok, err}
use sauryctf.Submissions.Scoring.{
  ScoringPolicy, calculate_challenge_score, policy_value, is_scoring_policy,
}
use sauryctf.Challenges.Policy.{parse_flag_policy}
use sauryctf.Participations.Tables.{TeamRole}
use sauryctf.Submissions.Replay.Facts.{
  ContestScoringFacts, ParticipationStatus, SubmissionMode, SubmissionResult, solve_order_gap,
  compare_solve_facts,
}
use sauryctf.Submissions.Replay.Check.{
  unique_by_id, matches_submission, check_solves, check_submissions,
}
use sauryctf.Submissions.Replay.Challenges.{check_orders, score_challenges}
use sauryctf.Submissions.Replay.Run.{
  official_solves, map_facts, check_facts, score_facts, replay_contest_scoring,
}
use sauryctf.Submissions.Store.Tables.{
  SubmissionTables, AppendSubmissionCommand, StoredSubmission, StoreError,
}
use sauryctf.Submissions.Store.Admission.{
  admit, submission_mode, membership_team, accepted_participation, available_challenge,
}
use sauryctf.Submissions.Store.Clues.{
  detect_cheat_clues, detect_abnormal_frequency, detect_foreign_team_flag,
}
use sauryctf.Submissions.Store.Append.{
  append, append_new, insert_submission, insert_solve, create_solve, credit, publish_solve,
  announce, insert_event, advance_scoreboard_version, has_solve, recover, FreshIds,
}
use sauryctf.Submissions.Store.Load.{load, challenge_fact}
use sauryctf.Tests.Replay.{coarse, initial_compare, first_code}
use sauryctf.Tests.Flags.{start_tables, fresh, right_flag}

abbrev two_teams : SubmissionTables
two_teams = record start_tables {
  members =
      record { user_id = "u"; team_id = "t"; role = TeamRole.captain }
      ∷ record { user_id = "w"; team_id = "q"; role = TeamRole.captain }
      ∷ [];
  teams = record { id = "t"; name = "Team" } ∷ record { id = "q"; name = "Queue" } ∷ [];
  participations =
      record {
        id = "p";
        contest_id = "c";
        team_id = "t";
        division_id = none;
        status = ParticipationStatus.accepted;
      }
      ∷ record {
        id = "o";
        contest_id = "c";
        team_id = "q";
        division_id = none;
        status = ParticipationStatus.accepted;
      }
      ∷ [];
}

-- The flag of the second team, whose time is earlier than that of the first.
abbrev earlier_flag : AppendSubmissionCommand
earlier_flag = record right_flag {
  admission = record { user_id = "w"; contest_id = "c"; challenge_id = "web"; at_time = 19 };
  request_id = "r2";
  answer_digest = "e";
}

abbrev later_ids : FreshIds
later_ids = record { submission = "s2"; solve = "v2"; clue = λ _. "l" }

abbrev tables_of : Result StoreError (SubmissionTables × StoredSubmission) → SubmissionTables
tables_of (ok answer) = answer.0
tables_of (err e) = start_tables

abbrev once_solved : SubmissionTables
once_solved = tables_of (append coarse two_teams two_teams fresh right_flag)

abbrev twice_solved : SubmissionTables
twice_solved = tables_of (append coarse once_solved once_solved later_ids earlier_flag)

abbrev frozen_facts : ContestScoringFacts
frozen_facts = record {
  challenges = record { id = "web"; scoring_policy = ScoringPolicy.fixed_v1 (pos 100) } ∷ [];
  participations =
      record {
        id = "o";
        team_id = "q";
        team_name = "Queue";
        division_id = none;
        status = ParticipationStatus.accepted;
      }
      ∷ record {
        id = "p";
        team_id = "t";
        team_name = "Team";
        division_id = none;
        status = ParticipationStatus.accepted;
      }
      ∷ [];
  submissions =
      record {
        id = "s2";
        challenge_id = "web";
        participation_id = "o";
        mode = SubmissionMode.official;
        result = SubmissionResult.correct;
        submitted_at = at 19;
      }
      ∷ [];
  solves =
      record {
        id = "v2";
        submission_id = "s2";
        challenge_id = "web";
        participation_id = "o";
        mode = SubmissionMode.official;
        solve_order = pos 2;
        solved_at = at 19;
      }
      ∷ [];
  adjustments = [];
}

frozen_loaded : load twice_solved "c" (some 20) ≡ ok frozen_facts
unfolding load challenge_fact is_scoring_policy to_sorted append append_new admit submission_mode
    membership_team accepted_participation available_challenge parse_flag_policy has_solve
    insert_submission credit create_solve calculate_challenge_score policy_value insert_solve
    publish_solve advance_scoreboard_version announce insert_event recover detect_cheat_clues
    detect_abnormal_frequency detect_foreign_team_flag
frozen_loaded = refl

frozen_refused :
    replay_contest_scoring coarse initial_compare frozen_facts ≡ err (solve_order_gap "web")
unfolding replay_contest_scoring map_facts check_facts score_facts unique_by_id matches_submission
    check_solves check_submissions score_challenges check_orders official_solves compare_solve_facts
    first_code to_sorted
frozen_refused = refl
