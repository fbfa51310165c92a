-- ===== src/Tests/Flags.antt =====
-- A contest with a challenge, whose submissions are stored, limited, adjusted and reviewed.
use sauryctf.Prelude.{◌≤◌, true, false, none, some, [], ◌∷◌, ◌≡◌, refl, All₂, count}
use sauryctf.Prelude.Int.{pos, negsuc}
use sauryctf.Prelude.Keys.{string_key}
use sauryctf.Prelude.Sort.{to_sorted}
use sauryctf.Prelude.Result.{ok, err}
use sauryctf.Submissions.Scoring.{
  ScoringPolicy, calculate_challenge_score, is_scoring_policy, policy_value,
}
use sauryctf.Submissions.Replay.Facts.{SubmissionMode, SubmissionResult, ParticipationStatus}
use sauryctf.Challenges.Policy.{FlagPolicy, parse_flag_policy}
use sauryctf.Participations.Tables.{PublicationStatus, TeamRole}
use sauryctf.Submissions.Store.Tables.{
  SubmissionTables, SubmissionAdmission, AppendSubmissionCommand, VerifiedSubmissionResult,
  StoredSubmission, RecordScoreAdjustmentCommand, ScoreAdjustmentRow, CheatClueRow, CheatClueStatus,
  CheatClueType, ClueKey, EventKey, ReviewStatus, ReviewCheatClueCommand, limit_reached,
}
use sauryctf.Submissions.Store.Admission.{
  admit, submission_mode, membership_team, accepted_participation, available_challenge, is_attempt,
}
use sauryctf.Submissions.Store.Clues.{
  detect_cheat_clues, detect_abnormal_frequency, detect_foreign_team_flag,
}
use sauryctf.Submissions.Store.Append.{
  append, append_new, insert_submission, insert_solve, create_solve, credit, publish_solve,
  announce, insert_event, advance_scoreboard_version, has_solve, recover, FreshIds,
}
use sauryctf.Submissions.Store.Adjustments.{
  record_score_adjustment, adjust_new, insert_adjustment, recover_adjustment,
}
use sauryctf.Submissions.Store.Reviews.{review_cheat_clue, review_from}
use sauryctf.Submissions.Store.Laws.Consistent.{IsConsistent}
use sauryctf.Submissions.Store.Laws.Admitted.{IsAllowed, admit-IsAllowed}
use sauryctf.Submissions.Store.Appends.{append-IsConsistent, append-retried, retried}
use sauryctf.Submissions.Store.Races.{append-race, append-refused, append-limit}
use sauryctf.Submissions.Store.Adjusted.{record_score_adjustment-IsConsistent}
use sauryctf.Submissions.Store.Reviewed.{IsReviewStep, review_cheat_clue-steps}
use sauryctf.Submissions.Store.ReviewRuns.{IsSettledSame, run_reviews, reviews-settled}
use sauryctf.Submissions.Store.ReviewRepeats.{at_other_time, review_cheat_clue-repeated}
use sauryctf.Tests.Replay.{coarse}

abbrev some_clue : CheatClueRow
some_clue = record {
  id = "clue";
  clue_key = ClueKey.foreign_key "s" "p";
  contest_id = "c";
  contest_challenge_id = "web";
  participation_id = "p";
  clue_type = CheatClueType.foreign_team_flag;
  evidence = record {
    kind = CheatClueType.foreign_team_flag;
    answer_fingerprint = some "d";
    submission_ids = [];
    participation_ids = [];
    matching_count = none;
    times = [];
  };
  status = CheatClueStatus.opened;
  reviewed_by = none;
  review_note = none;
  reviewed_at = none;
  created_at = 5;
  updated_at = 5;
}

abbrev pub start_tables : SubmissionTables
start_tables = record {
  contests =
      record {
        id = "c";
        publication_status = PublicationStatus.published;
        start_at = 10;
        end_at = 100;
        practice_enabled = true;
      }
      ∷ [];
  members = record { user_id = "u"; team_id = "t"; role = TeamRole.captain } ∷ [];
  teams = record { id = "t"; name = "Team" } ∷ [];
  participations =
      record {
        id = "p";
        contest_id = "c";
        team_id = "t";
        division_id = none;
        status = ParticipationStatus.accepted;
      }
      ∷ [];
  challenges =
      record {
        id = "web";
        contest_id = "c";
        enabled = true;
        publish_at = some 10;
        close_at = none;
        submission_limit = some 1;
        flag_format = none;
        flag_policy = FlagPolicy.team_derived (pos 1);
        scoring_policy = ScoringPolicy.fixed_v1 (pos 100);
      }
      ∷ [];
  submissions = [];
  solves = [];
  adjustments = [];
  versions = [];
  clues = some_clue ∷ [];
  contest_events = [];
  adjustment_audits = [];
  review_audits = [];
}

abbrev pub start-IsConsistent : IsConsistent start_tables
start-IsConsistent = record {
  counted = tt;
  solved_once = tt;
  credited = refl;
  submission_ids = tt;
  request_ids = tt;
  adjustment_ids = tt;
  adjustment_request_ids = tt;
  versioned = λ _. refl;
}

abbrev pub fresh : FreshIds
fresh = record { submission = "s1"; solve = "v1"; clue = λ _. "k" }

abbrev pub right_flag : AppendSubmissionCommand
right_flag = record {
  admission = record { user_id = "u"; contest_id = "c"; challenge_id = "web"; at_time = 20 };
  request_id = "r1";
  result = VerifiedSubmissionResult.verified_correct;
  answer_digest = "d";
  answer_ciphertext = "x";
}

abbrev pub answer : StoredSubmission
answer = record {
  id = "s1";
  contest_id = "c";
  challenge_id = "web";
  participation_id = "p";
  user_id = "u";
  mode = SubmissionMode.official;
  result = SubmissionResult.correct;
  submitted_at = 20;
}

abbrev pub solved_tables : SubmissionTables
solved_tables = record start_tables {
  submissions =
      record {
        id = "s1";
        contest_id = "c";
        contest_challenge_id = "web";
        participation_id = "p";
        user_id = "u";
        mode = SubmissionMode.official;
        result = SubmissionResult.correct;
        answer_digest = "d";
        answer_ciphertext = "x";
        request_id = "r1";
        submitted_at = 20;
      }
      ∷ [];
  solves =
      record {
        id = "v1";
        submission_id = "s1";
        contest_id = "c";
        contest_challenge_id = "web";
        participation_id = "p";
        mode = SubmissionMode.official;
        awarded_score = pos 100;
        solve_order = 1;
        solved_at = 20;
      }
      ∷ [];
  versions = record { contest_id = "c"; version = 1 } ∷ [];
  contest_events =
      record {
        contest_id = "c";
        event_key = EventKey.first_solve_key "web";
        occurred_at = 20;
        challenge_id = "web";
        team_id = "t";
        team_name = "Team";
      }
      ∷ [];
}

pub solved : append coarse start_tables start_tables fresh right_flag ≡ ok (solved_tables, answer)
unfolding append append_new admit submission_mode membership_team accepted_participation
    available_challenge parse_flag_policy is_scoring_policy has_solve insert_submission credit
    create_solve calculate_challenge_score policy_value insert_solve publish_solve
    advance_scoreboard_version announce insert_event recover detect_cheat_clues
    detect_abnormal_frequency detect_foreign_team_flag to_sorted
solved = refl

-- The limit of one attempt is spent.
second_refused :
    append coarse solved_tables solved_tables fresh (record right_flag { request_id = "r2" })
    ≡ err limit_reached
unfolding append append_new admit submission_mode membership_team accepted_participation
    available_challenge recover
second_refused = refl

append-IsConsistent_example : IsConsistent solved_tables
append-IsConsistent_example =
    append-IsConsistent coarse start_tables start_tables fresh right_flag solved_tables answer
      start-IsConsistent solved

-- The contest is over, and takes no practice.
abbrev over_tables : SubmissionTables
over_tables = record solved_tables {
  contests =
      record {
        id = "c";
        publication_status = PublicationStatus.published;
        start_at = 10;
        end_at = 100;
        practice_enabled = false;
      }
      ∷ [];
}

append-retried_example :
    append coarse over_tables over_tables fresh (retried 500 "y" right_flag)
    ≡ ok (over_tables, answer)
append-retried_example =
    append-retried coarse start_tables over_tables over_tables fresh fresh right_flag solved_tables
      answer 500 "y" solved (λ _ h. h)

-- The second append of the request looked it up before the first one was committed, which spent the
-- limit.
spent : admit solved_tables right_flag.admission ≡ err limit_reached
unfolding admit submission_mode membership_team accepted_participation available_challenge
spent = refl

append-refused_example :
    append coarse start_tables solved_tables fresh right_flag ≡ err limit_reached
append-refused_example =
    append-refused coarse start_tables solved_tables fresh right_flag limit_reached refl spent

abbrev pub admitted_flag : SubmissionAdmission
admitted_flag = record {
  contest_id = "c";
  challenge_id = "web";
  participation_id = "p";
  team_id = "t";
  team_name = "Team";
  flag_format = none;
  flag_policy = FlagPolicy.team_derived (pos 1);
  scoring_policy = ScoringPolicy.fixed_v1 (pos 100);
  mode = SubmissionMode.official;
}

pub admitted : admit start_tables right_flag.admission ≡ ok admitted_flag
unfolding admit submission_mode membership_team accepted_participation available_challenge
    parse_flag_policy is_scoring_policy
admitted = refl

-- The tables after the first append, of a challenge without a limit.
abbrev unlimited_tables : SubmissionTables
unlimited_tables = record solved_tables {
  challenges =
      record {
        id = "web";
        contest_id = "c";
        enabled = true;
        publish_at = some 10;
        close_at = none;
        submission_limit = none;
        flag_format = none;
        flag_policy = FlagPolicy.team_derived (pos 1);
        scoring_policy = ScoringPolicy.fixed_v1 (pos 100);
      }
      ∷ [];
}

abbrev second_ids : FreshIds
second_ids = record { submission = "s2"; solve = "v2"; clue = λ _. "k" }

append-race_example :
    append coarse start_tables unlimited_tables second_ids right_flag
    ≡ append coarse unlimited_tables unlimited_tables second_ids right_flag
unfolding admit submission_mode membership_team accepted_participation available_challenge
    parse_flag_policy is_scoring_policy
append-race_example =
    append-race coarse start_tables unlimited_tables second_ids right_flag admitted_flag (λ _ h. cc)
      refl refl

append-limit_example :
    count (is_attempt "p" "web" SubmissionMode.official) solved_tables.submissions ≤ 1
append-limit_example =
    append-limit coarse start_tables fresh right_flag solved_tables answer _ 1 refl refl refl solved

admit-IsAllowed_example : IsAllowed start_tables right_flag.admission admitted_flag
admit-IsAllowed_example = admit-IsAllowed start_tables right_flag.admission admitted_flag admitted

abbrev penalty : RecordScoreAdjustmentCommand
penalty = record {
  actor_id = "judge";
  contest_id = "c";
  participation_id = "p";
  points_delta = negsuc 9;
  reason = "hints were sold";
  request_id = "a1";
  at_time = 30;
}

abbrev penalty_row : ScoreAdjustmentRow
penalty_row = record {
  id = "adj";
  contest_id = "c";
  participation_id = "p";
  points_delta = negsuc 9;
  reason = "hints were sold";
  created_by = "judge";
  request_id = "a1";
  created_at = 30;
}

abbrev adjusted_tables : SubmissionTables
adjusted_tables = record start_tables {
  adjustments = penalty_row ∷ [];
  versions = record { contest_id = "c"; version = 1 } ∷ [];
  adjustment_audits =
      record {
        actor_user_id = "judge";
        target_id = "adj";
        reason = "hints were sold";
        request_id = "a1";
        scoreboard_version = 1;
        occurred_at = 30;
      }
      ∷ [];
}

adjusted :
    record_score_adjustment start_tables start_tables "adj" penalty
    ≡ ok (adjusted_tables, penalty_row)
unfolding record_score_adjustment adjust_new insert_adjustment advance_scoreboard_version
    recover_adjustment
adjusted = refl

record_score_adjustment-IsConsistent_example : IsConsistent adjusted_tables
record_score_adjustment-IsConsistent_example =
    record_score_adjustment-IsConsistent start_tables start_tables "adj" penalty adjusted_tables
      penalty_row start-IsConsistent adjusted

abbrev dismissal : ReviewCheatClueCommand
dismissal = record {
  actor_id = "judge";
  contest_id = "c";
  clue_id = "clue";
  status = ReviewStatus.to_dismissed;
  note = some "same network only";
  request_id = "w1";
  at_time = 40;
}

abbrev dismissed_clue : CheatClueRow
dismissed_clue = record some_clue {
  status = CheatClueStatus.dismissed;
  reviewed_by = some "judge";
  review_note = some "same network only";
  reviewed_at = some 40;
  updated_at = 40;
}

abbrev reviewed_tables : SubmissionTables
reviewed_tables = record start_tables {
  clues = dismissed_clue ∷ [];
  review_audits =
      record {
        actor_user_id = "judge";
        target_id = "clue";
        reason = some "same network only";
        request_id = "w1";
        contest_id = "c";
        from_status = CheatClueStatus.opened;
        to_status = CheatClueStatus.dismissed;
        review_note = some "same network only";
        occurred_at = 40;
      }
      ∷ [];
}

reviewed_once : review_cheat_clue start_tables dismissal ≡ ok (reviewed_tables, dismissed_clue)
unfolding review_cheat_clue review_from
reviewed_once = refl

review_cheat_clue-steps_example :
    All₂ (IsReviewStep dismissal) start_tables.clues reviewed_tables.clues
review_cheat_clue-steps_example =
    review_cheat_clue-steps start_tables dismissal reviewed_tables dismissed_clue (refl, tt)
      reviewed_once

-- A clue that is taken up and then dismissed; the first review is then sent again, later.
abbrev taking_up : ReviewCheatClueCommand
taking_up = record dismissal {
  status = ReviewStatus.to_reviewing;
  note = none;
  request_id = "w0";
  at_time = 35;
}

abbrev taken_clue : CheatClueRow
taken_clue = record some_clue { status = CheatClueStatus.reviewing; updated_at = 35 }

abbrev taken_tables : SubmissionTables
taken_tables = record start_tables {
  clues = taken_clue ∷ [];
  review_audits =
      record {
        actor_user_id = "judge";
        target_id = "clue";
        reason = none;
        request_id = "w0";
        contest_id = "c";
        from_status = CheatClueStatus.opened;
        to_status = CheatClueStatus.reviewing;
        review_note = none;
        occurred_at = 35;
      }
      ∷ [];
}

taken_up : review_cheat_clue start_tables taking_up ≡ ok (taken_tables, taken_clue)
unfolding review_cheat_clue review_from
taken_up = refl

review_cheat_clue-repeated_example :
    review_cheat_clue (run_reviews taken_tables (dismissal ∷ [])) (at_other_time 90 taking_up)
    ≡ ok (run_reviews taken_tables (dismissal ∷ []), taken_clue)
review_cheat_clue-repeated_example =
    review_cheat_clue-repeated start_tables taking_up taken_tables taken_clue (dismissal ∷ []) 90
      taken_up

reviews-settled_example :
    All₂ IsSettledSame reviewed_tables.clues
      (run_reviews reviewed_tables
        (record dismissal { status = ReviewStatus.to_confirmed; request_id = "w2" } ∷ [])).clues
reviews-settled_example =
    reviews-settled reviewed_tables
      (record dismissal { status = ReviewStatus.to_confirmed; request_id = "w2" } ∷ []) (refl, tt)

pub solved-IsConsistent : IsConsistent solved_tables
solved-IsConsistent =
    append-IsConsistent coarse start_tables start_tables fresh right_flag solved_tables answer
      start-IsConsistent solved
