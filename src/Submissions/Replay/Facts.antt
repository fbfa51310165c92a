-- ===== src/Submissions/Replay/Facts.antt =====
-- The facts that a contest is scored from, and what a replay throws
-- (apps/web/server/domains/submissions/scoring-replay.ts).
use sauryctf.Prelude.{ℕ, String, Bool, Option, List, Ordering, if◌then◌else◌}
use sauryctf.Prelude.Int.{ℤ, ◌+ℤ◌, compare_ℤ, is_safe_integer}
use sauryctf.Prelude.Date.{Date, at, invalid, compare_time}
use sauryctf.Prelude.Order.{◌or_then◌}
use sauryctf.Prelude.Result.{Result, ok, err}
use sauryctf.Submissions.Scoring.{ScoringPolicy, ScoringInputError}

pub data SubmissionMode : Type 0 where
  official practice : SubmissionMode

pub data SubmissionResult : Type 0 where
  incorrect correct already_solved rate_limited ineligible : SubmissionResult

pub data ParticipationStatus : Type 0 where
  pending accepted rejected withdrawn : ParticipationStatus

pub record ChallengeFact : Type 0 where
  pub id : String
  pub scoring_policy : ScoringPolicy

pub record ParticipationFact : Type 0 where
  pub id : String
  pub team_id : String
  pub team_name : String
  pub division_id : Option String
  pub status : ParticipationStatus

pub record SubmissionFact : Type 0 where
  pub id : String
  pub challenge_id : String
  pub participation_id : String
  pub mode : SubmissionMode
  pub result : SubmissionResult
  pub submitted_at : Date

pub record SolveFact : Type 0 where
  pub id : String
  pub submission_id : String
  pub challenge_id : String
  pub participation_id : String
  pub mode : SubmissionMode
  pub solve_order : ℤ
  pub solved_at : Date

pub record ScoreAdjustmentFact : Type 0 where
  pub id : String
  pub participation_id : String
  pub points_delta : ℤ
  pub created_at : Date

pub record ContestScoringFacts : Type 0 where
  pub challenges : List ChallengeFact
  pub participations : List ParticipationFact
  pub submissions : List SubmissionFact
  pub solves : List SolveFact
  pub adjustments : List ScoreAdjustmentFact

pub data FactKind : Type 0 where
  challenge participation submission solve score_adjustment : FactKind

pub data SumLabel : Type 0 where
  solve_points adjustment_points total_points fact_version : SumLabel

-- One constructor for each message of `ScoringReplayInvariantError`; `scoring_input` is the error
-- of the score's calculation, `range_error` that of `toISOString` on an invalid date, and
-- `undefined_value` the `TypeError` where a missing map entry is asserted to be there.
pub data ReplayError : Type 0 where
  duplicate_id : FactKind → String → ReplayError
  solve_challenge_unknown solve_participation_unknown solve_mismatch : String → ReplayError
  solve_order_invalid : String → ReplayError
  duplicate_pair : String × String → ReplayError
  duplicate_solve_submission : String → ReplayError
  timestamp_invalid : FactKind → String → ReplayError
  scoring_timestamp_invalid : ReplayError
  submission_challenge_unknown submission_participation_unknown : String → ReplayError
  correct_submission_unsolved solve_order_gap : String → ReplayError
  adjustment_participation_unknown adjustment_delta_invalid : String → ReplayError
  unsafe_sum : SumLabel → ReplayError
  scoring_input : ScoringInputError → ReplayError
  range_error undefined_value : ReplayError

abbrev pub is_official : SubmissionMode → Bool
is_official SubmissionMode.official = Bool.true
is_official SubmissionMode.practice = Bool.false

abbrev pub is_correct : SubmissionResult → Bool
is_correct SubmissionResult.correct = Bool.true
is_correct _ = Bool.false

abbrev pub is_accepted : ParticipationStatus → Bool
is_accepted ParticipationStatus.accepted = Bool.true
is_accepted _ = Bool.false

-- `requireValidDate`.
abbrev pub require_valid_date : Date → FactKind → String → Result ReplayError (Unit {0})
require_valid_date (at t) kind id = ok tt
require_valid_date invalid kind id = err (timestamp_invalid kind id)

-- `toISOString`: the text of a valid date stands for its time value, which `Date.parse` gives back.
abbrev pub to_iso_string : Date → Result ReplayError ℕ
to_iso_string (at t) = ok t
to_iso_string invalid = err range_error

-- `safeAdd`. The sum of two safe integers beyond the safe range is rounded to a double beyond it.
unfoldable pub safe_add : ℤ → ℤ → SumLabel → Result ReplayError ℤ
safe_add left right label =
    if is_safe_integer (left +ℤ right) then ok (left +ℤ right) else err (unsafe_sum label)

module _ (locale_compare : String → String → Ordering) where
  unfoldable pub compare_solve_facts : SolveFact → SolveFact → Ordering
  compare_solve_facts a b =
      locale_compare a.challenge_id b.challenge_id
      or_then compare_ℤ a.solve_order b.solve_order
      or_then compare_time a.solved_at b.solved_at
      or_then locale_compare a.id b.id

  unfoldable pub compare_adjustment_facts : ScoreAdjustmentFact → ScoreAdjustmentFact → Ordering
  compare_adjustment_facts a b =
      compare_time a.created_at b.created_at or_then locale_compare a.id b.id
