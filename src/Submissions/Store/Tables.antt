-- ===== src/Submissions/Store/Tables.antt =====
-- The rows that the submission repository reads and writes, its commands, records and errors
-- (apps/web/server/infrastructure/db/submission-repository.ts and
-- apps/web/server/domains/submissions/repository.ts). A digest is a text of its bytes.
use sauryctf.Prelude.{ℕ, String, Bool, true, false, Option, List}
use sauryctf.Prelude.Int.{ℤ}
use sauryctf.Submissions.Replay.Facts.{SubmissionMode, SubmissionResult, ParticipationStatus}
use sauryctf.Submissions.Scoring.{ScoringPolicy, ScoringInputError}
use sauryctf.Challenges.Policy.{FlagPolicy}
use sauryctf.Participations.Tables.{PublicationStatus, Team, TeamMember}

pub record ContestRow : Type 0 where
  pub id : String
  pub publication_status : PublicationStatus
  pub start_at : ℕ
  pub end_at : ℕ
  pub practice_enabled : Bool

pub record ParticipationRow : Type 0 where
  pub id : String
  pub contest_id : String
  pub team_id : String
  pub division_id : Option String
  pub status : ParticipationStatus

pub record ChallengeRow : Type 0 where
  pub id : String
  pub contest_id : String
  pub enabled : Bool
  pub publish_at : Option ℕ
  pub close_at : Option ℕ
  pub submission_limit : Option ℕ
  pub flag_format : Option String
  pub flag_policy : FlagPolicy
  pub scoring_policy : ScoringPolicy

pub record SubmissionRow : Type 0 where
  pub id : String
  pub contest_id : String
  pub contest_challenge_id : String
  pub participation_id : String
  pub user_id : String
  pub mode : SubmissionMode
  pub result : SubmissionResult
  pub answer_digest : String
  pub answer_ciphertext : String
  pub request_id : String
  pub submitted_at : ℕ

pub record SolveRow : Type 0 where
  pub id : String
  pub submission_id : String
  pub contest_id : String
  pub contest_challenge_id : String
  pub participation_id : String
  pub mode : SubmissionMode
  pub awarded_score : ℤ
  pub solve_order : ℕ
  pub solved_at : ℕ

-- `ScoreAdjustmentRow`, which is also the record that is answered.
pub record ScoreAdjustmentRow : Type 0 where
  pub id : String
  pub contest_id : String
  pub participation_id : String
  pub points_delta : ℤ
  pub reason : String
  pub created_by : String
  pub request_id : String
  pub created_at : ℕ

pub record VersionRow : Type 0 where
  pub contest_id : String
  pub version : ℕ

pub data CheatClueStatus : Type 0 where
  opened reviewing dismissed confirmed : CheatClueStatus

pub data CheatClueType : Type 0 where
  repeated_incorrect_answer shared_incorrect_answer : CheatClueType
  abnormal_submission_frequency foreign_team_flag : CheatClueType

-- `clue_key`, by its parts: the participation, the challenge, and the fingerprint or the minute.
pub data ClueKey : Type 0 where
  repeat_key : String → String → String → ClueKey
  shared_key : String → String → String → ClueKey
  frequency_key : String → String → ℕ → ClueKey
  foreign_key : String → String → ClueKey

-- What the evidence holds beside the columns: the submissions and participations that it names, in
-- their order, how many match, and the times that it gives.
pub record Evidence : Type 0 where
  pub kind : CheatClueType
  pub answer_fingerprint : Option String
  pub submission_ids : List String
  pub participation_ids : List String
  pub matching_count : Option ℕ
  pub times : List ℕ

pub record CheatClueRow : Type 0 where
  pub id : String
  pub clue_key : ClueKey
  pub contest_id : String
  pub contest_challenge_id : String
  pub participation_id : String
  pub clue_type : CheatClueType
  pub evidence : Evidence
  pub status : CheatClueStatus
  pub reviewed_by : Option String
  pub review_note : Option String
  pub reviewed_at : Option ℕ
  pub created_at : ℕ
  pub updated_at : ℕ

-- `challenge:<id>:first-solve` by its challenge, and the keys of the other events.
pub data EventKey : Type 0 where
  first_solve_key : String → EventKey
  other_key : String → EventKey

pub record ContestEventRow : Type 0 where
  pub contest_id : String
  pub event_key : EventKey
  pub occurred_at : ℕ
  pub challenge_id : String
  pub team_id : String
  pub team_name : String

pub record AdjustmentAuditRow : Type 0 where
  pub actor_user_id : String
  pub target_id : String
  pub reason : String
  pub request_id : String
  pub scoreboard_version : ℕ
  pub occurred_at : ℕ

-- An event of the action `cheat_clue.reviewed`.
pub record ReviewAuditRow : Type 0 where
  pub actor_user_id : String
  pub target_id : String
  pub reason : Option String
  pub request_id : String
  pub contest_id : String
  pub from_status : CheatClueStatus
  pub to_status : CheatClueStatus
  pub review_note : Option String
  pub occurred_at : ℕ

pub record SubmissionTables : Type 0 where
  pub contests : List ContestRow
  pub members : List TeamMember
  pub teams : List Team
  pub participations : List ParticipationRow
  pub challenges : List ChallengeRow
  pub submissions : List SubmissionRow
  pub solves : List SolveRow
  pub adjustments : List ScoreAdjustmentRow
  pub versions : List VersionRow
  pub clues : List CheatClueRow
  pub contest_events : List ContestEventRow
  pub adjustment_audits : List AdjustmentAuditRow
  pub review_audits : List ReviewAuditRow

pub record SubmissionAdmissionCommand : Type 0 where
  pub user_id : String
  pub contest_id : String
  pub challenge_id : String
  pub at_time : ℕ

pub record SubmissionAdmission : Type 0 where
  pub contest_id : String
  pub challenge_id : String
  pub participation_id : String
  pub team_id : String
  pub team_name : String
  pub flag_format : Option String
  pub flag_policy : FlagPolicy
  pub scoring_policy : ScoringPolicy
  pub mode : SubmissionMode

pub data VerifiedSubmissionResult : Type 0 where
  verified_correct verified_incorrect : VerifiedSubmissionResult

pub record AppendSubmissionCommand : Type 0 where
  pub admission : SubmissionAdmissionCommand
  pub request_id : String
  pub result : VerifiedSubmissionResult
  pub answer_digest : String
  pub answer_ciphertext : String

pub record StoredSubmission : Type 0 where
  pub id : String
  pub contest_id : String
  pub challenge_id : String
  pub participation_id : String
  pub user_id : String
  pub mode : SubmissionMode
  pub result : SubmissionResult
  pub submitted_at : ℕ

pub record RecordScoreAdjustmentCommand : Type 0 where
  pub actor_id : String
  pub contest_id : String
  pub participation_id : String
  pub points_delta : ℤ
  pub reason : String
  pub request_id : String
  pub at_time : ℕ

-- The statuses that a review may give: all but `open`.
pub data ReviewStatus : Type 0 where
  to_reviewing to_dismissed to_confirmed : ReviewStatus

pub record ReviewCheatClueCommand : Type 0 where
  pub actor_id : String
  pub contest_id : String
  pub clue_id : String
  pub status : ReviewStatus
  pub note : Option String
  pub request_id : String
  pub at_time : ℕ

-- The unique indexes of the tables that are written.
pub data UniqueIndex : Type 0 where
  submissions_pkey submissions_request_id_unique : UniqueIndex
  solves_pkey solves_submission_unique : UniqueIndex
  solves_participation_challenge_mode_unique solves_challenge_mode_order_unique : UniqueIndex
  contest_events_contest_key_unique : UniqueIndex
  score_adjustments_pkey score_adjustments_request_id_unique : UniqueIndex

-- The errors of repository.ts, and what else a call may throw: a policy that does not parse, an
-- input of the score, a unique index, a version beyond the safe integers, and an order beyond the
-- database's integers.
pub data StoreError : Type 0 where
  team_required participation_not_accepted contest_not_running : StoreError
  challenge_unavailable challenge_closed limit_reached request_conflict : StoreError
  cursor_invalid store_contest_not_found store_participation_not_found : StoreError
  adjustment_archived_contest adjustment_request_conflict : StoreError
  clue_not_found clue_cursor_invalid clue_review_conflict clue_request_conflict : StoreError
  policy_invalid version_unsafe integer_out_of_range : StoreError
  score_error : ScoringInputError → StoreError
  unique_violation : UniqueIndex → StoreError

abbrev pub same_mode : SubmissionMode → SubmissionMode → Bool
same_mode SubmissionMode.official SubmissionMode.official = true
same_mode SubmissionMode.practice SubmissionMode.practice = true
same_mode SubmissionMode.official SubmissionMode.practice = false
same_mode SubmissionMode.practice SubmissionMode.official = false
