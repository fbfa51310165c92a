-- ===== src/Submissions/Service.antt =====
-- `SubmissionService` (apps/web/server/domains/submissions/service.ts) over the store of submissions
-- and the verifier of flags. The rate limiter, the protection of an answer, and the UTF-16 units of a
-- stored text are parameters; the tables and the clock may differ between the calls of the store.
pub mod Laws
use sauryctf.Prelude.{
  ℕ, String, Bool, true, false, not, ◌&&◌, ◌||◌, ◌==◌, ltb, leb, max, Option, none, some, List, [],
  ◌∷◌, length, if◌then◌else◌,
}
use sauryctf.Prelude.Int.{ℤ, pos, negsuc, eqb_ℤ, leb_ℤ, is_safe_integer}
use sauryctf.Prelude.Blank.{is_blank, trim}
use sauryctf.Prelude.Result.{Result, ok, err, throw_if, ◌>>◌, ◌>>=◌}
use sauryctf.Identity.Capabilities.{
  SessionSubject, Capability, CapabilityError, require_identity_capability,
}
use sauryctf.Submissions.Replay.Facts.{SubmissionMode, SubmissionResult}
use sauryctf.Submissions.Scoring.{FloatMath}
use sauryctf.Challenges.Flags.{
  Text, VerifierError, flag_configuration_invalid, flag_validator_failed, FlagVerificationContext,
}
use sauryctf.Submissions.Store.Tables.{
  SubmissionTables, SubmissionAdmission, SubmissionAdmissionCommand, AppendSubmissionCommand,
  VerifiedSubmissionResult, verified_correct, verified_incorrect, StoredSubmission, StoreError,
  RecordScoreAdjustmentCommand, ScoreAdjustmentRow, ReviewStatus, ReviewCheatClueCommand,
  CheatClueRow, team_required, participation_not_accepted, contest_not_running,
  challenge_unavailable, challenge_closed, limit_reached, request_conflict, cursor_invalid,
  store_contest_not_found, store_participation_not_found, adjustment_archived_contest,
  adjustment_request_conflict, clue_not_found, clue_cursor_invalid, clue_review_conflict,
  clue_request_conflict,
}
use sauryctf.Submissions.Store.Admission.{admit}
use sauryctf.Submissions.Store.Append.{append, FreshIds}
use sauryctf.Submissions.Store.Adjustments.{record_score_adjustment}
use sauryctf.Submissions.Store.Reviews.{review_cheat_clue, is_final_review}

-- `SubmissionServiceErrorCode`, with the errors that pass through: those of the guard, and those of
-- the store that have no code.
pub data SubmissionServiceError : Type 0 where
  clue_cursor_code clue_not_found_code clue_request_conflict_code : SubmissionServiceError
  clue_review_conflict_code clue_review_note_required : SubmissionServiceError
  flag_configuration_code flag_validator_code challenge_not_found : SubmissionServiceError
  submission_closed submission_limit_reached not_running : SubmissionServiceError
  contest_not_found_code not_accepted participation_not_found : SubmissionServiceError
  rate_limited_for : ℕ → SubmissionServiceError
  confirmation_required adjustment_invalid adjustment_not_allowed : SubmissionServiceError
  adjustment_reason_required adjustment_conflict_code : SubmissionServiceError
  membership_required submission_cursor_code submission_conflict_code : SubmissionServiceError
  capability_error : CapabilityError → SubmissionServiceError
  store_failure : StoreError → SubmissionServiceError

-- `mapRepository`, on the error.
unfoldable pub service_code : StoreError → SubmissionServiceError
service_code team_required = membership_required
service_code participation_not_accepted = not_accepted
service_code store_participation_not_found = participation_not_found
service_code contest_not_running = not_running
service_code challenge_unavailable = challenge_not_found
service_code challenge_closed = submission_closed
service_code limit_reached = submission_limit_reached
service_code request_conflict = submission_conflict_code
service_code adjustment_request_conflict = adjustment_conflict_code
service_code adjustment_archived_contest = adjustment_not_allowed
service_code cursor_invalid = submission_cursor_code
service_code store_contest_not_found = contest_not_found_code
service_code clue_not_found = clue_not_found_code
service_code clue_cursor_invalid = clue_cursor_code
service_code clue_review_conflict = clue_review_conflict_code
service_code clue_request_conflict = clue_request_conflict_code
service_code e = store_failure e

abbrev pub map_repository {ℓ} : {A : Type ℓ} → Result StoreError A → Result SubmissionServiceError A
map_repository (ok a) = ok a
map_repository (err e) = err (service_code e)

abbrev pub verifier_code : VerifierError → SubmissionServiceError
verifier_code flag_configuration_invalid = flag_configuration_code
verifier_code flag_validator_failed = flag_validator_code

abbrev pub map_verifier : Result VerifierError Bool → Result SubmissionServiceError Bool
map_verifier (ok correct) = ok correct
map_verifier (err e) = err (verifier_code e)

abbrev pub lift_capability :
    Result CapabilityError (Unit {0}) → Result SubmissionServiceError (Unit {0})
lift_capability (err e) = err (capability_error e)
lift_capability (ok u) = ok u

abbrev pub require_capability :
    SessionSubject → Capability → Result SubmissionServiceError (Unit {0})
require_capability actor c = lift_capability (require_identity_capability actor c)

pub data LimitScope : Type 0 where
  user_scope team_scope challenge_scope : LimitScope

-- An identity of several parts, which the source joins by a zero character.
pub record LimitInput : Type 0 where
  pub scope : LimitScope
  pub identity : List String
  pub action : String
  pub limit : ℕ
  pub window_ms : ℕ

pub record LimitDecision : Type 0 where
  pub allowed : Bool
  pub retry_after_ms : ℕ

-- The `reduce` of the decisions.
abbrev pub longest_retry : ℕ → List LimitDecision → ℕ
longest_retry maximum [] = maximum
longest_retry maximum (d ∷ ds) =
    longest_retry (if d.allowed then maximum else max maximum d.retry_after_ms) ds

unfoldable pub enforce_limits : List LimitDecision → Result SubmissionServiceError (Unit {0})
enforce_limits decisions =
    throw_if (ltb 0 (longest_retry 0 decisions)) (rate_limited_for (longest_retry 0 decisions))

abbrev pub minute : ℕ
minute = 60_000

abbrev pub limit_of : LimitScope → List String → String → ℕ → LimitInput
limit_of scope identity action limit = record {
  scope = scope;
  identity = identity;
  action = action;
  limit = limit;
  window_ms = minute;
}

abbrev pub user_limits : String → String → List LimitInput
user_limits user_id challenge_id =
    limit_of LimitScope.user_scope (user_id ∷ []) "submission.flag" 60
    ∷ limit_of LimitScope.user_scope (user_id ∷ challenge_id ∷ []) "submission.flag.challenge" 20
    ∷ []

abbrev pub team_limits : String → String → List LimitInput
team_limits team_id challenge_id =
    limit_of LimitScope.team_scope (team_id ∷ []) "submission.flag" 120
    ∷ limit_of LimitScope.team_scope (team_id ∷ challenge_id ∷ []) "submission.flag.challenge" 30
    ∷ limit_of LimitScope.challenge_scope (challenge_id ∷ []) "submission.flag" 12_000
    ∷ []

pub record VerifyFlagInput : Type 0 where
  pub contest_id : String
  pub challenge_id : String
  pub submitted_flag : Text
  pub request_id : String

pub record VerifyFlagAnswer : Type 0 where
  pub correct : Bool
  pub result : SubmissionResult
  pub mode : SubmissionMode

abbrev pub admission_command : SessionSubject → VerifyFlagInput → ℕ → SubmissionAdmissionCommand
admission_command actor input at_time = record {
  user_id = actor.user_id;
  contest_id = input.contest_id;
  challenge_id = input.challenge_id;
  at_time = at_time;
}

abbrev pub units_of : (String → Text) → Option String → Option Text
units_of units none = none
units_of units (some text) = some (units text)

abbrev pub verification_context :
    (String → Text) → SubmissionAdmission → VerifyFlagInput → FlagVerificationContext
verification_context units admission input = record {
  contest_id = admission.contest_id;
  challenge_id = admission.challenge_id;
  team_id = admission.team_id;
  submitted_flag = input.submitted_flag;
  flag_format = units_of units admission.flag_format;
  policy = admission.flag_policy;
}

abbrev pub verdict_of : Bool → VerifiedSubmissionResult
verdict_of true = verified_correct
verdict_of false = verified_incorrect

-- What `protect` gives for the flag and the identifiers of its submission.
pub record ProtectedAnswer : Type 0 where
  pub digest : String
  pub ciphertext : String

-- The tables and times of the two calls of the store.
pub record Moments : Type 0 where
  pub admitting : SubmissionTables
  pub admitted_at : ℕ
  pub before : SubmissionTables
  pub appending : SubmissionTables
  pub appended_at : ℕ

module _ (m : FloatMath) (units : String → Text)
    (verify : FlagVerificationContext → Result VerifierError Bool)
    (protect : SubmissionAdmission → SessionSubject → VerifyFlagInput → ProtectedAnswer)
    (limiter : List LimitInput → List LimitDecision) where
  abbrev pub append_command :
      SessionSubject → VerifyFlagInput → SubmissionAdmission → Bool → ℕ → AppendSubmissionCommand
  append_command actor input admission correct at_time = record {
    admission = record {
      user_id = actor.user_id;
      contest_id = admission.contest_id;
      challenge_id = admission.challenge_id;
      at_time = at_time;
    };
    request_id = input.request_id;
    result = verdict_of correct;
    answer_digest = (protect admission actor input).digest;
    answer_ciphertext = (protect admission actor input).ciphertext;
  }

  unfoldable pub verify_flag :
      Moments
      → FreshIds
      → SessionSubject
      → VerifyFlagInput
      → Result SubmissionServiceError (SubmissionTables × VerifyFlagAnswer)
  verify_flag moments ids actor input = do
    require_capability actor Capability.flag_submit
    enforce_limits (limiter (user_limits actor.user_id input.challenge_id))
    admission ←
        map_repository (admit moments.admitting (admission_command actor input moments.admitted_at))
    enforce_limits (limiter (team_limits admission.team_id input.challenge_id))
    correct ← map_verifier (verify (verification_context units admission input))
    stored ← map_repository (
        append m moments.before moments.appending ids
          (append_command actor input admission correct moments.appended_at))
    ok (stored.0, record { correct = correct; result = stored.1.result; mode = stored.1.mode })

-- The input of `recordScoreAdjustment`.
pub record AdjustmentInput : Type 0 where
  pub contest_id : String
  pub participation_id : String
  pub points_delta : ℤ
  pub reason : String
  pub confirmed : Bool
  pub request_id : String

-- The input of `reviewCheatClue`.
pub record ReviewInput : Type 0 where
  pub contest_id : String
  pub clue_id : String
  pub status : ReviewStatus
  pub note : Option String
  pub request_id : String

abbrev pub is_million : ℤ → Bool
is_million n = leb_ℤ (negsuc 999_999) n && leb_ℤ n (pos 1_000_000)

-- `note?.trim() || null`.
abbrev pub trimmed_note : Option String → Option String
trimmed_note none = none
trimmed_note (some note) = if is_blank note then none else some (trim note)

module _ (units : String → Text) where
  unfoldable pub adjust_score :
      SubmissionTables
      → SubmissionTables
      → ℕ
      → String
      → SessionSubject
      → AdjustmentInput
      → Result SubmissionServiceError (SubmissionTables × ScoreAdjustmentRow)
  adjust_score before db now id actor input = do
    require_capability actor Capability.contest_judge
    throw_if (not input.confirmed) confirmation_required
    throw_if (eqb_ℤ input.points_delta (pos 0) || not (is_million input.points_delta))
        adjustment_invalid
    throw_if
        (ltb (length (units (trim input.reason))) 10
          || ltb 1000 (length (units (trim input.reason))))
        adjustment_reason_required
    map_repository (
        record_score_adjustment before db id (record {
          actor_id = actor.user_id;
          contest_id = input.contest_id;
          participation_id = input.participation_id;
          points_delta = input.points_delta;
          reason = trim input.reason;
          request_id = input.request_id;
          at_time = now;
        }))

  -- `note?.length ?? 0`.
  abbrev pub note_length : Option String → ℕ
  note_length none = 0
  note_length (some note) = length (units note)

  unfoldable pub review_clue :
      SubmissionTables
      → ℕ
      → SessionSubject
      → ReviewInput
      → Result SubmissionServiceError (SubmissionTables × CheatClueRow)
  review_clue db now actor input = do
    require_capability actor Capability.contest_judge
    throw_if
        ((is_final_review input.status && ltb (note_length (trimmed_note input.note)) 10)
          || ltb 1000 (note_length (trimmed_note input.note)))
        clue_review_note_required
    map_repository (
        review_cheat_clue db (record {
          actor_id = actor.user_id;
          contest_id = input.contest_id;
          clue_id = input.clue_id;
          status = input.status;
          note = trimmed_note input.note;
          request_id = input.request_id;
          at_time = now;
        }))
