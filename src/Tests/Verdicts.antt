-- ===== src/Tests/Verdicts.antt =====
-- A flag that is derived for a team, and the answers of the submission service.
use sauryctf.Prelude.{
  String, Bool, true, false, Option, none, some, List, [], ◌∷◌, ◌≡◌, refl, ◌↔◌, All, arith,
}
use sauryctf.Prelude.Int.{ℤ, pos}
use sauryctf.Prelude.Sort.{to_sorted}
use sauryctf.Prelude.Result.{Result, ok}
use sauryctf.Identity.Capabilities.{
  SessionSubject, GlobalRole, UserStatus, require_identity_capability, has_identity_capability,
  global_role_capabilities, includes,
}
use sauryctf.Challenges.Policy.{FlagPolicy, parse_flag_policy}
use sauryctf.Challenges.Flags.{
  Text, VerifierError, FlagVerificationContext, Crypto, split_marker, derive_team_flag,
  flag_matches_format, verify, within_input_limit,
}
use sauryctf.Challenges.Derived.{verify-derived, verify-accepted}
use sauryctf.Submissions.Scoring.{calculate_challenge_score, is_scoring_policy, policy_value}
use sauryctf.Submissions.Replay.Facts.{SubmissionMode, SubmissionResult}
use sauryctf.Submissions.Store.Tables.{SubmissionAdmission, limit_reached}
use sauryctf.Submissions.Store.Admission.{
  admit, submission_mode, membership_team, accepted_participation, available_challenge,
}
use sauryctf.Submissions.Store.Clues.{
  detect_cheat_clues, detect_abnormal_frequency, detect_foreign_team_flag,
}
use sauryctf.Submissions.Store.Append.{
  append, append_new, insert_submission, insert_solve, create_solve, credit, publish_solve,
  announce, insert_event, advance_scoreboard_version, has_solve, recover,
}
use sauryctf.Submissions.Service.{
  LimitInput, LimitDecision, enforce_limits, VerifyFlagInput, VerifyFlagAnswer, ProtectedAnswer,
  Moments, verify_flag,
}
use sauryctf.Submissions.Service.Laws.{
  IsVerified, verify_flag-IsVerified, enforce_limits_iff, service_code-distinct,
}
use sauryctf.Tests.Replay.{coarse}
use sauryctf.Tests.Flags.{start_tables, solved_tables, fresh}

-- A digest that keeps its text, and one that is always the letter t.
abbrev plain : Crypto
plain = record {
  utf8_length = λ t. 7;
  sha256 = λ t. t;
  hex_bytes = λ s. [];
  hmac_hex = λ key contest challenge team. 116 ∷ [];
}

abbrev long_key : Text
long_key =
    1 ∷ 1 ∷ 1 ∷ 1 ∷ 1 ∷ 1 ∷ 1 ∷ 1 ∷ 1 ∷ 1 ∷ 1 ∷ 1 ∷ 1 ∷ 1 ∷ 1 ∷ 1 ∷ 1 ∷ 1 ∷ 1 ∷ 1 ∷ 1 ∷ 1 ∷ 1 ∷ 1
    ∷ 1 ∷ 1 ∷ 1 ∷ 1 ∷ 1 ∷ 1 ∷ 1 ∷ 1 ∷ []

-- The format f{...} and the flag f{t}.
abbrev derived_context : FlagVerificationContext
derived_context = record {
  contest_id = "c";
  challenge_id = "web";
  team_id = "t";
  submitted_flag = 102 ∷ 123 ∷ 116 ∷ 125 ∷ [];
  flag_format = some (102 ∷ 123 ∷ 46 ∷ 46 ∷ 46 ∷ 125 ∷ []);
  policy = FlagPolicy.team_derived (pos 1);
}

abbrev keys : ℤ → Option Text
keys version = some long_key

abbrev no_validators : String → Option (FlagVerificationContext → Option Bool)
no_validators name = none

derived : derive_team_flag plain derived_context long_key ≡ ok derived_context.submitted_flag
unfolding derive_team_flag split_marker
derived = refl

verify-derived_example : verify plain keys no_validators derived_context ≡ ok true
verify-derived_example =
    verify-derived plain keys no_validators derived_context (pos 1) long_key refl refl (omega arith)
      (omega arith) refl derived

verify-accepted_example :
    (within_input_limit plain derived_context.submitted_flag ≡ true)
    × (flag_matches_format plain derived_context.submitted_flag derived_context.flag_format
        ≡ ok true)
verify-accepted_example =
    verify-accepted plain keys no_validators derived_context verify-derived_example

abbrev granted : LimitDecision
granted = record { allowed = true; retry_after_ms = 0 }

abbrev refused : LimitDecision
refused = record { allowed = false; retry_after_ms = 5 }

enforce_limits_iff_example :
    (enforce_limits (granted ∷ refused ∷ []) ≡ ok tt)
    ↔ All (λ (d : LimitDecision). d.allowed ≡ true) (granted ∷ refused ∷ [])
enforce_limits_iff_example =
    enforce_limits_iff (granted ∷ refused ∷ []) ((λ h. cc), ((λ h. omega arith), tt))

service_code-distinct_example : limit_reached ≡ limit_reached
service_code-distinct_example = service_code-distinct limit_reached limit_reached refl

abbrev player : SessionSubject
player = record {
  user_id = "u";
  username = "u";
  email = "u@x.org";
  status = UserStatus.active;
  session_version = 1;
  role = GlobalRole.user;
  email_verified = true;
  must_change_password = false;
}

abbrev flag_input : VerifyFlagInput
flag_input = record {
  contest_id = "c";
  challenge_id = "web";
  submitted_flag = 102 ∷ [];
  request_id = "r1";
}

abbrev right_answer : VerifyFlagAnswer
right_answer = record {
  correct = true;
  result = SubmissionResult.correct;
  mode = SubmissionMode.official;
}

abbrev moments : Moments
moments = record {
  admitting = start_tables;
  admitted_at = 20;
  before = start_tables;
  appending = start_tables;
  appended_at = 20;
}

abbrev accept : FlagVerificationContext → Result VerifierError Bool
accept context = ok true

abbrev sealed : SubmissionAdmission → SessionSubject → VerifyFlagInput → ProtectedAnswer
sealed admission actor input = record { digest = "d"; ciphertext = "x" }

abbrev open_limits : List LimitInput → List LimitDecision
open_limits inputs = granted ∷ []

answered :
    verify_flag coarse (λ s. []) accept sealed open_limits moments fresh player flag_input
    ≡ ok (solved_tables, right_answer)
unfolding verify_flag require_identity_capability has_identity_capability global_role_capabilities
    includes enforce_limits append append_new admit submission_mode membership_team
    accepted_participation available_challenge parse_flag_policy is_scoring_policy has_solve
    insert_submission credit create_solve calculate_challenge_score policy_value insert_solve
    publish_solve advance_scoreboard_version announce insert_event recover detect_cheat_clues
    detect_abnormal_frequency detect_foreign_team_flag to_sorted
answered = refl

verify_flag-IsVerified_example :
    IsVerified coarse (λ s. []) accept sealed open_limits moments player flag_input right_answer
verify_flag-IsVerified_example =
    verify_flag-IsVerified coarse (λ s. []) accept sealed open_limits moments fresh player
      flag_input solved_tables right_answer answered
