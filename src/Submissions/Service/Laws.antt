-- ===== src/Submissions/Service/Laws.antt =====
-- Properties of `SubmissionService` (apps/web/server/domains/submissions/service.ts).
use sauryctf.Prelude.{
  ℕ, ◌≤◌, String, Bool, true, false, max, Option, none, some, List, [], ◌∷◌, All, ◌≡◌, ◌↔◌, refl,
  sym, ap, ◌∙◌, Bool-cases, inl, inr, arith,
}
use mathlib.Core.Path.{subst}
use sauryctf.Prelude.Result.{Result, ok, err, bind-eq-ok, ok-inj}
use sauryctf.Identity.Capabilities.{
  SessionSubject, Capability, CapabilityError, require_identity_capability,
}
use sauryctf.Submissions.Replay.Facts.{SubmissionResult}
use sauryctf.Submissions.Scoring.{FloatMath}
use sauryctf.Challenges.Flags.{Text, VerifierError, FlagVerificationContext}
use sauryctf.Submissions.Store.Tables.{
  SubmissionTables, SubmissionRow, SubmissionAdmission, AppendSubmissionCommand, StoredSubmission,
  StoreError, team_required, participation_not_accepted, store_participation_not_found,
  contest_not_running, challenge_unavailable, challenge_closed, limit_reached, request_conflict,
  adjustment_request_conflict, adjustment_archived_contest, cursor_invalid, store_contest_not_found,
  clue_not_found, clue_cursor_invalid, clue_review_conflict, clue_request_conflict, policy_invalid,
  version_unsafe, integer_out_of_range, score_error, unique_violation,
}
use sauryctf.Submissions.Store.Clues.{is_right}
use sauryctf.Submissions.Store.Admission.{admit}
use sauryctf.Submissions.Store.Append.{
  append, append_from, append_new, read_by_request_id, submission_record, same_request, same_result,
  FreshIds,
}
use sauryctf.Submissions.Store.Laws.Steps.{append_new-IsStored}
use sauryctf.Submissions.Store.Laws.Admitted.{IsAllowed, admit-IsAllowed}
use sauryctf.Submissions.Store.Appends.{
  repeated-IsRepeated, recover-cases, submission_row-same_request,
}
use sauryctf.Submissions.Service.{
  SubmissionServiceError, store_failure, service_code, membership_required, not_accepted,
  participation_not_found, not_running, challenge_not_found, submission_closed,
  submission_limit_reached, submission_conflict_code, adjustment_conflict_code,
  adjustment_not_allowed, submission_cursor_code, contest_not_found_code, clue_not_found_code,
  clue_cursor_code, clue_review_conflict_code, clue_request_conflict_code, map_repository,
  map_verifier, lift_capability, require_capability, LimitInput, LimitDecision, longest_retry,
  enforce_limits, user_limits, team_limits, VerifyFlagInput, VerifyFlagAnswer, admission_command,
  verification_context, verdict_of, ProtectedAnswer, Moments, append_command, verify_flag,
}

longest_retry-ge : (m : ℕ) (ds : List LimitDecision) → m ≤ longest_retry m ds
longest_retry-ge m [] = omega arith
longest_retry-ge m (d ∷ ds) =
    ground (arith, longest_retry-ge m ds, longest_retry-ge (max m d.retry_after_ms) ds)

longest_retry-All :
    (m : ℕ) (ds : List LimitDecision)
    → All (λ (d : LimitDecision). d.allowed ≡ true) ds
    → longest_retry m ds ≡ m
longest_retry-All m [] h = refl
longest_retry-All m (d ∷ ds) h = let one = h.0 in rw one (longest_retry-All m ds h.1)

All-of_longest_retry :
    (m : ℕ) (ds : List LimitDecision)
    → All (λ (d : LimitDecision). d.allowed ≡ false → 1 ≤ d.retry_after_ms) ds
    → longest_retry m ds ≡ 0
    → All (λ (d : LimitDecision). d.allowed ≡ true) ds
All-of_longest_retry m [] k h = tt
All-of_longest_retry m (d ∷ ds) k h = elim (Bool-cases d.allowed) [
  | inl granted ↦ (granted, All-of_longest_retry m ds k.1 (rw granted at h))
  | inr refused ↦
      let some_time = k.0 refused in
      absurd (ground (arith, some_time, longest_retry-ge (max m d.retry_after_ms) ds))
]

-- Where each refusal asks to wait for at least a millisecond, as the limiter's do, a call passes its
-- limits exactly when every one of them allows it.
pub enforce_limits_iff :
    (ds : List LimitDecision)
    → All (λ (d : LimitDecision). d.allowed ≡ false → 1 ≤ d.retry_after_ms) ds
    → (enforce_limits ds ≡ ok tt) ↔ All (λ (d : LimitDecision). d.allowed ≡ true) ds
unfolding enforce_limits
enforce_limits_iff ds k =
    (λ h. All-of_longest_retry 0 ds k (ground arith), λ h. rw (longest_retry-All 0 ds h) refl)

-- Whatever an append answers with, it is the record of a row that matches the request.
append-matches :
    (m : FloatMath) (before db : SubmissionTables) (ids : FreshIds)
    (command : AppendSubmissionCommand) (db' : SubmissionTables) (r : StoredSubmission)
    → append m before db ids command ≡ ok (db', r)
    → same_result r.result command.result ≡ true
unfolding append same_request
append-matches m before db ids command db' r h =
    from (read_by_request_id before command.request_id) h
  where
    row-matches :
        (row : SubmissionRow)
        → same_request row command ≡ true
        → r ≡ submission_record row
        → same_result r.result command.result ≡ true
    row-matches row k e =
        subst (λ (z : StoredSubmission). same_result z.result command.result ≡ true) (sym e)
          (ground arith)

    from :
        (o : Option SubmissionRow)
        → append_from m db ids command o ≡ ok (db', r)
        → same_result r.result command.result ≡ true
    from (some existing) h =
        let k = repeated-IsRepeated m db command db' r existing h in
        row-matches existing k.matches k.answer
    from none h = elim (recover-cases m db command db' r (append_new m db ids command) h) [
      | inl stored ↦
          let s = append_new-IsStored m db ids command db' r stored in
          let allowed = admit-IsAllowed db command.admission s.admission s.admitted in
          row-matches s.row
            (ap (λ t. same_request t command) s.row_is
              ∙ submission_row-same_request db ids.submission s.admission command _ allowed)
            s.answer
      | inr (existing, found, k) ↦ row-matches existing k.matches k.answer
    ]

verdict-is_right :
    (correct : Bool) (result : SubmissionResult)
    → same_result result (verdict_of correct) ≡ true
    → is_right result ≡ correct
verdict-is_right true SubmissionResult.correct h = refl
verdict-is_right true SubmissionResult.already_solved h = refl
verdict-is_right false SubmissionResult.incorrect h = refl
verdict-is_right true SubmissionResult.incorrect h = cc
verdict-is_right true SubmissionResult.rate_limited h = cc
verdict-is_right true SubmissionResult.ineligible h = cc
verdict-is_right false SubmissionResult.correct h = cc
verdict-is_right false SubmissionResult.already_solved h = cc
verdict-is_right false SubmissionResult.rate_limited h = cc
verdict-is_right false SubmissionResult.ineligible h = cc

map_repository-ok :
    {A : Type 0} (r : Result StoreError A) (a : A) → map_repository r ≡ ok a → r ≡ ok a
map_repository-ok (ok b) a h = cc
map_repository-ok (err e) a h = cc

map_verifier-ok : (r : Result VerifierError Bool) (b : Bool) → map_verifier r ≡ ok b → r ≡ ok b
map_verifier-ok (ok c) b h = cc
map_verifier-ok (err e) b h = cc

lift_capability-ok : (r : Result CapabilityError (Unit {0})) → lift_capability r ≡ ok tt → r ≡ ok tt
lift_capability-ok (ok u) h = cc
lift_capability-ok (err e) h = cc

module _ (m : FloatMath) (units : String → Text)
    (verify : FlagVerificationContext → Result VerifierError Bool)
    (protect : SubmissionAdmission → SessionSubject → VerifyFlagInput → ProtectedAnswer)
    (limiter : List LimitInput → List LimitDecision) where
  -- What a flag that was answered has passed, and how its answer reads.
  pub record IsVerified (moments : Moments) (actor : SessionSubject) (input : VerifyFlagInput)
      (r : VerifyFlagAnswer) : Type 0 where
    pub capable : require_identity_capability actor Capability.flag_submit ≡ ok tt
    pub user_within :
        enforce_limits (limiter (user_limits actor.user_id input.challenge_id)) ≡ ok tt
    pub admission : SubmissionAdmission
    pub allowed :
        IsAllowed moments.admitting (admission_command actor input moments.admitted_at) admission
    pub team_within :
        enforce_limits (limiter (team_limits admission.team_id input.challenge_id)) ≡ ok tt
    pub verdict : verify (verification_context units admission input) ≡ ok r.correct
    pub recorded : is_right r.result ≡ r.correct

  -- A flag is answered only for an actor who may submit flags, within the limits of the user, then
  -- admitted by the store, then within the limits of the team and the challenge; the answer is correct
  -- exactly when the verifier accepts the flag in the context of the admission, and the result that the
  -- store recorded for the request, even for a repeated or raced one, says the same.
  pub verify_flag-IsVerified :
      (moments : Moments) (ids : FreshIds) (actor : SessionSubject) (input : VerifyFlagInput)
      (db' : SubmissionTables) (r : VerifyFlagAnswer)
      → verify_flag m units verify protect limiter moments ids actor input ≡ ok (db', r)
      → IsVerified moments actor input r
  unfolding verify_flag
  verify_flag-IsVerified moments ids actor input db' r h =
      let (_, e₁, h₁) = bind-eq-ok (require_capability actor Capability.flag_submit) _ h in
      let (_, e₂, h₂) =
        bind-eq-ok (enforce_limits (limiter (user_limits actor.user_id input.challenge_id))) _ h₁ in
      let command = admission_command actor input moments.admitted_at in
      let (a, e₃, h₃) = bind-eq-ok (map_repository (admit moments.admitting command)) _ h₂ in
      let (_, e₄, h₄) =
        bind-eq-ok (enforce_limits (limiter (team_limits a.team_id input.challenge_id))) _ h₃ in
      let checked = verify (verification_context units a input) in
      let (correct, e₅, h₅) = bind-eq-ok (map_verifier checked) _ h₄ in
      let appended =
        append_command m units verify protect limiter actor input a correct moments.appended_at in
      let answer = append m moments.before moments.appending ids appended in
      let (stored, e₆, h₆) = bind-eq-ok (map_repository answer) _ h₅ in
      let result = ok-inj refl h₆ in
      let same =
        append-matches m moments.before moments.appending ids appended stored.0 stored.1
          (map_repository-ok answer stored e₆) in
      subst (λ (z : SubmissionTables × VerifyFlagAnswer). IsVerified moments actor input z.1) result
        (record {
          capable =
              lift_capability-ok (require_identity_capability actor Capability.flag_submit) e₁;
          user_within = e₂;
          admission = a;
          allowed =
              admit-IsAllowed moments.admitting command a
                (map_repository-ok (admit moments.admitting command) a e₃);
          team_within = e₄;
          verdict = map_verifier-ok checked correct e₅;
          recorded = verdict-is_right correct stored.1.result same;
        })

-- The store's error that an error of the service tells of.
store_error_of : SubmissionServiceError → Option StoreError
store_error_of membership_required = some team_required
store_error_of not_accepted = some participation_not_accepted
store_error_of participation_not_found = some store_participation_not_found
store_error_of not_running = some contest_not_running
store_error_of challenge_not_found = some challenge_unavailable
store_error_of submission_closed = some challenge_closed
store_error_of submission_limit_reached = some limit_reached
store_error_of submission_conflict_code = some request_conflict
store_error_of adjustment_conflict_code = some adjustment_request_conflict
store_error_of adjustment_not_allowed = some adjustment_archived_contest
store_error_of submission_cursor_code = some cursor_invalid
store_error_of contest_not_found_code = some store_contest_not_found
store_error_of clue_not_found_code = some clue_not_found
store_error_of clue_cursor_code = some clue_cursor_invalid
store_error_of clue_review_conflict_code = some clue_review_conflict
store_error_of clue_request_conflict_code = some clue_request_conflict
store_error_of (store_failure e) = some e
store_error_of _ = none

store_error_of-service_code : (e : StoreError) → store_error_of (service_code e) ≡ some e
unfolding store_error_of service_code
store_error_of-service_code team_required = refl
store_error_of-service_code participation_not_accepted = refl
store_error_of-service_code store_participation_not_found = refl
store_error_of-service_code contest_not_running = refl
store_error_of-service_code challenge_unavailable = refl
store_error_of-service_code challenge_closed = refl
store_error_of-service_code limit_reached = refl
store_error_of-service_code request_conflict = refl
store_error_of-service_code adjustment_request_conflict = refl
store_error_of-service_code adjustment_archived_contest = refl
store_error_of-service_code cursor_invalid = refl
store_error_of-service_code store_contest_not_found = refl
store_error_of-service_code clue_not_found = refl
store_error_of-service_code clue_cursor_invalid = refl
store_error_of-service_code clue_review_conflict = refl
store_error_of-service_code clue_request_conflict = refl
store_error_of-service_code policy_invalid = refl
store_error_of-service_code version_unsafe = refl
store_error_of-service_code integer_out_of_range = refl
store_error_of-service_code (score_error i) = refl
store_error_of-service_code (unique_violation i) = refl

-- Different errors of the store reach the caller as different errors of the service.
pub service_code-distinct : (e e' : StoreError) → service_code e ≡ service_code e' → e ≡ e'
service_code-distinct e e' h =
    some-inj
      (sym (store_error_of-service_code e) ∙ ap store_error_of h ∙ store_error_of-service_code e')
  where
    some-inj : {A : Type 0} {x y : A} → some x ≡ some y → x ≡ y
    some-inj k = cc
