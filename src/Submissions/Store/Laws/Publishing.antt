-- ===== src/Submissions/Store/Laws/Publishing.antt =====
-- The steps of `append` that succeed (apps/web/server/infrastructure/db/submission-repository.ts).
use sauryctf.Prelude.{
  ℕ, suc, ◌≤◌, String, Bool, true, false, ◌&&◌, ◌==◌, leb, [], ◌∷◌, ◌++◌, any, count, ◌≡◌, refl,
  Bool-cases, inl, inr, arith,
}
use sauryctf.Prelude.Int.{pos, max_safe_integer, is_safe_integer, ltb_ℤ}
use sauryctf.Prelude.Keys.{eqb, eqb_refl, string_key}
use sauryctf.Prelude.Result.{Result, ok}
use sauryctf.Submissions.Replay.Facts.{SubmissionMode}
use sauryctf.Submissions.Scoring.{
  FloatMath, ScoringPolicy, is_scoring_policy, policy_value, calculate_challenge_score,
}
use sauryctf.Submissions.Store.Tables.{
  SubmissionRow, SubmissionTables, SubmissionAdmission, StoreError, ContestEventRow, EventKey,
  first_solve_key,
}
use sauryctf.Submissions.Store.Append.{
  insert_submission, in_group, version_in, advance_versions, advance_scoreboard_version,
  same_event_key, insert_event, first_solve_event, announce, publish_solve, score_awarded,
}
use sauryctf.Submissions.Store.Laws.Versions.{version_in-advance_versions}
use sauryctf.Submissions.Store.Laws.Consistent.{with_submission}

-- A call answers without an error.
abbrev pub Succeeds : {A : Type 0} → Result StoreError A → Type 0
Succeeds {A} r = (a : A) × (r ≡ ok a)

abbrev pub is_event_of : String → EventKey → ContestEventRow → Bool
is_event_of contest_id key e = eqb e.contest_id contest_id && same_event_key e.event_key key

-- A first solve was announced only where there is an official solve.
abbrev pub IsAnnounced : SubmissionTables → Type 0
IsAnnounced db =
    (contest_id challenge_id : String)
    → count (in_group challenge_id SubmissionMode.official) db.solves ≡ 0
    → any (is_event_of contest_id (first_solve_key challenge_id)) db.contest_events ≡ false

pub insert_submission-Succeeds :
    (db : SubmissionTables) (row : SubmissionRow)
    → any (λ (s : SubmissionRow). eqb s.id row.id) db.submissions ≡ false
    → any (λ (s : SubmissionRow). eqb s.request_id row.request_id) db.submissions ≡ false
    → insert_submission db row ≡ ok (with_submission db row)
unfolding insert_submission
insert_submission-Succeeds db row h k = rw (h, k) refl

calculate-Succeeds :
    (m : FloatMath) (policy : ScoringPolicy) (n : ℕ)
    → is_scoring_policy policy ≡ true
    → n ≤ max_safe_integer
    → calculate_challenge_score m policy (pos n) ≡ ok (policy_value m policy (pos n))
unfolding calculate_challenge_score
calculate-Succeeds m policy n valid small =
    let safe : is_safe_integer (pos n) ≡ true = ground arith in
    let nonneg : ltb_ℤ (pos n) (pos 0) ≡ false = ground arith in rw (valid, safe, nonneg) refl

pub score_awarded-Succeeds :
    (m : FloatMath) (policy : ScoringPolicy) (mode : SubmissionMode) (n : ℕ)
    → is_scoring_policy policy ≡ true
    → n ≤ max_safe_integer
    → Succeeds (score_awarded m policy mode n)
score_awarded-Succeeds m policy SubmissionMode.official n valid small =
    (policy_value m policy (pos n), rw (calculate-Succeeds m policy n valid small) refl)
score_awarded-Succeeds m policy SubmissionMode.practice n valid small = (pos 0, refl)

advance-Succeeds :
    (db : SubmissionTables) (contest_id : String)
    → suc (version_in contest_id db.versions) ≤ max_safe_integer
    → advance_scoreboard_version db contest_id
      ≡ ok (
        record db { versions = advance_versions contest_id db.versions },
        version_in contest_id (advance_versions contest_id db.versions),
      )
unfolding advance_scoreboard_version
advance-Succeeds db contest_id small =
    let v : version_in contest_id (advance_versions contest_id db.versions)
        ≡ suc (version_in contest_id db.versions) =
      ground (
        arith,
        version_in-advance_versions contest_id contest_id db.versions,
        eqb_refl contest_id,
      ) in
    let safe : leb (suc (version_in contest_id db.versions)) max_safe_integer ≡ true =
      ground arith in
    let nonzero : (suc (version_in contest_id db.versions) == 0) ≡ false = ground arith in
    rw (v, safe, nonzero) refl

announce-Succeeds :
    (db : SubmissionTables) (submission : SubmissionRow) (admission : SubmissionAdmission) (n : ℕ)
    → (n ≡ 1
        → any
            (is_event_of submission.contest_id (first_solve_key submission.contest_challenge_id))
            db.contest_events
          ≡ false)
    → Succeeds (announce db submission admission n)
unfolding announce insert_event
announce-Succeeds db submission admission n h = elim (Bool-cases (n == 1)) [
  | inl first ↦
      let free = h (ground arith) in
      (
        record db {
          contest_events = db.contest_events ++ first_solve_event submission admission ∷ [];
        },
        rw (first, free) refl,
      )
  | inr later ↦ (db, rw later refl)
]

pub publish_solve-Succeeds :
    (db : SubmissionTables) (submission : SubmissionRow) (admission : SubmissionAdmission) (n : ℕ)
    (mode : SubmissionMode)
    → suc (version_in submission.contest_id db.versions) ≤ max_safe_integer
    → (mode ≡ SubmissionMode.official
        → n ≡ 1
        → any
            (is_event_of submission.contest_id (first_solve_key submission.contest_challenge_id))
            db.contest_events
          ≡ false)
    → Succeeds (publish_solve db submission admission n mode)
unfolding publish_solve
publish_solve-Succeeds db submission admission n SubmissionMode.practice small h = (db, refl)
publish_solve-Succeeds db submission admission n SubmissionMode.official small h =
    let (t, e) =
      announce-Succeeds
        (record db { versions = advance_versions submission.contest_id db.versions }) submission
        admission n (h refl) in
    (t, rw (advance-Succeeds db submission.contest_id small) e)
