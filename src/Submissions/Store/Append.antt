-- ===== src/Submissions/Store/Append.antt =====
-- `append` of apps/web/server/infrastructure/db/submission-repository.ts: a submission is admitted,
-- stored, and credited as a solve, in one transaction. A transaction takes the tables and gives the
-- new ones; an error leaves them as they were. The other constraints of the tables than the unique
-- indexes (lengths of digests and keys of other tables) are not tested again.
use sauryctf.Prelude.{
  ℕ, suc, String, Bool, true, false, not, ◌&&◌, ◌||◌, ◌==◌, Option, none, some, List, [], ◌∷◌, ◌++◌,
  any, count, leb, if◌then◌else◌,
}
use sauryctf.Prelude.Int.{ℤ, pos, max_safe_integer}
use sauryctf.Prelude.Keys.{eqb}
use sauryctf.Prelude.Table.{find}
use sauryctf.Prelude.Result.{Result, ok, err, throw_if, ◌>>◌, ◌>>=◌}
use sauryctf.Submissions.Replay.Facts.{SubmissionMode, SubmissionResult, is_official, is_correct}
use sauryctf.Submissions.Scoring.{
  FloatMath, ScoringPolicy, ScoringInputError, calculate_challenge_score,
}
use sauryctf.Challenges.Policy.{FlagPolicy, static_flag, team_derived, synchronous}
use sauryctf.Submissions.Store.Tables.{
  SubmissionRow, SolveRow, VersionRow, ClueKey, EventKey, first_solve_key, other_key,
  ContestEventRow, SubmissionTables, SubmissionAdmission, VerifiedSubmissionResult,
  verified_correct, verified_incorrect, AppendSubmissionCommand, StoredSubmission, StoreError,
  UniqueIndex, unique_violation, request_conflict, version_unsafe, integer_out_of_range,
  score_error, same_mode,
}
use sauryctf.Submissions.Store.Admission.{admit}
use sauryctf.Submissions.Store.Clues.{detect_cheat_clues}

-- `submissionRecord`.
abbrev pub submission_record : SubmissionRow → StoredSubmission
submission_record row = record {
  id = row.id;
  contest_id = row.contest_id;
  challenge_id = row.contest_challenge_id;
  participation_id = row.participation_id;
  user_id = row.user_id;
  mode = row.mode;
  result = row.result;
  submitted_at = row.submitted_at;
}

-- `existing.result === command.result || (command.result === 'correct' && …)`.
abbrev pub same_result : SubmissionResult → VerifiedSubmissionResult → Bool
same_result SubmissionResult.correct verified_correct = true
same_result SubmissionResult.already_solved verified_correct = true
same_result SubmissionResult.incorrect verified_incorrect = true
same_result _ _ = false

unfoldable pub same_request : SubmissionRow → AppendSubmissionCommand → Bool
same_request existing command =
    eqb existing.contest_id command.admission.contest_id
    && eqb existing.contest_challenge_id command.admission.challenge_id
    && eqb existing.user_id command.admission.user_id
    && same_result existing.result command.result
    && eqb existing.answer_digest command.answer_digest

-- `readByRequestId`.
abbrev pub read_by_request_id : SubmissionTables → String → Option SubmissionRow
read_by_request_id db request_id =
    find (λ (s : SubmissionRow). eqb s.request_id request_id) db.submissions

abbrev pub is_solve_of : String → String → SubmissionMode → SolveRow → Bool
is_solve_of participation_id challenge_id mode s =
    eqb s.participation_id participation_id
    && eqb s.contest_challenge_id challenge_id
    && same_mode s.mode mode

unfoldable pub has_solve : SubmissionTables → String → String → SubmissionMode → Bool
has_solve db participation_id challenge_id mode =
    any (is_solve_of participation_id challenge_id mode) db.solves

-- The result that is stored.
abbrev pub stored_result : VerifiedSubmissionResult → Bool → SubmissionResult
stored_result verified_incorrect solved = SubmissionResult.incorrect
stored_result verified_correct true = SubmissionResult.already_solved
stored_result verified_correct false = SubmissionResult.correct

abbrev pub submission_row :
    String → SubmissionAdmission → AppendSubmissionCommand → Bool → SubmissionRow
submission_row id admission command solved = record {
  id = id;
  contest_id = admission.contest_id;
  contest_challenge_id = admission.challenge_id;
  participation_id = admission.participation_id;
  user_id = command.admission.user_id;
  mode = admission.mode;
  result = stored_result command.result solved;
  answer_digest = command.answer_digest;
  answer_ciphertext = command.answer_ciphertext;
  request_id = command.request_id;
  submitted_at = command.admission.at_time;
}

unfoldable pub insert_submission :
    SubmissionTables → SubmissionRow → Result StoreError SubmissionTables
insert_submission db row = do
  throw_if (any (λ (s : SubmissionRow). eqb s.id row.id) db.submissions)
      (unique_violation UniqueIndex.submissions_pkey)
  throw_if (any (λ (s : SubmissionRow). eqb s.request_id row.request_id) db.submissions)
      (unique_violation UniqueIndex.submissions_request_id_unique)
  ok (record db { submissions = db.submissions ++ row ∷ [] })

-- The solves that the order counts.
abbrev pub in_group : String → SubmissionMode → SolveRow → Bool
in_group challenge_id mode s = eqb s.contest_challenge_id challenge_id && same_mode s.mode mode

unfoldable pub insert_solve : SubmissionTables → SolveRow → Result StoreError SubmissionTables
insert_solve db row = do
  throw_if (any (λ (s : SolveRow). eqb s.id row.id) db.solves)
      (unique_violation UniqueIndex.solves_pkey)
  throw_if (any (λ (s : SolveRow). eqb s.submission_id row.submission_id) db.solves)
      (unique_violation UniqueIndex.solves_submission_unique)
  throw_if (any (is_solve_of row.participation_id row.contest_challenge_id row.mode) db.solves)
      (unique_violation UniqueIndex.solves_participation_challenge_mode_unique)
  throw_if
      (any (λ s. in_group row.contest_challenge_id row.mode s && s.solve_order == row.solve_order)
        db.solves)
      (unique_violation UniqueIndex.solves_challenge_mode_order_unique)
  ok (record db { solves = db.solves ++ row ∷ [] })

-- The version of a contest's scoreboard, which is 0 before its first fact.
abbrev pub version_in : String → List VersionRow → ℕ
version_in contest_id [] = 0
version_in contest_id (v ∷ vs) =
    if eqb v.contest_id contest_id then v.version else version_in contest_id vs

-- `INSERT … ON CONFLICT (contest_id) DO UPDATE SET version = version + 1`.
abbrev pub advance_versions : String → List VersionRow → List VersionRow
advance_versions contest_id [] = record { contest_id = contest_id; version = 1 } ∷ []
advance_versions contest_id (v ∷ vs) =
    let rest = advance_versions contest_id vs in
    if eqb v.contest_id contest_id then record v { version = suc v.version } ∷ vs else v ∷ rest

-- `!Number.isSafeInteger(version) || version <= 0`.
abbrev pub is_unsafe_version : ℕ → Bool
is_unsafe_version version = not (leb version max_safe_integer) || version == 0

unfoldable pub advance_scoreboard_version :
    SubmissionTables → String → Result StoreError (SubmissionTables × ℕ)
advance_scoreboard_version db contest_id = do
  throw_if (is_unsafe_version (version_in contest_id (advance_versions contest_id db.versions)))
      version_unsafe
  ok (
    record db { versions = advance_versions contest_id db.versions },
    version_in contest_id (advance_versions contest_id db.versions),
  )

abbrev pub same_event_key : EventKey → EventKey → Bool
same_event_key (first_solve_key c) (first_solve_key c') = eqb c c'
same_event_key (other_key k) (other_key k') = eqb k k'
same_event_key _ _ = false

unfoldable pub insert_event :
    SubmissionTables → ContestEventRow → Result StoreError SubmissionTables
insert_event db row = do
  throw_if
      (any
        (λ (e : ContestEventRow).
          eqb e.contest_id row.contest_id && same_event_key e.event_key row.event_key)
        db.contest_events)
      (unique_violation UniqueIndex.contest_events_contest_key_unique)
  ok (record db { contest_events = db.contest_events ++ row ∷ [] })

-- The event of the first solve of a challenge.
abbrev pub first_solve_event : SubmissionRow → SubmissionAdmission → ContestEventRow
first_solve_event submission admission = record {
  contest_id = submission.contest_id;
  event_key = first_solve_key submission.contest_challenge_id;
  occurred_at = submission.submitted_at;
  challenge_id = submission.contest_challenge_id;
  team_id = admission.team_id;
  team_name = admission.team_name;
}

unfoldable pub announce :
    SubmissionTables → SubmissionRow → SubmissionAdmission → ℕ → Result StoreError SubmissionTables
announce db submission admission solve_order =
    if solve_order == 1 then insert_event db (first_solve_event submission admission) else ok db

-- What follows the insertion of a solve: an official one advances the version, and the first one
-- is an event.
unfoldable pub publish_solve :
    SubmissionTables
    → SubmissionRow
    → SubmissionAdmission
    → ℕ
    → SubmissionMode
    → Result StoreError SubmissionTables
publish_solve db submission admission solve_order SubmissionMode.practice = ok db
publish_solve db submission admission solve_order SubmissionMode.official = do
  advanced ← advance_scoreboard_version db submission.contest_id
  announce advanced.0 submission admission solve_order

-- The greatest `integer` of the database.
abbrev pub max_integer : ℕ
max_integer = 2_147_483_647

-- `count(*) + 1` of the solves of the challenge in the mode, before its cast.
abbrev pub next_order : SubmissionTables → String → SubmissionMode → ℕ
next_order db challenge_id mode = suc (count (in_group challenge_id mode) db.solves)

abbrev pub solve_row : String → SubmissionRow → ℕ → ℤ → SolveRow
solve_row id submission order score = record {
  id = id;
  submission_id = submission.id;
  contest_id = submission.contest_id;
  contest_challenge_id = submission.contest_challenge_id;
  participation_id = submission.participation_id;
  mode = submission.mode;
  awarded_score = score;
  solve_order = order;
  solved_at = submission.submitted_at;
}

abbrev pub lift_score : Result ScoringInputError ℤ → Result StoreError ℤ
lift_score (err e) = err (score_error e)
lift_score (ok score) = ok score

-- What `gen_random_uuid()` gives in one transaction.
pub record FreshIds : Type 0 where
  pub submission : String
  pub solve : String
  pub clue : ClueKey → String

abbrev pub is_team_derived : FlagPolicy → Bool
is_team_derived (team_derived version) = true
is_team_derived (static_flag digest) = false
is_team_derived (synchronous validator) = false

-- `isRequestIdConflict`.
abbrev pub is_request_id_conflict : StoreError → Bool
is_request_id_conflict (unique_violation UniqueIndex.submissions_request_id_unique) = true
is_request_id_conflict _ = false

module _ (m : FloatMath) where
  abbrev pub score_awarded : ScoringPolicy → SubmissionMode → ℕ → Result StoreError ℤ
  score_awarded policy SubmissionMode.official order =
      lift_score (calculate_challenge_score m policy (pos order))
  score_awarded policy SubmissionMode.practice order = ok (pos 0)

  unfoldable pub create_solve :
      SubmissionTables
      → String
      → SubmissionRow
      → SubmissionAdmission
      → Result StoreError SubmissionTables
  create_solve db id submission admission = do
    throw_if (not (leb (next_order db submission.contest_challenge_id submission.mode) max_integer))
        integer_out_of_range
    score ←
        score_awarded admission.scoring_policy submission.mode
          (next_order db submission.contest_challenge_id submission.mode)
    solved ← insert_solve db (
        solve_row id submission (next_order db submission.contest_challenge_id submission.mode)
          score)
    publish_solve solved submission admission
        (next_order db submission.contest_challenge_id submission.mode) submission.mode

  -- The solve of a correct submission.
  unfoldable pub credit :
      SubmissionTables
      → String
      → SubmissionRow
      → SubmissionAdmission
      → Bool
      → Result StoreError SubmissionTables
  credit db id submission admission false = ok db
  credit db id submission admission true = create_solve db id submission admission

  -- The clues of an official submission.
  abbrev pub with_clues :
      SubmissionTables → FreshIds → SubmissionRow → SubmissionAdmission → SubmissionTables
  with_clues db ids submission admission =
      if is_official submission.mode
      then record db {
        clues =
            detect_cheat_clues ids.clue db.submissions submission
              (is_team_derived admission.flag_policy) db.clues;
      }
      else db

  -- The transaction after the read of the request.
  unfoldable pub append_new :
      SubmissionTables
      → FreshIds
      → AppendSubmissionCommand
      → Result StoreError (SubmissionTables × StoredSubmission)
  append_new db ids command = do
    admission ← admit db command.admission
    let row =
        submission_row ids.submission admission command
          (has_solve db admission.participation_id admission.challenge_id admission.mode)
    inserted ← insert_submission db row
    solved ← credit inserted ids.solve row admission (is_correct row.result)
    ok (with_clues solved ids row admission, submission_record row)

  -- The answer to a request that is there already.
  unfoldable pub repeated :
      SubmissionTables
      → AppendSubmissionCommand
      → SubmissionRow
      → Result StoreError (SubmissionTables × StoredSubmission)
  repeated db command existing = do
    throw_if (not (same_request existing command)) request_conflict
    ok (db, submission_record existing)

  -- The second read of the request, after its conflict.
  unfoldable pub reread :
      SubmissionTables
      → AppendSubmissionCommand
      → Option SubmissionRow
      → Result StoreError (SubmissionTables × StoredSubmission)
  reread db command none = err request_conflict
  reread db command (some existing) = repeated db command existing

  -- The `catch`: only a conflict of the request is read again.
  unfoldable pub recover :
      SubmissionTables
      → AppendSubmissionCommand
      → Result StoreError (SubmissionTables × StoredSubmission)
      → Result StoreError (SubmissionTables × StoredSubmission)
  recover db command (ok answer) = ok answer
  recover db command (err e) =
      if is_request_id_conflict e
      then reread db command (read_by_request_id db command.request_id)
      else err e

  abbrev pub append_from :
      SubmissionTables
      → FreshIds
      → AppendSubmissionCommand
      → Option SubmissionRow
      → Result StoreError (SubmissionTables × StoredSubmission)
  append_from db ids command (some existing) = repeated db command existing
  append_from db ids command none = recover db command (append_new db ids command)

  -- The read of the request may see earlier tables, `before`, than the statements that follow it.
  unfoldable pub append :
      SubmissionTables
      → SubmissionTables
      → FreshIds
      → AppendSubmissionCommand
      → Result StoreError (SubmissionTables × StoredSubmission)
  append before db ids command =
      append_from db ids command (read_by_request_id before command.request_id)
