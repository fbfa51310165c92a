-- ===== src/Submissions/Store/Adjustments.antt =====
-- `recordScoreAdjustment` of apps/web/server/infrastructure/db/submission-repository.ts.
use sauryctf.Prelude.{
  ℕ, String, Bool, true, false, if◌then◌else◌, not, ◌&&◌, Option, none, some, [], ◌∷◌, ◌++◌, any,
}
use sauryctf.Prelude.Int.{eqb_ℤ}
use sauryctf.Prelude.Keys.{eqb}
use sauryctf.Prelude.Table.{find, or_throw}
use sauryctf.Prelude.Result.{Result, ok, err, throw_if, ◌>>◌, ◌>>=◌}
use sauryctf.Participations.Eligibility.{is_archived}
use sauryctf.Submissions.Store.Tables.{
  ContestRow, ParticipationRow, ScoreAdjustmentRow, SubmissionTables, RecordScoreAdjustmentCommand,
  StoreError, UniqueIndex, unique_violation, store_contest_not_found, store_participation_not_found,
  adjustment_archived_contest, adjustment_request_conflict,
}
use sauryctf.Submissions.Store.Append.{advance_scoreboard_version}

unfoldable pub same_score_adjustment : ScoreAdjustmentRow → RecordScoreAdjustmentCommand → Bool
same_score_adjustment existing command =
    eqb existing.contest_id command.contest_id
    && eqb existing.participation_id command.participation_id
    && eqb_ℤ existing.points_delta command.points_delta
    && eqb existing.reason command.reason
    && eqb existing.created_by command.actor_id

-- `readScoreAdjustmentByRequestId`.
abbrev pub read_adjustment : SubmissionTables → String → Option ScoreAdjustmentRow
read_adjustment db request_id =
    find (λ (a : ScoreAdjustmentRow). eqb a.request_id request_id) db.adjustments

abbrev pub adjustment_row : String → RecordScoreAdjustmentCommand → ScoreAdjustmentRow
adjustment_row id command = record {
  id = id;
  contest_id = command.contest_id;
  participation_id = command.participation_id;
  points_delta = command.points_delta;
  reason = command.reason;
  created_by = command.actor_id;
  request_id = command.request_id;
  created_at = command.at_time;
}

unfoldable pub insert_adjustment :
    SubmissionTables → ScoreAdjustmentRow → Result StoreError SubmissionTables
insert_adjustment db row = do
  throw_if (any (λ (a : ScoreAdjustmentRow). eqb a.id row.id) db.adjustments)
      (unique_violation UniqueIndex.score_adjustments_pkey)
  throw_if (any (λ (a : ScoreAdjustmentRow). eqb a.request_id row.request_id) db.adjustments)
      (unique_violation UniqueIndex.score_adjustments_request_id_unique)
  ok (record db { adjustments = db.adjustments ++ row ∷ [] })

abbrev pub with_adjustment_audit :
    SubmissionTables → RecordScoreAdjustmentCommand → String → ℕ → SubmissionTables
with_adjustment_audit db command id version = record db {
  adjustment_audits =
      db.adjustment_audits
      ++ (record {
        actor_user_id = command.actor_id;
        target_id = id;
        reason = command.reason;
        request_id = command.request_id;
        scoreboard_version = version;
        occurred_at = command.at_time;
      })
        ∷ [];
}

-- The transaction after the read of the request.
unfoldable pub adjust_new :
    SubmissionTables
    → String
    → RecordScoreAdjustmentCommand
    → Result StoreError (SubmissionTables × ScoreAdjustmentRow)
adjust_new db id command = do
  contest ←
      or_throw (find (λ (c : ContestRow). eqb c.id command.contest_id) db.contests)
        store_contest_not_found
  throw_if (is_archived contest.publication_status) adjustment_archived_contest
  _ ←
      or_throw
        (find
          (λ (p : ParticipationRow).
            eqb p.id command.participation_id && eqb p.contest_id command.contest_id)
          db.participations)
        store_participation_not_found
  inserted ← insert_adjustment db (adjustment_row id command)
  advanced ← advance_scoreboard_version inserted command.contest_id
  ok (with_adjustment_audit advanced.0 command id advanced.1, adjustment_row id command)

unfoldable pub repeated_adjustment :
    SubmissionTables
    → RecordScoreAdjustmentCommand
    → ScoreAdjustmentRow
    → Result StoreError (SubmissionTables × ScoreAdjustmentRow)
repeated_adjustment db command existing = do
  throw_if (not (same_score_adjustment existing command)) adjustment_request_conflict
  ok (db, existing)

-- `isScoreAdjustmentRequestIdConflict`.
abbrev pub is_adjustment_request_id_conflict : StoreError → Bool
is_adjustment_request_id_conflict
      (unique_violation UniqueIndex.score_adjustments_request_id_unique) =
    true
is_adjustment_request_id_conflict _ = false

-- The second read of the request, after its conflict.
unfoldable pub reread_adjustment :
    SubmissionTables
    → RecordScoreAdjustmentCommand
    → Option ScoreAdjustmentRow
    → Result StoreError (SubmissionTables × ScoreAdjustmentRow)
reread_adjustment db command none = err adjustment_request_conflict
reread_adjustment db command (some existing) = repeated_adjustment db command existing

-- The `catch`: only a conflict of the request is read again.
unfoldable pub recover_adjustment :
    SubmissionTables
    → RecordScoreAdjustmentCommand
    → Result StoreError (SubmissionTables × ScoreAdjustmentRow)
    → Result StoreError (SubmissionTables × ScoreAdjustmentRow)
recover_adjustment db command (ok answer) = ok answer
recover_adjustment db command (err e) =
    if is_adjustment_request_id_conflict e
    then reread_adjustment db command (read_adjustment db command.request_id)
    else err e

abbrev pub adjust_from :
    SubmissionTables
    → String
    → RecordScoreAdjustmentCommand
    → Option ScoreAdjustmentRow
    → Result StoreError (SubmissionTables × ScoreAdjustmentRow)
adjust_from db id command (some existing) = repeated_adjustment db command existing
adjust_from db id command none = recover_adjustment db command (adjust_new db id command)

-- The read of the request may see earlier tables, `before`, than the statements that follow it.
unfoldable pub record_score_adjustment :
    SubmissionTables
    → SubmissionTables
    → String
    → RecordScoreAdjustmentCommand
    → Result StoreError (SubmissionTables × ScoreAdjustmentRow)
record_score_adjustment before db id command =
    adjust_from db id command (read_adjustment before command.request_id)
