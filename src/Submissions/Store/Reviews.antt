-- ===== src/Submissions/Store/Reviews.antt =====
-- `reviewCheatClue` of apps/web/server/infrastructure/db/submission-repository.ts. The advisory lock
-- makes the reviews of one request follow each other, so the read of the audit events sees the
-- tables that the rest sees.
use sauryctf.Prelude.{
  ℕ, String, Bool, true, false, not, ◌&&◌, Option, none, some, [], ◌∷◌, ◌++◌, if◌then◌else◌,
}
use sauryctf.Prelude.Keys.{eqb}
use sauryctf.Prelude.Table.{find, update_where, or_throw}
use sauryctf.Prelude.Result.{Result, ok, throw_if, ◌>>◌, ◌>>=◌}
use sauryctf.Submissions.Store.Tables.{
  CheatClueStatus, CheatClueRow, ReviewAuditRow, ReviewStatus, ReviewCheatClueCommand,
  SubmissionTables, StoreError, clue_not_found, clue_review_conflict, clue_request_conflict,
}

abbrev pub review_status : ReviewStatus → CheatClueStatus
review_status ReviewStatus.to_reviewing = CheatClueStatus.reviewing
review_status ReviewStatus.to_dismissed = CheatClueStatus.dismissed
review_status ReviewStatus.to_confirmed = CheatClueStatus.confirmed

abbrev pub is_final_review : ReviewStatus → Bool
is_final_review ReviewStatus.to_reviewing = false
is_final_review _ = true

abbrev pub is_under_review : CheatClueStatus → Bool
is_under_review CheatClueStatus.reviewing = true
is_under_review _ = false

abbrev pub can_review_cheat_clue : CheatClueStatus → ReviewStatus → Bool
can_review_cheat_clue CheatClueStatus.opened next = true
can_review_cheat_clue current next = is_under_review current && is_final_review next

abbrev pub same_clue_status : CheatClueStatus → ReviewStatus → Bool
same_clue_status CheatClueStatus.reviewing ReviewStatus.to_reviewing = true
same_clue_status CheatClueStatus.dismissed ReviewStatus.to_dismissed = true
same_clue_status CheatClueStatus.confirmed ReviewStatus.to_confirmed = true
same_clue_status _ _ = false

abbrev pub same_note : Option String → Option String → Bool
same_note none none = true
same_note (some a) (some b) = eqb a b
same_note _ _ = false

unfoldable pub same_cheat_clue_review : ReviewAuditRow → ReviewCheatClueCommand → Bool
same_cheat_clue_review audit command =
    eqb audit.actor_user_id command.actor_id
    && eqb audit.target_id command.clue_id
    && eqb audit.contest_id command.contest_id
    && same_clue_status audit.to_status command.status
    && same_note audit.review_note command.note

-- `readCheatClue`.
abbrev pub read_cheat_clue : SubmissionTables → String → String → Option CheatClueRow
read_cheat_clue db contest_id clue_id =
    find (λ (c : CheatClueRow). eqb c.contest_id contest_id && eqb c.id clue_id) db.clues

-- `readCheatClueReviewByRequestId`: the events stand in the order of their times.
abbrev pub read_review : SubmissionTables → String → Option ReviewAuditRow
read_review db request_id =
    find (λ (a : ReviewAuditRow). eqb a.request_id request_id) db.review_audits

-- The row as the request left it; `at_time` is the time of its event.
unfoldable pub reviewed_cheat_clue_record : CheatClueRow → ℕ → ReviewCheatClueCommand → CheatClueRow
reviewed_cheat_clue_record clue at_time command = record clue {
  status = review_status command.status;
  reviewed_by = if is_final_review command.status then some command.actor_id else none;
  review_note = command.note;
  reviewed_at = if is_final_review command.status then some at_time else none;
  updated_at = at_time;
}

-- The `UPDATE`, which sets the same columns at the command's time.
abbrev pub updated_clue : ReviewCheatClueCommand → CheatClueRow → CheatClueRow
updated_clue command clue = record clue {
  status = review_status command.status;
  reviewed_by = if is_final_review command.status then some command.actor_id else none;
  review_note = command.note;
  reviewed_at = if is_final_review command.status then some command.at_time else none;
  updated_at = command.at_time;
}

abbrev pub review_audit : CheatClueRow → ReviewCheatClueCommand → ReviewAuditRow
review_audit clue command = record {
  actor_user_id = command.actor_id;
  target_id = command.clue_id;
  reason = command.note;
  request_id = command.request_id;
  contest_id = command.contest_id;
  from_status = clue.status;
  to_status = review_status command.status;
  review_note = command.note;
  occurred_at = command.at_time;
}

abbrev pub with_review : SubmissionTables → CheatClueRow → ReviewCheatClueCommand → SubmissionTables
with_review db clue command = record db {
  clues =
      update_where (λ (c : CheatClueRow). eqb c.id command.clue_id) (updated_clue command) db.clues;
  review_audits = db.review_audits ++ review_audit clue command ∷ [];
}

-- The review by the event of its request, where that is there already.
unfoldable pub review_from :
    SubmissionTables
    → ReviewCheatClueCommand
    → Option ReviewAuditRow
    → Result StoreError (SubmissionTables × CheatClueRow)
review_from db command (some audit) = do
  throw_if (not (same_cheat_clue_review audit command)) clue_request_conflict
  clue ← or_throw (read_cheat_clue db command.contest_id command.clue_id) clue_not_found
  ok (db, reviewed_cheat_clue_record clue audit.occurred_at command)
review_from db command none = do
  clue ← or_throw (read_cheat_clue db command.contest_id command.clue_id) clue_not_found
  throw_if (not (can_review_cheat_clue clue.status command.status)) clue_review_conflict
  ok (with_review db clue command, updated_clue command clue)

unfoldable pub review_cheat_clue :
    SubmissionTables → ReviewCheatClueCommand → Result StoreError (SubmissionTables × CheatClueRow)
unfolding review_from
review_cheat_clue db command = review_from db command (read_review db command.request_id)
