-- ===== src/Submissions/Store/Adjusted.antt =====
-- Properties of `recordScoreAdjustment`
-- (apps/web/server/infrastructure/db/submission-repository.ts).
use sauryctf.Prelude.{
  ℕ, String, false, ◌&&◌, Option, none, some, [], ◌∷◌, ◌++◌, any, count-append, ◌≡◌, refl, sym, ap,
  ◌∙◌, Bool-cases, inl, inr, ◌⊎◌, arith,
}
use mathlib.Core.Path.{subst, ap₂}
use sauryctf.Prelude.Keys.{eqb, string_key}
use sauryctf.Prelude.Table.{find, or_throw}
use sauryctf.Prelude.Result.{Result, ok, err, bind-eq-ok, throw_if, ok-inj}
use sauryctf.Participations.Eligibility.{is_archived}
use sauryctf.Submissions.Store.Tables.{
  ContestRow, ParticipationRow, ScoreAdjustmentRow, SubmissionTables, RecordScoreAdjustmentCommand,
  StoreError, store_contest_not_found, store_participation_not_found, adjustment_archived_contest,
}
use sauryctf.Submissions.Store.Append.{version_in, advance_versions, advance_scoreboard_version}
use sauryctf.Submissions.Store.Adjustments.{
  adjustment_row, insert_adjustment, with_adjustment_audit, adjust_new, repeated_adjustment,
  reread_adjustment, read_adjustment, is_adjustment_request_id_conflict, recover_adjustment,
  adjust_from, record_score_adjustment,
}
use sauryctf.Submissions.Store.Laws.Versions.{version_in-advance_versions, is_adjustment_in}
use sauryctf.Submissions.Store.Laws.Consistent.{IsConsistent, IsDistinct-insert}

-- The tables with one more adjustment, with the advanced version and the audit event.
abbrev pub with_recorded :
    SubmissionTables → String → RecordScoreAdjustmentCommand → SubmissionTables
with_recorded db id command =
    let versions = advance_versions command.contest_id db.versions in
    with_adjustment_audit
      (record db {
        adjustments = db.adjustments ++ adjustment_row id command ∷ [];
        versions = versions;
      })
      command id (version_in command.contest_id versions)

record IsInserted (db : SubmissionTables) (id : String) (command : RecordScoreAdjustmentCommand)
    (db' : SubmissionTables) (r : ScoreAdjustmentRow) : Type 0 where
  pub tables : db' ≡ with_recorded db id command
  pub answer : r ≡ adjustment_row id command
  pub id_free : any (λ (a : ScoreAdjustmentRow). eqb a.id id) db.adjustments ≡ false
  pub request_free :
      any (λ (a : ScoreAdjustmentRow). eqb a.request_id command.request_id) db.adjustments ≡ false

adjust_new-IsInserted :
    (db : SubmissionTables) (id : String) (command : RecordScoreAdjustmentCommand)
    (db' : SubmissionTables) (r : ScoreAdjustmentRow)
    → adjust_new db id command ≡ ok (db', r)
    → IsInserted db id command db' r
unfolding adjust_new insert_adjustment advance_scoreboard_version
adjust_new-IsInserted db id command db' r h =
    let o = find (λ (c : ContestRow). eqb c.id command.contest_id) db.contests in
    let q =
      find
        (λ (p : ParticipationRow).
          eqb p.id command.participation_id && eqb p.contest_id command.contest_id)
        db.participations in
    let (contest, e₁, h₁) = bind-eq-ok (or_throw o store_contest_not_found) _ h in
    let (u, e₂, h₂) =
      bind-eq-ok (throw_if (is_archived contest.publication_status) adjustment_archived_contest) _
        h₁ in
    let (p, e₃, h₃) = bind-eq-ok (or_throw q store_participation_not_found) _ h₂ in
    let (inserted, e₄, h₄) = bind-eq-ok (insert_adjustment db (adjustment_row id command)) _ h₃ in
    let (advanced, e₅, h₅) =
      bind-eq-ok (advance_scoreboard_version inserted command.contest_id) _ h₄ in
    let i : inserted
        ≡ record db { adjustments = db.adjustments ++ adjustment_row id command ∷ [] } =
      ground arith in
    let v : advanced.0
        ≡ record inserted { versions = advance_versions command.contest_id inserted.versions } =
      ground arith in
    let w : advanced.1
        ≡ version_in command.contest_id (advance_versions command.contest_id inserted.versions) =
      ground arith in
    let result = ok-inj refl h₅ in
    record {
      tables =
          sym (ap (λ (z : SubmissionTables × ScoreAdjustmentRow). z.0) result)
          ∙ ap₂ (λ (t : SubmissionTables) (n : ℕ). with_adjustment_audit t command id n) v w
          ∙ ap
              (λ (t : SubmissionTables).
                with_adjustment_audit
                  (record t { versions = advance_versions command.contest_id t.versions }) command
                  id
                  (version_in command.contest_id (advance_versions command.contest_id t.versions)))
              i;
      answer = sym (ap (λ (z : SubmissionTables × ScoreAdjustmentRow). z.1) result);
      id_free = ground arith;
      request_free = ground arith;
    }

with_recorded-IsConsistent :
    (db : SubmissionTables) (id : String) (command : RecordScoreAdjustmentCommand)
    → IsConsistent db
    → any (λ (a : ScoreAdjustmentRow). eqb a.id id) db.adjustments ≡ false
    → any (λ (a : ScoreAdjustmentRow). eqb a.request_id command.request_id) db.adjustments ≡ false
    → IsConsistent (with_recorded db id command)
with_recorded-IsConsistent db id command c h k = record {
  counted = c.counted;
  solved_once = c.solved_once;
  credited = c.credited;
  submission_ids = c.submission_ids;
  request_ids = c.request_ids;
  adjustment_ids =
      IsDistinct-insert (λ a. a.id) db.adjustments (adjustment_row id command) c.adjustment_ids h;
  adjustment_request_ids =
      IsDistinct-insert (λ a. a.request_id) db.adjustments (adjustment_row id command)
        c.adjustment_request_ids k;
  versioned = λ contest_id. ground (
    arith,
    version_in-advance_versions command.contest_id contest_id db.versions,
    c.versioned contest_id,
    count-append (is_adjustment_in contest_id) db.adjustments (adjustment_row id command ∷ []),
  );
}

module _ (db : SubmissionTables) (id : String) (command : RecordScoreAdjustmentCommand)
    (db' : SubmissionTables) (r : ScoreAdjustmentRow) where
  repeated_adjustment-unchanged :
      (existing : ScoreAdjustmentRow)
      → repeated_adjustment db command existing ≡ ok (db', r)
      → db' ≡ db
  unfolding repeated_adjustment
  repeated_adjustment-unchanged existing h = ground arith

  reread_adjustment-unchanged :
      (o : Option ScoreAdjustmentRow) → reread_adjustment db command o ≡ ok (db', r) → db' ≡ db
  unfolding reread_adjustment
  reread_adjustment-unchanged none h = cc
  reread_adjustment-unchanged (some existing) h = repeated_adjustment-unchanged existing h

  recover_adjustment-cases :
      (answer : Result StoreError (SubmissionTables × ScoreAdjustmentRow))
      → recover_adjustment db command answer ≡ ok (db', r)
      → (answer ≡ ok (db', r)) ⊎ (db' ≡ db)
  unfolding recover_adjustment
  recover_adjustment-cases (ok answer) h = inl h
  recover_adjustment-cases (err e) h = elim (Bool-cases (is_adjustment_request_id_conflict e)) [
    | inl conflict ↦
        inr (reread_adjustment-unchanged (read_adjustment db command.request_id) (rw conflict at h))
    | inr other ↦ absurd (ground arith)
  ]

  adjust_from-IsConsistent :
      (o : Option ScoreAdjustmentRow)
      → IsConsistent db
      → adjust_from db id command o ≡ ok (db', r)
      → IsConsistent db'
  adjust_from-IsConsistent (some existing) c h =
      subst IsConsistent (sym (repeated_adjustment-unchanged existing h)) c
  adjust_from-IsConsistent none c h = elim (recover_adjustment-cases (adjust_new db id command) h) [
    | inl stored ↦
        let i = adjust_new-IsInserted db id command db' r stored in
        subst IsConsistent (sym i.tables)
          (with_recorded-IsConsistent db id command c i.id_free i.request_free)
    | inr same ↦ subst IsConsistent (sym same) c
  ]

-- A successful adjustment keeps the store consistent, whatever earlier tables its first read saw: in
-- particular the contest's scoreboard version still counts its official solves and adjustments.
pub record_score_adjustment-IsConsistent :
    (before db : SubmissionTables) (id : String) (command : RecordScoreAdjustmentCommand)
    (db' : SubmissionTables) (r : ScoreAdjustmentRow)
    → IsConsistent db
    → record_score_adjustment before db id command ≡ ok (db', r)
    → IsConsistent db'
unfolding record_score_adjustment
record_score_adjustment-IsConsistent before db id command db' r c h =
    adjust_from-IsConsistent db id command db' r (read_adjustment before command.request_id) c h
