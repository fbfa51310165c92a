-- ===== src/Submissions/Store/ReviewRepeats.antt =====
-- Reviews of cheat clues that are repeated
-- (apps/web/server/infrastructure/db/submission-repository.ts).
use sauryctf.Prelude.{
  ℕ, if◌then◌else◌, String, Bool, true, ◌&&◌, Option, none, some, List, [], ◌∷◌, ◌≡◌, refl, sym, ap,
  ◌∙◌, Bool-cases, inl, inr, arith,
}
use mathlib.Core.Path.{subst}
use sauryctf.Prelude.Keys.{eqb, eqb_refl, string_key}
use sauryctf.Prelude.Table.{find-test, find-snoc, find-snoc_kept, find-update_where}
use sauryctf.Prelude.Result.{Result, ok, err}
use sauryctf.Submissions.Store.Tables.{
  CheatClueRow, ReviewAuditRow, ReviewStatus, ReviewCheatClueCommand, SubmissionTables, StoreError,
}
use sauryctf.Submissions.Store.Reviews.{
  review_status, same_clue_status, same_note, same_cheat_clue_review, read_cheat_clue, read_review,
  reviewed_cheat_clue_record, updated_clue, review_audit, with_review, review_from,
  review_cheat_clue,
}
use sauryctf.Submissions.Store.Reviewed.{review_from-IsUpdated, review_from-IsAnswered}
use sauryctf.Submissions.Store.ReviewRuns.{after_review, run_reviews}

same_clue_status-review_status : (s : ReviewStatus) → same_clue_status (review_status s) s ≡ true
same_clue_status-review_status ReviewStatus.to_reviewing = refl
same_clue_status-review_status ReviewStatus.to_dismissed = refl
same_clue_status-review_status ReviewStatus.to_confirmed = refl

same_note_refl : (note : Option String) → same_note note note ≡ true
same_note_refl none = refl
same_note_refl (some a) = eqb_refl a

review_audit-same :
    (clue : CheatClueRow) (command : ReviewCheatClueCommand)
    → same_cheat_clue_review (review_audit clue command) command ≡ true
unfolding same_cheat_clue_review
review_audit-same clue command =
    rw
      (
        eqb_refl command.actor_id,
        eqb_refl command.clue_id,
        eqb_refl command.contest_id,
        same_clue_status-review_status command.status,
        same_note_refl command.note,
      )
      refl

-- The tables have the event of a review's request, and its clue, from which the answer is rebuilt.
record IsReviewKnown (db : SubmissionTables) (command : ReviewCheatClueCommand) (r : CheatClueRow)
    : Type 0 where
  pub audit : ReviewAuditRow
  pub recorded : read_review db command.request_id ≡ some audit
  pub matches : same_cheat_clue_review audit command ≡ true
  pub clue : CheatClueRow
  pub found : read_cheat_clue db command.contest_id command.clue_id ≡ some clue
  pub rebuilt : reviewed_cheat_clue_record clue audit.occurred_at command ≡ r

-- The same review, sent again at another time.
abbrev pub at_other_time : ℕ → ReviewCheatClueCommand → ReviewCheatClueCommand
at_other_time t command = record command { at_time = t }

module _ (db : SubmissionTables) (command : ReviewCheatClueCommand) (r : CheatClueRow) where
  known-repeated :
      (t : ℕ)
      → IsReviewKnown db command r
      → review_cheat_clue db (at_other_time t command) ≡ ok (db, r)
  unfolding review_cheat_clue review_from same_cheat_clue_review reviewed_cheat_clue_record
  known-repeated t k =
      let matches = k.matches in
      let rebuilt = k.rebuilt in
      rw (k.recorded, k.found) (rw matches (ap (λ c. ok (db, c)) rebuilt))

  -- Another review may change the columns of the clue that a review writes, and no others.
  with_review-IsReviewKnown :
      (other : ReviewCheatClueCommand) (reviewed : CheatClueRow)
      → IsReviewKnown db command r
      → IsReviewKnown (with_review db reviewed other) command r
  unfolding reviewed_cheat_clue_record
  with_review-IsReviewKnown other reviewed k = record {
    audit = k.audit;
    recorded =
        find-snoc_kept (λ (a : ReviewAuditRow). eqb a.request_id command.request_id)
          db.review_audits (review_audit reviewed other) k.audit k.recorded;
    matches = k.matches;
    clue = if eqb k.clue.id other.clue_id then updated_clue other k.clue else k.clue;
    found =
        find-update_where
          (λ (c : CheatClueRow). eqb c.contest_id command.contest_id && eqb c.id command.clue_id)
          (λ (c : CheatClueRow). eqb c.id other.clue_id) (updated_clue other) db.clues k.clue
          (λ c. refl) k.found;
    rebuilt = elim (Bool-cases (eqb k.clue.id other.clue_id)) [
      | inl hit ↦ rw hit k.rebuilt
      | inr miss ↦ rw miss k.rebuilt
    ];
  }

  after_review-IsReviewKnown :
      (other : ReviewCheatClueCommand)
      (answer : Result StoreError (SubmissionTables × CheatClueRow)) (o : Option ReviewAuditRow)
      → review_from db other o ≡ answer
      → IsReviewKnown db command r
      → IsReviewKnown (after_review db answer) command r
  after_review-IsReviewKnown other (err e) o h k = k
  after_review-IsReviewKnown other (ok (db', c)) (some audit) h k =
      subst (λ (t : SubmissionTables). IsReviewKnown t command r)
        (sym (review_from-IsAnswered db other db' c audit h).tables) k
  after_review-IsReviewKnown other (ok (db', c)) none h k =
      let i = review_from-IsUpdated db other db' c h in
      subst (λ (t : SubmissionTables). IsReviewKnown t command r) (sym i.tables)
        (with_review-IsReviewKnown other i.clue k)

run_reviews-IsReviewKnown :
    (db : SubmissionTables) (command : ReviewCheatClueCommand) (r : CheatClueRow)
    (others : List ReviewCheatClueCommand)
    → IsReviewKnown db command r
    → IsReviewKnown (run_reviews db others) command r
unfolding review_cheat_clue
run_reviews-IsReviewKnown db command r [] k = k
run_reviews-IsReviewKnown db command r (c ∷ cs) k =
    run_reviews-IsReviewKnown (after_review db (review_cheat_clue db c)) command r cs (
      after_review-IsReviewKnown db command r c (review_cheat_clue db c)
        (read_review db c.request_id) refl k)

with_review-known :
    (db : SubmissionTables) (clue : CheatClueRow) (command : ReviewCheatClueCommand)
    → read_review db command.request_id ≡ none
    → read_cheat_clue db command.contest_id command.clue_id ≡ some clue
    → IsReviewKnown (with_review db clue command) command (updated_clue command clue)
unfolding reviewed_cheat_clue_record
with_review-known db clue command gone found =
    let p : CheatClueRow → Bool =
      λ c. eqb c.contest_id command.contest_id && eqb c.id command.clue_id in
    let hit : eqb clue.id command.clue_id ≡ true =
      ground (arith, find-test p db.clues clue found) in
    record {
      audit = review_audit clue command;
      recorded =
          find-snoc (λ (a : ReviewAuditRow). eqb a.request_id command.request_id) db.review_audits
            (review_audit clue command) gone (eqb_refl command.request_id);
      matches = review_audit-same clue command;
      clue = updated_clue command clue;
      found =
          find-update_where p (λ (c : CheatClueRow). eqb c.id command.clue_id)
            (updated_clue command) db.clues clue (λ c. refl) found
          ∙ rw hit refl;
      rebuilt = refl;
    }

review_from-IsReviewKnown :
    (db : SubmissionTables) (command : ReviewCheatClueCommand) (db' : SubmissionTables)
    (r : CheatClueRow) (o : Option ReviewAuditRow)
    → read_review db command.request_id ≡ o
    → review_from db command o ≡ ok (db', r)
    → IsReviewKnown db' command r
unfolding review_from
review_from-IsReviewKnown db command db' r none e h =
    let i = review_from-IsUpdated db command db' r h in
    subst (λ (t : SubmissionTables). IsReviewKnown t command r) (sym i.tables)
      (subst (IsReviewKnown (with_review db i.clue command) command) (sym i.answer)
        (with_review-known db i.clue command e i.found))
review_from-IsReviewKnown db command db' r (some audit) e h =
    let i = review_from-IsAnswered db command db' r audit h in
    subst (λ (t : SubmissionTables). IsReviewKnown t command r) (sym i.tables)
      (record {
        audit = audit;
        recorded = e;
        matches = i.matches;
        clue = i.clue;
        found = i.found;
        rebuilt = sym i.answer;
      })

-- A review that succeeded is answered the same again, and changes nothing, when it is sent again at
-- any time and after any other reviews, those of the same clue and failed ones included: the answer
-- is the clue as the request left it, whatever it has become since.
pub review_cheat_clue-repeated :
    (db : SubmissionTables) (command : ReviewCheatClueCommand) (db' : SubmissionTables)
    (r : CheatClueRow) (others : List ReviewCheatClueCommand) (t : ℕ)
    → review_cheat_clue db command ≡ ok (db', r)
    → review_cheat_clue (run_reviews db' others) (at_other_time t command)
      ≡ ok (run_reviews db' others, r)
unfolding review_cheat_clue
review_cheat_clue-repeated db command db' r others t h =
    known-repeated (run_reviews db' others) command r t (
      run_reviews-IsReviewKnown db' command r others
        (review_from-IsReviewKnown db command db' r (read_review db command.request_id) refl h))
