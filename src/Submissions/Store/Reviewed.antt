-- ===== src/Submissions/Store/Reviewed.antt =====
-- Properties of `reviewCheatClue` (apps/web/server/infrastructure/db/submission-repository.ts).
use sauryctf.Prelude.{
  Bool, true, false, not, ◌&&◌, Option, none, some, List, [], ◌∷◌, map, ◌≡◌, refl, sym, ap, inl,
  inr, ◌⊎◌, All₂, arith,
}
use mathlib.Core.Path.{subst}
use sauryctf.Prelude.Keys.{eqb, eqb_iff, string_key}
use sauryctf.Prelude.Distinct.{IsDistinct}
use sauryctf.Prelude.Table.{find-test, update_where, update_found, or_throw, or_throw-ok}
use sauryctf.Prelude.Result.{ok, bind-eq-ok, throw_if, ok-inj}
use sauryctf.Submissions.Store.Tables.{
  CheatClueStatus, CheatClueRow, ReviewAuditRow, ReviewCheatClueCommand, SubmissionTables,
  clue_not_found, clue_review_conflict, clue_request_conflict,
}
use sauryctf.Submissions.Store.Reviews.{
  can_review_cheat_clue, same_cheat_clue_review, read_cheat_clue, read_review,
  reviewed_cheat_clue_record, updated_clue, with_review, review_from, review_cheat_clue,
}

abbrev pub is_final : CheatClueStatus → Bool
is_final CheatClueStatus.dismissed = true
is_final CheatClueStatus.confirmed = true
is_final _ = false

-- A clue stays, or the command moves it along the graph of the statuses.
abbrev pub IsReviewStep : ReviewCheatClueCommand → CheatClueRow → CheatClueRow → Type 0
IsReviewStep command c c' =
    (c' ≡ c)
    ⊎ ((c.id ≡ command.clue_id)
        × (c.contest_id ≡ command.contest_id)
        × (can_review_cheat_clue c.status command.status ≡ true)
        × (c' ≡ updated_clue command c))

-- What a review does: it repeats an earlier one and changes nothing, or it updates its clue.
pub record IsUpdated (db : SubmissionTables) (command : ReviewCheatClueCommand)
    (db' : SubmissionTables) (r : CheatClueRow) : Type 0 where
  pub clue : CheatClueRow
  pub found : read_cheat_clue db command.contest_id command.clue_id ≡ some clue
  pub reviewable : can_review_cheat_clue clue.status command.status ≡ true
  pub tables : db' ≡ with_review db clue command
  pub answer : r ≡ updated_clue command clue

pub record IsAnswered (db : SubmissionTables) (command : ReviewCheatClueCommand)
    (audit : ReviewAuditRow) (db' : SubmissionTables) (r : CheatClueRow) : Type 0 where
  pub clue : CheatClueRow
  pub found : read_cheat_clue db command.contest_id command.clue_id ≡ some clue
  pub matches : same_cheat_clue_review audit command ≡ true
  pub tables : db' ≡ db
  pub answer : r ≡ reviewed_cheat_clue_record clue audit.occurred_at command

module _ (db : SubmissionTables) (command : ReviewCheatClueCommand) (db' : SubmissionTables)
    (r : CheatClueRow) where
  pub review_from-IsUpdated : review_from db command none ≡ ok (db', r) → IsUpdated db command db' r
  unfolding review_from
  review_from-IsUpdated h =
      let o = read_cheat_clue db command.contest_id command.clue_id in
      let (clue, e₁, h₁) = bind-eq-ok (or_throw o clue_not_found) _ h in
      let (u, e₂, h₂) =
        bind-eq-ok
          (throw_if (not (can_review_cheat_clue clue.status command.status)) clue_review_conflict) _
          h₁ in
      let result = ok-inj refl h₂ in
      record {
        clue = clue;
        found = or_throw-ok o clue_not_found clue e₁;
        reviewable = ground arith;
        tables = sym (ap (λ (z : SubmissionTables × CheatClueRow). z.0) result);
        answer = sym (ap (λ (z : SubmissionTables × CheatClueRow). z.1) result);
      }

  pub review_from-IsAnswered :
      (audit : ReviewAuditRow)
      → review_from db command (some audit) ≡ ok (db', r)
      → IsAnswered db command audit db' r
  unfolding review_from
  review_from-IsAnswered audit h =
      let o = read_cheat_clue db command.contest_id command.clue_id in
      let (u, e₁, h₁) =
        bind-eq-ok (throw_if (not (same_cheat_clue_review audit command)) clue_request_conflict) _
          h in
      let (clue, e₂, h₂) = bind-eq-ok (or_throw o clue_not_found) _ h₁ in
      let result = ok-inj refl h₂ in
      record {
        clue = clue;
        found = or_throw-ok o clue_not_found clue e₂;
        matches = ground arith;
        tables = sym (ap (λ (z : SubmissionTables × CheatClueRow). z.0) result);
        answer = sym (ap (λ (z : SubmissionTables × CheatClueRow). z.1) result);
      }

  with_review-steps :
      (clue : CheatClueRow)
      → IsDistinct (map (λ (c : CheatClueRow). c.id) db.clues)
      → read_cheat_clue db command.contest_id command.clue_id ≡ some clue
      → can_review_cheat_clue clue.status command.status ≡ true
      → All₂ (IsReviewStep command) db.clues (with_review db clue command).clues
  with_review-steps clue d found reviewable =
      let p : CheatClueRow → Bool =
        λ c. eqb c.contest_id command.contest_id && eqb c.id command.clue_id in
      let matched : p clue ≡ true = find-test p db.clues clue found in
      let id : clue.id ≡ command.clue_id = ground (arith, eqb_iff clue.id command.clue_id) in
      let contest : clue.contest_id ≡ command.contest_id =
        ground (arith, eqb_iff clue.contest_id command.contest_id) in
      subst
        (λ k.
          All₂ (IsReviewStep command) db.clues
            (update_where (λ (c : CheatClueRow). eqb c.id k) (updated_clue command) db.clues))
        id
        (update_found (λ (c : CheatClueRow). c.id) (IsReviewStep command) (λ c. inl refl) p
          (updated_clue command) db.clues clue d found (inr (id, contest, reviewable, refl)))

  review_from-steps :
      (o : Option ReviewAuditRow)
      → IsDistinct (map (λ (c : CheatClueRow). c.id) db.clues)
      → review_from db command o ≡ ok (db', r)
      → All₂ (IsReviewStep command) db.clues db'.clues
  review_from-steps none d h =
      let i = review_from-IsUpdated h in
      subst (λ (t : SubmissionTables). All₂ (IsReviewStep command) db.clues t.clues) (sym i.tables)
        (with_review-steps i.clue d i.found i.reviewable)
  review_from-steps (some audit) d h =
      let i = review_from-IsAnswered audit h in
      subst (λ (t : SubmissionTables). All₂ (IsReviewStep command) db.clues t.clues) (sym i.tables)
        (All₂-same db.clues)
    where
      All₂-same : (xs : List CheatClueRow) → All₂ (IsReviewStep command) xs xs
      All₂-same [] = tt
      All₂-same (x ∷ xs) = (inl refl, All₂-same xs)

-- Where the identifiers of the clues are distinct, a successful review leaves every clue as it was,
-- except that it may move the one clue of the command, in the contest of the command, to the
-- command's status along the graph: from open to any other status, and from reviewing to a final one.
pub review_cheat_clue-steps :
    (db : SubmissionTables) (command : ReviewCheatClueCommand) (db' : SubmissionTables)
    (r : CheatClueRow)
    → IsDistinct (map (λ (c : CheatClueRow). c.id) db.clues)
    → review_cheat_clue db command ≡ ok (db', r)
    → All₂ (IsReviewStep command) db.clues db'.clues
unfolding review_cheat_clue
review_cheat_clue-steps db command db' r d h =
    review_from-steps db command db' r (read_review db command.request_id) d h
