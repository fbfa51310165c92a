-- ===== src/Submissions/Store/Laws/Stored.antt =====
-- The submissions after a new one is stored
-- (apps/web/server/infrastructure/db/submission-repository.ts).
use sauryctf.Prelude.{String, [], ◌∷◌, ◌++◌, ◌≡◌, refl, ap, ◌∙◌, Bool-cases, inl, inr, arith}
use sauryctf.Prelude.Result.{ok}
use sauryctf.Submissions.Replay.Facts.{is_official, is_correct}
use sauryctf.Submissions.Scoring.{FloatMath}
use sauryctf.Submissions.Store.Tables.{
  SubmissionRow, SubmissionTables, SubmissionAdmission, AppendSubmissionCommand, StoredSubmission,
}
use sauryctf.Submissions.Store.Append.{credit, with_clues, FreshIds}
use sauryctf.Submissions.Store.Laws.Steps.{IsStored, create_solve-IsCredited}
use sauryctf.Submissions.Store.Laws.Consistent.{insert_submission-ok}

module _ (m : FloatMath) where
  with_clues-submissions :
      (db : SubmissionTables) (ids : FreshIds) (row : SubmissionRow) (a : SubmissionAdmission)
      → (with_clues m db ids row a).submissions ≡ db.submissions
  with_clues-submissions db ids row a = elim (Bool-cases (is_official row.mode)) [
    | inl here ↦ rw here refl
    | inr gone ↦ rw gone refl
  ]

  credit-submissions :
      (db : SubmissionTables) (id : String) (row : SubmissionRow) (a : SubmissionAdmission)
      (db' : SubmissionTables)
      → credit m db id row a (is_correct row.result) ≡ ok db'
      → db'.submissions ≡ db.submissions
  unfolding credit
  credit-submissions db id row a db' h = elim (Bool-cases (is_correct row.result)) [
    | inl right ↦ let k = create_solve-IsCredited m db id row a db' (rw right at h) in k.submissions
    | inr wrong ↦ ground arith
  ]

  pub stored-submissions :
      (db : SubmissionTables) (ids : FreshIds) (command : AppendSubmissionCommand)
      (db' : SubmissionTables) (r : StoredSubmission) (s : IsStored m db ids command db' r)
      → db'.submissions ≡ db.submissions ++ s.row ∷ []
  stored-submissions db ids command db' r s =
      let (e, _, _) = insert_submission-ok db s.row s.inserted s.insertion in
      ap (λ (t : SubmissionTables). t.submissions) s.tables
      ∙ with_clues-submissions s.solved ids s.row s.admission
      ∙ credit-submissions s.inserted ids.solve s.row s.admission s.solved s.crediting
      ∙ ap (λ (t : SubmissionTables). t.submissions) e
