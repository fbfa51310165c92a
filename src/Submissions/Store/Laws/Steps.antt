-- ===== src/Submissions/Store/Laws/Steps.antt =====
-- What a successful step of an append leaves in the tables
-- (apps/web/server/infrastructure/db/submission-repository.ts).
use sauryctf.Prelude.{
  ℕ, String, false, List, [], ◌∷◌, ◌++◌, any, ◌≡◌, refl, sym, ap, ◌∙◌, not, leb, arith,
}
use sauryctf.Prelude.Int.{ℤ}
use sauryctf.Prelude.Result.{ok, throw_if, bind-eq-ok, ok-inj}
use sauryctf.Submissions.Replay.Facts.{SubmissionMode, is_correct}
use sauryctf.Submissions.Scoring.{FloatMath}
use sauryctf.Submissions.Store.Tables.{
  integer_out_of_range, SubmissionRow, SolveRow, SubmissionTables, SubmissionAdmission,
  AppendSubmissionCommand, StoredSubmission,
}
use sauryctf.Submissions.Store.Admission.{admit}
use sauryctf.Submissions.Store.Append.{
  max_integer, insert_submission, submission_row, submission_record, has_solve, insert_solve,
  solve_row, next_order, advance_versions, advance_scoreboard_version, insert_event, announce,
  publish_solve, create_solve, score_awarded, credit, with_clues, append_new, FreshIds, is_solve_of,
}

-- The tables that no credit writes.
pub record IsKept (db db' : SubmissionTables) : Type 0 where
  pub submissions : db'.submissions ≡ db.submissions
  pub adjustments : db'.adjustments ≡ db.adjustments
  pub solves : db'.solves ≡ db.solves

pub insert_event-IsKept :
    (db : SubmissionTables) (submission : SubmissionRow) (admission : SubmissionAdmission) (n : ℕ)
    (db' : SubmissionTables)
    → announce db submission admission n ≡ ok db'
    → IsKept db db' × (db'.versions ≡ db.versions)
unfolding announce insert_event
insert_event-IsKept db submission admission n db' h = (
  record { submissions = ground arith; adjustments = ground arith; solves = ground arith },
  ground arith,
)

-- The versions after a solve in a mode.
abbrev pub versions_after : SubmissionTables → String → SubmissionMode → SubmissionTables
versions_after db contest_id SubmissionMode.official = record db {
  versions = advance_versions contest_id db.versions;
}
versions_after db contest_id SubmissionMode.practice = db

versions_after-solves :
    (db : SubmissionTables) (contest_id : String) (mode : SubmissionMode) (solves : List SolveRow)
    → (versions_after (record db { solves = solves }) contest_id mode).versions
      ≡ (versions_after db contest_id mode).versions
versions_after-solves db contest_id SubmissionMode.official solves = refl
versions_after-solves db contest_id SubmissionMode.practice solves = refl

pub publish_solve-IsKept :
    (db : SubmissionTables) (submission : SubmissionRow) (admission : SubmissionAdmission) (n : ℕ)
    (mode : SubmissionMode) (db' : SubmissionTables)
    → publish_solve db submission admission n mode ≡ ok db'
    → IsKept db db' × (db'.versions ≡ (versions_after db submission.contest_id mode).versions)
unfolding publish_solve advance_scoreboard_version
publish_solve-IsKept db submission admission n SubmissionMode.practice db' h = (
  record { submissions = ground arith; adjustments = ground arith; solves = ground arith },
  ground arith,
)
publish_solve-IsKept db submission admission n SubmissionMode.official db' h =
    let (a, e, h₁) = bind-eq-ok (advance_scoreboard_version db submission.contest_id) _ h in
    let (k, v) = insert_event-IsKept a.0 submission admission n db' h₁ in
    (
      record {
        submissions = ground (arith, k.submissions);
        adjustments = ground (arith, k.adjustments);
        solves = ground (arith, k.solves);
      },
      ground (arith, v),
    )

-- A solve was credited: its row is new in each way that an index tests.
pub record IsCredited (db : SubmissionTables) (id : String) (submission : SubmissionRow)
    (db' : SubmissionTables) : Type 0 where
  pub score : ℤ
  pub unsolved :
      any
        (is_solve_of submission.participation_id submission.contest_challenge_id submission.mode)
        db.solves
      ≡ false
  pub submissions : db'.submissions ≡ db.submissions
  pub adjustments : db'.adjustments ≡ db.adjustments
  pub solves :
      db'.solves
      ≡ db.solves
        ++ solve_row id submission
            (next_order db submission.contest_challenge_id submission.mode)
            score
          ∷ []
  pub versions : db'.versions ≡ (versions_after db submission.contest_id submission.mode).versions

module _ (m : FloatMath) where
  pub create_solve-IsCredited :
      (db : SubmissionTables) (id : String) (submission : SubmissionRow)
      (admission : SubmissionAdmission) (db' : SubmissionTables)
      → create_solve m db id submission admission ≡ ok db'
      → IsCredited db id submission db'
  unfolding create_solve insert_solve
  create_solve-IsCredited db id submission admission db' h =
      let order = next_order db submission.contest_challenge_id submission.mode in
      let (_, _, h₀) =
        bind-eq-ok (throw_if (not (leb order max_integer)) integer_out_of_range) _ h in
      let (score, e₁, h₁) =
        bind-eq-ok (score_awarded m admission.scoring_policy submission.mode order) _ h₀ in
      let row = solve_row id submission order score in
      let (solved, e₂, h₂) = bind-eq-ok (insert_solve db row) _ h₁ in
      let (k, v) = publish_solve-IsKept solved submission admission order submission.mode db' h₂ in
      let stored : solved ≡ record db { solves = db.solves ++ row ∷ [] } = ground arith in
      record {
        score = score;
        unsolved = ground arith;
        submissions = ground (arith, k.submissions);
        adjustments = ground (arith, k.adjustments);
        solves = ground (arith, k.solves);
        versions =
            v
            ∙ ap
                (λ (t : SubmissionTables).
                  (versions_after t submission.contest_id submission.mode).versions)
                stored
            ∙ versions_after-solves db submission.contest_id submission.mode
                (db.solves ++ row ∷ []);
      }

  -- What an append leaves: the row that is stored, and the tables before the clues.
  pub record IsStored (db : SubmissionTables) (ids : FreshIds) (command : AppendSubmissionCommand)
      (db' : SubmissionTables) (r : StoredSubmission) : Type 0 where
    pub admission : SubmissionAdmission
    pub admitted : admit db command.admission ≡ ok admission
    pub row : SubmissionRow
    pub row_is :
        row
        ≡ submission_row ids.submission admission command
            (has_solve db admission.participation_id admission.challenge_id admission.mode)
    pub inserted : SubmissionTables
    pub insertion : insert_submission db row ≡ ok inserted
    pub solved : SubmissionTables
    pub crediting : credit m inserted ids.solve row admission (is_correct row.result) ≡ ok solved
    pub tables : db' ≡ with_clues m solved ids row admission
    pub answer : r ≡ submission_record row

  pub append_new-IsStored :
      (db : SubmissionTables) (ids : FreshIds) (command : AppendSubmissionCommand)
      (db' : SubmissionTables) (r : StoredSubmission)
      → append_new m db ids command ≡ ok (db', r)
      → IsStored db ids command db' r
  unfolding append_new
  append_new-IsStored db ids command db' r h =
      let (a, e₁, h₁) = bind-eq-ok (admit db command.admission) _ h in
      let row =
        submission_row ids.submission a command
          (has_solve db a.participation_id a.challenge_id a.mode) in
      let (inserted, e₂, h₂) = bind-eq-ok (insert_submission db row) _ h₁ in
      let (solved, e₃, h₃) =
        bind-eq-ok (credit m inserted ids.solve row a (is_correct row.result)) _ h₂ in
      record {
        admission = a;
        admitted = e₁;
        row = row;
        row_is = refl;
        inserted = inserted;
        insertion = e₂;
        solved = solved;
        crediting = e₃;
        tables = sym (ap (λ (p : SubmissionTables × StoredSubmission). p.0) (ok-inj refl h₃));
        answer = sym (ap (λ (p : SubmissionTables × StoredSubmission). p.1) (ok-inj refl h₃));
      }
