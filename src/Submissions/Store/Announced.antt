-- ===== src/Submissions/Store/Announced.antt =====
-- The events of first solves that appends write
-- (apps/web/server/infrastructure/db/submission-repository.ts).
use sauryctf.Prelude.{
  not, leb, ℕ, String, Bool, true, false, ◌&&◌, Option, none, some, [], ◌∷◌, any, any-append, count,
  count-append, ◌≡◌, sym, ap, ◌∙◌, Bool-cases, inl, inr, arith,
}
use mathlib.Core.Path.{subst}
use sauryctf.Prelude.Keys.{eqb}
use sauryctf.Prelude.Result.{ok, throw_if, bind-eq-ok}
use sauryctf.Submissions.Replay.Facts.{SubmissionMode, is_official, is_correct}
use sauryctf.Submissions.Scoring.{FloatMath}
use sauryctf.Submissions.Store.Tables.{
  integer_out_of_range, SubmissionRow, SubmissionTables, SubmissionAdmission,
  AppendSubmissionCommand, StoredSubmission, first_solve_key, same_mode,
}
use sauryctf.Submissions.Store.Append.{
  max_integer, in_group, insert_event, insert_solve, solve_row, next_order,
  advance_scoreboard_version, announce, publish_solve, score_awarded, create_solve, credit,
  append_new, append_from, append, read_by_request_id, first_solve_event, FreshIds,
}
use sauryctf.Submissions.Store.Laws.Publishing.{is_event_of, IsAnnounced}
use sauryctf.Submissions.Store.Laws.Steps.{create_solve-IsCredited, append_new-IsStored}
use sauryctf.Submissions.Store.Laws.Consistent.{insert_submission-ok}
use sauryctf.Submissions.Store.Appends.{recover-cases, repeated-IsRepeated}

-- No event of the first solve of the challenge stands in the contest.
abbrev IsUnannounced : String → String → SubmissionTables → Type 0
IsUnannounced contest_id challenge_id db =
    any (is_event_of contest_id (first_solve_key challenge_id)) db.contest_events ≡ false

module _ (contest_id challenge_id : String) (row : SubmissionRow) (a : SubmissionAdmission)
    (n : ℕ) where
  announce-IsUnannounced :
      (db db' : SubmissionTables)
      → eqb row.contest_challenge_id challenge_id ≡ false
      → announce db row a n ≡ ok db'
      → IsUnannounced contest_id challenge_id db
      → IsUnannounced contest_id challenge_id db'
  unfolding announce insert_event
  announce-IsUnannounced db db' other h u = ground (
    arith,
    any-append (is_event_of contest_id (first_solve_key challenge_id)) db.contest_events
        (first_solve_event row a ∷ []),
  )

  publish_solve-IsUnannounced :
      (db db' : SubmissionTables) (mode : SubmissionMode)
      → (eqb row.contest_challenge_id challenge_id && same_mode mode SubmissionMode.official)
        ≡ false
      → publish_solve db row a n mode ≡ ok db'
      → IsUnannounced contest_id challenge_id db
      → IsUnannounced contest_id challenge_id db'
  unfolding publish_solve advance_scoreboard_version
  publish_solve-IsUnannounced db db' SubmissionMode.practice other h u = ground arith
  publish_solve-IsUnannounced db db' SubmissionMode.official other h u =
      let (t, e, h₁) = bind-eq-ok (advance_scoreboard_version db row.contest_id) _ h in
      announce-IsUnannounced t.0 db' (ground arith) h₁ (ground arith)

module _ (m : FloatMath) where
  create_solve-IsUnannounced :
      (contest_id challenge_id id : String) (row : SubmissionRow) (a : SubmissionAdmission)
      (db db' : SubmissionTables)
      → (eqb row.contest_challenge_id challenge_id && same_mode row.mode SubmissionMode.official)
        ≡ false
      → create_solve m db id row a ≡ ok db'
      → IsUnannounced contest_id challenge_id db
      → IsUnannounced contest_id challenge_id db'
  unfolding create_solve insert_solve
  create_solve-IsUnannounced contest_id challenge_id id row a db db' other h u =
      let order = next_order db row.contest_challenge_id row.mode in
      let (_, _, h₀) =
        bind-eq-ok (throw_if (not (leb order max_integer)) integer_out_of_range) _ h in
      let (score, e₁, h₁) = bind-eq-ok (score_awarded m a.scoring_policy row.mode order) _ h₀ in
      let (solved, e₂, h₂) = bind-eq-ok (insert_solve db (solve_row id row order score)) _ h₁ in
      publish_solve-IsUnannounced contest_id challenge_id row a order solved db' row.mode other h₂
        (ground arith)

  credit-IsAnnounced :
      (id : String) (row : SubmissionRow) (a : SubmissionAdmission) (correct : Bool)
      (db db' : SubmissionTables)
      → IsAnnounced db
      → credit m db id row a correct ≡ ok db'
      → IsAnnounced db'
  unfolding credit
  credit-IsAnnounced id row a false db db' k h contest_id challenge_id none_there =
      let same : db ≡ db' = ground arith in
      subst IsAnnounced same k contest_id challenge_id none_there
  credit-IsAnnounced id row a true db db' k h contest_id challenge_id none_there =
      let made = create_solve-IsCredited m db id row a db' h in
      let order = next_order db row.contest_challenge_id row.mode in
      let counted =
        sym none_there
        ∙ ap (count (in_group challenge_id SubmissionMode.official)) made.solves
        ∙ count-append (in_group challenge_id SubmissionMode.official) db.solves
            (solve_row id row order made.score ∷ []) in
      create_solve-IsUnannounced contest_id challenge_id id row a db db' (ground arith) h
        (k contest_id challenge_id (ground arith))

  append_new-IsAnnounced :
      (db : SubmissionTables) (ids : FreshIds) (command : AppendSubmissionCommand)
      (db' : SubmissionTables) (r : StoredSubmission)
      → IsAnnounced db
      → append_new m db ids command ≡ ok (db', r)
      → IsAnnounced db'
  append_new-IsAnnounced db ids command db' r k h =
      let s = append_new-IsStored m db ids command db' r h in
      let stored = insert_submission-ok db s.row s.inserted s.insertion in
      let solved : IsAnnounced s.solved =
        credit-IsAnnounced ids.solve s.row s.admission (is_correct s.row.result) s.inserted s.solved
          (subst IsAnnounced (sym stored.0) k) s.crediting in
      subst IsAnnounced (sym s.tables) (elim (Bool-cases (is_official s.row.mode)) [
        | inl here ↦ rw here solved
        | inr gone ↦ rw gone solved
      ])

module _ (m : FloatMath) (db : SubmissionTables) (command : AppendSubmissionCommand)
    (db' : SubmissionTables) (r : StoredSubmission) where
  append_from-IsAnnounced :
      (ids : FreshIds) (o : Option SubmissionRow)
      → IsAnnounced db
      → append_from m db ids command o ≡ ok (db', r)
      → IsAnnounced db'
  append_from-IsAnnounced ids (some existing) k h =
      subst IsAnnounced (sym (repeated-IsRepeated m db command db' r existing h).unchanged) k
  append_from-IsAnnounced ids none k h =
      elim (recover-cases m db command db' r (append_new m db ids command) h) [
        | inl stored ↦ append_new-IsAnnounced m db ids command db' r k stored
        | inr (existing, found, kept) ↦ subst IsAnnounced (sym kept.unchanged) k
      ]

-- A successful append keeps this, whatever earlier tables its first read saw: an event of a
-- challenge's first solve stands in the contests only where the challenge has an official solve.
pub append-IsAnnounced :
    (m : FloatMath) (before db : SubmissionTables) (ids : FreshIds)
    (command : AppendSubmissionCommand) (db' : SubmissionTables) (r : StoredSubmission)
    → IsAnnounced db
    → append m before db ids command ≡ ok (db', r)
    → IsAnnounced db'
unfolding append
append-IsAnnounced m before db ids command db' r k h =
    append_from-IsAnnounced m db command db' r ids (read_by_request_id before command.request_id) k
      h
