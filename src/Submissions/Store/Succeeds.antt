-- ===== src/Submissions/Store/Succeeds.antt =====
-- When `append` succeeds (apps/web/server/infrastructure/db/submission-repository.ts).
use sauryctf.Prelude.{
  leb, ℕ, suc, ◌≤◌, String, Bool, true, false, none, List, [], ◌∷◌, ◌++◌, map, any, filter, count,
  ◌≡◌, refl, sym, ap, ◌∙◌, Bool-cases, inl, inr, arith,
}
use sauryctf.Prelude.Int.{ℤ, max_safe_integer}
use sauryctf.Prelude.Keys.{eqb, eqb_iff, string_key}
use sauryctf.Prelude.Dict.{contains}
use sauryctf.Prelude.Result.{ok}
use sauryctf.Submissions.Replay.Facts.{SubmissionMode, is_correct}
use sauryctf.Submissions.Scoring.{FloatMath, is_scoring_policy}
use sauryctf.Submissions.Store.Tables.{
  SubmissionRow, SolveRow, SubmissionTables, SubmissionAdmission, AppendSubmissionCommand,
  VerifiedSubmissionResult, verified_correct, verified_incorrect, first_solve_key,
}
use sauryctf.Submissions.Store.Admission.{admit}
use sauryctf.Submissions.Store.Append.{
  max_integer, read_by_request_id, has_solve, stored_result, submission_row, in_group, insert_solve,
  solve_row, next_order, version_in, create_solve, credit, with_clues, append_new, recover, append,
  append_from, submission_record, FreshIds,
}
use sauryctf.Submissions.Store.Laws.Publishing.{
  Succeeds, is_event_of, IsAnnounced, insert_submission-Succeeds, score_awarded-Succeeds,
  publish_solve-Succeeds,
}
use sauryctf.Submissions.Store.Laws.Orders.{any-order_free}
use sauryctf.Prelude.Table.{any-of_none}
use sauryctf.Submissions.Store.Laws.Consistent.{
  IsConsistent, is_correct_row, with_submission, any-contains,
}
use sauryctf.Submissions.Store.Laws.Admitted.{admit-IsAllowed}

module _ (db : SubmissionTables) (c : IsConsistent db) where
  contains_of_correct :
      (k : String) (xs : List SubmissionRow)
      → any (λ (s : SubmissionRow). eqb s.id k) xs ≡ false
      → contains (map (λ (s : SubmissionRow). s.id) (filter is_correct_row xs)) k ≡ false
  contains_of_correct k [] h = refl
  contains_of_correct k (x ∷ xs) h = elim (Bool-cases (is_correct_row x)) [
    | inl right ↦ ground (arith, contains_of_correct k xs, h, right, eqb_iff x.id k, eqb_iff k x.id)
    | inr wrong ↦ ground (arith, contains_of_correct k xs, h, wrong)
  ]

  -- No solve is of a submission that is not there.
  uncredited :
      (k : String)
      → any (λ (s : SubmissionRow). eqb s.id k) db.submissions ≡ false
      → any (λ (s : SolveRow). eqb s.submission_id k) db.solves ≡ false
  uncredited k h =
      any-contains (λ (s : SolveRow). s.submission_id) k db.solves
      ∙ ap (λ ids. contains ids k) c.credited
      ∙ contains_of_correct k db.submissions h

  insert_solve-Succeeds :
      (t : SubmissionTables) (row : SolveRow)
      → t.solves ≡ db.solves
      → any (λ (s : SolveRow). eqb s.id row.id) db.solves ≡ false
      → any (λ (s : SubmissionRow). eqb s.id row.submission_id) db.submissions ≡ false
      → has_solve db row.participation_id row.contest_challenge_id row.mode ≡ false
      → row.solve_order ≡ next_order db row.contest_challenge_id row.mode
      → insert_solve t row ≡ ok (record t { solves = t.solves ++ row ∷ [] })
  unfolding insert_solve has_solve
  insert_solve-Succeeds t row same id_free submission_free unsolved order =
      let uncredited_row = uncredited row.submission_id submission_free in
      let unordered =
        any-order_free row.contest_challenge_id row.mode row.solve_order [] db.solves c.counted
          (omega (arith, order)) in
      rw (same, id_free, uncredited_row, unsolved, unordered) refl

  module _ (m : FloatMath) (id : String) (row : SubmissionRow) (a : SubmissionAdmission)
      (announced : IsAnnounced db) (id_free : any (λ (s : SolveRow). eqb s.id id) db.solves ≡ false)
      (submission_free : any (λ (s : SubmissionRow). eqb s.id row.id) db.submissions ≡ false)
      (valid : is_scoring_policy a.scoring_policy ≡ true)
      (order_small : next_order db row.contest_challenge_id row.mode ≤ max_integer)
      (version_small : suc (version_in row.contest_id db.versions) ≤ max_safe_integer) where
    abbrev order_of_row : ℕ
    order_of_row = next_order db row.contest_challenge_id row.mode

    abbrev solved_tables : ℤ → SubmissionTables
    solved_tables score = record (with_submission db row) {
      solves = db.solves ++ solve_row id row order_of_row score ∷ [];
    }

    first_unannounced :
        row.mode ≡ SubmissionMode.official
        → order_of_row ≡ 1
        → any
            (is_event_of row.contest_id (first_solve_key row.contest_challenge_id))
            db.contest_events
          ≡ false
    first_unannounced mode first = announced row.contest_id row.contest_challenge_id (
        ap (λ z. count (in_group row.contest_challenge_id z) db.solves) (sym mode)
        ∙ omega (arith, first))

    create_solve-Succeeds :
        has_solve db row.participation_id row.contest_challenge_id row.mode ≡ false
        → Succeeds (create_solve m (with_submission db row) id row a)
    unfolding create_solve
    create_solve-Succeeds unsolved =
        let small : leb order_of_row max_integer ≡ true = ground arith in
        let (score, e) =
          score_awarded-Succeeds m a.scoring_policy row.mode order_of_row valid
            (omega (arith, order_small)) in
        let stored =
          insert_solve-Succeeds (with_submission db row) (solve_row id row order_of_row score) refl
            id_free submission_free unsolved refl in
        let (t, published) =
          publish_solve-Succeeds (solved_tables score) row a order_of_row row.mode version_small
            first_unannounced in
        (t, rw (small, e, stored) published)

    credit-Succeeds :
        (is_correct row.result ≡ true
          → has_solve db row.participation_id row.contest_challenge_id row.mode ≡ false)
        → Succeeds (credit m (with_submission db row) id row a (is_correct row.result))
    unfolding credit
    credit-Succeeds h = elim (Bool-cases (is_correct row.result)) [
      | inl right ↦ let (t, e) = create_solve-Succeeds (h right) in (t, rw right e)
      | inr wrong ↦ (with_submission db row, rw wrong refl)
    ]

is_correct-unsolved :
    (result : VerifiedSubmissionResult) (solved : Bool)
    → is_correct (stored_result result solved) ≡ true
    → solved ≡ false
is_correct-unsolved verified_correct true h = cc
is_correct-unsolved verified_correct false h = refl
is_correct-unsolved verified_incorrect solved h = cc

append_from_new :
    (m : FloatMath) (db : SubmissionTables) (ids : FreshIds) (command : AppendSubmissionCommand)
    → Succeeds (append_new m db ids command)
    → Succeeds (append_from m db ids command none)
unfolding recover
append_from_new m db ids command (r, e) = (r, rw e refl)

module _ (m : FloatMath) (db : SubmissionTables) (ids : FreshIds)
    (command : AppendSubmissionCommand) (a : SubmissionAdmission) where
  append_new-Succeeds :
      IsConsistent db
      → IsAnnounced db
      → any (λ (s : SubmissionRow). eqb s.id ids.submission) db.submissions ≡ false
      → any (λ (s : SolveRow). eqb s.id ids.solve) db.solves ≡ false
      → any (λ (s : SubmissionRow). eqb s.request_id command.request_id) db.submissions ≡ false
      → admit db command.admission ≡ ok a
      → next_order db a.challenge_id a.mode ≤ max_integer
      → suc (version_in a.contest_id db.versions) ≤ max_safe_integer
      → Succeeds (append_new m db ids command)
  unfolding append_new
  append_new-Succeeds c announced id_free solve_free request_free admitted order version =
      let solved = has_solve db a.participation_id a.challenge_id a.mode in
      let row = submission_row ids.submission a command solved in
      let allowed = admit-IsAllowed db command.admission a admitted in
      let inserted = insert_submission-Succeeds db row id_free request_free in
      let (t, e) =
        credit-Succeeds db c m ids.solve row a announced solve_free id_free
          allowed.scoring_policy_valid order version (is_correct-unsolved command.result solved) in
      ((with_clues m t ids row a, submission_record row), rw (admitted, inserted, e) refl)

  -- A request that is new and admitted is answered, and fails on no unique index: where the store is
  -- consistent, an event of a challenge's first solve stands only beside an official solve of it, the
  -- new identifiers are not in use, the next order of the challenge is at most 2^31 - 1, and the next
  -- version of the contest is a safe integer.
  pub append-Succeeds :
      IsConsistent db
      → IsAnnounced db
      → any (λ (s : SubmissionRow). eqb s.id ids.submission) db.submissions ≡ false
      → any (λ (s : SolveRow). eqb s.id ids.solve) db.solves ≡ false
      → read_by_request_id db command.request_id ≡ none
      → admit db command.admission ≡ ok a
      → next_order db a.challenge_id a.mode ≤ max_integer
      → suc (version_in a.contest_id db.versions) ≤ max_safe_integer
      → Succeeds (append m db db ids command)
  unfolding append
  append-Succeeds c announced id_free solve_free gone admitted order version = rw gone (
      append_from_new m db ids command (
        append_new-Succeeds c announced id_free solve_free
          (any-of_none (λ (s : SubmissionRow). eqb s.request_id command.request_id) db.submissions
            gone)
          admitted order version))
