-- ===== src/Submissions/Store/Laws/Consistent.antt =====
-- The invariant of the submission store and the operations that preserve it
-- (apps/web/server/infrastructure/db/submission-repository.ts).
use sauryctf.Prelude.{
  String, Bool, true, false, List, [], ◌∷◌, ◌++◌, map, any, any-append, filter, filter-snoc_out,
  filter-snoc_in, count, count-append, ◌≡◌, refl, sym, ap, ◌∙◌, Bool-cases, inl, inr, arith,
}
use sauryctf.Prelude.Keys.{eqb, eqb_iff, string_key}
use sauryctf.Prelude.Dict.{contains}
use sauryctf.Prelude.Distinct.{IsDistinct, IsDistinct-snoc}
use sauryctf.Prelude.Result.{ok}
use sauryctf.Submissions.Replay.Facts.{SubmissionMode, is_official, is_correct}
use sauryctf.Submissions.Scoring.{FloatMath}
use sauryctf.Submissions.Store.Tables.{
  SubmissionRow, SolveRow, ScoreAdjustmentRow, SubmissionTables, SubmissionAdmission,
  AppendSubmissionCommand, StoredSubmission, same_mode,
}
use sauryctf.Submissions.Store.Append.{
  insert_submission, solve_row, next_order, version_in, is_solve_of, credit, with_clues, append_new,
  FreshIds,
}
use sauryctf.Submissions.Store.Laws.Orders.{IsCounted, IsCounted-snoc}
use sauryctf.Submissions.Store.Laws.Versions.{
  version_in-after, is_official_in, is_adjustment_in, fact_count,
}
use sauryctf.Submissions.Store.Laws.Steps.{IsCredited, create_solve-IsCredited, append_new-IsStored}
use mathlib.Core.Path.{subst}
use mathlib.Core.List.{map-append}

abbrev pub is_correct_row : SubmissionRow → Bool
is_correct_row s = is_correct s.result

-- No participation has two solves of a challenge in a mode.
abbrev pub IsSolvedOnce : List SolveRow → Type 0
IsSolvedOnce [] = Unit
IsSolvedOnce (s ∷ ss) =
    (any (is_solve_of s.participation_id s.contest_challenge_id s.mode) ss ≡ false)
    × IsSolvedOnce ss

-- The solves are the correct submissions in their order, counted in their groups; a contest's
-- version counts its official solves and its adjustments; no identifier stands twice.
pub record IsConsistent (db : SubmissionTables) : Type 0 where
  pub counted : IsCounted [] db.solves
  pub solved_once : IsSolvedOnce db.solves
  pub credited :
      map (λ (s : SolveRow). s.submission_id) db.solves
      ≡ map (λ (s : SubmissionRow). s.id) (filter is_correct_row db.submissions)
  pub submission_ids : IsDistinct (map (λ (s : SubmissionRow). s.id) db.submissions)
  pub request_ids : IsDistinct (map (λ (s : SubmissionRow). s.request_id) db.submissions)
  pub adjustment_ids : IsDistinct (map (λ (a : ScoreAdjustmentRow). a.id) db.adjustments)
  pub adjustment_request_ids :
      IsDistinct (map (λ (a : ScoreAdjustmentRow). a.request_id) db.adjustments)
  pub versioned :
      (contest_id : String) → version_in contest_id db.versions ≡ fact_count db contest_id

same_mode-sym : (a b : SubmissionMode) → same_mode a b ≡ same_mode b a
same_mode-sym SubmissionMode.official SubmissionMode.official = refl
same_mode-sym SubmissionMode.practice SubmissionMode.practice = refl
same_mode-sym SubmissionMode.official SubmissionMode.practice = refl
same_mode-sym SubmissionMode.practice SubmissionMode.official = refl

IsSolvedOnce-snoc :
    (xs : List SolveRow) (s : SolveRow)
    → IsSolvedOnce xs
    → any (is_solve_of s.participation_id s.contest_challenge_id s.mode) xs ≡ false
    → IsSolvedOnce (xs ++ s ∷ [])
IsSolvedOnce-snoc [] s d h = (refl, tt)
IsSolvedOnce-snoc (x ∷ xs) s d h = (
  ground (
    arith,
    d.0,
    any-append (is_solve_of x.participation_id x.contest_challenge_id x.mode) xs (s ∷ []),
    same_mode-sym s.mode x.mode,
    eqb_iff s.participation_id x.participation_id,
    eqb_iff x.participation_id s.participation_id,
    eqb_iff s.contest_challenge_id x.contest_challenge_id,
    eqb_iff x.contest_challenge_id s.contest_challenge_id,
  ),
  IsSolvedOnce-snoc xs s d.1 (ground arith),
)

-- The tables with one more submission.
abbrev pub with_submission : SubmissionTables → SubmissionRow → SubmissionTables
with_submission db row = record db { submissions = db.submissions ++ row ∷ [] }

pub insert_submission-ok :
    (db : SubmissionTables) (row : SubmissionRow) (db' : SubmissionTables)
    → insert_submission db row ≡ ok db'
    → (db' ≡ with_submission db row)
      × (any (λ (s : SubmissionRow). eqb s.id row.id) db.submissions ≡ false)
      × (any (λ (s : SubmissionRow). eqb s.request_id row.request_id) db.submissions ≡ false)
unfolding insert_submission
insert_submission-ok db row db' h = (ground arith, ground arith, ground arith)

module _ {A : Type 0} (key : A → String) where
  pub any-contains :
      (k : String) (xs : List A) → any (λ x. eqb (key x) k) xs ≡ contains (map key xs) k
  any-contains k [] = refl
  any-contains k (x ∷ xs) = ground (arith, any-contains k xs, eqb_iff (key x) k, eqb_iff k (key x))

  pub IsDistinct-insert :
      (xs : List A) (x : A)
      → IsDistinct (map key xs)
      → any (λ y. eqb (key y) (key x)) xs ≡ false
      → IsDistinct (map key (xs ++ x ∷ []))
  IsDistinct-insert xs x d h =
      subst (λ ks. IsDistinct ks) (sym (map-append key xs (x ∷ [])))
        (IsDistinct-snoc (key x) (map key xs) d (sym (any-contains (key x) xs) ∙ h))

module _ (db : SubmissionTables) (c : IsConsistent db) (row : SubmissionRow)
    (id_free : any (λ (s : SubmissionRow). eqb s.id row.id) db.submissions ≡ false)
    (request_free : any (λ (s : SubmissionRow). eqb s.request_id row.request_id) db.submissions
      ≡ false) where
  with_submission-IsConsistent : is_correct_row row ≡ false → IsConsistent (with_submission db row)
  with_submission-IsConsistent h = record {
    counted = c.counted;
    solved_once = c.solved_once;
    credited =
        c.credited
        ∙ ap (map (λ (s : SubmissionRow). s.id))
            (sym (filter-snoc_out is_correct_row db.submissions row h));
    submission_ids = IsDistinct-insert (λ s. s.id) db.submissions row c.submission_ids id_free;
    request_ids =
        IsDistinct-insert (λ s. s.request_id) db.submissions row c.request_ids request_free;
    adjustment_ids = c.adjustment_ids;
    adjustment_request_ids = c.adjustment_request_ids;
    versioned = c.versioned;
  }

  module _ (h : is_correct_row row ≡ true) (id : String) (db' : SubmissionTables)
      (k : IsCredited (with_submission db row) id row db') where
    abbrev new_solve : SolveRow
    new_solve = solve_row id row (next_order db row.contest_challenge_id row.mode) k.score

    credited-versioned :
        (contest_id : String) → version_in contest_id db'.versions ≡ fact_count db' contest_id
    credited-versioned contest_id = ground (
      arith,
      ap (version_in contest_id) k.versions,
      version_in-after (with_submission db row) row.contest_id contest_id row.mode,
      c.versioned contest_id,
      ap (count (is_official_in contest_id)) k.solves,
      count-append (is_official_in contest_id) db.solves (new_solve ∷ []),
      ap (count (is_adjustment_in contest_id)) k.adjustments,
    )

    credited-IsConsistent : IsConsistent db'
    credited-IsConsistent = record {
      counted =
          subst (IsCounted []) (sym k.solves)
            (IsCounted-snoc [] db.solves new_solve c.counted refl);
      solved_once =
          subst IsSolvedOnce (sym k.solves)
            (IsSolvedOnce-snoc db.solves new_solve c.solved_once k.unsolved);
      credited =
          ap (map (λ (s : SolveRow). s.submission_id)) k.solves
          ∙ map-append (λ (s : SolveRow). s.submission_id) db.solves (new_solve ∷ [])
          ∙ ap (λ ids. ids ++ row.id ∷ []) c.credited
          ∙ sym (
              map-append (λ (s : SubmissionRow). s.id) (filter is_correct_row db.submissions)
                (row ∷ []))
          ∙ ap (map (λ (s : SubmissionRow). s.id))
              (sym (filter-snoc_in is_correct_row db.submissions row h))
          ∙ ap
              (λ (l : List SubmissionRow).
                map (λ (s : SubmissionRow). s.id) (filter is_correct_row l))
              (sym k.submissions);
      submission_ids =
          subst (λ (l : List SubmissionRow). IsDistinct (map (λ (s : SubmissionRow). s.id) l))
            (sym k.submissions)
            (IsDistinct-insert (λ s. s.id) db.submissions row c.submission_ids id_free);
      request_ids =
          subst
            (λ (l : List SubmissionRow). IsDistinct (map (λ (s : SubmissionRow). s.request_id) l))
            (sym k.submissions)
            (IsDistinct-insert (λ s. s.request_id) db.submissions row c.request_ids request_free);
      adjustment_ids =
          subst
            (λ (l : List ScoreAdjustmentRow). IsDistinct (map (λ (a : ScoreAdjustmentRow). a.id) l))
            (sym k.adjustments) c.adjustment_ids;
      adjustment_request_ids =
          subst
            (λ (l : List ScoreAdjustmentRow).
              IsDistinct (map (λ (a : ScoreAdjustmentRow). a.request_id) l))
            (sym k.adjustments) c.adjustment_request_ids;
      versioned = credited-versioned;
    }

with_clues-IsConsistent :
    (m : FloatMath) (db : SubmissionTables) (ids : FreshIds) (submission : SubmissionRow)
    (admission : SubmissionAdmission)
    → IsConsistent db
    → IsConsistent (with_clues m db ids submission admission)
with_clues-IsConsistent m db ids submission admission c =
    elim (Bool-cases (is_official submission.mode)) [
      | inl here ↦ rw here (record {
        counted = c.counted;
        solved_once = c.solved_once;
        credited = c.credited;
        submission_ids = c.submission_ids;
        request_ids = c.request_ids;
        adjustment_ids = c.adjustment_ids;
        adjustment_request_ids = c.adjustment_request_ids;
        versioned = c.versioned;
      })
      | inr gone ↦ rw gone c
    ]

module _ (m : FloatMath) where
  credit-IsConsistent :
      (db : SubmissionTables) (id : String) (row : SubmissionRow) (admission : SubmissionAdmission)
      (inserted solved : SubmissionTables)
      → IsConsistent db
      → insert_submission db row ≡ ok inserted
      → credit m inserted id row admission (is_correct row.result) ≡ ok solved
      → IsConsistent solved
  unfolding credit
  credit-IsConsistent db id row admission inserted solved c h k =
      let (e, id_free, request_free) = insert_submission-ok db row inserted h in
      elim (Bool-cases (is_correct row.result)) [
        | inl right ↦ credited-IsConsistent db c row id_free request_free right id solved (
            subst (λ (t : SubmissionTables). IsCredited t id row solved) e
              (create_solve-IsCredited m inserted id row admission solved (ground arith)))
        | inr wrong ↦
            let same : inserted ≡ solved = ground arith in
            subst IsConsistent (sym e ∙ same)
              (with_submission-IsConsistent db c row id_free request_free wrong)
      ]

  pub append_new-IsConsistent :
      (db : SubmissionTables) (ids : FreshIds) (command : AppendSubmissionCommand)
      (db' : SubmissionTables) (r : StoredSubmission)
      → IsConsistent db
      → append_new m db ids command ≡ ok (db', r)
      → IsConsistent db'
  append_new-IsConsistent db ids command db' r c h =
      let s = append_new-IsStored m db ids command db' r h in
      subst IsConsistent (sym s.tables) (
        with_clues-IsConsistent m s.solved ids s.row s.admission (
          credit-IsConsistent db ids.solve s.row s.admission s.inserted s.solved c s.insertion
            s.crediting))
