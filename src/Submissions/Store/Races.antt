-- ===== src/Submissions/Store/Races.antt =====
-- Appends that race with others, and the limit of attempts
-- (apps/web/server/infrastructure/db/submission-repository.ts).
use sauryctf.Prelude.{
  any, false, ℕ, suc, ◌≤◌, Bool, ◌&&◌, Option, none, some, List, [], ◌∷◌, ◌++◌, count, count-append,
  ◌≡◌, refl, sym, ap, ◌∙◌, inl, inr, arith,
}
use mathlib.Core.Path.{subst}
use sauryctf.Prelude.Keys.{eqb}
use sauryctf.Prelude.Table.{find, any-of_find}
use sauryctf.Prelude.Result.{ok, err}
use sauryctf.Submissions.Scoring.{FloatMath}
use sauryctf.Submissions.Store.Tables.{
  StoreError, SubmissionAdmission, UniqueIndex, unique_violation, SubmissionRow, ChallengeRow,
  SubmissionTables, AppendSubmissionCommand, StoredSubmission,
}
use sauryctf.Submissions.Store.Admission.{is_attempt, admit}
use sauryctf.Submissions.Store.Append.{
  insert_submission, recover, reread, read_by_request_id, submission_record, append_new,
  append_from, append, FreshIds,
}
use sauryctf.Submissions.Store.Laws.Steps.{append_new-IsStored}
use sauryctf.Submissions.Store.Laws.Stored.{stored-submissions}
use sauryctf.Submissions.Store.Laws.Admitted.{admit-IsAllowed}
use sauryctf.Submissions.Store.Appends.{IsRequestKept, recover-cases}
use sauryctf.Submissions.Store.Laws.Refusals.{admit-NeverConflicts}

module _ (m : FloatMath) (db : SubmissionTables) (ids : FreshIds)
    (command : AppendSubmissionCommand) (a : SubmissionAdmission) where
  -- The insertion of a request that is there conflicts.
  append_new-conflict :
      (existing : SubmissionRow)
      → admit db command.admission ≡ ok a
      → any (λ (s : SubmissionRow). eqb s.id ids.submission) db.submissions ≡ false
      → read_by_request_id db command.request_id ≡ some existing
      → append_new m db ids command
        ≡ err (unique_violation UniqueIndex.submissions_request_id_unique)
  unfolding append_new insert_submission
  append_new-conflict existing admitted free found =
      let taken =
        any-of_find (λ (s : SubmissionRow). eqb s.request_id command.request_id) db.submissions
          existing found in
      rw (admitted, free, taken) refl

  -- A conflict that is found late is answered as one that is found early.
  append_from-late :
      (o : Option SubmissionRow)
      → admit db command.admission ≡ ok a
      → any (λ (s : SubmissionRow). eqb s.id ids.submission) db.submissions ≡ false
      → read_by_request_id db command.request_id ≡ o
      → append_from m db ids command none ≡ append_from m db ids command o
  unfolding recover reread
  append_from-late none admitted free e = refl
  append_from-late (some existing) admitted free e =
      rw (append_new-conflict existing admitted free e, e) refl

  append_from-race :
      (o : Option SubmissionRow)
      → admit db command.admission ≡ ok a
      → any (λ (s : SubmissionRow). eqb s.id ids.submission) db.submissions ≡ false
      → ((existing : SubmissionRow)
          → o ≡ some existing
          → read_by_request_id db command.request_id ≡ some existing)
      → append_from m db ids command o
        ≡ append_from m db ids command (read_by_request_id db command.request_id)
  append_from-race none admitted free kept =
      append_from-late (read_by_request_id db command.request_id) admitted free refl
  append_from-race (some existing) admitted free kept = rw (kept existing refl) refl

-- An append whose first read saw earlier tables than its other statements does exactly what an
-- append does that sees the later tables from the start, in its answer, its tables or its error:
-- where the later tables still have the submission of the request that the earlier ones have, they
-- admit the command, and the new identifier is not in use. Where two appends of one request race,
-- the second one is then answered as a repetition of the first.
pub append-race :
    (m : FloatMath) (before db : SubmissionTables) (ids : FreshIds)
    (command : AppendSubmissionCommand) (a : SubmissionAdmission)
    → IsRequestKept command.request_id before db
    → admit db command.admission ≡ ok a
    → any (λ (s : SubmissionRow). eqb s.id ids.submission) db.submissions ≡ false
    → append m before db ids command ≡ append m db db ids command
unfolding append
append-race m before db ids command a kept admitted free =
    append_from-race m db ids command a (read_by_request_id before command.request_id) admitted free
      kept

append_new-refused :
    (m : FloatMath) (db : SubmissionTables) (ids : FreshIds) (command : AppendSubmissionCommand)
    (e : StoreError)
    → admit db command.admission ≡ err e
    → append_from m db ids command none ≡ err e
unfolding append_new recover
append_new-refused m db ids command e refused =
    let other = admit-NeverConflicts db command.admission e refused in rw (refused, other) refl

-- An append whose first read found no submission of its request throws what the current tables refuse
-- the command with, and stores nothing: also where the request was stored in between, as when the
-- first of two racing appends has spent the limit.
pub append-refused :
    (m : FloatMath) (before db : SubmissionTables) (ids : FreshIds)
    (command : AppendSubmissionCommand) (e : StoreError)
    → read_by_request_id before command.request_id ≡ none
    → admit db command.admission ≡ err e
    → append m before db ids command ≡ err e
unfolding append
append-refused m before db ids command e gone refused =
    rw gone (append_new-refused m db ids command e refused)

-- The attempts after a new row are at most one more.
count-snoc_le :
    (p : SubmissionRow → Bool) (xs : List SubmissionRow) (x : SubmissionRow)
    → count p (xs ++ x ∷ []) ≤ suc (count p xs)
count-snoc_le p xs x = ground (arith, count-append p xs (x ∷ []))

append_from-limit :
    (m : FloatMath) (db : SubmissionTables) (ids : FreshIds) (command : AppendSubmissionCommand)
    (db' : SubmissionTables) (r : StoredSubmission) (challenge : ChallengeRow) (limit : ℕ)
    → read_by_request_id db command.request_id ≡ none
    → find
        (λ (c : ChallengeRow).
          eqb c.contest_id command.admission.contest_id && eqb c.id command.admission.challenge_id)
        db.challenges
      ≡ some challenge
    → challenge.submission_limit ≡ some limit
    → append_from m db ids command none ≡ ok (db', r)
    → count (is_attempt r.participation_id r.challenge_id r.mode) db'.submissions ≤ limit
append_from-limit m db ids command db' r challenge limit gone found limited h =
    elim (recover-cases m db command db' r (append_new m db ids command) h) [
      | inl stored ↦
          let s = append_new-IsStored m db ids command db' r stored in
          let allowed = admit-IsAllowed db command.admission s.admission s.admitted in
          let same : allowed.challenge ≡ challenge =
            let e = allowed.open_to.found in ground arith in
          let limit_is : allowed.challenge.submission_limit ≡ some limit =
            ap (λ (c : ChallengeRow). c.submission_limit) same ∙ limited in
          let p =
            is_attempt s.admission.participation_id s.admission.challenge_id s.admission.mode in
          let below : suc (count p db.submissions) ≤ limit =
            let b = allowed.below_limit in ground arith in
          let bound : count p (db.submissions ++ s.row ∷ []) ≤ limit =
            omega (arith, below, count-snoc_le p db.submissions s.row) in
          subst
            (λ (z : StoredSubmission).
              count (is_attempt z.participation_id z.challenge_id z.mode) db'.submissions ≤ limit)
            (sym (s.answer ∙ ap submission_record s.row_is))
            (rw (stored-submissions m db ids command db' r s) bound)
      | inr (existing, found', k) ↦ absurd (ground arith)
    ]

-- A new submission to a challenge with a limit is stored only within it: afterwards the submissions
-- of the participation to the challenge in the mode, the new one included, are at most the limit.
pub append-limit :
    (m : FloatMath) (db : SubmissionTables) (ids : FreshIds) (command : AppendSubmissionCommand)
    (db' : SubmissionTables) (r : StoredSubmission) (challenge : ChallengeRow) (limit : ℕ)
    → read_by_request_id db command.request_id ≡ none
    → find
        (λ (c : ChallengeRow).
          eqb c.contest_id command.admission.contest_id && eqb c.id command.admission.challenge_id)
        db.challenges
      ≡ some challenge
    → challenge.submission_limit ≡ some limit
    → append m db db ids command ≡ ok (db', r)
    → count (is_attempt r.participation_id r.challenge_id r.mode) db'.submissions ≤ limit
unfolding append
append-limit m db ids command db' r challenge limit gone found limited h =
    append_from-limit m db ids command db' r challenge limit gone found limited (rw gone at h)
