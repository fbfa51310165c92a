-- ===== src/Submissions/Store/Appends.antt =====
-- Properties of `append` (apps/web/server/infrastructure/db/submission-repository.ts).
use sauryctf.Prelude.{
  ℕ, String, Bool, true, false, Option, none, some, ◌≡◌, refl, sym, ap, ◌∙◌, Bool-cases, inl, inr,
  ◌⊎◌, arith,
}
use mathlib.Core.Path.{subst}
use sauryctf.Prelude.Keys.{eqb, eqb_iff, eqb_refl}
use sauryctf.Prelude.Table.{find, find-snoc}
use sauryctf.Prelude.Result.{Result, ok, err}
use sauryctf.Submissions.Scoring.{FloatMath}
use sauryctf.Submissions.Store.Tables.{
  SubmissionRow, SubmissionAdmission, SubmissionTables, AppendSubmissionCommand,
  VerifiedSubmissionResult, verified_correct, verified_incorrect, StoredSubmission, StoreError,
}
use sauryctf.Submissions.Store.Append.{
  submission_record, submission_row, same_result, stored_result, same_request, read_by_request_id,
  append_new, repeated, reread, is_request_id_conflict, recover, append_from, append, FreshIds,
}
use sauryctf.Submissions.Store.Laws.Steps.{IsStored, append_new-IsStored}
use sauryctf.Submissions.Store.Laws.Consistent.{IsConsistent, append_new-IsConsistent}
use sauryctf.Submissions.Store.Laws.Admitted.{IsAllowed, admit-IsAllowed}
use sauryctf.Submissions.Store.Laws.Stored.{stored-submissions}

-- The answer is that of a submission which has the request already, and nothing changes.
pub record IsRepeated (db : SubmissionTables) (command : AppendSubmissionCommand)
    (existing : SubmissionRow) (db' : SubmissionTables) (r : StoredSubmission) : Type 0 where
  pub matches : same_request existing command ≡ true
  pub unchanged : db' ≡ db
  pub answer : r ≡ submission_record existing

module _ (m : FloatMath) (db : SubmissionTables) (command : AppendSubmissionCommand)
    (db' : SubmissionTables) (r : StoredSubmission) where
  pub repeated-IsRepeated :
      (existing : SubmissionRow)
      → repeated m db command existing ≡ ok (db', r)
      → IsRepeated db command existing db' r
  unfolding repeated
  repeated-IsRepeated existing h = record {
    matches = ground arith;
    unchanged = ground arith;
    answer = ground arith;
  }

  reread-IsRepeated :
      (o : Option SubmissionRow)
      → reread m db command o ≡ ok (db', r)
      → (existing : SubmissionRow) × (o ≡ some existing) × IsRepeated db command existing db' r
  unfolding reread
  reread-IsRepeated none h = cc
  reread-IsRepeated (some existing) h = (existing, refl, repeated-IsRepeated existing h)

  pub recover-cases :
      (answer : Result StoreError (SubmissionTables × StoredSubmission))
      → recover m db command answer ≡ ok (db', r)
      → (answer ≡ ok (db', r))
        ⊎ ((existing : SubmissionRow) × (read_by_request_id db command.request_id ≡ some existing)
            × IsRepeated db command existing db' r)
  unfolding recover
  recover-cases (ok answer) h = inl h
  recover-cases (err e) h = elim (Bool-cases (is_request_id_conflict e)) [
    | inl conflict ↦
        inr (reread-IsRepeated (read_by_request_id db command.request_id) (rw conflict at h))
    | inr other ↦ absurd (ground arith)
  ]

  append_from-IsConsistent :
      (ids : FreshIds) (o : Option SubmissionRow)
      → IsConsistent db
      → append_from m db ids command o ≡ ok (db', r)
      → IsConsistent db'
  append_from-IsConsistent ids (some existing) c h =
      subst IsConsistent (sym (repeated-IsRepeated existing h).unchanged) c
  append_from-IsConsistent ids none c h = elim (recover-cases (append_new m db ids command) h) [
    | inl stored ↦ append_new-IsConsistent m db ids command db' r c stored
    | inr (existing, found, k) ↦ subst IsConsistent (sym k.unchanged) c
  ]

-- The store has a submission for a request, and this is its record.
record IsKnown (db : SubmissionTables) (command : AppendSubmissionCommand) (r : StoredSubmission)
    : Type 0 where
  pub existing : SubmissionRow
  pub found : read_by_request_id db command.request_id ≡ some existing
  pub matches : same_request existing command ≡ true
  pub answer : r ≡ submission_record existing

stored_result-same_result :
    (result : VerifiedSubmissionResult) (solved : Bool)
    → same_result (stored_result result solved) result ≡ true
stored_result-same_result verified_correct true = refl
stored_result-same_result verified_correct false = refl
stored_result-same_result verified_incorrect solved = refl

-- A stored row answers its own request.
pub submission_row-same_request :
    (db : SubmissionTables) (id : String) (a : SubmissionAdmission)
    (command : AppendSubmissionCommand) (solved : Bool)
    → IsAllowed db command.admission a
    → same_request (submission_row id a command solved) command ≡ true
unfolding same_request
submission_row-same_request db id a command solved allowed = ground (
  arith,
  allowed.contest_id_is,
  allowed.challenge_id_is,
  eqb_iff a.contest_id command.admission.contest_id,
  eqb_iff a.challenge_id command.admission.challenge_id,
  eqb_refl command.admission.user_id,
  eqb_refl command.answer_digest,
  stored_result-same_result command.result solved,
)

module _ (m : FloatMath) (db : SubmissionTables) (ids : FreshIds)
    (command : AppendSubmissionCommand) (db' : SubmissionTables) (r : StoredSubmission) where
  stored-IsKnown :
      read_by_request_id db command.request_id ≡ none
      → IsStored m db ids command db' r
      → IsKnown db' command r
  unfolding same_request
  stored-IsKnown gone s =
      let allowed = admit-IsAllowed db command.admission s.admission s.admitted in
      let requested : s.row.request_id ≡ command.request_id =
        ap (λ (t : SubmissionRow). t.request_id) s.row_is in
      record {
        existing = s.row;
        found =
            ap (find (λ (t : SubmissionRow). eqb t.request_id command.request_id))
              (stored-submissions m db ids command db' r s)
            ∙ find-snoc (λ (t : SubmissionRow). eqb t.request_id command.request_id) db.submissions
                s.row gone
                (ap (λ k. eqb k command.request_id) requested ∙ eqb_refl command.request_id);
        matches =
            ap (λ t. same_request t command) s.row_is
            ∙ submission_row-same_request db ids.submission s.admission command _ allowed;
        answer = s.answer;
      }

  repeated-IsKnown :
      (existing : SubmissionRow)
      → read_by_request_id db command.request_id ≡ some existing
      → IsRepeated db command existing db' r
      → IsKnown db' command r
  repeated-IsKnown existing found k =
      subst (λ (t : SubmissionTables). IsKnown t command r) (sym k.unchanged)
        (record { existing = existing; found = found; matches = k.matches; answer = k.answer })

  append_from-IsKnown :
      (o : Option SubmissionRow)
      → read_by_request_id db command.request_id ≡ o
      → append_from m db ids command o ≡ ok (db', r)
      → IsKnown db' command r
  append_from-IsKnown (some existing) e h =
      repeated-IsKnown existing e (repeated-IsRepeated m db command db' r existing h)
  append_from-IsKnown none e h =
      elim (recover-cases m db command db' r (append_new m db ids command) h) [
        | inl stored ↦ stored-IsKnown e (append_new-IsStored m db ids command db' r stored)
        | inr (existing, found, k) ↦ repeated-IsKnown existing found k
      ]

-- The submission that the earlier tables have for a request is the later ones' too.
abbrev pub IsRequestKept : String → SubmissionTables → SubmissionTables → Type 0
IsRequestKept request_id earlier later =
    (existing : SubmissionRow)
    → read_by_request_id earlier request_id ≡ some existing
    → read_by_request_id later request_id ≡ some existing

-- The same request, sent again at another time with another ciphertext.
abbrev pub retried : ℕ → String → AppendSubmissionCommand → AppendSubmissionCommand
retried at_time ciphertext command = record command {
  admission = record command.admission { at_time = at_time };
  answer_ciphertext = ciphertext;
}

known-repeated :
    (m : FloatMath) (before later : SubmissionTables) (ids : FreshIds)
    (command : AppendSubmissionCommand) (r : StoredSubmission) (t : ℕ) (ciphertext : String)
    → IsKnown before command r
    → append m before later ids (retried t ciphertext command) ≡ ok (later, r)
unfolding append repeated same_request
known-repeated m before later ids command r t ciphertext k =
    rw k.found (let matches = k.matches in let answer = k.answer in ground arith)

-- A successful append keeps the store consistent, whatever earlier tables its first read saw: each
-- solve's order counts the solves of its challenge and mode before it, no participation has two
-- solves of a challenge in a mode, the solves belong to the correct submissions in their order,
-- identifiers and requests stand once, and each contest's scoreboard version counts its official
-- solves and its adjustments.
pub append-IsConsistent :
    (m : FloatMath) (before db : SubmissionTables) (ids : FreshIds)
    (command : AppendSubmissionCommand) (db' : SubmissionTables) (r : StoredSubmission)
    → IsConsistent db
    → append m before db ids command ≡ ok (db', r)
    → IsConsistent db'
unfolding append
append-IsConsistent m before db ids command db' r c h =
    append_from-IsConsistent m db command db' r ids (read_by_request_id before command.request_id) c
      h

IsKnown-kept :
    (db before : SubmissionTables) (command : AppendSubmissionCommand) (r : StoredSubmission)
    → IsRequestKept command.request_id db before
    → IsKnown db command r
    → IsKnown before command r
IsKnown-kept db before command r kept k = record {
  existing = k.existing;
  found = kept k.existing k.found;
  matches = k.matches;
  answer = k.answer;
}

-- A request that was answered is answered the same again, and changes nothing: the retry may come at
-- another time with another ciphertext, after anything else happened to the tables that kept the
-- submission of the request, such as the end of the contest or the spending of the limit.
pub append-retried :
    (m : FloatMath) (db before later : SubmissionTables) (ids ids' : FreshIds)
    (command : AppendSubmissionCommand) (db' : SubmissionTables) (r : StoredSubmission) (t : ℕ)
    (ciphertext : String)
    → append m db db ids command ≡ ok (db', r)
    → IsRequestKept command.request_id db' before
    → append m before later ids' (retried t ciphertext command) ≡ ok (later, r)
unfolding append
append-retried m db before later ids ids' command db' r t ciphertext h kept =
    known-repeated m before later ids' command r t ciphertext (
      IsKnown-kept db' before command r kept (
        append_from-IsKnown m db ids command db' r (read_by_request_id db command.request_id) refl
          h))
