-- ===== src/Submissions/Store/Laws/Refusals.antt =====
-- The refusals of an admission
-- (apps/web/server/infrastructure/db/submission-repository.ts).
use sauryctf.Prelude.{String, false, ℕ, Option, none, some, ◌≡◌, ap, arith}
use sauryctf.Prelude.Keys.{eqb}
use sauryctf.Prelude.Table.{find}
use sauryctf.Prelude.Result.{Result, ok, err, ◌>>=◌}
use sauryctf.Submissions.Replay.Facts.{SubmissionMode}
use sauryctf.Submissions.Store.Tables.{
  StoreError, ContestRow, SubmissionAdmissionCommand, SubmissionTables,
}
use sauryctf.Submissions.Store.Admission.{
  admit, submission_mode, membership_team, accepted_participation, available_challenge,
}
use sauryctf.Submissions.Store.Append.{is_request_id_conflict}

-- No error of the call is the conflict of a request.
abbrev pub NeverConflicts : {A : Type 0} → Result StoreError A → Type 0
NeverConflicts r = (e : StoreError) → r ≡ err e → is_request_id_conflict e ≡ false

bind-NeverConflicts :
    {A B : Type 0} (r : Result StoreError A) (f : A → Result StoreError B)
    → NeverConflicts r
    → ((a : A) → NeverConflicts (f a))
    → NeverConflicts (r >>= f)
bind-NeverConflicts (ok a) f h k e eq = k a e eq
bind-NeverConflicts (err d) f h k e eq = let same : d ≡ e = ground arith in h e (ap err same)

submission_mode-NeverConflicts :
    (o : Option ContestRow) (t : ℕ) → NeverConflicts (submission_mode o t)
unfolding submission_mode
submission_mode-NeverConflicts none t e eq = ground arith
submission_mode-NeverConflicts (some contest) t e eq = ground arith

module _ (db : SubmissionTables) where
  membership_team-NeverConflicts : (user_id : String) → NeverConflicts (membership_team db user_id)
  unfolding membership_team
  membership_team-NeverConflicts user_id e eq = ground arith

  accepted_participation-NeverConflicts :
      (contest_id team_id : String) → NeverConflicts (accepted_participation db contest_id team_id)
  unfolding accepted_participation
  accepted_participation-NeverConflicts contest_id team_id e eq = ground arith

  available_challenge-NeverConflicts :
      (command : SubmissionAdmissionCommand) (mode : SubmissionMode)
      → NeverConflicts (available_challenge db command mode)
  unfolding available_challenge
  available_challenge-NeverConflicts command mode e eq = ground arith

  pub admit-NeverConflicts :
      (command : SubmissionAdmissionCommand) → NeverConflicts (admit db command)
  unfolding admit
  admit-NeverConflicts command =
      bind-NeverConflicts
        (submission_mode (find (λ (c : ContestRow). eqb c.id command.contest_id) db.contests)
          command.at_time)
        _
        (submission_mode-NeverConflicts
          (find (λ (c : ContestRow). eqb c.id command.contest_id) db.contests) command.at_time)
        (λ mode.
          bind-NeverConflicts (membership_team db command.user_id) _
            (membership_team-NeverConflicts command.user_id)
            (λ team.
              bind-NeverConflicts (accepted_participation db command.contest_id team.id) _
                (accepted_participation-NeverConflicts command.contest_id team.id)
                (λ p.
                  bind-NeverConflicts (available_challenge db command mode) _
                    (available_challenge-NeverConflicts command mode) (λ c e eq. ground arith))))
