-- ===== src/Submissions/Store/Admission.antt =====
-- `admitWith` of apps/web/server/infrastructure/db/submission-repository.ts: who may submit to a
-- challenge, when, and in which mode. The row locks only order transactions.
use sauryctf.Prelude.{
  ℕ, String, Bool, false, not, ◌&&◌, ◌||◌, Option, none, some, count, ltb, leb, if◌then◌else◌,
}
use sauryctf.Prelude.Keys.{eqb}
use sauryctf.Prelude.Table.{find, or_throw}
use sauryctf.Prelude.Result.{Result, ok, err, throw_if, ◌>>◌, ◌>>=◌}
use sauryctf.Submissions.Replay.Facts.{SubmissionMode, is_official, is_accepted}
use sauryctf.Submissions.Scoring.{is_scoring_policy}
use sauryctf.Challenges.Policy.{parse_flag_policy}
use sauryctf.Participations.Tables.{Team, TeamMember}
use sauryctf.Participations.Eligibility.{is_published}
use sauryctf.Submissions.Store.Tables.{
  ContestRow, ParticipationRow, ChallengeRow, SubmissionRow, SubmissionTables,
  SubmissionAdmissionCommand, SubmissionAdmission, StoreError, team_required,
  participation_not_accepted, contest_not_running, challenge_unavailable, challenge_closed,
  limit_reached, policy_invalid, same_mode,
}

-- `a !== null && at < a`, and `a !== null && at >= a`.
abbrev pub is_before : ℕ → Option ℕ → Bool
is_before at_time none = false
is_before at_time (some t) = ltb at_time t

abbrev pub is_from : ℕ → Option ℕ → Bool
is_from at_time none = false
is_from at_time (some t) = leb t at_time

abbrev pub mode_at : ContestRow → ℕ → Result StoreError SubmissionMode
mode_at contest at_time =
    if ltb at_time contest.end_at
    then ok SubmissionMode.official
    else if contest.practice_enabled
    then ok SubmissionMode.practice
    else err contest_not_running

-- The mode of a submission at a time; outside both modes the contest is not running.
unfoldable pub submission_mode : Option ContestRow → ℕ → Result StoreError SubmissionMode
submission_mode none at_time = err contest_not_running
submission_mode (some contest) at_time = do
  throw_if (not (is_published contest.publication_status) || ltb at_time contest.start_at)
      contest_not_running
  mode_at contest at_time

abbrev pub find_team : SubmissionTables → String → Option Team
find_team db team_id = find (λ (t : Team). eqb t.id team_id) db.teams

-- The membership with its team, by the join.
unfoldable pub membership_team : SubmissionTables → String → Result StoreError Team
membership_team db user_id = do
  member ← or_throw (find (λ (m : TeamMember). eqb m.user_id user_id) db.members) team_required
  or_throw (find_team db member.team_id) team_required

unfoldable pub accepted_participation :
    SubmissionTables → String → String → Result StoreError ParticipationRow
accepted_participation db contest_id team_id = do
  p ←
      or_throw
        (find (λ (p : ParticipationRow). eqb p.contest_id contest_id && eqb p.team_id team_id)
          db.participations)
        participation_not_accepted
  throw_if (not (is_accepted p.status)) participation_not_accepted
  ok p

unfoldable pub available_challenge :
    SubmissionTables → SubmissionAdmissionCommand → SubmissionMode → Result StoreError ChallengeRow
available_challenge db command mode = do
  c ←
      or_throw
        (find
          (λ (c : ChallengeRow).
            eqb c.contest_id command.contest_id && eqb c.id command.challenge_id)
          db.challenges)
        challenge_unavailable
  throw_if (not c.enabled || is_before command.at_time c.publish_at) challenge_unavailable
  throw_if (is_official mode && is_from command.at_time c.close_at) challenge_closed
  ok c

-- The submissions that a limit counts.
abbrev pub is_attempt : String → String → SubmissionMode → SubmissionRow → Bool
is_attempt participation_id challenge_id mode s =
    eqb s.participation_id participation_id
    && eqb s.contest_challenge_id challenge_id
    && same_mode s.mode mode

abbrev pub is_exhausted : Option ℕ → ℕ → Bool
is_exhausted none attempts = false
is_exhausted (some limit) attempts = leb limit attempts

-- `admitWith`, which both `admit` and `append` run.
unfoldable pub admit :
    SubmissionTables → SubmissionAdmissionCommand → Result StoreError SubmissionAdmission
unfolding submission_mode membership_team accepted_participation available_challenge
admit db command = do
  mode ←
      submission_mode (find (λ (c : ContestRow). eqb c.id command.contest_id) db.contests)
        command.at_time
  team ← membership_team db command.user_id
  participation ← accepted_participation db command.contest_id team.id
  challenge ← available_challenge db command mode
  throw_if
      (is_exhausted challenge.submission_limit
        (count (is_attempt participation.id challenge.id mode) db.submissions))
      limit_reached
  flag_policy ← or_throw (parse_flag_policy challenge.flag_policy) policy_invalid
  throw_if (not (is_scoring_policy challenge.scoring_policy)) policy_invalid
  ok (record {
    contest_id = command.contest_id;
    challenge_id = challenge.id;
    participation_id = participation.id;
    team_id = team.id;
    team_name = team.name;
    flag_format = challenge.flag_format;
    flag_policy = flag_policy;
    scoring_policy = challenge.scoring_policy;
    mode = mode;
  })
