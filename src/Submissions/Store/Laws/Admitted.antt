-- ===== src/Submissions/Store/Laws/Admitted.antt =====
-- What an admission has checked (apps/web/server/infrastructure/db/submission-repository.ts).
use sauryctf.Prelude.{
  ℕ, ◌≤◌, ◌<◌, String, true, false, not, ◌&&◌, Option, none, some, List, count, ltb, ◌≡◌, refl, ap,
  ◌∙◌, arith, ◌||◌,
}
use mathlib.Core.Path.{subst}
use sauryctf.Prelude.Keys.{eqb, eqb_iff}
use sauryctf.Prelude.Table.{find, find-test, or_throw, or_throw-ok}
use sauryctf.Prelude.Result.{ok, bind-eq-ok, throw_if, throw_if-ok, ok-inj}
use sauryctf.Submissions.Replay.Facts.{SubmissionMode, is_official, is_accepted}
use sauryctf.Submissions.Scoring.{is_scoring_policy}
use sauryctf.Challenges.Policy.{parse_flag_policy}
use sauryctf.Participations.Tables.{Team, TeamMember}
use sauryctf.Participations.Eligibility.{is_published}
use sauryctf.Submissions.Store.Tables.{
  ContestRow, ParticipationRow, ChallengeRow, SubmissionTables, SubmissionAdmissionCommand,
  SubmissionAdmission, team_required, participation_not_accepted, contest_not_running,
  challenge_unavailable, challenge_closed, limit_reached, policy_invalid,
}
use sauryctf.Submissions.Store.Admission.{
  is_before, is_from, mode_at, submission_mode, find_team, membership_team, accepted_participation,
  available_challenge, is_attempt, is_exhausted, admit,
}

-- An official submission comes before the end, a practice one after it where practice is enabled.
abbrev pub IsModeAt : ContestRow → ℕ → SubmissionMode → Type 0
IsModeAt contest at_time SubmissionMode.official = at_time < contest.end_at
IsModeAt contest at_time SubmissionMode.practice =
    (contest.end_at ≤ at_time) × (contest.practice_enabled ≡ true)

mode_at-IsModeAt :
    (contest : ContestRow) (at_time : ℕ) (mode : SubmissionMode)
    → mode_at contest at_time ≡ ok mode
    → IsModeAt contest at_time mode
mode_at-IsModeAt contest at_time SubmissionMode.official h = ground arith
mode_at-IsModeAt contest at_time SubmissionMode.practice h = ground arith

-- The contest is published and has begun, and the mode is the one of its time.
pub record IsRunning (contests : List ContestRow) (contest_id : String) (at_time : ℕ)
    (mode : SubmissionMode) : Type 0 where
  pub contest : ContestRow
  pub found : find (λ (c : ContestRow). eqb c.id contest_id) contests ≡ some contest
  pub published : is_published contest.publication_status ≡ true
  pub begun : contest.start_at ≤ at_time
  pub mode_right : IsModeAt contest at_time mode

submission_mode-IsRunning :
    (contests : List ContestRow) (contest_id : String) (at_time : ℕ) (mode : SubmissionMode)
    (o : Option ContestRow)
    → find (λ (c : ContestRow). eqb c.id contest_id) contests ≡ o
    → submission_mode o at_time ≡ ok mode
    → IsRunning contests contest_id at_time mode
unfolding submission_mode
submission_mode-IsRunning contests contest_id at_time mode none f h = cc
submission_mode-IsRunning contests contest_id at_time mode (some contest) f h =
    let (u, e, h₁) =
      bind-eq-ok
        (throw_if (not (is_published contest.publication_status) || ltb at_time contest.start_at)
          contest_not_running)
        _ h in
    record {
      contest = contest;
      found = f;
      published = ground arith;
      begun = ground arith;
      mode_right = mode_at-IsModeAt contest at_time mode h₁;
    }

-- The user's team takes part in the contest and is accepted.
pub record IsTakingPart (db : SubmissionTables)
    (user_id contest_id team_id participation_id : String) : Type 0 where
  pub member : TeamMember
  pub team : Team
  pub participation : ParticipationRow
  pub member_found : find (λ (t : TeamMember). eqb t.user_id user_id) db.members ≡ some member
  pub team_found : find_team db member.team_id ≡ some team
  pub participation_found :
      find
        (λ (p : ParticipationRow). eqb p.contest_id contest_id && eqb p.team_id team.id)
        db.participations
      ≡ some participation
  pub accepted : is_accepted participation.status ≡ true
  pub team_id_is : team_id ≡ team.id
  pub participation_id_is : participation_id ≡ participation.id

membership_team-found :
    (db : SubmissionTables) (user_id : String) (team : Team)
    → membership_team db user_id ≡ ok team
    → (member : TeamMember) × (find (λ (t : TeamMember). eqb t.user_id user_id) db.members
        ≡ some member)
      × (find_team db member.team_id ≡ some team)
unfolding membership_team
membership_team-found db user_id team h =
    let o = find (λ (t : TeamMember). eqb t.user_id user_id) db.members in
    let (member, e, h₁) = bind-eq-ok (or_throw o team_required) _ h in
    (
      member,
      or_throw-ok o team_required member e,
      or_throw-ok (find_team db member.team_id) team_required team h₁,
    )

accepted_participation-found :
    (db : SubmissionTables) (contest_id team_id : String) (p : ParticipationRow)
    → accepted_participation db contest_id team_id ≡ ok p
    → (find
          (λ (q : ParticipationRow). eqb q.contest_id contest_id && eqb q.team_id team_id)
          db.participations
        ≡ some p)
      × (is_accepted p.status ≡ true)
unfolding accepted_participation
accepted_participation-found db contest_id team_id p h =
    let o =
      find (λ (q : ParticipationRow). eqb q.contest_id contest_id && eqb q.team_id team_id)
        db.participations in
    let (q, e, h₁) = bind-eq-ok (or_throw o participation_not_accepted) _ h in
    let f = or_throw-ok o participation_not_accepted q e in
    let same : q ≡ p = ground arith in
    (f ∙ ap some same, ground (arith, ap (λ (r : ParticipationRow). is_accepted r.status) same))

-- The challenge is there, enabled, published, and open to the mode.
pub record IsOpenTo (db : SubmissionTables) (command : SubmissionAdmissionCommand)
    (mode : SubmissionMode) (challenge : ChallengeRow) : Type 0 where
  pub found :
      find
        (λ (c : ChallengeRow). eqb c.contest_id command.contest_id && eqb c.id command.challenge_id)
        db.challenges
      ≡ some challenge
  pub enabled : challenge.enabled ≡ true
  pub published : is_before command.at_time challenge.publish_at ≡ false
  pub unclosed : (is_official mode && is_from command.at_time challenge.close_at) ≡ false

available_challenge-IsOpenTo :
    (db : SubmissionTables) (command : SubmissionAdmissionCommand) (mode : SubmissionMode)
    (challenge : ChallengeRow)
    → available_challenge db command mode ≡ ok challenge
    → IsOpenTo db command mode challenge
unfolding available_challenge
available_challenge-IsOpenTo db command mode challenge h =
    let o =
      find
        (λ (c : ChallengeRow). eqb c.contest_id command.contest_id && eqb c.id command.challenge_id)
        db.challenges in
    let (c, e, h₁) = bind-eq-ok (or_throw o challenge_unavailable) _ h in
    let (u, e₂, h₂) =
      bind-eq-ok
        (throw_if (not c.enabled || is_before command.at_time c.publish_at) challenge_unavailable) _
        h₁ in
    let (v, e₃, h₃) =
      bind-eq-ok
        (throw_if (is_official mode && is_from command.at_time c.close_at) challenge_closed) _ h₂ in
    let same : c ≡ challenge = ground arith in
    let unavailable = throw_if-ok _ challenge_unavailable u e₂ in
    let closed = throw_if-ok _ challenge_closed v e₃ in
    subst (λ (z : ChallengeRow). IsOpenTo db command mode z) same
      (record {
        found = or_throw-ok o challenge_unavailable c e;
        enabled = ground arith;
        published = ground arith;
        unclosed = closed;
      })

-- All that an admission has checked.
pub record IsAllowed (db : SubmissionTables) (command : SubmissionAdmissionCommand)
    (a : SubmissionAdmission) : Type 0 where
  pub running : IsRunning db.contests command.contest_id command.at_time a.mode
  pub taking_part : IsTakingPart db command.user_id command.contest_id a.team_id a.participation_id
  pub challenge : ChallengeRow
  pub open_to : IsOpenTo db command a.mode challenge
  pub below_limit :
      is_exhausted challenge.submission_limit
        (count (is_attempt a.participation_id a.challenge_id a.mode) db.submissions)
      ≡ false
  pub contest_id_is : a.contest_id ≡ command.contest_id
  pub challenge_id_is : a.challenge_id ≡ command.challenge_id
  pub flag_policy_is : parse_flag_policy challenge.flag_policy ≡ some a.flag_policy
  pub scoring_policy_is : a.scoring_policy ≡ challenge.scoring_policy
  pub scoring_policy_valid : is_scoring_policy a.scoring_policy ≡ true

-- An admission succeeds only for a contest that is published and has begun, in the mode of its time:
-- official before the end, practice after it where that is enabled; for a member of a team whose
-- participation in the contest is accepted; to a challenge of the contest that is enabled, published,
-- not closed to official submissions, and not yet at its limit of attempts; with policies that parse.
pub admit-IsAllowed :
    (db : SubmissionTables) (command : SubmissionAdmissionCommand) (a : SubmissionAdmission)
    → admit db command ≡ ok a
    → IsAllowed db command a
unfolding admit
admit-IsAllowed db command a h =
    let o = find (λ (c : ContestRow). eqb c.id command.contest_id) db.contests in
    let (mode, e₁, h₁) = bind-eq-ok (submission_mode o command.at_time) _ h in
    let (team, e₂, h₂) = bind-eq-ok (membership_team db command.user_id) _ h₁ in
    let (p, e₃, h₃) = bind-eq-ok (accepted_participation db command.contest_id team.id) _ h₂ in
    let (c, e₄, h₄) = bind-eq-ok (available_challenge db command mode) _ h₃ in
    let spent =
      is_exhausted c.submission_limit (count (is_attempt p.id c.id mode) db.submissions) in
    let (u, e₅, h₅) = bind-eq-ok (throw_if spent limit_reached) _ h₄ in
    let (policy, e₆, h₆) =
      bind-eq-ok (or_throw (parse_flag_policy c.flag_policy) policy_invalid) _ h₅ in
    let (v, e₇, h₇) =
      bind-eq-ok (throw_if (not (is_scoring_policy c.scoring_policy)) policy_invalid) _ h₆ in
    let (member, m₁, m₂) = membership_team-found db command.user_id team e₂ in
    let (p₁, p₂) = accepted_participation-found db command.contest_id team.id p e₃ in
    let open_to = available_challenge-IsOpenTo db command mode c e₄ in
    let valid = throw_if-ok _ policy_invalid v e₇ in
    let matched = find-test _ db.challenges c open_to.found in
    subst (IsAllowed db command) (ok-inj refl h₇) (record {
      running =
          submission_mode-IsRunning db.contests command.contest_id command.at_time mode o refl e₁;
      taking_part = record {
        member = member;
        team = team;
        participation = p;
        member_found = m₁;
        team_found = m₂;
        participation_found = p₁;
        accepted = p₂;
        team_id_is = refl;
        participation_id_is = refl;
      };
      challenge = c;
      open_to = open_to;
      below_limit = throw_if-ok spent limit_reached u e₅;
      contest_id_is = refl;
      challenge_id_is = ground (arith, eqb_iff c.id command.challenge_id);
      flag_policy_is = or_throw-ok (parse_flag_policy c.flag_policy) policy_invalid policy e₆;
      scoring_policy_is = refl;
      scoring_policy_valid = ground arith;
    })
