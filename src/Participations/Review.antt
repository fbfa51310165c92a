-- ===== src/Participations/Review.antt =====
-- The judges' operations and the reading of one's own participation, of
-- `PostgresParticipationRepository`
-- (apps/web/server/infrastructure/db/participation-repository.ts).
use sauryctf.Prelude.{
  ℕ, suc, String, not, ◌&&◌, Option, none, some, is_some, List, [], ◌∷◌, ◌++◌, if◌then◌else◌,
}
use sauryctf.Prelude.Keys.{eqb}
use sauryctf.Prelude.Table.{find, or_throw}
use sauryctf.Prelude.Result.{Result, ok, err, throw_if, ◌>>◌, ◌>>=◌}
use sauryctf.Submissions.Replay.Facts.{ParticipationStatus}
use sauryctf.Participations.Tables.{
  Contest, LockedContest, Team, TeamMember, TeamRole, Division, Participation, AuditChange,
  status_changed, division_changed, Database, ParticipationRecord, RepositoryError,
  contest_not_found, division_invalid, not_found, transition_invalid,
}
use sauryctf.Participations.Eligibility.{
  require_registration_open, verify_invite_evidence, validate_team_eligibility,
}
use sauryctf.Participations.Store.{
  is_withdrawn, is_pending, of_team, in_contest, lock_team, lock_contest, locate_participation_team,
  read_by_id, record_of, with_row,
}

pub data Decision : Type 0 where
  accepted rejected : Decision

abbrev pub status_of : Decision → ParticipationStatus
status_of accepted = ParticipationStatus.accepted
status_of rejected = ParticipationStatus.rejected

pub record ReviewCommand : Type 0 where
  pub actor_id : String
  pub request_id : String
  pub contest_id : String
  pub participation_id : String
  pub decision : Decision
  pub reason : String

pub record DivisionCommand : Type 0 where
  pub actor_id : String
  pub request_id : String
  pub contest_id : String
  pub participation_id : String
  pub division_id : Option String
  pub reason : Option String

abbrev pub reviewed : ℕ → ReviewCommand → Participation → Participation
reviewed now command p = record p {
  status = status_of command.decision;
  reviewed_by = some command.actor_id;
  reviewed_at = some now;
  review_reason = some command.reason;
  version = suc p.version;
  updated_at = now;
}

-- What an acceptance asks of the contest and the team; a rejection asks nothing.
unfoldable pub check_decision :
    Database → String → LockedContest → Participation → Decision → Result RepositoryError (Unit {0})
check_decision db team_id contest p rejected = ok tt
check_decision db team_id contest p accepted = do
  require_registration_open contest
  verify_invite_evidence contest p.invite_digest_verified
  validate_team_eligibility db team_id contest

unfoldable pub write_audit :
    Database → String → String → String → String → String → Option String → AuditChange → Database
write_audit db actor_id request_id contest_id participation_id action reason changes = record db {
  audit_events =
      db.audit_events
      ++ record {
        actor_id = actor_id;
        request_id = request_id;
        contest_id = contest_id;
        participation_id = participation_id;
        action = action;
        reason = reason;
        changes = changes;
      }
        ∷ [];
}

-- `review`.
unfoldable pub review :
    Database → ℕ → ReviewCommand → Result RepositoryError (Database × ParticipationRecord)
unfolding lock_team write_audit
review db now command = do
  team_id ← locate_participation_team db command.contest_id command.participation_id
  _ ← lock_team db team_id
  contest ← lock_contest db now command.contest_id
  p ←
      or_throw
        (find
          (λ (p : Participation).
            in_contest command.contest_id command.participation_id p && eqb p.team_id team_id)
          db.participations)
        not_found
  throw_if (not (is_pending p.status)) transition_invalid
  check_decision db team_id contest p command.decision
  let after =
      write_audit (with_row db command.participation_id (reviewed now command)) command.actor_id
        command.request_id command.contest_id command.participation_id
        "contest.participation.reviewed" (some command.reason)
        (status_changed (status_of command.decision))
  answer ← read_by_id after command.contest_id command.participation_id
  ok (after, answer)

abbrev pub moved : ℕ → Option String → Participation → Participation
moved now division_id p = record p {
  division_id = division_id;
  version = suc p.version;
  updated_at = now;
}

-- A division that is named must be one of the contest's; an empty text names none.
abbrev pub check_division : Database → String → Option String → Result RepositoryError (Unit {0})
check_division db contest_id none = ok tt
check_division db contest_id (some id) =
    throw_if
      (not (eqb id "")
        && not (
            is_some
              (find (λ (d : Division). eqb d.id id && eqb d.contest_id contest_id) db.divisions)))
      division_invalid

-- `assignDivision`.
unfoldable pub assign_division :
    Database → ℕ → DivisionCommand → Result RepositoryError (Database × ParticipationRecord)
unfolding lock_team write_audit
assign_division db now command = do
  team_id ← locate_participation_team db command.contest_id command.participation_id
  _ ← lock_team db team_id
  _ ← lock_contest db now command.contest_id
  p ←
      or_throw (find (in_contest command.contest_id command.participation_id) db.participations)
        not_found
  throw_if (is_withdrawn p.status) transition_invalid
  check_division db command.contest_id command.division_id
  let after =
      write_audit (with_row db command.participation_id (moved now command.division_id))
        command.actor_id command.request_id command.contest_id command.participation_id
        "contest.participation.division_assigned" command.reason
        (division_changed command.division_id)
  answer ← read_by_id after command.contest_id command.participation_id
  ok (after, answer)

pub record CurrentTeam : Type 0 where
  pub id : String
  pub name : String
  pub role : TeamRole

-- `CurrentParticipationRecord`.
pub record CurrentParticipation : Type 0 where
  pub team : Option CurrentTeam
  pub participation : Option ParticipationRecord

-- The team of a member, by the join of the members with the teams.
unfoldable pub team_of : List Team → String → List TeamMember → Option CurrentTeam
team_of teams user_id [] = none
team_of teams user_id (m ∷ ms) =
    let rest = team_of teams user_id ms in
    if eqb m.user_id user_id
    then elim (find (λ (t : Team). eqb t.id m.team_id) teams) [
      | none ↦ rest
      | some t ↦ some (record { id = t.id; name = t.name; role = m.role })
    ]
    else rest

-- `readByTeam`.
abbrev pub read_by_team : Database → String → String → Option ParticipationRecord
read_by_team db contest_id team_id = elim (find (of_team contest_id team_id) db.participations) [
  | none ↦ none
  | some p ↦ elim (record_of db p) [ err e ↦ none | ok answer ↦ some answer ]
]

-- `current`.
unfoldable pub current : Database → String → String → Result RepositoryError CurrentParticipation
unfolding record_of team_of
current db user_id contest_id = do
  _ ← or_throw (find (λ (c : Contest). eqb c.id contest_id) db.contests) contest_not_found
  ok (elim (team_of db.teams user_id db.members) [
    | none ↦ record { team = none; participation = none }
    | some team ↦ record { team = some team; participation = read_by_team db contest_id team.id }
  ])
