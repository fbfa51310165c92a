-- ===== src/Participations/Store.antt =====
-- `PostgresParticipationRepository`
-- (apps/web/server/infrastructure/db/participation-repository.ts). A transaction takes the database
-- and gives the new one with its answer; an error leaves the database as it was. Row locks only
-- order transactions, which are the steps here, so of a lock the test that the row exists is left.
use sauryctf.Prelude.{
  ℕ, suc, String, Bool, true, false, not, ◌&&◌, ◌||◌, Option, none, some, is_some, List, [], ◌∷◌,
  ◌++◌, any, filter, if◌then◌else◌,
}
use sauryctf.Prelude.Keys.{eqb}
use sauryctf.Prelude.Table.{find, update_where, or_throw}
use sauryctf.Prelude.Result.{Result, ok, throw_if, ◌>>◌, ◌>>=◌}
use sauryctf.Submissions.Replay.Facts.{ParticipationStatus}
use sauryctf.Participations.Tables.{
  RegistrationStrategy, Contest, derive_contest_time_phase, LockedContest, Team, TeamMember,
  Division, Participation, Database, ParticipationRecord, RepositoryError, conflict,
  contest_not_found, not_found, team_required, transition_invalid,
}
use sauryctf.Participations.Eligibility.{
  require_registration_open, verify_submitted_invite, validate_team_eligibility,
}

abbrev pub is_withdrawn : ParticipationStatus → Bool
is_withdrawn ParticipationStatus.withdrawn = true
is_withdrawn _ = false

abbrev pub is_pending : ParticipationStatus → Bool
is_pending ParticipationStatus.pending = true
is_pending _ = false

abbrev pub is_auto : RegistrationStrategy → Bool
is_auto RegistrationStrategy.auto_accept = true
is_auto RegistrationStrategy.review = false

abbrev pub of_team : String → String → Participation → Bool
of_team contest_id team_id p = eqb p.contest_id contest_id && eqb p.team_id team_id

abbrev pub in_contest : String → String → Participation → Bool
in_contest contest_id id p = eqb p.id id && eqb p.contest_id contest_id

unfoldable pub lock_team : Database → String → Result RepositoryError Team
lock_team db team_id = or_throw (find (λ (t : Team). eqb t.id team_id) db.teams) team_required

-- `lockActorTeam`, for the identifier of the team.
unfoldable pub lock_actor_team : Database → String → Result RepositoryError String
unfolding lock_team
lock_actor_team db user_id = do
  located ← or_throw (find (λ (m : TeamMember). eqb m.user_id user_id) db.members) team_required
  team ← lock_team db located.team_id
  throw_if
      (not (
        is_some (
          find (λ (m : TeamMember). eqb m.user_id user_id && eqb m.team_id located.team_id)
            db.members)))
      team_required
  ok team.id

abbrev pub locked : ℕ → Contest → LockedContest
locked now c = record {
  id = c.id;
  publication_status = c.publication_status;
  registration_strategy = c.registration_strategy;
  visibility = c.visibility;
  invite_required = c.invite_required;
  invite_digest = c.invite_digest;
  phase = derive_contest_time_phase c.start_at c.end_at now;
  min_team_size = c.min_team_size;
  max_team_size = c.max_team_size;
  registration_constraints = c.registration_constraints;
}

unfoldable pub lock_contest : Database → ℕ → String → Result RepositoryError LockedContest
lock_contest db now contest_id = do
  c ← or_throw (find (λ (c : Contest). eqb c.id contest_id) db.contests) contest_not_found
  ok (locked now c)

-- The single row of a query that asks for two.
abbrev pub only_id : List Division → Option String
only_id [] = none
only_id (d ∷ []) = some d.id
only_id (d ∷ e ∷ ds) = none

unfoldable pub default_division : Database → String → Option String
default_division db contest_id =
    only_id (filter (λ (d : Division). eqb d.contest_id contest_id) db.divisions)

abbrev pub division_name : Database → Option String → Option String
division_name db none = none
division_name db (some id) = elim (find (λ (d : Division). eqb d.id id) db.divisions) [
  | none ↦ none
  | some d ↦ some d.name
]

-- `participationSelect` and `record`.
unfoldable pub record_of : Database → Participation → Result RepositoryError ParticipationRecord
record_of db p = do
  team ← or_throw (find (λ (t : Team). eqb t.id p.team_id) db.teams) not_found
  ok (record {
    id = p.id;
    contest_id = p.contest_id;
    team_id = p.team_id;
    team_name = team.name;
    division_id = p.division_id;
    division_name = division_name db p.division_id;
    status = p.status;
    registered_at = p.registered_at;
    reviewed_at = p.reviewed_at;
    review_reason = p.review_reason;
    withdrawn_at = p.withdrawn_at;
    version = p.version;
  })

unfoldable pub read_by_id : Database → String → String → Result RepositoryError ParticipationRecord
unfolding record_of
read_by_id db contest_id participation_id = do
  p ← or_throw (find (in_contest contest_id participation_id) db.participations) not_found
  record_of db p

abbrev pub locate_participation_team : Database → String → String → Result RepositoryError String
locate_participation_team db contest_id participation_id = do
  p ← or_throw (find (in_contest contest_id participation_id) db.participations) not_found
  ok p.team_id

-- The row that a registration writes: a new one, or the withdrawn one again.
abbrev pub registered :
    ℕ → String → LockedContest → Option String → Option String → Participation → Participation
registered now user_id contest division_id digest p =
    let accepted = is_auto contest.registration_strategy in
    record p {
      status = if accepted then ParticipationStatus.accepted else ParticipationStatus.pending;
      division_id = division_id;
      registered_by = user_id;
      registered_at = now;
      reviewed_by = if accepted then some user_id else none;
      reviewed_at = if accepted then some now else none;
      review_reason = if accepted then some "auto_accept" else none;
      withdrawn_at = none;
      invite_digest_verified = digest;
      version = suc p.version;
      updated_at = now;
    }

-- The columns of an inserted row before its values are written; `version` counts from 1.
abbrev pub new_participation : ℕ → String → String → String → Participation
new_participation now id contest_id team_id = record {
  id = id;
  contest_id = contest_id;
  team_id = team_id;
  division_id = none;
  status = ParticipationStatus.pending;
  registered_by = "";
  registered_at = now;
  reviewed_by = none;
  reviewed_at = none;
  review_reason = none;
  withdrawn_at = none;
  invite_digest_verified = none;
  version = 0;
  updated_at = now;
}

-- The row with an identifier, changed.
abbrev pub with_row : Database → String → (Participation → Participation) → Database
with_row db id f = record db {
  participations = update_where (λ (p : Participation). eqb p.id id) f db.participations;
}

-- The write of a registration, by the row that is there: the unique indexes on the identifier and
-- on the contest with the team make an insertion fail.
unfoldable pub place_row :
    Database
    → String
    → String
    → String
    → (Participation → Participation)
    → Participation
    → Option Participation
    → Result RepositoryError (Database × String)
place_row db id contest_id team_id write fresh none = do
  throw_if
      (any (λ (p : Participation). eqb p.id id || of_team contest_id team_id p) db.participations)
      conflict
  ok (record db { participations = db.participations ++ write fresh ∷ [] }, id)
place_row db id contest_id team_id write fresh (some existing) = do
  throw_if (not (is_withdrawn existing.status)) conflict
  ok (with_row db existing.id write, existing.id)

abbrev pub place_registration :
    Database
    → String
    → String
    → String
    → (Participation → Participation)
    → Participation
    → Result RepositoryError (Database × String)
place_registration db id contest_id team_id write fresh =
    place_row db id contest_id team_id write fresh
      (find (of_team contest_id team_id) db.participations)

-- `register`; `id` is what `gen_random_uuid()` gives.
unfoldable pub register :
    Database
    → ℕ
    → String
    → String
    → String
    → Option String
    → Result RepositoryError (Database × ParticipationRecord)
unfolding place_row
register db now id user_id contest_id invite_digest = do
  team_id ← lock_actor_team db user_id
  contest ← lock_contest db now contest_id
  require_registration_open contest
  digest ← verify_submitted_invite contest invite_digest
  validate_team_eligibility db team_id contest
  placed ←
      place_registration db id contest_id team_id
        (registered now user_id contest (default_division db contest_id) digest)
        (new_participation now id contest_id team_id)
  answer ← read_by_id placed.0 contest_id placed.1
  ok (placed.0, answer)

abbrev pub can_withdraw : ParticipationStatus → Bool
can_withdraw ParticipationStatus.pending = true
can_withdraw ParticipationStatus.rejected = true
can_withdraw _ = false

abbrev pub withdrawn_row : ℕ → Participation → Participation
withdrawn_row now p = record p {
  status = ParticipationStatus.withdrawn;
  withdrawn_at = some now;
  version = suc p.version;
  updated_at = now;
}

unfoldable pub withdraw :
    Database → ℕ → String → String → Result RepositoryError (Database × ParticipationRecord)
withdraw db now user_id contest_id = do
  team_id ← lock_actor_team db user_id
  _ ← lock_contest db now contest_id
  p ← or_throw (find (of_team contest_id team_id) db.participations) not_found
  throw_if (not (can_withdraw p.status)) transition_invalid
  answer ← read_by_id (with_row db p.id (withdrawn_row now)) contest_id p.id
  ok (with_row db p.id (withdrawn_row now), answer)
