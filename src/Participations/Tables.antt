-- ===== src/Participations/Tables.antt =====
-- The rows that the participation repository reads and writes
-- (apps/web/server/infrastructure/db/participation-repository.ts and
-- apps/web/server/domains/participations/repository.ts). A digest is a text of its bytes.
use sauryctf.Prelude.{ℕ, String, Bool, Option, List, ltb, if◌then◌else◌}
use sauryctf.Submissions.Replay.Facts.{ParticipationStatus}

pub data PublicationStatus : Type 0 where
  draft published archived : PublicationStatus

pub data RegistrationStrategy : Type 0 where
  review auto_accept : RegistrationStrategy

pub data Visibility : Type 0 where
  public private : Visibility

pub data TimePhase : Type 0 where
  upcoming running ended : TimePhase

-- What is read of the JSON value `registration_constraints`: an object's keys with their values, and
-- of an array which elements are texts.
pub data ConstraintValue : Type 0 where
  array : List (Option String) → ConstraintValue
  no_array : ConstraintValue

pub data Constraints : Type 0 where
  object : List (String × ConstraintValue) → Constraints
  no_object : Constraints

pub record Contest : Type 0 where
  pub id : String
  pub publication_status : PublicationStatus
  pub registration_strategy : RegistrationStrategy
  pub visibility : Visibility
  pub invite_required : Bool
  pub invite_digest : Option String
  pub start_at : ℕ
  pub end_at : ℕ
  pub min_team_size : ℕ
  pub max_team_size : ℕ
  pub registration_constraints : Constraints

-- `derive_contest_time_phase`.
abbrev pub derive_contest_time_phase : ℕ → ℕ → ℕ → TimePhase
derive_contest_time_phase start_at end_at at_time =
    if ltb at_time start_at
    then TimePhase.upcoming
    else if ltb at_time end_at
    then TimePhase.running
    else TimePhase.ended

pub record LockedContest : Type 0 where
  pub id : String
  pub publication_status : PublicationStatus
  pub registration_strategy : RegistrationStrategy
  pub visibility : Visibility
  pub invite_required : Bool
  pub invite_digest : Option String
  pub phase : TimePhase
  pub min_team_size : ℕ
  pub max_team_size : ℕ
  pub registration_constraints : Constraints

pub data AccountStatus : Type 0 where
  active banned deleted : AccountStatus

pub record User : Type 0 where
  pub id : String
  pub email_normalized : String
  pub email_verified_at : Option ℕ
  pub status : AccountStatus
  pub must_change_password : Bool

pub data TeamRole : Type 0 where
  member captain : TeamRole

pub record TeamMember : Type 0 where
  pub user_id : String
  pub team_id : String
  pub role : TeamRole

pub record Team : Type 0 where
  pub id : String
  pub name : String

pub record Division : Type 0 where
  pub id : String
  pub contest_id : String
  pub name : String

-- A row of the table `participations`.
pub record Participation : Type 0 where
  pub id : String
  pub contest_id : String
  pub team_id : String
  pub division_id : Option String
  pub status : ParticipationStatus
  pub registered_by : String
  pub registered_at : ℕ
  pub reviewed_by : Option String
  pub reviewed_at : Option ℕ
  pub review_reason : Option String
  pub withdrawn_at : Option ℕ
  pub invite_digest_verified : Option String
  pub version : ℕ
  pub updated_at : ℕ

pub data AuditChange : Type 0 where
  status_changed : ParticipationStatus → AuditChange
  division_changed : Option String → AuditChange

pub record AuditEvent : Type 0 where
  pub actor_id : String
  pub request_id : String
  pub contest_id : String
  pub participation_id : String
  pub action : String
  pub reason : Option String
  pub changes : AuditChange

pub record Database : Type 0 where
  pub contests : List Contest
  pub divisions : List Division
  pub teams : List Team
  pub members : List TeamMember
  pub users : List User
  pub participations : List Participation
  pub audit_events : List AuditEvent

-- `ParticipationRecord`, what the operations answer with.
pub record ParticipationRecord : Type 0 where
  pub id : String
  pub contest_id : String
  pub team_id : String
  pub team_name : String
  pub division_id : Option String
  pub division_name : Option String
  pub status : ParticipationStatus
  pub registered_at : ℕ
  pub reviewed_at : Option ℕ
  pub review_reason : Option String
  pub withdrawn_at : Option ℕ
  pub version : ℕ

-- The errors of repository.ts.
pub data RepositoryError : Type 0 where
  configuration_invalid conflict contest_not_found division_invalid : RepositoryError
  email_domain_forbidden invite_invalid member_ineligible not_found : RepositoryError
  registration_closed team_required transition_invalid : RepositoryError
  team_size_invalid : ℕ → ℕ → ℕ → RepositoryError
