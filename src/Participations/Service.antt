-- ===== src/Participations/Service.antt =====
-- `ParticipationService` (apps/web/server/domains/participations/service.ts): the capability that
-- an operation asks for, and the codes of the repository's errors.
pub mod Guards
use sauryctf.Prelude.{ℕ, String, Option, none, some, if◌then◌else◌, List, [], ◌∷◌}
use sauryctf.Prelude.Blank.{trim}
use sauryctf.Prelude.Result.{Result, ok, err, ◌>>◌, ◌>>=◌}
use sauryctf.Prelude.Keys.{eqb}
use sauryctf.Identity.Capabilities.{
  SessionSubject, Capability, CapabilityError, require_identity_capability,
}
use sauryctf.Participations.Tables.{Database, ParticipationRecord, RepositoryError}
use sauryctf.Participations.Tables as Tables
use sauryctf.Participations.Store as Store
use sauryctf.Participations.Review.{Decision, ReviewCommand, DivisionCommand, CurrentParticipation}
use sauryctf.Participations.Review as Review

-- `ParticipationServiceErrorCode`, with the sizes that one error's fields tell, and the errors of
-- the guard, which pass through.
pub data ServiceError : Type 0 where
  configuration_invalid conflict contest_not_found division_invalid : ServiceError
  email_domain_forbidden invite_invalid member_ineligible not_found : ServiceError
  registration_closed team_required transition_invalid : ServiceError
  team_size_invalid : ℕ → ℕ → ℕ → ServiceError
  capability : CapabilityError → ServiceError

abbrev pub code_of : RepositoryError → ServiceError
code_of RepositoryError.configuration_invalid = configuration_invalid
code_of RepositoryError.conflict = conflict
code_of RepositoryError.contest_not_found = contest_not_found
code_of RepositoryError.division_invalid = division_invalid
code_of RepositoryError.email_domain_forbidden = email_domain_forbidden
code_of RepositoryError.invite_invalid = invite_invalid
code_of RepositoryError.member_ineligible = member_ineligible
code_of RepositoryError.not_found = not_found
code_of RepositoryError.registration_closed = registration_closed
code_of RepositoryError.team_required = team_required
code_of RepositoryError.transition_invalid = transition_invalid
code_of (RepositoryError.team_size_invalid minimum maximum actual) =
    team_size_invalid actual minimum maximum

-- `map`.
abbrev pub map_errors {ℓ} : {A : Type ℓ} → Result RepositoryError A → Result ServiceError A
map_errors (ok a) = ok a
map_errors (err e) = err (code_of e)

abbrev pub require : SessionSubject → Capability → Result ServiceError (Unit {0})
require actor c = elim (require_identity_capability actor c) [
  | err e ↦ err (capability e)
  | ok u ↦ ok tt
]

module _ (sha256 : String → String) where
  abbrev pub digest_of : Option String → Option String
  digest_of none = none
  digest_of (some code) = if eqb code "" then none else some (sha256 code)

  unfoldable pub register :
      Database
      → ℕ
      → String
      → SessionSubject
      → String
      → Option String
      → Result ServiceError (Database × ParticipationRecord)
  register db now id actor contest_id invite_code = do
    require actor Capability.contest_register
    map_errors (Store.register db now id actor.user_id contest_id (digest_of invite_code))

unfoldable pub withdraw :
    Database → ℕ → SessionSubject → String → Result ServiceError (Database × ParticipationRecord)
withdraw db now actor contest_id = do
  require actor Capability.contest_register
  map_errors (Store.withdraw db now actor.user_id contest_id)

unfoldable pub review :
    Database
    → ℕ
    → SessionSubject
    → ReviewCommand
    → Result ServiceError (Database × ParticipationRecord)
review db now actor input = do
  require actor Capability.contest_judge
  map_errors
      (Review.review db now (record input { actor_id = actor.user_id; reason = trim input.reason }))

-- `reason?.trim() || null`.
abbrev pub reason_of : Option String → Option String
reason_of none = none
reason_of (some reason) = if eqb (trim reason) "" then none else some (trim reason)

unfoldable pub assign_division :
    Database
    → ℕ
    → SessionSubject
    → DivisionCommand
    → Result ServiceError (Database × ParticipationRecord)
assign_division db now actor input = do
  require actor Capability.contest_judge
  map_errors (
      Review.assign_division db now
        (record input { actor_id = actor.user_id; reason = reason_of input.reason }))

unfoldable pub current :
    Database → SessionSubject → String → Result ServiceError CurrentParticipation
current db actor contest_id = do
  require actor Capability.public_browse
  map_errors (Review.current db actor.user_id contest_id)
