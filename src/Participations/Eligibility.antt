-- ===== src/Participations/Eligibility.antt =====
-- Whether a contest takes registrations and a team may take part
-- (apps/web/server/infrastructure/db/participation-repository.ts).
pub mod Laws
use sauryctf.Prelude.{
  String, Bool, true, false, not, ◌&&◌, ◌||◌, ◌==◌, ltb, Option, none, some, is_some, List, [], ◌∷◌,
  any, length, if◌then◌else◌,
}
use sauryctf.Prelude.Keys.{eqb, string_key}
use sauryctf.Prelude.Dict.{contains, get, add}
use sauryctf.Prelude.Table.{find, or_throw}
use sauryctf.Prelude.Domain.{is_domain, domain_of}
use sauryctf.Prelude.Result.{Result, ok, err, throw_if, ◌>>◌, ◌>>=◌}
use sauryctf.Participations.Tables.{
  PublicationStatus, Visibility, TimePhase, ConstraintValue, array, no_array, Constraints, object,
  no_object, LockedContest, AccountStatus, User, TeamMember, Database, RepositoryError,
  configuration_invalid, email_domain_forbidden, invite_invalid, member_ineligible,
  registration_closed, team_size_invalid,
}

abbrev pub is_archived : PublicationStatus → Bool
is_archived PublicationStatus.archived = true
is_archived _ = false

abbrev pub is_published : PublicationStatus → Bool
is_published PublicationStatus.published = true
is_published _ = false

abbrev pub is_ended : TimePhase → Bool
is_ended TimePhase.ended = true
is_ended _ = false

abbrev pub is_private : Visibility → Bool
is_private Visibility.private = true
is_private Visibility.public = false

abbrev pub is_active : AccountStatus → Bool
is_active AccountStatus.active = true
is_active _ = false

unfoldable pub require_registration_open : LockedContest → Result RepositoryError (Unit {0})
require_registration_open contest = do
  throw_if (not (is_published contest.publication_status) || is_ended contest.phase)
      registration_closed
  throw_if (is_private contest.visibility && not contest.invite_required) registration_closed
  throw_if (contest.invite_required && not (is_some contest.invite_digest)) configuration_invalid

-- `!digest || !safeDigestEqual(expected, digest)`.
abbrev pub differs : String → Option String → Bool
differs expected none = true
differs expected (some digest) = not (eqb expected digest)

unfoldable pub verify_submitted_invite :
    LockedContest → Option String → Result RepositoryError (Option String)
verify_submitted_invite contest submitted =
    if contest.invite_required
    then (do
      digest ← or_throw contest.invite_digest configuration_invalid
      throw_if (differs digest submitted) invite_invalid
      ok (some digest))
    else ok none

unfoldable pub verify_invite_evidence :
    LockedContest → Option String → Result RepositoryError (Unit {0})
verify_invite_evidence contest evidence =
    if contest.invite_required
    then (do
      digest ← or_throw contest.invite_digest configuration_invalid
      throw_if (differs digest evidence) invite_invalid)
    else ok tt

-- The members of a team, joined with their accounts.
unfoldable pub member_accounts : List User → String → List TeamMember → List User
member_accounts users team_id [] = []
member_accounts users team_id (m ∷ ms) =
    let rest = member_accounts users team_id ms in
    if eqb m.team_id team_id
    then elim (find (λ (u : User). eqb u.id m.user_id) users) [ none ↦ rest | some u ↦ u ∷ rest ]
    else rest

abbrev pub is_bad_domain : Option String → Bool
is_bad_domain none = true
is_bad_domain (some domain) = not (is_domain domain)

-- `[...new Set(domains)]`; a text of the accepted form has no upper case left to lower.
abbrev pub distinct_domains : List (Option String) → List String → List String
distinct_domains [] seen = seen
distinct_domains (none ∷ ds) seen = distinct_domains ds seen
distinct_domains (some d ∷ ds) seen = distinct_domains ds (add d seen)

abbrev pub domains_of : Option ConstraintValue → Result RepositoryError (List String)
domains_of none = ok []
domains_of (some no_array) = err configuration_invalid
domains_of (some (array domains)) = do
  throw_if (any is_bad_domain domains) configuration_invalid
  ok (distinct_domains domains [])

unfoldable pub allowed_email_domains : Constraints → Result RepositoryError (List String)
allowed_email_domains no_object = err configuration_invalid
allowed_email_domains (object constraints) = do
  throw_if
      (any (λ (p : String × ConstraintValue). not (eqb p.0 "allowed_email_domains")) constraints)
      configuration_invalid
  domains_of (get "allowed_email_domains" constraints)

abbrev pub is_ineligible : User → Bool
is_ineligible member =
    not (is_active member.status)
    || not (is_some member.email_verified_at)
    || member.must_change_password

abbrev pub is_forbidden : List String → User → Bool
is_forbidden allowed member =
    eqb (domain_of member.email_normalized) ""
    || not (contains allowed (domain_of member.email_normalized))

-- The checks on the rows of a team's members.
unfoldable pub check_members : LockedContest → List User → Result RepositoryError (Unit {0})
check_members contest members = do
  throw_if
      (ltb (length members) contest.min_team_size || ltb contest.max_team_size (length members))
      (team_size_invalid contest.min_team_size contest.max_team_size (length members))
  throw_if (any is_ineligible members) member_ineligible
  allowed ← allowed_email_domains contest.registration_constraints
  throw_if (not (length allowed == 0) && any (is_forbidden allowed) members) email_domain_forbidden

unfoldable pub validate_team_eligibility :
    Database → String → LockedContest → Result RepositoryError (Unit {0})
validate_team_eligibility db team_id contest =
    check_members contest (member_accounts db.users team_id db.members)
