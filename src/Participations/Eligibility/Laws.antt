-- ===== src/Participations/Eligibility/Laws.antt =====
-- What an admitted team has (`validateTeamEligibility` and the checks before it in
-- apps/web/server/infrastructure/db/participation-repository.ts).
use sauryctf.Prelude.{
  String, true, false, ◌≡◌, ◌≤◌, refl, Option, none, some, is_some, List, [], ◌∷◌, All, any, length,
  arith,
}
use sauryctf.Prelude.Keys.{eqb_iff}
use sauryctf.Prelude.Result.{ok}
use sauryctf.Participations.Tables.{LockedContest, User}
use sauryctf.Participations.Eligibility.{
  is_published, is_ended, is_active, is_ineligible, require_registration_open,
  verify_submitted_invite, verify_invite_evidence, check_members,
}

pub record IsEligible (member : User) : Type 0 where
  pub active : is_active member.status ≡ true
  pub verified : is_some member.email_verified_at ≡ true
  pub set_up : member.must_change_password ≡ false

-- A contest admits a team with the digest of an invite code.
pub record IsAdmitted (contest : LockedContest) (members : List User) (digest : Option String)
    : Type 0 where
  pub published : is_published contest.publication_status ≡ true
  pub not_ended : is_ended contest.phase ≡ false
  pub large_enough : contest.min_team_size ≤ length members
  pub small_enough : length members ≤ contest.max_team_size
  pub eligible : All IsEligible members
  pub invited :
      contest.invite_required ≡ true → (is_some digest ≡ true) × (digest ≡ contest.invite_digest)

IsEligible-of_any :
    (members : List User) → any is_ineligible members ≡ false → All IsEligible members
IsEligible-of_any [] h = tt
IsEligible-of_any (u ∷ us) h = (
  record { active = ground arith; verified = ground arith; set_up = ground arith },
  IsEligible-of_any us (ground arith),
)

module _ (contest : LockedContest) where
  require_registration_open-ok :
      (u : Unit {0})
      → require_registration_open contest ≡ ok u
      → (is_published contest.publication_status ≡ true) × (is_ended contest.phase ≡ false)
  unfolding require_registration_open
  require_registration_open-ok u h = ground arith

  check_members-ok :
      (members : List User) (u : Unit {0})
      → check_members contest members ≡ ok u
      → (contest.min_team_size ≤ length members)
        × (length members ≤ contest.max_team_size)
        × (any is_ineligible members ≡ false)
  unfolding check_members
  check_members-ok members u h = ground arith

  pub verify_submitted_invite-ok :
      (submitted digest : Option String)
      → verify_submitted_invite contest submitted ≡ ok digest
      → contest.invite_required ≡ true
      → (is_some digest ≡ true) × (digest ≡ contest.invite_digest)
  unfolding verify_submitted_invite
  verify_submitted_invite-ok submitted digest h r = ground arith

  -- The code that is asked for is the contest's, and it is what is kept; no other is.
  pub verify_submitted_invite-digest :
      (submitted digest : Option String)
      → verify_submitted_invite contest submitted ≡ ok digest
      → (contest.invite_required ≡ true → submitted ≡ digest)
        × (contest.invite_required ≡ false → digest ≡ none)
  unfolding verify_submitted_invite
  verify_submitted_invite-digest none digest h = (λ r. ground arith, λ r. ground arith)
  verify_submitted_invite-digest (some code) digest h =
      (λ r. go contest.invite_digest refl r, λ r. ground arith)
    where
      go :
          (d : Option String)
          → contest.invite_digest ≡ d
          → contest.invite_required ≡ true
          → some code ≡ digest
      go none k r = ground arith
      go (some d) k r = ground (arith, eqb_iff d code)

  pub verify_invite_evidence-ok :
      (evidence : Option String) (u : Unit {0})
      → verify_invite_evidence contest evidence ≡ ok u
      → contest.invite_required ≡ true
      → (is_some evidence ≡ true) × (evidence ≡ contest.invite_digest)
  unfolding verify_invite_evidence
  verify_invite_evidence-ok none u h r = ground arith
  verify_invite_evidence-ok (some e) u h r = (refl, go contest.invite_digest refl)
    where
      go : (d : Option String) → contest.invite_digest ≡ d → some e ≡ contest.invite_digest
      go none k = ground arith
      go (some d) k = ground (arith, eqb_iff d e)

  pub IsAdmitted-of_checks :
      (members : List User) (digest : Option String) (u v : Unit {0})
      → require_registration_open contest ≡ ok u
      → check_members contest members ≡ ok v
      → (contest.invite_required ≡ true
          → (is_some digest ≡ true) × (digest ≡ contest.invite_digest))
      → IsAdmitted contest members digest
  IsAdmitted-of_checks members digest u v open_now sized invited =
      let (published, not_ended) = require_registration_open-ok u open_now in
      let (large, small, eligible) = check_members-ok members v sized in
      record {
        published = published;
        not_ended = not_ended;
        large_enough = large;
        small_enough = small;
        eligible = IsEligible-of_any members eligible;
        invited = invited;
      }
