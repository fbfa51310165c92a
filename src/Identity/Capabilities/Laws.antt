-- ===== src/Identity/Capabilities/Laws.antt =====
-- What `requireIdentityCapability` grants (apps/web/server/domains/identity/capabilities.ts).
use sauryctf.Prelude.{true, false, ◌≡◌, ◌↔◌, ◌⊎◌, ◌≢◌, arith}
use sauryctf.Prelude.Result.{ok}
use sauryctf.Identity.Capabilities.{
  GlobalRole, SessionSubject, Capability, includes, global_role_capabilities,
  unverified_capabilities, has_identity_capability, require_identity_capability,
}

-- A capability is granted exactly when the role has it, and either it is one of the five that an
-- account keeps before its setup is done, or the e-mail is verified and no password change is due.
pub require_identity_capability_iff :
    (s : SessionSubject) (c : Capability)
    → (require_identity_capability s c ≡ ok tt) ↔ (
        (includes (global_role_capabilities s.role) c ≡ true)
        × ((includes unverified_capabilities c ≡ true)
            ⊎ ((s.email_verified ≡ true) × (s.must_change_password ≡ false))))
unfolding require_identity_capability has_identity_capability
require_identity_capability_iff s c = ground arith

-- Every capability of a player is one of an organizer, and every one of an organizer is one of an
-- administrator.
pub roles_grow :
    (c : Capability)
    → (includes (global_role_capabilities GlobalRole.user) c ≡ true
        → includes (global_role_capabilities GlobalRole.organizer) c ≡ true)
      × (includes (global_role_capabilities GlobalRole.organizer) c ≡ true
          → includes (global_role_capabilities GlobalRole.admin) c ≡ true)
unfolding global_role_capabilities includes
roles_grow Capability.public_browse = ground arith
roles_grow _ = ground arith

-- No player judges or manages a contest.
pub judge_is_staff :
    (s : SessionSubject)
    → require_identity_capability s Capability.contest_judge ≡ ok tt
    → (s.role ≢ GlobalRole.user) × (s.email_verified ≡ true) × (s.must_change_password ≡ false)
unfolding require_identity_capability has_identity_capability unverified_capabilities
    global_role_capabilities includes
judge_is_staff s h = ground arith
