-- ===== src/Tests/Access.antt =====
-- Who may do what, at three accounts.
use sauryctf.Prelude.{true, false, ◌≡◌, ◌≢◌, ◌↔◌, ◌⊎◌, refl}
use sauryctf.Prelude.Result.{ok, err}
use sauryctf.Identity.Capabilities.{
  GlobalRole, UserStatus, SessionSubject, Capability, CapabilityError, includes,
  global_role_capabilities, unverified_capabilities, has_identity_capability,
  require_identity_capability,
}
use sauryctf.Identity.Capabilities.Laws.{
  require_identity_capability_iff, roles_grow, judge_is_staff,
}

abbrev pub judge : SessionSubject
judge = record {
  user_id = "u1";
  username = "judge";
  email = "judge@example.org";
  email_verified = true;
  status = UserStatus.active;
  role = GlobalRole.organizer;
  session_version = 1;
  must_change_password = false;
}

abbrev newcomer : SessionSubject
newcomer = record judge { role = GlobalRole.user; email_verified = false }

newcomer_refused :
    require_identity_capability newcomer Capability.flag_submit
    ≡ err CapabilityError.email_verification_required
unfolding require_identity_capability has_identity_capability unverified_capabilities
    global_role_capabilities includes
newcomer_refused = refl

require_identity_capability_iff_example :
    (require_identity_capability newcomer Capability.logout ≡ ok tt) ↔ (
      (includes (global_role_capabilities GlobalRole.user) Capability.logout ≡ true)
      × ((includes unverified_capabilities Capability.logout ≡ true)
          ⊎ ((newcomer.email_verified ≡ true) × (newcomer.must_change_password ≡ false))))
require_identity_capability_iff_example = require_identity_capability_iff newcomer Capability.logout

roles_grow_example :
    (includes (global_role_capabilities GlobalRole.user) Capability.user_manage ≡ true
      → includes (global_role_capabilities GlobalRole.organizer) Capability.user_manage ≡ true)
    × (includes (global_role_capabilities GlobalRole.organizer) Capability.user_manage ≡ true
        → includes (global_role_capabilities GlobalRole.admin) Capability.user_manage ≡ true)
roles_grow_example = roles_grow Capability.user_manage

judge_is_staff_example :
    (GlobalRole.organizer ≢ GlobalRole.user)
    × (judge.email_verified ≡ true)
    × (judge.must_change_password ≡ false)
unfolding require_identity_capability has_identity_capability unverified_capabilities
    global_role_capabilities includes
judge_is_staff_example = judge_is_staff judge refl
