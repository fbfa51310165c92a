-- ===== src/Identity/Capabilities.antt =====
-- apps/web/server/domains/identity/capabilities.ts, with the session subject of repository.ts.
pub mod Laws
use sauryctf.Prelude.{
  ℕ, String, Bool, true, false, not, ◌&&◌, List, [], ◌∷◌, ◌++◌, any, if◌then◌else◌,
}
use sauryctf.Prelude.Keys.{eqb}
use sauryctf.Prelude.Result.{Result, ok, err, throw_if, ◌>>◌, ◌>>=◌}

pub data GlobalRole : Type 0 where
  user organizer admin : GlobalRole

pub data UserStatus : Type 0 where
  active banned : UserStatus

pub record SessionSubject : Type 0 where
  pub user_id : String
  pub username : String
  pub email : String
  pub email_verified : Bool
  pub status : UserStatus
  pub role : GlobalRole
  pub session_version : ℕ
  pub must_change_password : Bool

pub data Capability : Type 0 where
  public_browse account_read account_write verification_resend logout : Capability
  team_write contest_register flag_submit content_download writeup_write : Capability
  instance_operate contest_manage contest_judge user_manage role_manage : Capability
  platform_settings_manage global_operations_manage : Capability

-- The text that stands for a capability in the program's sets.
abbrev pub capability_text : Capability → String
capability_text public_browse = "public.browse"
capability_text account_read = "account.read"
capability_text account_write = "account.write"
capability_text verification_resend = "verification.resend"
capability_text logout = "auth.logout"
capability_text team_write = "team.write"
capability_text contest_register = "contest.register"
capability_text flag_submit = "flag.submit"
capability_text content_download = "content.download"
capability_text writeup_write = "writeup.write"
capability_text instance_operate = "instance.operate"
capability_text contest_manage = "contest.manage"
capability_text contest_judge = "contest.judge"
capability_text user_manage = "user.manage"
capability_text role_manage = "role.manage"
capability_text platform_settings_manage = "platform.settings.manage"
capability_text global_operations_manage = "platform.operations.manage"

-- `set.has(capability)`.
unfoldable pub includes : List Capability → Capability → Bool
includes set c = any (λ d. eqb (capability_text d) (capability_text c)) set

abbrev pub player_capabilities : List Capability
player_capabilities =
    public_browse ∷ account_read ∷ account_write ∷ verification_resend ∷ logout ∷ team_write
    ∷ contest_register ∷ flag_submit ∷ content_download ∷ writeup_write ∷ instance_operate ∷ []

unfoldable pub global_role_capabilities : GlobalRole → List Capability
global_role_capabilities user = player_capabilities
global_role_capabilities organizer = player_capabilities ++ contest_manage ∷ contest_judge ∷ []
global_role_capabilities admin =
    player_capabilities
    ++ contest_manage ∷ contest_judge ∷ user_manage ∷ role_manage ∷ platform_settings_manage
      ∷ global_operations_manage ∷ []

unfoldable pub unverified_capabilities : List Capability
unverified_capabilities =
    public_browse ∷ account_read ∷ account_write ∷ verification_resend ∷ logout ∷ []

pub data CapabilityError : Type 0 where
  email_verification_required account_setup_required capability_forbidden : CapabilityError

unfoldable pub has_identity_capability : SessionSubject → Capability → Bool
has_identity_capability subject capability =
    includes (global_role_capabilities subject.role) capability

unfoldable pub require_identity_capability :
    SessionSubject → Capability → Result CapabilityError (Unit {0})
require_identity_capability subject capability = do
  throw_if (subject.must_change_password && not (includes unverified_capabilities capability))
      account_setup_required
  throw_if (not subject.email_verified && not (includes unverified_capabilities capability))
      email_verification_required
  throw_if (not (has_identity_capability subject capability)) capability_forbidden
