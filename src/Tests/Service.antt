-- ===== src/Tests/Service.antt =====
-- A judge's review and a player's registration, through the service.
use sauryctf.Prelude.{true, false, ◌≡◌, refl, some, none, inl}
use sauryctf.Prelude.Result.{ok}
use sauryctf.Identity.Capabilities.{
  GlobalRole, includes, global_role_capabilities, unverified_capabilities, has_identity_capability,
  require_identity_capability,
}
use sauryctf.Participations.Lifecycle.Reachability.{Step}
use sauryctf.Participations.Service as Service
use sauryctf.Participations.Service.Guards.{IsJudge, changed_by_staff, changed_by_account}
use sauryctf.Participations.Store.{
  lock_team, lock_actor_team, lock_contest, default_division, record_of, read_by_id, place_row,
  register,
}
use sauryctf.Participations.Review.{review, check_decision, write_audit, ReviewCommand}
use sauryctf.Participations.Eligibility.{
  require_registration_open, verify_submitted_invite, verify_invite_evidence, member_accounts,
  allowed_email_domains, check_members, validate_team_eligibility,
}
use sauryctf.Tests.Access.{judge}
use sauryctf.Tests.Registration.{
  empty, waiting, admitted, pending_row, accepted_row, answer_of, command,
}

abbrev input : ReviewCommand
input = record command { actor_id = "anyone"; reason = "  fine " }

judge_reviews :
    Service.review waiting 7 (record judge { user_id = "judge" }) input
    ≡ ok (admitted, answer_of accepted_row)
unfolding Service.review require_identity_capability has_identity_capability unverified_capabilities
    global_role_capabilities includes review require_registration_open verify_invite_evidence
    member_accounts check_members allowed_email_domains validate_team_eligibility lock_team
    lock_contest record_of read_by_id check_decision write_audit
judge_reviews = refl

changed_by_staff_example : IsJudge (record judge { user_id = "judge" }) × Step waiting admitted
changed_by_staff_example =
    changed_by_staff waiting admitted 7 (record judge { user_id = "judge" })
      (answer_of accepted_row) input
      (record {
        actor_id = "";
        request_id = "";
        contest_id = "";
        participation_id = "";
        division_id = none;
        reason = none;
      })
      (inl judge_reviews)

player_registers :
    Service.register
      (λ code. code)
      empty
      5
      "p"
      (record judge { user_id = "u"; role = GlobalRole.user })
      "c"
      (some "0123456789abcdef0123456789abcdef")
    ≡ ok (waiting, answer_of pending_row)
unfolding Service.register require_identity_capability has_identity_capability
    unverified_capabilities global_role_capabilities includes register require_registration_open
    verify_submitted_invite member_accounts check_members allowed_email_domains
    validate_team_eligibility lock_team lock_actor_team lock_contest default_division record_of
    read_by_id place_row
player_registers = refl

changed_by_account_example : ((true ≡ true) × (false ≡ false)) × Step empty waiting
changed_by_account_example =
    changed_by_account (λ code. code) empty waiting 5
      (record judge { user_id = "u"; role = GlobalRole.user }) "c" (answer_of pending_row) "p"
      (some "0123456789abcdef0123456789abcdef") (inl player_registers)
