-- ===== src/Tests/Registration.antt =====
-- A team that registers for a contest and is accepted.
use sauryctf.Prelude.{String, ◌&&◌, true, false, ◌≡◌, refl, none, some, [], ◌∷◌}
use sauryctf.Prelude.Result.{ok, err}
use sauryctf.Submissions.Replay.Facts.{ParticipationStatus}
use sauryctf.Participations.Tables.{
  PublicationStatus, RegistrationStrategy, Visibility, object, array, AccountStatus, TeamRole,
  Participation, Database, ParticipationRecord, status_changed, transition_invalid, invite_invalid,
}
use sauryctf.Participations.Eligibility.{
  require_registration_open, verify_submitted_invite, verify_invite_evidence, member_accounts,
  allowed_email_domains, check_members, validate_team_eligibility,
}
use sauryctf.Participations.Store.{
  locate_participation_team, in_contest, lock_team, lock_actor_team, lock_contest, default_division,
  record_of, read_by_id, place_row, register, withdraw,
}
use sauryctf.Participations.Review.{accepted, ReviewCommand, review, check_decision, write_audit}
use sauryctf.Prelude.Keys.{eqb}
use sauryctf.Prelude.Table.{find}
use sauryctf.Participations.Lifecycle.{octet_length, IsTable}
use sauryctf.Participations.Lifecycle.Admission.{
  Admits, IsRegistered, register-Admits, review-Admits,
}
use sauryctf.Participations.Lifecycle.Reachability.{
  registers, reviews, Steps, start, next, AllKept, Steps-IsTable, Steps-AllKept,
}

abbrev pub empty : Database
empty = record {
  contests =
      record {
        id = "c";
        publication_status = PublicationStatus.published;
        registration_strategy = RegistrationStrategy.review;
        visibility = Visibility.public;
        invite_required = true;
        invite_digest = some "0123456789abcdef0123456789abcdef";
        start_at = 10;
        end_at = 20;
        min_team_size = 1;
        max_team_size = 2;
        registration_constraints =
            object (("allowed_email_domains", array (some "a.org" ∷ [])) ∷ []);
      }
      ∷ [];
  divisions = record { id = "d"; contest_id = "c"; name = "Open" } ∷ [];
  teams = record { id = "t"; name = "Team" } ∷ [];
  members = record { user_id = "u"; team_id = "t"; role = TeamRole.captain } ∷ [];
  users =
      record {
        id = "u";
        email_normalized = "u@a.org";
        email_verified_at = some 1;
        status = AccountStatus.active;
        must_change_password = false;
      }
      ∷ [];
  participations = [];
  audit_events = [];
}

abbrev pub pending_row : Participation
pending_row = record {
  id = "p";
  contest_id = "c";
  team_id = "t";
  division_id = some "d";
  status = ParticipationStatus.pending;
  registered_by = "u";
  registered_at = 5;
  reviewed_by = none;
  reviewed_at = none;
  review_reason = none;
  withdrawn_at = none;
  invite_digest_verified = some "0123456789abcdef0123456789abcdef";
  version = 1;
  updated_at = 5;
}

abbrev pub answer_of : Participation → ParticipationRecord
answer_of p = record {
  id = p.id;
  contest_id = p.contest_id;
  team_id = p.team_id;
  team_name = "Team";
  division_id = p.division_id;
  division_name = some "Open";
  status = p.status;
  registered_at = p.registered_at;
  reviewed_at = p.reviewed_at;
  review_reason = p.review_reason;
  withdrawn_at = p.withdrawn_at;
  version = p.version;
}

abbrev pub waiting : Database
waiting = record empty { participations = pending_row ∷ [] }

abbrev pub accepted_row : Participation
accepted_row = record pending_row {
  status = ParticipationStatus.accepted;
  reviewed_by = some "judge";
  reviewed_at = some 7;
  review_reason = some "fine";
  version = 2;
  updated_at = 7;
}

abbrev pub command : ReviewCommand
command = record {
  actor_id = "judge";
  request_id = "r";
  contest_id = "c";
  participation_id = "p";
  decision = accepted;
  reason = "fine";
}

abbrev pub admitted : Database
admitted =
    write_audit (record empty { participations = accepted_row ∷ [] }) "judge" "r" "c" "p"
      "contest.participation.reviewed" (some "fine") (status_changed ParticipationStatus.accepted)

register_run :
    register empty 5 "p" "u" "c" (some "0123456789abcdef0123456789abcdef")
    ≡ ok (waiting, answer_of pending_row)
unfolding register require_registration_open verify_submitted_invite member_accounts check_members
    allowed_email_domains validate_team_eligibility lock_team lock_actor_team lock_contest
    default_division record_of read_by_id place_row
register_run = refl

wrong_invite : register empty 5 "p" "u" "c" (some "guess") ≡ err invite_invalid
unfolding register require_registration_open verify_submitted_invite lock_team lock_actor_team
    lock_contest
wrong_invite = refl

review_run : review waiting 7 command ≡ ok (admitted, answer_of accepted_row)
unfolding review require_registration_open verify_invite_evidence member_accounts check_members
    allowed_email_domains validate_team_eligibility lock_team lock_contest record_of read_by_id
    check_decision write_audit
review_run = refl

-- An accepted team does not withdraw.
stays : withdraw admitted 8 "u" "c" ≡ err transition_invalid
unfolding withdraw lock_team lock_actor_team lock_contest write_audit
stays = refl

admission : Steps empty admitted
admission =
    next waiting admitted
      (next empty waiting start (
        registers waiting 5 "p" "u" "c" (some "0123456789abcdef0123456789abcdef")
          (answer_of pending_row) register_run))
      (reviews admitted 7 command (answer_of accepted_row) review_run)

empty-IsTable : IsTable empty.participations
empty-IsTable = record { checks = tt; ids = tt; places = tt }

Steps-IsTable_example : IsTable admitted.participations
unfolding octet_length
Steps-IsTable_example = Steps-IsTable empty admitted admission (refl, tt) empty-IsTable

Steps-AllKept_example : AllKept waiting.participations admitted.participations
Steps-AllKept_example =
    Steps-AllKept waiting admitted
      (next waiting admitted start (reviews admitted 7 command (answer_of accepted_row) review_run))
      (refl, tt)

register-Admits_example :
    IsRegistered empty waiting 5 "u" "c" (some "0123456789abcdef0123456789abcdef")
register-Admits_example =
    register-Admits empty waiting 5 "p" "u" "c" (some "0123456789abcdef0123456789abcdef")
      (answer_of pending_row) register_run

review-Admits_example :
    (team_id : String) × (locate_participation_team waiting "c" "p" ≡ ok team_id)
    × (p : Participation) × (find
          (λ x. in_contest "c" "p" x && eqb x.team_id team_id)
          waiting.participations
        ≡ some p)
    × Admits waiting 7 "c" team_id p.invite_digest_verified
review-Admits_example =
    review-Admits waiting admitted 7 command (answer_of accepted_row) review_run refl
