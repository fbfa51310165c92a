-- ===== src/Participations/Lifecycle/Admission.antt =====
-- What a registration and an acceptance ask of a contest and a team
-- (apps/web/server/infrastructure/db/participation-repository.ts).
use mathlib.Core.Path.{subst}
use sauryctf.Prelude.{
  ℕ, String, true, false, ◌≡◌, ◌∙◌, refl, sym, ◌&&◌, ◌||◌, not, any, Option, some, none,
}
use sauryctf.Prelude.Keys.{eqb, eqb_refl}
use sauryctf.Prelude.Table.{find, find-snoc, find-update_where, or_throw, or_throw-ok}
use sauryctf.Prelude.Result.{ok, ok-inj, bind-eq-ok, throw_if}
use sauryctf.Participations.Tables.{
  Database, LockedContest, Participation, ParticipationRecord, not_found, transition_invalid,
  conflict,
}
use sauryctf.Participations.Eligibility.{
  member_accounts, require_registration_open, verify_submitted_invite, verify_invite_evidence,
  validate_team_eligibility,
}
use sauryctf.Participations.Eligibility.Laws.{
  IsAdmitted, IsAdmitted-of_checks, verify_submitted_invite-ok, verify_submitted_invite-digest,
  verify_invite_evidence-ok,
}
use sauryctf.Participations.Store.{
  lock_actor_team, lock_contest, lock_team, locate_participation_team, in_contest, is_pending,
  register, registered, new_participation, place_row, place_registration, of_team, is_withdrawn,
  default_division, read_by_id,
}
use sauryctf.Participations.Review.{accepted, Decision, ReviewCommand, check_decision, review}

-- The contest, as it is locked at a time, admits the team with the digest that is kept.
abbrev pub Admits : Database → ℕ → String → String → Option String → Type 0
Admits db now contest_id team_id digest =
    (contest : LockedContest) × (lock_contest db now contest_id ≡ ok contest)
    × IsAdmitted contest (member_accounts db.users team_id db.members) digest

-- What a registration has checked and stored.
pub record IsRegistered (db db' : Database) (now : ℕ) (user_id contest_id : String)
    (code : Option String) : Type 0 where
  pub team_id : String
  pub mine : lock_actor_team db user_id ≡ ok team_id
  pub contest : LockedContest
  pub locked : lock_contest db now contest_id ≡ ok contest
  pub row : Participation
  pub stored : find (of_team contest_id team_id) db'.participations ≡ some row
  pub admitted :
      IsAdmitted contest (member_accounts db.users team_id db.members) row.invite_digest_verified
  pub code_kept : contest.invite_required ≡ true → code ≡ row.invite_digest_verified
  pub no_code : contest.invite_required ≡ false → row.invite_digest_verified ≡ none

-- The row of a registration is written with the digest.
place_row-stored :
    (db db' : Database) (id contest_id team_id user_id i : String) (now : ℕ)
    (contest : LockedContest) (d digest : Option String) (o : Option Participation)
    → find (of_team contest_id team_id) db.participations ≡ o
    → place_row db id contest_id team_id
        (registered now user_id contest d digest)
        (new_participation now id contest_id team_id)
        o
      ≡ ok (db', i)
    → (row : Participation) × (find (of_team contest_id team_id) db'.participations ≡ some row)
      × (row.invite_digest_verified ≡ digest)
unfolding place_row
place_row-stored db db' id contest_id team_id user_id i now contest d digest none e h =
    let ps = db.participations in
    let write = registered now user_id contest d digest in
    let fresh = write (new_participation now id contest_id team_id) in
    let (_, _, h₁) =
      bind-eq-ok
        (throw_if (any (λ (p : Participation). eqb p.id id || of_team contest_id team_id p) ps)
          conflict)
        _ h in
    let here : of_team contest_id team_id fresh ≡ true =
      rw (eqb_refl contest_id, eqb_refl team_id) refl in
    (
      fresh,
      subst
          (λ (z : Database × String).
            find (of_team contest_id team_id) z.0.participations ≡ some fresh)
          (ok-inj refl h₁) (find-snoc (of_team contest_id team_id) ps fresh e here),
      refl,
    )
place_row-stored db db' id contest_id team_id user_id i now contest d digest (some p) e h =
    let ps = db.participations in
    let write = registered now user_id contest d digest in
    let (_, _, h₁) = bind-eq-ok (throw_if (not (is_withdrawn p.status)) conflict) _ h in
    let found =
      find-update_where (of_team contest_id team_id) (λ (x : Participation). eqb x.id p.id) write ps
        p (λ x. refl) e in
    (
      write p,
      subst
          (λ (z : Database × String).
            find (of_team contest_id team_id) z.0.participations ≡ some (write p))
          (ok-inj refl h₁) (found ∙ rw (eqb_refl p.id) refl),
      refl,
    )

-- A registration succeeds only for the team of the actor, when the contest is published and has not
-- ended, the team's size is within the bounds, and every member's account is active, verified and
-- set up. Where the contest asks for an invite code, the digest of the one that was submitted is the
-- contest's. The row of the team that is stored then keeps the submitted digest, and otherwise none.
pub register-Admits :
    (db db' : Database) (now : ℕ) (id user_id contest_id : String) (code : Option String)
    (a : ParticipationRecord)
    → register db now id user_id contest_id code ≡ ok (db', a)
    → IsRegistered db db' now user_id contest_id code
unfolding register validate_team_eligibility
register-Admits db db' now id user_id contest_id code a h =
    let (team_id, mine, h₁) = bind-eq-ok (lock_actor_team db user_id) _ h in
    let (contest, locked, h₂) = bind-eq-ok (lock_contest db now contest_id) _ h₁ in
    let (u, open_now, h₃) = bind-eq-ok (require_registration_open contest) _ h₂ in
    let (digest, invited, h₄) = bind-eq-ok (verify_submitted_invite contest code) _ h₃ in
    let (v, sized, h₅) = bind-eq-ok (validate_team_eligibility db team_id contest) _ h₄ in
    let (placed, e, h₆) =
      bind-eq-ok
        (place_registration db id contest_id team_id
          (registered now user_id contest (default_division db contest_id) digest)
          (new_participation now id contest_id team_id))
        _ h₅ in
    let (answer, _, h₇) = bind-eq-ok (read_by_id placed.0 contest_id placed.1) _ h₆ in
    let (row, there, kept) =
      place_row-stored db placed.0 id contest_id team_id user_id placed.1 now contest
        (default_division db contest_id) digest
        (find (of_team contest_id team_id) db.participations) refl e in
    let (asked, unasked) = verify_submitted_invite-digest contest code digest invited in
    record {
      team_id = team_id;
      mine = mine;
      contest = contest;
      locked = locked;
      row = row;
      stored =
          subst
            (λ (z : Database × ParticipationRecord).
              find (of_team contest_id team_id) z.0.participations ≡ some row)
            (ok-inj refl h₇) there;
      admitted =
          subst (IsAdmitted contest (member_accounts db.users team_id db.members)) (sym kept) (
            IsAdmitted-of_checks contest (member_accounts db.users team_id db.members) digest u v
              open_now sized (verify_submitted_invite-ok contest code digest invited));
      code_kept = λ r. asked r ∙ sym kept;
      no_code = λ r. kept ∙ unasked r;
    }

-- What a decision asks for.
decision-IsAdmitted :
    (db : Database) (team_id : String) (contest : LockedContest) (p : Participation) (w : Unit {0})
    → check_decision db team_id contest p accepted ≡ ok w
    → IsAdmitted contest (member_accounts db.users team_id db.members) p.invite_digest_verified
unfolding check_decision validate_team_eligibility
decision-IsAdmitted db team_id contest p w h =
    let (u, open_now, h₁) = bind-eq-ok (require_registration_open contest) _ h in
    let (x, invited, h₂) =
      bind-eq-ok (verify_invite_evidence contest p.invite_digest_verified) _ h₁ in
    IsAdmitted-of_checks contest (member_accounts db.users team_id db.members)
      p.invite_digest_verified u w open_now h₂
      (verify_invite_evidence-ok contest p.invite_digest_verified x invited)

-- A review that accepts a participation succeeds only when, at that time, the contest admits the
-- team by the same conditions, with the digest that the registration kept.
pub review-Admits :
    (db db' : Database) (now : ℕ) (command : ReviewCommand) (a : ParticipationRecord)
    → review db now command ≡ ok (db', a)
    → command.decision ≡ accepted
    → (team_id : String) × (locate_participation_team db command.contest_id command.participation_id
        ≡ ok team_id)
      × (p : Participation) × (find
            (λ x. in_contest command.contest_id command.participation_id x && eqb x.team_id team_id)
            db.participations
          ≡ some p)
      × Admits db now command.contest_id team_id p.invite_digest_verified
unfolding review
review-Admits db db' now command a h chosen =
    let (team_id, located, h₁) =
      bind-eq-ok (locate_participation_team db command.contest_id command.participation_id) _ h in
    let (_, _, h₂) = bind-eq-ok (lock_team db team_id) _ h₁ in
    let (contest, locked, h₃) = bind-eq-ok (lock_contest db now command.contest_id) _ h₂ in
    let (p, e, h₄) =
      bind-eq-ok
        (or_throw
          (find
            (λ (x : Participation).
              in_contest command.contest_id command.participation_id x && eqb x.team_id team_id)
            db.participations)
          not_found)
        _ h₃ in
    let (_, _, h₅) = bind-eq-ok (throw_if (not (is_pending p.status)) transition_invalid) _ h₄ in
    let (w, decided, _) = bind-eq-ok (check_decision db team_id contest p command.decision) _ h₅ in
    let agreed =
      subst (λ (d : Decision). check_decision db team_id contest p d ≡ ok w) chosen decided in
    (
      team_id,
      located,
      p,
      or_throw-ok _ not_found p e,
      (contest, locked, decision-IsAdmitted db team_id contest p w agreed),
    )
