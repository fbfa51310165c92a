-- ===== src/Participations/Lifecycle/Steps.antt =====
-- Each operation of the participation repository as a step of its table.
use mathlib.Core.Path.{subst}
use sauryctf.Prelude.{
  ℕ, String, Bool, true, ◌≡◌, not, ◌||◌, ◌&&◌, refl, Option, some, none, List, any, arith,
}
use sauryctf.Prelude.Keys.{eqb, eqb_iff, string_key, pair_key}
use sauryctf.Prelude.Table.{find, find-test, update_where, or_throw, or_throw-ok}
use sauryctf.Prelude.Result.{ok, bind-eq-ok, ok-inj, throw_if, throw_if-ok}
use sauryctf.Participations.Tables.{
  Participation, LockedContest, Database, ParticipationRecord, not_found, transition_invalid,
  conflict,
}
use sauryctf.Participations.Store.{
  of_team, in_contest, with_row, place_row, place_registration, new_participation, registered,
  register, withdraw, withdrawn_row, is_withdrawn, is_pending, can_withdraw, lock_actor_team,
  lock_contest, locate_participation_team, lock_team, read_by_id, default_division,
}
use sauryctf.Participations.Eligibility.{
  require_registration_open, verify_submitted_invite, validate_team_eligibility,
}
use sauryctf.Participations.Review.{
  ReviewCommand, DivisionCommand, review, assign_division, reviewed, moved, check_decision,
  check_division, write_audit,
}
use sauryctf.Participations.Lifecycle.{place_of, is_digest_or_null}
use sauryctf.Participations.Lifecycle.Changes.{Follows, Change, inserted, updated}
use sauryctf.Participations.Lifecycle.Rows.{
  MeetInviteChecks, free_id, free_place, withdrawn_row-Follows, reviewed-Follows, moved-Follows,
  lock_contest-digest, verified-digest, registered-checks, registered-Follows,
}

-- A change of the table of participations, and of no contest.
abbrev pub IsStep : Database → Database → Type 0
IsStep db db' =
    Change (MeetInviteChecks db) db.participations db'.participations × (db'.contests ≡ db.contests)

pub withdraw-Change :
    (db db' : Database) (now : ℕ) (user_id contest_id : String) (a : ParticipationRecord)
    → withdraw db now user_id contest_id ≡ ok (db', a)
    → IsStep db db'
unfolding withdraw
withdraw-Change db db' now user_id contest_id a h =
    let (team_id, _, h₁) = bind-eq-ok (lock_actor_team db user_id) _ h in
    let (_, _, h₂) = bind-eq-ok (lock_contest db now contest_id) _ h₁ in
    let (p, e, h₃) =
      bind-eq-ok (or_throw (find (of_team contest_id team_id) db.participations) not_found) _ h₂ in
    let (u, g, h₄) = bind-eq-ok (throw_if (not (can_withdraw p.status)) transition_invalid) _ h₃ in
    let (_, _, h₅) =
      bind-eq-ok (read_by_id (with_row db p.id (withdrawn_row now)) contest_id p.id) _ h₄ in
    let allowed : can_withdraw p.status ≡ true = ground (arith, throw_if-ok _ _ u g) in
    subst (λ (z : Database × ParticipationRecord). IsStep db z.0) (ok-inj refl h₅)
      (
        updated (of_team contest_id team_id) p (withdrawn_row now) (or_throw-ok _ _ p e) (λ x. refl)
            (λ x. refl) (withdrawn_row-Follows (MeetInviteChecks db) now p allowed),
        refl,
      )

module _ (db db' : Database) (id contest_id team_id user_id i : String) (now : ℕ)
    (contest : LockedContest) (d digest : Option String)
    (kept : MeetInviteChecks db → is_digest_or_null digest ≡ true) where
  abbrev write : Participation → Participation
  write = registered now user_id contest d digest

  abbrev fresh : Participation
  fresh = new_participation now id contest_id team_id

  place_row-Change :
      (o : Option Participation)
      → find (of_team contest_id team_id) db.participations ≡ o
      → place_row db id contest_id team_id write fresh o ≡ ok (db', i)
      → IsStep db db'
  unfolding place_row
  place_row-Change none there h =
      let ps = db.participations in
      let (u, g, h₁) =
        bind-eq-ok
          (throw_if (any (λ (p : Participation). eqb p.id id || of_team contest_id team_id p) ps)
            conflict)
          _ h in
      let free = throw_if-ok _ conflict u g in
      subst (λ (z : Database × String). IsStep db z.0) (ok-inj refl h₁)
        (
          inserted (write fresh) (free_id id contest_id team_id ps free)
              (free_place id contest_id team_id ps free)
              (λ g. registered-checks now user_id contest d digest fresh (kept g)),
          refl,
        )
  place_row-Change (some p) there h =
      let (u, g, h₁) = bind-eq-ok (throw_if (not (is_withdrawn p.status)) conflict) _ h in
      let gone : is_withdrawn p.status ≡ true = ground (arith, throw_if-ok _ conflict u g) in
      subst (λ (z : Database × String). IsStep db z.0) (ok-inj refl h₁)
        (
          updated (of_team contest_id team_id) p write there (λ x. refl) (λ x. refl)
              (registered-Follows (MeetInviteChecks db) now user_id contest d digest p kept gone),
          refl,
        )

pub register-Change :
    (db db' : Database) (now : ℕ) (id user_id contest_id : String) (digest : Option String)
    (a : ParticipationRecord)
    → register db now id user_id contest_id digest ≡ ok (db', a)
    → IsStep db db'
unfolding register
register-Change db db' now id user_id contest_id digest a h =
    let (team_id, _, h₁) = bind-eq-ok (lock_actor_team db user_id) _ h in
    let (contest, e₂, h₂) = bind-eq-ok (lock_contest db now contest_id) _ h₁ in
    let (_, _, h₃) = bind-eq-ok (require_registration_open contest) _ h₂ in
    let (verified, e₄, h₄) = bind-eq-ok (verify_submitted_invite contest digest) _ h₃ in
    let (_, _, h₅) = bind-eq-ok (validate_team_eligibility db team_id contest) _ h₄ in
    let (placed, e, h₆) =
      bind-eq-ok
        (place_registration db id contest_id team_id
          (registered now user_id contest (default_division db contest_id) verified)
          (new_participation now id contest_id team_id))
        _ h₅ in
    let (answer, _, h₇) = bind-eq-ok (read_by_id placed.0 contest_id placed.1) _ h₆ in
    subst (λ (z : Database × ParticipationRecord). IsStep db z.0) (ok-inj refl h₇)
      (place_row-Change db placed.0 id contest_id team_id user_id placed.1 now contest
        (default_division db contest_id) verified
        (λ g.
          verified-digest contest digest verified e₄
            (lock_contest-digest db now contest_id contest g e₂))
        (find (of_team contest_id team_id) db.participations) refl e)

-- The row that an operation on an identifier found has that identifier.
found_row :
    (G : Type 0) (ps : List Participation) (id contest_id : String) (q : Participation → Bool)
    (f : Participation → Participation) (p : Participation)
    → find q ps ≡ some p
    → p.id ≡ id
    → ((x : Participation) → (f x).id ≡ x.id)
    → ((x : Participation) → place_of (f x) ≡ place_of x)
    → Follows G p (f p)
    → Change G ps (update_where (λ x. eqb x.id id) f ps)
found_row G ps id contest_id q f p found e ids places follows =
    subst (λ k. Change G ps (update_where (λ x. eqb x.id k) f ps)) e
      (updated q p f found ids places follows)

pub review-Change :
    (db db' : Database) (now : ℕ) (command : ReviewCommand) (a : ParticipationRecord)
    → review db now command ≡ ok (db', a)
    → IsStep db db'
unfolding review write_audit
review-Change db db' now command a h =
    let (team_id, _, h₁) =
      bind-eq-ok (locate_participation_team db command.contest_id command.participation_id) _ h in
    let (_, _, h₂) = bind-eq-ok (lock_team db team_id) _ h₁ in
    let (contest, _, h₃) = bind-eq-ok (lock_contest db now command.contest_id) _ h₂ in
    let q : Participation → Bool =
      (λ p. in_contest command.contest_id command.participation_id p && eqb p.team_id team_id) in
    let (p, e, h₄) = bind-eq-ok (or_throw (find q db.participations) not_found) _ h₃ in
    let (u, g, h₅) = bind-eq-ok (throw_if (not (is_pending p.status)) transition_invalid) _ h₄ in
    let (_, _, h₆) = bind-eq-ok (check_decision db team_id contest p command.decision) _ h₅ in
    let (_, _, h₇) = bind-eq-ok (read_by_id _ command.contest_id command.participation_id) _ h₆ in
    let found : find q db.participations ≡ some p = or_throw-ok _ not_found p e in
    let same : p.id ≡ command.participation_id =
      ground
        (arith, find-test q db.participations p found, eqb_iff p.id command.participation_id) in
    let pending : is_pending p.status ≡ true =
      ground (arith, throw_if-ok _ transition_invalid u g) in
    subst (λ (z : Database × ParticipationRecord). IsStep db z.0) (ok-inj refl h₇)
      (
        found_row (MeetInviteChecks db) db.participations command.participation_id
            command.contest_id q (reviewed now command) p found same (λ x. refl) (λ x. refl)
            (reviewed-Follows (MeetInviteChecks db) now command p pending),
        refl,
      )

pub assign_division-Change :
    (db db' : Database) (now : ℕ) (command : DivisionCommand) (a : ParticipationRecord)
    → assign_division db now command ≡ ok (db', a)
    → IsStep db db'
unfolding assign_division write_audit
assign_division-Change db db' now command a h =
    let (team_id, _, h₁) =
      bind-eq-ok (locate_participation_team db command.contest_id command.participation_id) _ h in
    let (_, _, h₂) = bind-eq-ok (lock_team db team_id) _ h₁ in
    let (_, _, h₃) = bind-eq-ok (lock_contest db now command.contest_id) _ h₂ in
    let q = in_contest command.contest_id command.participation_id in
    let (p, e, h₄) = bind-eq-ok (or_throw (find q db.participations) not_found) _ h₃ in
    let (u, g, h₅) = bind-eq-ok (throw_if (is_withdrawn p.status) transition_invalid) _ h₄ in
    let (_, _, h₆) = bind-eq-ok (check_division db command.contest_id command.division_id) _ h₅ in
    let (_, _, h₇) = bind-eq-ok (read_by_id _ command.contest_id command.participation_id) _ h₆ in
    let found : find q db.participations ≡ some p = or_throw-ok _ not_found p e in
    let same : p.id ≡ command.participation_id =
      ground
        (arith, find-test q db.participations p found, eqb_iff p.id command.participation_id) in
    subst (λ (z : Database × ParticipationRecord). IsStep db z.0) (ok-inj refl h₇)
      (
        found_row (MeetInviteChecks db) db.participations command.participation_id
            command.contest_id q (moved now command.division_id) p found same (λ x. refl)
            (λ x. refl)
            (moved-Follows (MeetInviteChecks db) now command.division_id p
              (throw_if-ok _ transition_invalid u g)),
        refl,
      )
