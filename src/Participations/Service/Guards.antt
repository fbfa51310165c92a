-- ===== src/Participations/Service/Guards.antt =====
-- Who may change participations
-- (apps/web/server/domains/participations/service.ts).
use sauryctf.Prelude.{ℕ, String, true, false, ◌≡◌, ◌≢◌, ◌⊎◌, inl, inr, Option, arith}
use sauryctf.Prelude.Result.{Result, ok, err, bind-eq-ok}
use sauryctf.Identity.Capabilities.{
  GlobalRole, SessionSubject, Capability, require_identity_capability, includes,
  unverified_capabilities,
}
use sauryctf.Identity.Capabilities.Laws.{judge_is_staff, require_identity_capability_iff}
use sauryctf.Participations.Tables.{Database, ParticipationRecord, RepositoryError}
use sauryctf.Participations.Review.{ReviewCommand, DivisionCommand}
use sauryctf.Participations.Lifecycle.Reachability.{Step, registers, withdraws, reviews, assigns}
use sauryctf.Participations.Service.{
  map_errors, require, digest_of, register, withdraw, review, assign_division,
}

map_errors-ok : {A : Type 0} (r : Result RepositoryError A) (a : A) → map_errors r ≡ ok a → r ≡ ok a
map_errors-ok (ok b) a h = cc
map_errors-ok (err e) a h = cc

require-ok :
    (actor : SessionSubject) (c : Capability) (u : Unit {0})
    → require actor c ≡ ok u
    → require_identity_capability actor c ≡ ok tt
require-ok actor c u h = ground arith

-- An account that is set up and belongs to the staff.
abbrev pub IsJudge : SessionSubject → Type 0
IsJudge actor =
    (actor.role ≢ GlobalRole.user)
    × (actor.email_verified ≡ true)
    × (actor.must_change_password ≡ false)

module _ (db db' : Database) (now : ℕ) (actor : SessionSubject) (a : ParticipationRecord) where
  review_by_staff :
      (input : ReviewCommand)
      → review db now actor input ≡ ok (db', a)
      → IsJudge actor × Step db db'
  unfolding review
  review_by_staff input h =
      let (u, may, h₁) = bind-eq-ok (require actor Capability.contest_judge) _ h in
      (judge_is_staff actor (require-ok actor _ u may), reviews db' now _ a (map_errors-ok _ _ h₁))

  division_by_staff :
      (input : DivisionCommand)
      → assign_division db now actor input ≡ ok (db', a)
      → IsJudge actor × Step db db'
  unfolding assign_division
  division_by_staff input h =
      let (u, may, h₁) = bind-eq-ok (require actor Capability.contest_judge) _ h in
      (judge_is_staff actor (require-ok actor _ u may), assigns db' now _ a (map_errors-ok _ _ h₁))

  -- A review or a change of division that succeeds is asked for by a member of the staff whose
  -- account is set up, and is one step of the repository.
  pub changed_by_staff :
      (input : ReviewCommand) (move : DivisionCommand)
      → (review db now actor input ≡ ok (db', a))
        ⊎ (assign_division db now actor move ≡ ok (db', a))
      → IsJudge actor × Step db db'
  changed_by_staff input move (inl h) = review_by_staff input h
  changed_by_staff input move (inr h) = division_by_staff move h

-- Registering is not among what an account may do before its setup is done.
registers_set_up :
    (actor : SessionSubject)
    → require_identity_capability actor Capability.contest_register ≡ ok tt
    → (actor.email_verified ≡ true) × (actor.must_change_password ≡ false)
unfolding unverified_capabilities includes
registers_set_up actor h =
    let (_, either) = (require_identity_capability_iff actor Capability.contest_register).0 h in
    elim either [ inl before ↦ cc | inr done ↦ done ]

module _ (sha256 : String → String) (db db' : Database) (now : ℕ) (actor : SessionSubject)
    (contest_id : String) (a : ParticipationRecord) where
  register_by_account :
      (id : String) (invite_code : Option String)
      → register sha256 db now id actor contest_id invite_code ≡ ok (db', a)
      → ((actor.email_verified ≡ true) × (actor.must_change_password ≡ false)) × Step db db'
  unfolding register
  register_by_account id invite_code h =
      let (u, may, h₁) = bind-eq-ok (require actor Capability.contest_register) _ h in
      (
        registers_set_up actor (require-ok actor _ u may),
        registers db' now id actor.user_id contest_id (digest_of sha256 invite_code) a
            (map_errors-ok _ _ h₁),
      )

  withdraw_by_account :
      withdraw db now actor contest_id ≡ ok (db', a)
      → ((actor.email_verified ≡ true) × (actor.must_change_password ≡ false)) × Step db db'
  unfolding withdraw
  withdraw_by_account h =
      let (u, may, h₁) = bind-eq-ok (require actor Capability.contest_register) _ h in
      (
        registers_set_up actor (require-ok actor _ u may),
        withdraws db' now actor.user_id contest_id a (map_errors-ok _ _ h₁),
      )

  -- A registration or a withdrawal that succeeds is asked for by an account with a verified e-mail
  -- and no password change due, and is one step of the repository.
  pub changed_by_account :
      (id : String) (invite_code : Option String)
      → (register sha256 db now id actor contest_id invite_code ≡ ok (db', a))
        ⊎ (withdraw db now actor contest_id ≡ ok (db', a))
      → ((actor.email_verified ≡ true) × (actor.must_change_password ≡ false)) × Step db db'
  changed_by_account id invite_code (inl h) = register_by_account id invite_code h
  changed_by_account id invite_code (inr h) = withdraw_by_account h
