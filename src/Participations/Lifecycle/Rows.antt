-- ===== src/Participations/Lifecycle/Rows.antt =====
-- The rows that the operations of the participation repository write, and their constraints.
use mathlib.Core.Path.{subst}
use sauryctf.Prelude.{
  All, ap, ◌∙◌, Bool-cases, inl, inr, ℕ, String, true, false, ◌≡◌, ◌||◌, refl, Option, List, [],
  ◌∷◌, map, any, arith,
}
use sauryctf.Prelude.Keys.{eqb, eqb_iff, string_key, pair_key}
use sauryctf.Prelude.Dict.{contains}
use sauryctf.Prelude.Table.{All-find, find, or_throw, or_throw-ok}
use sauryctf.Prelude.Result.{ok, bind-eq-ok, ok-inj}
use sauryctf.Participations.Tables.{
  Contest, contest_not_found, Participation, LockedContest, Database,
}
use sauryctf.Participations.Store.{
  of_team, registered, withdrawn_row, is_withdrawn, is_pending, can_withdraw, lock_contest,
}
use sauryctf.Participations.Eligibility.{verify_submitted_invite}
use sauryctf.Participations.Eligibility.Laws.{
  verify_submitted_invite-ok, verify_submitted_invite-digest,
}
use sauryctf.Participations.Review.{ReviewCommand, reviewed, moved}
use sauryctf.Participations.Lifecycle.{
  meets_checks, place_of, meets_invite_check, is_digest_or_null,
}
use sauryctf.Participations.Lifecycle.Changes.{Follows}

-- The contests meet their CHECK constraint.
abbrev pub MeetInviteChecks : Database → Type 0
MeetInviteChecks db = All (λ c. meets_invite_check c ≡ true) db.contests

-- The unique indexes let the new row in.
pub free_id :
    (id c t : String) (ps : List Participation)
    → any (λ p. eqb p.id id || of_team c t p) ps ≡ false
    → contains (map (λ p. p.id) ps) id ≡ false
free_id id c t [] h = refl
free_id id c t (p ∷ ps) h = ground (arith, free_id id c t ps, eqb_iff p.id id, eqb_iff id p.id)

pub free_place :
    (id c t : String) (ps : List Participation)
    → any (λ p. eqb p.id id || of_team c t p) ps ≡ false
    → contains (map place_of ps) (c, t) ≡ false
free_place id c t [] h = refl
free_place id c t (p ∷ ps) h = ground (
  arith,
  free_place id c t ps,
  eqb_iff p.contest_id c,
  eqb_iff c p.contest_id,
  eqb_iff p.team_id t,
  eqb_iff t p.team_id,
)

pub withdrawn_row-Follows :
    (G : Type 0) (now : ℕ) (p : Participation)
    → can_withdraw p.status ≡ true
    → Follows G p (withdrawn_row now p)
withdrawn_row-Follows G now p h = record {
  same_id = refl;
  same_place = refl;
  edge = ground arith;
  checked = λ g k. ground arith;
}

pub reviewed-Follows :
    (G : Type 0) (now : ℕ) (command : ReviewCommand) (p : Participation)
    → is_pending p.status ≡ true
    → Follows G p (reviewed now command p)
reviewed-Follows G now command p h = record {
  same_id = refl;
  same_place = refl;
  edge = ground arith;
  checked = λ g k. ground arith;
}

pub moved-Follows :
    (G : Type 0) (now : ℕ) (division_id : Option String) (p : Participation)
    → is_withdrawn p.status ≡ false
    → Follows G p (moved now division_id p)
moved-Follows G now division_id p h = record {
  same_id = refl;
  same_place = refl;
  edge = ground arith;
  checked = λ g k. ground arith;
}

pub lock_contest-digest :
    (db : Database) (now : ℕ) (contest_id : String) (contest : LockedContest)
    → MeetInviteChecks db
    → lock_contest db now contest_id ≡ ok contest
    → is_digest_or_null contest.invite_digest ≡ true
unfolding lock_contest
lock_contest-digest db now contest_id contest g h =
    let o = find (λ (c : Contest). eqb c.id contest_id) db.contests in
    let (c, e, h₁) = bind-eq-ok (or_throw o contest_not_found) _ h in
    let there = or_throw-ok o contest_not_found c e in
    let met : meets_invite_check c ≡ true =
      All-find (λ x. meets_invite_check x ≡ true) (λ x. eqb x.id contest_id) db.contests c g
        there in
    subst (λ (z : LockedContest). is_digest_or_null z.invite_digest ≡ true) (ok-inj refl h₁)
      (ground arith)

pub verified-digest :
    (contest : LockedContest) (submitted digest : Option String)
    → verify_submitted_invite contest submitted ≡ ok digest
    → is_digest_or_null contest.invite_digest ≡ true
    → is_digest_or_null digest ≡ true
unfolding verify_submitted_invite
verified-digest contest submitted digest h k = elim (Bool-cases contest.invite_required) [
  | inl asked ↦
      let (_, same) = verify_submitted_invite-ok contest submitted digest h asked in
      ap is_digest_or_null same ∙ k
  | inr unasked ↦
      let (_, gone) = verify_submitted_invite-digest contest submitted digest h in
      ap is_digest_or_null (gone unasked)
]

pub registered-checks :
    (now : ℕ) (user_id : String) (contest : LockedContest) (d digest : Option String)
    (p : Participation)
    → is_digest_or_null digest ≡ true
    → meets_checks (registered now user_id contest d digest p) ≡ true
registered-checks now user_id contest d digest p e = ground arith

pub registered-Follows :
    (G : Type 0) (now : ℕ) (user_id : String) (contest : LockedContest) (d digest : Option String)
    (p : Participation)
    → (G → is_digest_or_null digest ≡ true)
    → is_withdrawn p.status ≡ true
    → Follows G p (registered now user_id contest d digest p)
registered-Follows G now user_id contest d digest p e h = record {
  same_id = refl;
  same_place = refl;
  edge = ground arith;
  checked = λ g k. registered-checks now user_id contest d digest p (e g);
}
