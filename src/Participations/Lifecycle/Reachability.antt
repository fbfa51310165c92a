-- ===== src/Participations/Lifecycle/Reachability.antt =====
-- Sequences of operations of the participation repository.
use mathlib.Core.Path.{subst}
use sauryctf.Prelude.Distinct.{IsDistinct}
use sauryctf.Prelude.{
  true, All, map, sym, ℕ, String, ◌≡◌, refl, ◌∙◌, Option, List, [], ◌∷◌, ◌++◌, All₂, arith,
}
use sauryctf.Prelude.Result.{ok}
use sauryctf.Prelude.Keys.{eqb, string_key}
use sauryctf.Prelude.Table.{update_where, update_found}
use sauryctf.Submissions.Replay.Facts.{ParticipationStatus}
use sauryctf.Participations.Tables.{Participation, Database, ParticipationRecord}
use sauryctf.Participations.Store.{register, withdraw}
use sauryctf.Participations.Review.{ReviewCommand, DivisionCommand, review, assign_division}
use sauryctf.Participations.Lifecycle.{meets_invite_check, place_of, IsTable}
use sauryctf.Participations.Lifecycle.Changes.{
  Follows, Change, inserted, updated, Change-ids, Change-IsTable,
}
use sauryctf.Participations.Lifecycle.Rows.{MeetInviteChecks}
use sauryctf.Participations.Lifecycle.Steps.{
  IsStep, register-Change, withdraw-Change, review-Change, assign_division-Change,
}

-- One transaction that succeeds, whoever asks for it and whenever.
pub data Step (db : Database) : Database → Type 0 where
  registers :
      (db' : Database) (now : ℕ) (id user_id contest_id : String) (digest : Option String)
      (a : ParticipationRecord)
      → register db now id user_id contest_id digest ≡ ok (db', a)
      → Step db db'
  withdraws :
      (db' : Database) (now : ℕ) (user_id contest_id : String) (a : ParticipationRecord)
      → withdraw db now user_id contest_id ≡ ok (db', a)
      → Step db db'
  reviews :
      (db' : Database) (now : ℕ) (command : ReviewCommand) (a : ParticipationRecord)
      → review db now command ≡ ok (db', a)
      → Step db db'
  assigns :
      (db' : Database) (now : ℕ) (command : DivisionCommand) (a : ParticipationRecord)
      → assign_division db now command ≡ ok (db', a)
      → Step db db'

pub data Steps (db : Database) : Database → Type 0 where
  start : Steps db db
  next : (db' db'' : Database) → Steps db db' → Step db' db'' → Steps db db''

pub Step-Change : (db db' : Database) → Step db db' → IsStep db db'
Step-Change db db' (registers _ now id user_id contest_id digest a h) =
    register-Change db db' now id user_id contest_id digest a h
Step-Change db db' (withdraws _ now user_id contest_id a h) =
    withdraw-Change db db' now user_id contest_id a h
Step-Change db db' (reviews _ now command a h) = review-Change db db' now command a h
Step-Change db db' (assigns _ now command a h) = assign_division-Change db db' now command a h

Steps-contests : (db db' : Database) → Steps db db' → db'.contests ≡ db.contests
Steps-contests db _ start = refl
Steps-contests db db'' (next db' _ before step) =
    (Step-Change db' db'' step).1 ∙ Steps-contests db db' before

-- Whatever operations succeed one after another, the table of participations keeps its four CHECK
-- constraints and its unique indexes, when it has them at first and the contests meet their CHECK
-- constraint on the invite code.
pub Steps-IsTable :
    (db db' : Database)
    → Steps db db'
    → MeetInviteChecks db
    → IsTable db.participations
    → IsTable db'.participations
Steps-IsTable db _ start g t = t
Steps-IsTable db db'' (next db' _ before step) g t =
    Change-IsTable
      (subst (All (λ c. meets_invite_check c ≡ true)) (sym (Steps-contests db db' before)) g)
      (Step-Change db' db'' step).0 (Steps-IsTable db db' before g t)

Steps-ids :
    (db db' : Database)
    → Steps db db'
    → IsDistinct (map (λ (p : Participation). p.id) db.participations)
    → IsDistinct (map (λ (p : Participation). p.id) db'.participations)
Steps-ids db _ start d = d
Steps-ids db db'' (next db' _ before step) d =
    Change-ids (Step-Change db' db'' step).0 (Steps-ids db db' before d)

-- A row after some operations: it is the same registration, and once accepted it stays so.
pub record Keeps (p q : Participation) : Type 0 where
  pub same_id : q.id ≡ p.id
  pub same_place : place_of q ≡ place_of p
  pub stays_accepted :
      p.status ≡ ParticipationStatus.accepted → q.status ≡ ParticipationStatus.accepted

Keeps-of_Follows : {G : Type 0} (p q : Participation) → Follows G p q → Keeps p q
Keeps-of_Follows p q f = record {
  same_id = f.same_id;
  same_place = f.same_place;
  stays_accepted = λ e. ground (arith, f.edge);
}

Keeps-refl : (p : Participation) → Keeps p p
Keeps-refl p = record { same_id = refl; same_place = refl; stays_accepted = λ e. e }

Keeps-trans : (p q r : Participation) → Keeps p q → Keeps q r → Keeps p r
Keeps-trans p q r a b = record {
  same_id = b.same_id ∙ a.same_id;
  same_place = b.same_place ∙ a.same_place;
  stays_accepted = λ e. b.stays_accepted (a.stays_accepted e);
}

-- Each row is kept in its place, and new rows stand behind.
abbrev pub AllKept : List Participation → List Participation → Type 0
AllKept [] qs = Unit
AllKept (p ∷ ps) [] = ⊥
AllKept (p ∷ ps) (q ∷ qs) = Keeps p q × AllKept ps qs

AllKept-refl : (ps : List Participation) → AllKept ps ps
AllKept-refl [] = tt
AllKept-refl (p ∷ ps) = (Keeps-refl p, AllKept-refl ps)

AllKept-trans : (ps qs rs : List Participation) → AllKept ps qs → AllKept qs rs → AllKept ps rs
AllKept-trans [] qs rs a b = tt
AllKept-trans (p ∷ ps) [] rs a b = absurd a
AllKept-trans (p ∷ ps) (q ∷ qs) [] a b = absurd b
AllKept-trans (p ∷ ps) (q ∷ qs) (r ∷ rs) a b =
    (Keeps-trans p q r a.0 b.0, AllKept-trans ps qs rs a.1 b.1)

AllKept-snoc : (ps : List Participation) (x : Participation) → AllKept ps (ps ++ x ∷ [])
AllKept-snoc [] x = tt
AllKept-snoc (p ∷ ps) x = (Keeps-refl p, AllKept-snoc ps x)

AllKept-of_All₂ : (ps qs : List Participation) → All₂ Keeps ps qs → AllKept ps qs
AllKept-of_All₂ [] qs a = tt
AllKept-of_All₂ (p ∷ ps) [] a = a
AllKept-of_All₂ (p ∷ ps) (q ∷ qs) a = (a.0, AllKept-of_All₂ ps qs a.1)

Change-AllKept :
    {G : Type 0} {ps qs : List Participation}
    → Change G ps qs
    → IsDistinct (map (λ p. p.id) ps)
    → AllKept ps qs
Change-AllKept {ps = ps} (inserted x new free checked) d = AllKept-snoc ps x
Change-AllKept {ps = ps} (updated q p f found ids places follows) d =
    AllKept-of_All₂ ps (update_where (λ x. eqb x.id p.id) f ps) (
      update_found (λ x. x.id) Keeps Keeps-refl q f ps p d found (Keeps-of_Follows p (f p) follows))

-- Whatever operations succeed one after another, no registration is lost or changes its contest or
-- its team, and one that is accepted stays accepted, when the identifiers are distinct at first.
pub Steps-AllKept :
    (db db' : Database)
    → Steps db db'
    → IsDistinct (map (λ (p : Participation). p.id) db.participations)
    → AllKept db.participations db'.participations
Steps-AllKept db _ start d = AllKept-refl db.participations
Steps-AllKept db db'' (next db' _ before step) d =
    AllKept-trans db.participations db'.participations db''.participations
      (Steps-AllKept db db' before d)
      (Change-AllKept (Step-Change db' db'' step).0 (Steps-ids db db' before d))
