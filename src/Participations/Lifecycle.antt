-- ===== src/Participations/Lifecycle.antt =====
-- The constraints of the table of participations (0004_contests.sql,
-- 0010_participation_registration.sql and 0011_contest_configuration.sql of
-- apps/web/server/db/migrations/postgresql), and the graph of statuses along which a participation
-- moves.
pub mod Changes
pub mod Rows
pub mod Steps
pub mod Reachability
pub mod Admission
use sauryctf.Prelude.{
  ℕ, suc, String, Bool, true, false, not, ◌&&◌, ◌||◌, ◌==◌, Option, none, some, ◌≡◌, ltb, is_some,
  List, [], ◌∷◌, ◌++◌, map, All, if◌then◌else◌,
}
use sauryctf.Prelude.Keys.{string_key, pair_key}
use sauryctf.Prelude.Distinct.{IsDistinct}
use sauryctf.Submissions.Replay.Facts.{ParticipationStatus}
use sauryctf.Participations.Tables.{Contest, Participation}
use sauryctf.Participations.Store.{is_withdrawn}

abbrev is_reviewed : ParticipationStatus → Bool
is_reviewed ParticipationStatus.accepted = true
is_reviewed ParticipationStatus.rejected = true
is_reviewed _ = false

-- `octet_length` of a digest, whose characters are its bytes.
unfoldable pub octet_length : String → ℕ
octet_length String.[] = 0
octet_length (String.◌∷◌ c s) = suc (octet_length s)

-- `digest IS NULL OR octet_length(digest) = 32`.
abbrev pub is_digest_or_null : Option String → Bool
is_digest_or_null none = true
is_digest_or_null (some digest) = octet_length digest == 32

-- The CHECK constraint of a contest's invite code.
abbrev pub meets_invite_check : Contest → Bool
meets_invite_check c =
    (not c.invite_required || is_some c.invite_digest) && is_digest_or_null c.invite_digest

-- The table's four CHECK constraints.
abbrev pub meets_checks : Participation → Bool
meets_checks p =
    (if is_reviewed p.status then is_some p.reviewed_at && is_some p.reviewed_by else true)
    && (if is_withdrawn p.status then is_some p.withdrawn_at else not (is_some p.withdrawn_at))
    && is_digest_or_null p.invite_digest_verified
    && ltb 0 p.version

abbrev pub place_of : Participation → String × String
place_of p = (p.contest_id, p.team_id)

-- The table as the database keeps it: its constraints and its two unique indexes.
pub record IsTable (ps : List Participation) : Type 0 where
  pub checks : All (λ p. meets_checks p ≡ true) ps
  pub ids : IsDistinct (map (λ p. p.id) ps)
  pub places : IsDistinct (map place_of ps)

-- The edges between statuses; only a change of division keeps one.
abbrev pub may_follow : ParticipationStatus → ParticipationStatus → Bool
may_follow ParticipationStatus.pending s = true
may_follow ParticipationStatus.accepted ParticipationStatus.accepted = true
may_follow ParticipationStatus.accepted _ = false
may_follow ParticipationStatus.rejected ParticipationStatus.rejected = true
may_follow ParticipationStatus.rejected ParticipationStatus.withdrawn = true
may_follow ParticipationStatus.rejected _ = false
may_follow ParticipationStatus.withdrawn ParticipationStatus.pending = true
may_follow ParticipationStatus.withdrawn ParticipationStatus.accepted = true
may_follow ParticipationStatus.withdrawn _ = false
