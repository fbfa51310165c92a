-- ===== src/Submissions/Store/Laws/Versions.antt =====
-- The scoreboard versions (apps/web/server/infrastructure/db/submission-repository.ts).
use sauryctf.Prelude.{
  ℕ, suc, String, Bool, ◌&&◌, List, [], ◌∷◌, count, if◌then◌else◌, ◌+◌, ◌≡◌, arith,
}
use sauryctf.Prelude.Keys.{eqb, eqb_iff}
use sauryctf.Submissions.Replay.Facts.{SubmissionMode, is_official}
use sauryctf.Submissions.Store.Tables.{SolveRow, ScoreAdjustmentRow, VersionRow, SubmissionTables}
use sauryctf.Submissions.Store.Append.{version_in, advance_versions}
use sauryctf.Submissions.Store.Laws.Steps.{versions_after}

-- Advancing the version of a contest advances that version alone.
pub version_in-advance_versions :
    (k c : String) (vs : List VersionRow)
    → version_in c (advance_versions k vs)
      ≡ (if eqb k c then suc (version_in c vs) else version_in c vs)
version_in-advance_versions k c [] = ground arith
version_in-advance_versions k c (v ∷ vs) = ground (
  arith,
  version_in-advance_versions k c vs,
  eqb_iff v.contest_id k,
  eqb_iff v.contest_id c,
  eqb_iff k c,
)

abbrev pub is_official_in : String → SolveRow → Bool
is_official_in contest_id s = eqb s.contest_id contest_id && is_official s.mode

abbrev pub is_adjustment_in : String → ScoreAdjustmentRow → Bool
is_adjustment_in contest_id a = eqb a.contest_id contest_id

-- How many facts of a contest are scored.
abbrev pub fact_count : SubmissionTables → String → ℕ
fact_count db contest_id =
    count (is_official_in contest_id) db.solves + count (is_adjustment_in contest_id) db.adjustments

-- The version after a solve in a mode counts an official one.
pub version_in-after :
    (db : SubmissionTables) (k c : String) (mode : SubmissionMode)
    → version_in c (versions_after db k mode).versions ≡ (
        if eqb k c && is_official mode
        then suc (version_in c db.versions)
        else version_in c db.versions)
version_in-after db k c SubmissionMode.official =
    ground (arith, version_in-advance_versions k c db.versions)
version_in-after db k c SubmissionMode.practice = ground arith
