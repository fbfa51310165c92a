-- ===== src/Scoreboards/Views/Read.antt =====
-- `read` of `ScoreboardViewService` (apps/web/server/domains/scoreboards/view-service.ts).
use sauryctf.Prelude.{ℕ, String, Bool, ◌||◌, Option, none, List, Ordering, leb, true, if◌then◌else◌}
use sauryctf.Prelude.Date.{Date}
use sauryctf.Prelude.Result.{Result, ◌>>◌, ◌>>=◌}
use sauryctf.Participations.Tables.{Division}
use sauryctf.Participations.Eligibility.{is_archived}
use sauryctf.Submissions.Replay.Run.{ContestScoringReplay}
use sauryctf.Scoreboards.Builder.{ScoreboardScope, ScoreboardReadModel, scope_key_of}
use sauryctf.Scoreboards.Views.Snapshots.{
  ScoreboardView, ContestStateRow, ScoreboardContestState, SnapshotRow, ViewError,
  read_contest_state, read_latest_snapshot, read_latest_snapshot_version,
}
use sauryctf.Scoreboards.Views.Service.{
  ProjectionState, ReadScoreboardInput, ScoreboardProjection, MaterializeInput, is_frozen_at,
  require_viewer, require_scope, require_valid_now, or_else, snapshot_at, materialize, live_input,
  cached_materialize,
}

module _ {R : Type 0} (is_deep_strict_equal : ScoreboardReadModel → ScoreboardReadModel → Bool)
    (locale_compare : String → String → Ordering)
    (replay : Option ℕ → Result R ContestScoringReplay) where
  abbrev pub frozen_input :
      ScoreboardContestState → ScoreboardScope → Option ℕ → ℕ → MaterializeInput
  frozen_input contest scope freeze_at now = record {
    contest = contest;
    scope = scope;
    view = ScoreboardView.public_view;
    state = ProjectionState.frozen;
    version = none;
    now = now;
    facts_before = freeze_at;
    prefer_latest_existing = true;
  }

  -- The build of a frozen board, which reads the latest snapshot first, as `readLatestFrozen`.
  unfoldable pub build_frozen :
      List SnapshotRow
      → ScoreboardContestState
      → ScoreboardScope
      → ℕ
      → Result (ViewError R) (List SnapshotRow × ScoreboardProjection)
  unfolding materialize
  build_frozen rows contest scope now = do
    winner ←
        read_latest_snapshot rows contest.contest_id ScoreboardView.public_view (scope_key_of scope)
    or_else rows ProjectionState.frozen contest.freeze_at winner (
        materialize is_deep_strict_equal locale_compare replay rows
          (frozen_input contest scope contest.freeze_at now))

  unfoldable pub read_frozen :
      List SnapshotRow
      → List SnapshotRow
      → ScoreboardContestState
      → ScoreboardScope
      → ℕ
      → Result (ViewError R) (List SnapshotRow × ScoreboardProjection)
  unfolding build_frozen
  read_frozen before rows contest scope now = do
    version ←
        read_latest_snapshot_version before contest.contest_id ScoreboardView.public_view
          (scope_key_of scope)
    existing ← snapshot_at before contest scope version
    or_else rows ProjectionState.frozen contest.freeze_at existing
        (build_frozen rows contest scope now)

  -- The projection of a view: by the archive, the end and the freeze of the contest.
  unfoldable pub read_view :
      List SnapshotRow
      → List SnapshotRow
      → ScoreboardContestState
      → ScoreboardScope
      → ℕ
      → ScoreboardView
      → Result (ViewError R) (List SnapshotRow × ScoreboardProjection)
  unfolding materialize cached_materialize read_frozen
  read_view before rows contest scope now ScoreboardView.internal_view =
      materialize is_deep_strict_equal locale_compare replay rows (
        live_input is_deep_strict_equal locale_compare replay contest scope
          ScoreboardView.internal_view ProjectionState.live now)
  read_view before rows contest scope now ScoreboardView.public_view =
      if is_archived contest.publication_status || leb contest.end_at now
      then cached_materialize is_deep_strict_equal locale_compare replay before rows contest scope
          ProjectionState.settled now
      else if is_frozen_at contest.freeze_at now
      then read_frozen before rows contest scope now
      else cached_materialize is_deep_strict_equal locale_compare replay before rows contest scope
          ProjectionState.live now

  unfoldable pub read :
      List ContestStateRow
      → List Division
      → List SnapshotRow
      → List SnapshotRow
      → Date
      → ReadScoreboardInput
      → Result (ViewError R) (List SnapshotRow × ScoreboardProjection)
  unfolding read_view
  read contests divisions before rows now input = do
    now_time ← require_valid_now now
    contest ← read_contest_state contests input.contest_id
    require_viewer contest input.viewer_role input.view
    require_scope divisions input.contest_id input.scope
    read_view before rows contest input.scope now_time input.view
