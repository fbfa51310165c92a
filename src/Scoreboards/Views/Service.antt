-- ===== src/Scoreboards/Views/Service.antt =====
-- `ScoreboardViewService` (apps/web/server/domains/scoreboards/view-service.ts) over the repository's
-- snapshots. The coordinator (apps/web/server/domains/scoreboards/build-coordinator.ts) shares one
-- build between the reads that wait for it; here each read runs its build. A read looks at the
-- snapshots before its build, `before`, and in it, `rows`, since others may write between. The
-- replay is a parameter, which fails with errors of its own. No caller sets `preferExisting`, and
-- all of them set `persist`.
use sauryctf.Prelude.{
  ℕ, String, Bool, true, false, not, ◌||◌, Option, none, some, List, Ordering, leb, if◌then◌else◌,
}
use sauryctf.Prelude.Int.{ℤ, eqb_ℤ, leb_ℤ}
use sauryctf.Prelude.Date.{Date, at, invalid}
use sauryctf.Prelude.Result.{Result, ok, err, throw_if, ◌>>◌, ◌>>=◌}
use sauryctf.Participations.Tables.{PublicationStatus, Visibility, Division}
use sauryctf.Submissions.Replay.Run.{ContestScoringReplay}
use sauryctf.Scoreboards.Builder.{
  ScoreboardScope, overall, division, ScoreboardReadModel, BuildError, build, scope_key_of,
}
use sauryctf.Scoreboards.Views.Snapshots.{
  ScoreboardView, ScoreboardContestState, SnapshotRow, ScoreboardSnapshotRecord, ViewError,
  view_not_found, internal_forbidden, scope_invalid, time_invalid, snapshot_conflict, build_failed,
  replay_failed, division_exists, read_latest_snapshot, read_snapshot, write_snapshot,
}

pub data ScoreboardViewerRole : Type 0 where
  user_role organizer_role admin_role : ScoreboardViewerRole

pub data ProjectionState : Type 0 where
  live frozen settled : ProjectionState

pub data Freshness : Type 0 where
  current stale : Freshness

pub record ReadScoreboardInput : Type 0 where
  pub contest_id : String
  pub view : ScoreboardView
  pub viewer_role : ScoreboardViewerRole
  pub scope : ScoreboardScope

pub record ScoreboardProjection : Type 0 where
  pub schema : String
  pub contest_id : String
  pub view : ScoreboardView
  pub state : ProjectionState
  pub freshness : Freshness
  pub version : ℤ
  pub frozen_at : Option ℕ
  pub built_at : ℕ
  pub board : ScoreboardReadModel

pub record MaterializeInput : Type 0 where
  pub contest : ScoreboardContestState
  pub scope : ScoreboardScope
  pub view : ScoreboardView
  pub state : ProjectionState
  pub version : Option ℤ
  pub now : ℕ
  pub facts_before : Option ℕ
  pub prefer_latest_existing : Bool

abbrev pub is_settled : ProjectionState → Bool
is_settled ProjectionState.settled = true
is_settled _ = false

abbrev pub frozen_time : ProjectionState → Option ℕ → Option ℕ
frozen_time ProjectionState.frozen freeze_at = freeze_at
frozen_time _ freeze_at = none

abbrev pub projection :
    ScoreboardSnapshotRecord → ProjectionState → Option ℕ → Freshness → ScoreboardProjection
projection snapshot state freeze_at freshness = record {
  schema = "scoreboard-projection.v1";
  contest_id = snapshot.contest_id;
  view = snapshot.view;
  state = state;
  freshness = freshness;
  version = snapshot.version;
  frozen_at = frozen_time state freeze_at;
  built_at = snapshot.built_at;
  board = snapshot.board;
}

abbrev pub is_manager : ScoreboardViewerRole → Bool
is_manager ScoreboardViewerRole.user_role = false
is_manager _ = true

abbrev pub is_draft : PublicationStatus → Bool
is_draft PublicationStatus.draft = true
is_draft _ = false

abbrev pub is_public : Visibility → Bool
is_public Visibility.public = true
is_public Visibility.private = false

-- `input.version ?? replay.factVersion`, and whether an expected version is another one.
abbrev pub version_or : Option ℤ → ℤ → ℤ
version_or none fact_version = fact_version
version_or (some version) fact_version = version

abbrev pub is_other_version : Option ℤ → ℤ → Bool
is_other_version none fact_version = false
is_other_version (some version) fact_version = not (eqb_ℤ version fact_version)

abbrev pub is_frozen_at : Option ℕ → ℕ → Bool
is_frozen_at none now = false
is_frozen_at (some freeze_at) now = leb freeze_at now

abbrev pub is_stale : ScoreboardContestState → ScoreboardSnapshotRecord → Bool
is_stale contest stored = not (leb_ℤ contest.current_version stored.version)

module _ {R : Type 0} where
  abbrev pub lift_build :
      Result BuildError ScoreboardReadModel → Result (ViewError R) ScoreboardReadModel
  lift_build (err e) = err (build_failed e)
  lift_build (ok board) = ok board

  abbrev pub lift_replay : Result R ContestScoringReplay → Result (ViewError R) ContestScoringReplay
  lift_replay (err e) = err (replay_failed e)
  lift_replay (ok replay) = ok replay

  -- The guards of `read` on the view.
  unfoldable pub require_viewer :
      ScoreboardContestState
      → ScoreboardViewerRole
      → ScoreboardView
      → Result (ViewError R) (Unit {0})
  require_viewer contest role ScoreboardView.internal_view =
      throw_if (not (is_manager role)) internal_forbidden
  require_viewer contest role ScoreboardView.public_view =
      throw_if (is_draft contest.publication_status || not (is_public contest.visibility))
        view_not_found

  unfoldable pub require_scope :
      List Division → String → ScoreboardScope → Result (ViewError R) (Unit {0})
  require_scope divisions contest_id overall = ok tt
  require_scope divisions contest_id (division id) =
      throw_if (not (division_exists divisions contest_id id)) scope_invalid

  abbrev pub require_valid_now : Date → Result (ViewError R) ℕ
  require_valid_now (at now) = ok now
  require_valid_now invalid = err time_invalid

  -- `if (existing) return projection(existing, …)`, before what follows it.
  abbrev pub or_else :
      List SnapshotRow
      → ProjectionState
      → Option ℕ
      → Option ScoreboardSnapshotRecord
      → Result (ViewError R) (List SnapshotRow × ScoreboardProjection)
      → Result (ViewError R) (List SnapshotRow × ScoreboardProjection)
  or_else rows state freeze_at none rest = rest
  or_else rows state freeze_at (some snapshot) rest =
      ok (rows, projection snapshot state freeze_at Freshness.current)

  abbrev pub latest_existing :
      List SnapshotRow → MaterializeInput → Result (ViewError R) (Option ScoreboardSnapshotRecord)
  latest_existing rows input =
      if input.prefer_latest_existing
      then read_latest_snapshot rows input.contest.contest_id input.view (scope_key_of input.scope)
      else ok none

  abbrev pub exact_snapshot :
      List SnapshotRow
      → MaterializeInput
      → Option ℤ
      → Result (ViewError R) (Option ScoreboardSnapshotRecord)
  exact_snapshot rows input none = err snapshot_conflict
  exact_snapshot rows input (some version) =
      read_snapshot rows input.contest.contest_id input.view (scope_key_of input.scope) version

  abbrev pub settled_existing :
      List SnapshotRow → MaterializeInput → Result (ViewError R) (Option ScoreboardSnapshotRecord)
  settled_existing rows input =
      if is_settled input.state then exact_snapshot rows input input.version else ok none

  -- `readStoredProjection`, for the public view.
  abbrev pub read_stored :
      List SnapshotRow
      → ScoreboardContestState
      → ScoreboardScope
      → Result (ViewError R) (Option ScoreboardSnapshotRecord)
  read_stored rows contest scope =
      read_snapshot rows contest.contest_id ScoreboardView.public_view (scope_key_of scope)
        contest.current_version

  -- What a failed build gives: an older snapshot, or the error itself.
  abbrev pub stale_or_throw :
      List SnapshotRow
      → ScoreboardContestState
      → ProjectionState
      → ViewError R
      → Option ScoreboardSnapshotRecord
      → Result (ViewError R) (List SnapshotRow × ScoreboardProjection)
  stale_or_throw rows contest state e none = err e
  stale_or_throw rows contest state e (some stored) =
      if is_stale contest stored
      then ok (rows, projection stored state contest.freeze_at Freshness.stale)
      else err e

  -- The `catch` of `rebuildOrFallback`, with `readStaleProjection`.
  unfoldable pub fall_back :
      List SnapshotRow
      → ScoreboardContestState
      → ScoreboardScope
      → ProjectionState
      → Result (ViewError R) (List SnapshotRow × ScoreboardProjection)
      → Result (ViewError R) (List SnapshotRow × ScoreboardProjection)
  fall_back rows contest scope state (ok answer) = ok answer
  fall_back rows contest scope state (err e) = do
    stored ←
        read_latest_snapshot rows contest.contest_id ScoreboardView.public_view (scope_key_of scope)
    stale_or_throw rows contest state e stored

  abbrev pub snapshot_at :
      List SnapshotRow
      → ScoreboardContestState
      → ScoreboardScope
      → Option ℤ
      → Result (ViewError R) (Option ScoreboardSnapshotRecord)
  snapshot_at rows contest scope none = ok none
  snapshot_at rows contest scope (some version) =
      read_snapshot rows contest.contest_id ScoreboardView.public_view (scope_key_of scope) version

  module _ (is_deep_strict_equal : ScoreboardReadModel → ScoreboardReadModel → Bool)
      (locale_compare : String → String → Ordering)
      (replay : Option ℕ → Result R ContestScoringReplay) where
    -- `materialize`, from the replay on.
    unfoldable pub generate :
        List SnapshotRow
        → MaterializeInput
        → Result (ViewError R) (List SnapshotRow × ScoreboardProjection)
    generate rows input = do
      replayed ← lift_replay (replay input.facts_before)
      throw_if (is_other_version input.version replayed.fact_version) snapshot_conflict
      board ← lift_build (build locale_compare replayed input.scope)
      written ← write_snapshot is_deep_strict_equal rows (record {
        contest_id = input.contest.contest_id;
        view = input.view;
        scope = input.scope;
        scope_key = board.scope_key;
        version = version_or input.version replayed.fact_version;
        board = board;
        built_at = input.now;
      })
      ok (written.0, projection written.1 input.state input.contest.freeze_at Freshness.current)

    abbrev pub materialize_exact :
        List SnapshotRow
        → MaterializeInput
        → Result (ViewError R) (List SnapshotRow × ScoreboardProjection)
    materialize_exact rows input = do
      exact ← settled_existing rows input
      or_else rows input.state input.contest.freeze_at exact (generate rows input)

    unfoldable pub materialize :
        List SnapshotRow
        → MaterializeInput
        → Result (ViewError R) (List SnapshotRow × ScoreboardProjection)
    unfolding generate
    materialize rows input = do
      newest ← latest_existing rows input
      or_else rows input.state input.contest.freeze_at newest (materialize_exact rows input)

    abbrev pub live_input :
        ScoreboardContestState
        → ScoreboardScope
        → ScoreboardView
        → ProjectionState
        → ℕ
        → MaterializeInput
    live_input contest scope view state now = record {
      contest = contest;
      scope = scope;
      view = view;
      state = state;
      version = some contest.current_version;
      now = now;
      facts_before = none;
      prefer_latest_existing = false;
    }

    -- `rebuildOrFallback`.
    unfoldable pub rebuild_or_fallback :
        List SnapshotRow
        → ScoreboardContestState
        → ScoreboardScope
        → ProjectionState
        → ℕ
        → Result (ViewError R) (List SnapshotRow × ScoreboardProjection)
    unfolding materialize fall_back
    rebuild_or_fallback rows contest scope state now = do
      winner ← read_stored rows contest scope
      or_else rows state contest.freeze_at winner (
          fall_back rows contest scope state
            (materialize rows (live_input contest scope ScoreboardView.public_view state now)))

    -- `cachedMaterialize`; the build reads the stored projection once more at its start. What a build
    -- reads and writes are one state of the snapshots, `rows`; the first read saw `before`.
    unfoldable pub cached_materialize :
        List SnapshotRow
        → List SnapshotRow
        → ScoreboardContestState
        → ScoreboardScope
        → ProjectionState
        → ℕ
        → Result (ViewError R) (List SnapshotRow × ScoreboardProjection)
    unfolding rebuild_or_fallback
    cached_materialize before rows contest scope state now = do
      stored ← read_stored before contest scope
      or_else rows state contest.freeze_at stored (rebuild_or_fallback rows contest scope state now)
