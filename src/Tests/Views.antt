-- ===== src/Tests/Views.antt =====
-- Reads of a public board while it is live and while it is frozen, and the facts of a stored solve.
use sauryctf.Prelude.{ℕ, Bool, true, Option, none, some, List, [], ◌∷◌, ◌≡◌, refl}
use sauryctf.Prelude.Int.{pos}
use sauryctf.Prelude.Date.{at}
use sauryctf.Prelude.Result.{Result, ok, err}
use sauryctf.Participations.Tables.{PublicationStatus, Visibility}
use sauryctf.Submissions.Replay.Facts.{ReplayError, range_error}
use sauryctf.Submissions.Replay.Run.{ContestScoringReplay}
use sauryctf.Scoreboards.Builder.{ScoreboardReadModel, overall, board_of, build}
use sauryctf.Scoreboards.Views.Snapshots.{
  ScoreboardView, ContestStateRow, ScoreboardContestState, SnapshotRow, read_contest_state,
  safe_version, snapshot_record, read_snapshot, write_snapshot,
}
use sauryctf.Scoreboards.Views.Service.{
  ScoreboardViewerRole, ProjectionState, Freshness, ReadScoreboardInput, ScoreboardProjection,
  require_viewer, require_scope, generate, materialize, fall_back, rebuild_or_fallback,
  cached_materialize,
}
use sauryctf.Scoreboards.Views.Read.{read, read_view}
use sauryctf.Scoreboards.Views.Reads.{IsRead, read-IsRead}
use sauryctf.Scoreboards.Views.Agrees.{answer_of}
use sauryctf.Scoreboards.Views.Frozen.{read-frozen}
use sauryctf.Tests.Replay.{initial_compare, replayed}
use sauryctf.Tests.Board.{board, board_built}

abbrev contests : List ContestStateRow
contests =
    record {
      id = "c";
      publication_status = PublicationStatus.published;
      visibility = Visibility.public;
      scoreboard_freeze_at = some 50;
      end_at = 100;
      version = some (pos 4);
    }
    ∷ []

abbrev contest : ScoreboardContestState
contest = record {
  contest_id = "c";
  publication_status = PublicationStatus.published;
  visibility = Visibility.public;
  freeze_at = some 50;
  end_at = 100;
  current_version = pos 4;
}

abbrev request : ReadScoreboardInput
request = record {
  contest_id = "c";
  view = ScoreboardView.public_view;
  viewer_role = ScoreboardViewerRole.user_role;
  scope = overall;
}

abbrev every_time : Option ℕ → Result ReplayError ContestScoringReplay
every_time before = ok replayed

abbrev after_freeze : Option ℕ → Result ReplayError ContestScoringReplay
after_freeze none = err range_error
after_freeze (some t) = ok replayed

abbrev all_same : ScoreboardReadModel → ScoreboardReadModel → Bool
all_same a b = true

abbrev new_row : SnapshotRow
new_row = record {
  contest_id = "c";
  view = ScoreboardView.public_view;
  division_id = none;
  scope_key = "overall";
  version = pos 4;
  payload = board;
  built_at = 20;
}

abbrev shown : ScoreboardProjection
shown = record {
  schema = "scoreboard-projection.v1";
  contest_id = "c";
  view = ScoreboardView.public_view;
  state = ProjectionState.live;
  freshness = Freshness.current;
  version = pos 4;
  frozen_at = none;
  built_at = 20;
  board = board;
}

live_read :
    read all_same initial_compare every_time contests [] [] [] (at 20) request
    ≡ ok (new_row ∷ [], shown)
unfolding read read_contest_state safe_version require_viewer require_scope read_view
    cached_materialize read_snapshot rebuild_or_fallback materialize generate fall_back
    write_snapshot snapshot_record build board_of
live_read = rw board_built refl

read-IsRead_example : IsRead contests [] [] (at 20) request (new_row ∷ []) shown ReplayError
read-IsRead_example =
    read-IsRead all_same initial_compare every_time contests [] [] [] (at 20) request (new_row ∷ [])
      shown live_read

contest_read : read_contest_state {R = ReplayError} contests "c" ≡ ok contest
unfolding read_contest_state safe_version
contest_read = refl

-- The contest after two more solves, whose internal board was read since.
abbrev later_contests : List ContestStateRow
later_contests =
    record {
      id = "c";
      publication_status = PublicationStatus.published;
      visibility = Visibility.public;
      scoreboard_freeze_at = some 50;
      end_at = 100;
      version = some (pos 6);
    }
    ∷ []

later_read :
    read_contest_state {R = ReplayError} later_contests "c"
    ≡ ok (record contest { current_version = pos 6 })
unfolding read_contest_state safe_version
later_read = refl

abbrev internal_row : SnapshotRow
internal_row = record new_row { view = ScoreboardView.internal_view; version = pos 6 }

read-frozen_example :
    answer_of (read all_same initial_compare every_time contests [] [] [] (at 60) request)
    ≡ answer_of (
        read all_same initial_compare after_freeze later_contests []
          (internal_row ∷ [])
          (internal_row ∷ [])
          (at 60)
          request)
read-frozen_example =
    read-frozen all_same initial_compare every_time after_freeze contest (pos 6) []
      (internal_row ∷ []) (λ _. refl) refl [] (internal_row ∷ []) (λ _. refl) contests
      later_contests [] 60 request contest_read later_read refl refl
