-- ===== src/Scoreboards/Views/Snapshots.antt =====
-- The stored snapshots of scoreboards
-- (apps/web/server/infrastructure/db/scoreboard-view-repository.ts). The column `payload` holds the
-- JSON value of a board that was written, so its parts have the types of a board's parts.
-- `isDeepStrictEqual` is Node's, a parameter.
use sauryctf.Prelude.{
  ℕ, String, Bool, true, false, not, ◌&&◌, ◌||◌, Option, none, some, List, [], ◌∷◌, ◌++◌, any,
  filter, if◌then◌else◌,
}
use sauryctf.Prelude.Int.{ℤ, pos, eqb_ℤ, ltb_ℤ, is_safe_integer}
use sauryctf.Prelude.Keys.{eqb}
use sauryctf.Prelude.Table.{find, or_throw}
use sauryctf.Prelude.Result.{Result, ok, throw_if, ◌>>◌, ◌>>=◌}
use sauryctf.Participations.Tables.{PublicationStatus, Visibility, Division}
use sauryctf.Scoreboards.Builder.{
  ScoreboardScope, overall, division, ScoreboardReadModel, BuildError,
}

pub data ScoreboardView : Type 0 where
  public_view internal_view : ScoreboardView

-- What `readContestState` reads, with the scoreboard's version where there is one.
pub record ContestStateRow : Type 0 where
  pub id : String
  pub publication_status : PublicationStatus
  pub visibility : Visibility
  pub scoreboard_freeze_at : Option ℕ
  pub end_at : ℕ
  pub version : Option ℤ

pub record ScoreboardContestState : Type 0 where
  pub contest_id : String
  pub publication_status : PublicationStatus
  pub visibility : Visibility
  pub freeze_at : Option ℕ
  pub end_at : ℕ
  pub current_version : ℤ

pub record SnapshotRow : Type 0 where
  pub contest_id : String
  pub view : ScoreboardView
  pub division_id : Option String
  pub scope_key : String
  pub version : ℤ
  pub payload : ScoreboardReadModel
  pub built_at : ℕ

pub record ScoreboardSnapshotRecord : Type 0 where
  pub contest_id : String
  pub view : ScoreboardView
  pub scope : ScoreboardScope
  pub scope_key : String
  pub version : ℤ
  pub board : ScoreboardReadModel
  pub built_at : ℕ

-- The errors of the views: those of the service, those of the repository, and what a build or a
-- replay throws.
pub data ViewError (R : Type 0) : Type 0 where
  view_not_found internal_forbidden scope_invalid time_invalid : ViewError R
  snapshot_conflict version_out_of_range : ViewError R
  build_failed : BuildError → ViewError R
  replay_failed : R → ViewError R

abbrev pub same_view : ScoreboardView → ScoreboardView → Bool
same_view ScoreboardView.public_view ScoreboardView.public_view = true
same_view ScoreboardView.internal_view ScoreboardView.internal_view = true
same_view _ _ = false

abbrev pub same_scope : ScoreboardScope → ScoreboardScope → Bool
same_scope overall overall = true
same_scope (division a) (division b) = eqb a b
same_scope _ _ = false

-- `row.division_id ? { type: 'division', … } : { type: 'overall' }`.
abbrev pub row_scope : Option String → ScoreboardScope
row_scope none = overall
row_scope (some id) = if eqb id "" then overall else division id

abbrev pub division_of : ScoreboardScope → Option String
division_of overall = none
division_of (division id) = some id

abbrev pub is_in_series : String → ScoreboardView → String → SnapshotRow → Bool
is_in_series contest_id view scope_key row =
    eqb row.contest_id contest_id && same_view row.view view && eqb row.scope_key scope_key

-- `ORDER BY version DESC LIMIT 1`.
abbrev pub newer : SnapshotRow → Option SnapshotRow → SnapshotRow
newer row none = row
newer row (some other) = if ltb_ℤ row.version other.version then other else row

abbrev pub latest : List SnapshotRow → Option SnapshotRow
latest [] = none
latest (row ∷ rows) = some (newer row (latest rows))

abbrev pub version_or_zero : Option ℤ → ℤ
version_or_zero none = pos 0
version_or_zero (some v) = v

unfoldable pub division_exists : List Division → String → String → Bool
division_exists divisions contest_id division_id =
    any (λ (d : Division). eqb d.contest_id contest_id && eqb d.id division_id) divisions

abbrev pub find_snapshot :
    List SnapshotRow → String → ScoreboardView → String → ℤ → Option SnapshotRow
find_snapshot rows contest_id view scope_key version =
    find (λ row. is_in_series contest_id view scope_key row && eqb_ℤ row.version version) rows

abbrev pub row_of_snapshot : ScoreboardSnapshotRecord → SnapshotRow
row_of_snapshot snapshot = record {
  contest_id = snapshot.contest_id;
  view = snapshot.view;
  division_id = division_of snapshot.scope;
  scope_key = snapshot.scope_key;
  version = snapshot.version;
  payload = snapshot.board;
  built_at = snapshot.built_at;
}

-- The row of the key that is there, or the new one.
abbrev pub place_snapshot :
    List SnapshotRow → SnapshotRow → Option SnapshotRow → List SnapshotRow × SnapshotRow
place_snapshot rows fresh none = (rows ++ fresh ∷ [], fresh)
place_snapshot rows fresh (some existing) = (rows, existing)

module _ {R : Type 0} where
  unfoldable pub safe_version : ℤ → Result (ViewError R) ℤ
  safe_version version = do
    throw_if (not (is_safe_integer version) || ltb_ℤ version (pos 0)) version_out_of_range
    ok version

  unfoldable pub read_contest_state :
      List ContestStateRow → String → Result (ViewError R) ScoreboardContestState
  unfolding safe_version
  read_contest_state contests contest_id = do
    row ← or_throw (find (λ (c : ContestStateRow). eqb c.id contest_id) contests) view_not_found
    version ← safe_version (version_or_zero row.version)
    ok (record {
      contest_id = row.id;
      publication_status = row.publication_status;
      visibility = row.visibility;
      freeze_at = row.scoreboard_freeze_at;
      end_at = row.end_at;
      current_version = version;
    })

  -- `snapshotRecord`.
  unfoldable pub snapshot_record : SnapshotRow → Result (ViewError R) ScoreboardSnapshotRecord
  unfolding safe_version
  snapshot_record row = do
    throw_if (not (eqb row.payload.schema "scoreboard.v1")) snapshot_conflict
    throw_if
        (not (eqb row.payload.scope_key row.scope_key)
          || not (same_scope row.payload.scope (row_scope row.division_id)))
        snapshot_conflict
    version ← safe_version row.version
    ok (record {
      contest_id = row.contest_id;
      view = row.view;
      scope = row_scope row.division_id;
      scope_key = row.scope_key;
      version = version;
      board = row.payload;
      built_at = row.built_at;
    })

  abbrev pub read_row : Option SnapshotRow → Result (ViewError R) (Option ScoreboardSnapshotRecord)
  read_row none = ok none
  read_row (some row) = do snapshot ← snapshot_record row; ok (some snapshot)

  unfoldable pub read_latest_snapshot :
      List SnapshotRow
      → String
      → ScoreboardView
      → String
      → Result (ViewError R) (Option ScoreboardSnapshotRecord)
  unfolding snapshot_record
  read_latest_snapshot rows contest_id view scope_key =
      read_row (latest (filter (is_in_series contest_id view scope_key) rows))

  abbrev pub read_version : Option SnapshotRow → Result (ViewError R) (Option ℤ)
  read_version none = ok none
  read_version (some row) = do version ← safe_version row.version; ok (some version)

  unfoldable pub read_latest_snapshot_version :
      List SnapshotRow → String → ScoreboardView → String → Result (ViewError R) (Option ℤ)
  unfolding safe_version
  read_latest_snapshot_version rows contest_id view scope_key =
      read_version (latest (filter (is_in_series contest_id view scope_key) rows))

  unfoldable pub read_snapshot :
      List SnapshotRow
      → String
      → ScoreboardView
      → String
      → ℤ
      → Result (ViewError R) (Option ScoreboardSnapshotRecord)
  unfolding snapshot_record
  read_snapshot rows contest_id view scope_key version =
      read_row (find_snapshot rows contest_id view scope_key version)

  module _ (is_deep_strict_equal : ScoreboardReadModel → ScoreboardReadModel → Bool) where
    -- `writeSnapshot`. A row that is inserted reads back as it was written, since a build made its
    -- board for its scope, and Node's equality finds a board equal to its copy. So a conflict follows
    -- only a row that was there, and an error loses no row.
    unfoldable pub write_snapshot :
        List SnapshotRow
        → ScoreboardSnapshotRecord
        → Result (ViewError R) (List SnapshotRow × ScoreboardSnapshotRecord)
    unfolding snapshot_record
    write_snapshot rows snapshot = do
      let placed =
          place_snapshot rows (row_of_snapshot snapshot) (
            find_snapshot rows snapshot.contest_id snapshot.view snapshot.scope_key
              snapshot.version)
      stored ← snapshot_record placed.1
      throw_if (not (is_deep_strict_equal stored.board snapshot.board)) snapshot_conflict
      ok (placed.0, stored)
