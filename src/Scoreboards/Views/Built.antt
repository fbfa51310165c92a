-- ===== src/Scoreboards/Views/Built.antt =====
-- What the builds of `ScoreboardViewService` answer with
-- (apps/web/server/domains/scoreboards/view-service.ts and
-- apps/web/server/infrastructure/db/scoreboard-view-repository.ts).
use sauryctf.Prelude.{
  ℕ, String, Bool, not, ◌&&◌, Option, none, some, List, [], ◌∷◌, ◌++◌, ◌≡◌, refl, sym, ap, ◌∙◌, inl,
  inr, ◌⊎◌, arith,
}
use mathlib.Core.Path.{subst}
use sauryctf.Prelude.Int.{ℤ, eqb_ℤ, eqb_ℤ_iff}
use sauryctf.Prelude.Table.{find-test}
use sauryctf.Prelude.Result.{Result, ok, bind-eq-ok, throw_if, ok-inj}
use sauryctf.Scoreboards.Builder.{ScoreboardReadModel}
use sauryctf.Scoreboards.Views.Snapshots.{
  ScoreboardView, SnapshotRow, ScoreboardSnapshotRecord, ViewError, snapshot_conflict, is_in_series,
  safe_version, snapshot_record, read_row, find_snapshot, read_snapshot, row_of_snapshot,
  place_snapshot, write_snapshot,
}
use sauryctf.Scoreboards.Views.Service.{
  ProjectionState, Freshness, ScoreboardProjection, projection, or_else,
}

-- The rows stay, or one more row stands behind them, whose key no row has.
abbrev pub IsExtended : List SnapshotRow → List SnapshotRow → Type 0
IsExtended rows rows' =
    (rows' ≡ rows)
    ⊎ ((row : SnapshotRow) × (find_snapshot rows row.contest_id row.view row.scope_key row.version
          ≡ none)
        × (rows' ≡ rows ++ row ∷ []))

place_snapshot-IsExtended :
    (rows : List SnapshotRow) (fresh : SnapshotRow) (o : Option SnapshotRow)
    → find_snapshot rows fresh.contest_id fresh.view fresh.scope_key fresh.version ≡ o
    → IsExtended rows (place_snapshot rows fresh o).0
      × ((place_snapshot rows fresh o).1.version ≡ fresh.version)
place_snapshot-IsExtended rows fresh none e = (inr (fresh, e, refl), refl)
place_snapshot-IsExtended rows fresh (some existing) e =
    let matched =
      find-test
        (λ r.
          is_in_series fresh.contest_id fresh.view fresh.scope_key r
          && eqb_ℤ r.version fresh.version)
        rows existing e in
    (inl refl, (eqb_ℤ_iff existing.version fresh.version).0 (ground arith))

module _ {R : Type 0} where
  snapshot_record-version :
      (row : SnapshotRow) (s : ScoreboardSnapshotRecord)
      → snapshot_record {R = R} row ≡ ok s
      → s.version ≡ row.version
  unfolding snapshot_record safe_version
  snapshot_record-version row s h = ground arith

  read_row-some :
      (o : Option SnapshotRow) (s : ScoreboardSnapshotRecord)
      → read_row {R = R} o ≡ ok (some s)
      → (row : SnapshotRow) × (o ≡ some row) × (snapshot_record {R = R} row ≡ ok s)
  read_row-some none s h = cc
  read_row-some (some row) s h =
      let (t, e, k) = bind-eq-ok (snapshot_record row) _ h in
      let same : t ≡ s = ground arith in (row, refl, e ∙ ap ok same)

  pub read_snapshot-version :
      (rows : List SnapshotRow) (contest_id : String) (view : ScoreboardView) (scope_key : String)
      (version : ℤ) (s : ScoreboardSnapshotRecord)
      → read_snapshot {R = R} rows contest_id view scope_key version ≡ ok (some s)
      → s.version ≡ version
  unfolding read_snapshot
  read_snapshot-version rows contest_id view scope_key version s h =
      let (row, found, e) =
        read_row-some (find_snapshot rows contest_id view scope_key version) s h in
      let matched =
        find-test (λ r. is_in_series contest_id view scope_key r && eqb_ℤ r.version version) rows
          row found in
      snapshot_record-version row s e ∙ (eqb_ℤ_iff row.version version).0 (ground arith)

  module _ (is_deep_strict_equal : ScoreboardReadModel → ScoreboardReadModel → Bool) where
    -- A snapshot that is written extends the snapshots, or is there already.
    pub write_snapshot-IsExtended :
        (rows : List SnapshotRow) (snapshot : ScoreboardSnapshotRecord) (rows' : List SnapshotRow)
        (s : ScoreboardSnapshotRecord)
        → write_snapshot {R = R} is_deep_strict_equal rows snapshot ≡ ok (rows', s)
        → IsExtended rows rows' × (s.version ≡ snapshot.version)
    unfolding write_snapshot
    write_snapshot-IsExtended rows snapshot rows' s h =
        let fresh = row_of_snapshot snapshot in
        let o =
          find_snapshot rows snapshot.contest_id snapshot.view snapshot.scope_key
            snapshot.version in
        let placed = place_snapshot rows fresh o in
        let (stored, e₁, h₁) = bind-eq-ok (snapshot_record placed.1) _ h in
        let (u, e₂, h₂) =
          bind-eq-ok
            (throw_if (not (is_deep_strict_equal stored.board snapshot.board)) snapshot_conflict) _
            h₁ in
        let result = ok-inj refl h₂ in
        let (extended, version) = place_snapshot-IsExtended rows fresh o refl in
        (
          subst (IsExtended rows)
              (ap (λ (z : List SnapshotRow × ScoreboardSnapshotRecord). z.0) result) extended,
          ap (λ (z : List SnapshotRow × ScoreboardSnapshotRecord). z.1.version) (sym result)
              ∙ snapshot_record-version placed.1 stored e₁
              ∙ version,
        )

  pub or_else-cases :
      (rows : List SnapshotRow) (state : ProjectionState) (freeze_at : Option ℕ)
      (o : Option ScoreboardSnapshotRecord)
      (rest : Result (ViewError R) (List SnapshotRow × ScoreboardProjection))
      (rows' : List SnapshotRow) (p : ScoreboardProjection)
      → or_else rows state freeze_at o rest ≡ ok (rows', p)
      → ((s : ScoreboardSnapshotRecord) × (o ≡ some s)
          × (rows' ≡ rows)
          × (p ≡ projection s state freeze_at Freshness.current))
        ⊎ (rest ≡ ok (rows', p))
  or_else-cases rows state freeze_at none rest rows' p h = inr h
  or_else-cases rows state freeze_at (some s) rest rows' p h =
      let result = ok-inj refl h in
      inl (
        s,
        refl,
        sym (ap (λ (z : List SnapshotRow × ScoreboardProjection). z.0) result),
        sym (ap (λ (z : List SnapshotRow × ScoreboardProjection). z.1) result),
      )
