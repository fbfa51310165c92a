-- ===== src/Scoreboards/Views/Agrees.antt =====
-- Steps of a read that agree over different snapshots
-- (apps/web/server/infrastructure/db/scoreboard-view-repository.ts).
use sauryctf.Prelude.{
  ℕ, String, Bool, not, Option, none, some, List, [], ◌∷◌, ◌++◌, filter, ◌≡◌, refl, Bool-cases, inl,
  inr, arith,
}
use sauryctf.Prelude.Int.{ℤ, eqb_ℤ}
use sauryctf.Prelude.Table.{find}
use sauryctf.Prelude.Result.{Result, ok, err, throw_if, ◌>>◌, ◌>>=◌}
use sauryctf.Scoreboards.Builder.{ScoreboardReadModel}
use sauryctf.Scoreboards.Views.Snapshots.{
  ScoreboardView, SnapshotRow, ScoreboardSnapshotRecord, ViewError, snapshot_conflict,
  find_snapshot, is_in_series, place_snapshot, row_of_snapshot, snapshot_record, write_snapshot,
}
use sauryctf.Scoreboards.Views.Service.{ProjectionState, ScoreboardProjection, or_else}

-- The answer without the snapshots, or the error.
abbrev pub answer_of :
    {R A : Type 0} → Result (ViewError R) (List SnapshotRow × A) → Result (ViewError R) A
answer_of (ok z) = ok z.1
answer_of (err e) = err e

-- The public snapshots of a contest are the same; those of other contests and of the internal view
-- may differ.
abbrev pub SamePublic : String → List SnapshotRow → List SnapshotRow → Type 0
SamePublic contest_id rows rows' =
    (key : String)
    → filter (is_in_series contest_id ScoreboardView.public_view key) rows
      ≡ filter (is_in_series contest_id ScoreboardView.public_view key) rows'

pub answer_of-bind :
    {R A B : Type 0} (r : Result (ViewError R) B)
    (f g : B → Result (ViewError R) (List SnapshotRow × A))
    → ((b : B) → answer_of (f b) ≡ answer_of (g b))
    → answer_of (r >>= f) ≡ answer_of (r >>= g)
answer_of-bind (ok b) f g h = h b
answer_of-bind (err e) f g h = refl

-- The second step sees only the answer of the first.
pub answer_of-then :
    {R A B : Type 0} (r s : Result (ViewError R) (List SnapshotRow × B)) (f : B → A)
    → answer_of r ≡ answer_of s
    → answer_of (r >>= λ z. ok (z.0, f z.1)) ≡ answer_of (s >>= λ z. ok (z.0, f z.1))
answer_of-then (ok z) (ok w) f h = ground arith
answer_of-then (err d) (err e) f h = ground arith
answer_of-then (ok z) (err e) f h = cc
answer_of-then (err d) (ok w) f h = cc

pub find_snapshot-filter :
    (rows : List SnapshotRow) (contest_id : String) (view : ScoreboardView) (key : String)
    (version : ℤ)
    → find_snapshot rows contest_id view key version
      ≡ find (λ row. eqb_ℤ row.version version) (filter (is_in_series contest_id view key) rows)
find_snapshot-filter [] contest_id view key version = refl
find_snapshot-filter (row ∷ rows) contest_id view key version =
    elim (Bool-cases (is_in_series contest_id view key row)) [
      | inl here ↦
          rw here (let rest = find_snapshot-filter rows contest_id view key version in ground arith)
      | inr gone ↦ rw gone (find_snapshot-filter rows contest_id view key version)
    ]

module _ {R : Type 0} (same : ScoreboardReadModel → ScoreboardReadModel → Bool) where
  abbrev write_placed :
      ScoreboardSnapshotRecord
      → List SnapshotRow × SnapshotRow
      → Result (ViewError R) (List SnapshotRow × ScoreboardSnapshotRecord)
  write_placed snapshot placed = do
    stored ← snapshot_record placed.1
    throw_if (not (same stored.board snapshot.board)) snapshot_conflict
    ok (placed.0, stored)

  write_placed-agrees :
      (snapshot : ScoreboardSnapshotRecord) (rows rows' : List SnapshotRow) (row : SnapshotRow)
      → answer_of (write_placed snapshot (rows, row))
        ≡ answer_of (write_placed snapshot (rows', row))
  write_placed-agrees snapshot rows rows' row = answer_of-bind (snapshot_record row) _ _ (λ stored.
      answer_of-bind (throw_if (not (same stored.board snapshot.board)) snapshot_conflict) _ _
        (λ _. refl))

  place-agrees :
      (snapshot : ScoreboardSnapshotRecord) (rows rows' : List SnapshotRow) (fresh : SnapshotRow)
      (o : Option SnapshotRow)
      → answer_of (write_placed snapshot (place_snapshot rows fresh o))
        ≡ answer_of (write_placed snapshot (place_snapshot rows' fresh o))
  place-agrees snapshot rows rows' fresh none =
      write_placed-agrees snapshot (rows ++ fresh ∷ []) (rows' ++ fresh ∷ []) fresh
  place-agrees snapshot rows rows' fresh (some row) = write_placed-agrees snapshot rows rows' row

  pub write_snapshot-agrees :
      (rows rows' : List SnapshotRow) (snapshot : ScoreboardSnapshotRecord)
      → find_snapshot rows snapshot.contest_id snapshot.view snapshot.scope_key snapshot.version
        ≡ find_snapshot rows' snapshot.contest_id snapshot.view snapshot.scope_key snapshot.version
      → answer_of (write_snapshot {R = R} same rows snapshot)
        ≡ answer_of (write_snapshot {R = R} same rows' snapshot)
  unfolding write_snapshot
  write_snapshot-agrees rows rows' snapshot e = rw e (
      place-agrees snapshot rows rows' (row_of_snapshot snapshot)
        (find_snapshot rows' snapshot.contest_id snapshot.view snapshot.scope_key snapshot.version))

  pub or_else-agrees :
      (rows rows' : List SnapshotRow) (state : ProjectionState) (freeze_at : Option ℕ)
      (o : Option ScoreboardSnapshotRecord)
      (rest rest' : Result (ViewError R) (List SnapshotRow × ScoreboardProjection))
      → answer_of rest ≡ answer_of rest'
      → answer_of (or_else rows state freeze_at o rest)
        ≡ answer_of (or_else rows' state freeze_at o rest')
  or_else-agrees rows rows' state freeze_at none rest rest' h = h
  or_else-agrees rows rows' state freeze_at (some snapshot) rest rest' h = refl
