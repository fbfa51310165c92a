-- ===== src/Scoreboards/Views/Answers.antt =====
-- What `read` of `ScoreboardViewService` answers with
-- (apps/web/server/domains/scoreboards/view-service.ts).
use sauryctf.Prelude.{
  ℕ, String, Bool, false, Option, none, some, List, Ordering, ◌≡◌, refl, sym, ap, ◌∙◌, Bool-cases,
  inl, inr, arith,
}
use mathlib.Core.Path.{subst}
use sauryctf.Prelude.Int.{ℤ, leb_ℤ}
use sauryctf.Prelude.Result.{Result, ok, err, bind-eq-ok, throw_if, ok-inj}
use sauryctf.Submissions.Replay.Run.{ContestScoringReplay}
use sauryctf.Scoreboards.Builder.{ScoreboardScope, ScoreboardReadModel, build, scope_key_of}
use sauryctf.Scoreboards.Views.Snapshots.{
  ScoreboardView, ScoreboardContestState, SnapshotRow, ScoreboardSnapshotRecord, ViewError,
  snapshot_conflict, read_latest_snapshot, read_latest_snapshot_version, write_snapshot,
}
use sauryctf.Scoreboards.Views.Service.{
  ProjectionState, Freshness, ScoreboardProjection, MaterializeInput, projection, version_or,
  is_other_version, lift_build, lift_replay, or_else, latest_existing, settled_existing,
  read_stored, is_stale, stale_or_throw, fall_back, snapshot_at, generate, materialize, live_input,
  rebuild_or_fallback, cached_materialize,
}
use sauryctf.Scoreboards.Views.Read.{build_frozen, frozen_input, read_frozen}
use sauryctf.Scoreboards.Views.Built.{
  IsExtended, read_snapshot-version, write_snapshot-IsExtended, or_else-cases,
}

-- A stale projection is older than the contest's version, a current one that is not frozen has it,
-- and a frozen one is never stale.
abbrev pub IsFresh : Freshness → ProjectionState → ℤ → ℤ → Type 0
IsFresh Freshness.current ProjectionState.frozen version current_version = Unit
IsFresh Freshness.current _ version current_version = version ≡ current_version
IsFresh Freshness.stale ProjectionState.frozen version current_version = ⊥
IsFresh Freshness.stale _ version current_version = leb_ℤ current_version version ≡ false

-- An answer extends the snapshots, has the state that it is asked for, and is fresh.
pub record IsAnswer (rows : List SnapshotRow) (contest : ScoreboardContestState)
    (state : ProjectionState) (rows' : List SnapshotRow) (p : ScoreboardProjection) : Type 0 where
  pub extended : IsExtended rows rows'
  pub state_is : p.state ≡ state
  pub fresh : IsFresh p.freshness state p.version contest.current_version

IsFresh-current :
    (state : ProjectionState) (version current_version : ℤ)
    → version ≡ current_version
    → IsFresh Freshness.current state version current_version
IsFresh-current ProjectionState.frozen version current_version h = tt
IsFresh-current ProjectionState.live version current_version h = h
IsFresh-current ProjectionState.settled version current_version h = h

module _ {R : Type 0} (rows : List SnapshotRow) (contest : ScoreboardContestState)
    (state : ProjectionState) (rows' : List SnapshotRow) (p : ScoreboardProjection) where
  -- A stored snapshot of the right version answers, or what follows does.
  or_else-IsAnswer :
      (o : Option ScoreboardSnapshotRecord)
      (rest : Result (ViewError R) (List SnapshotRow × ScoreboardProjection))
      → ((s : ScoreboardSnapshotRecord)
          → o ≡ some s
          → IsFresh Freshness.current state s.version contest.current_version)
      → (rest ≡ ok (rows', p) → IsAnswer rows contest state rows' p)
      → or_else rows state contest.freeze_at o rest ≡ ok (rows', p)
      → IsAnswer rows contest state rows' p
  or_else-IsAnswer o rest f k h =
      elim (or_else-cases rows state contest.freeze_at o rest rows' p h) [
        | inl (s, e, same, q) ↦ record {
          extended = inl same;
          state_is = ap (λ (z : ScoreboardProjection). z.state) q;
          fresh =
              subst
                (λ (z : ScoreboardProjection).
                  IsFresh z.freshness state z.version contest.current_version)
                (sym q) (f s e);
        }
        | inr later ↦ k later
      ]

  stale_or_throw-IsAnswer :
      (e : ViewError R) (o : Option ScoreboardSnapshotRecord)
      → ((v w : ℤ) → leb_ℤ w v ≡ false → IsFresh Freshness.stale state v w)
      → stale_or_throw rows contest state e o ≡ ok (rows', p)
      → IsAnswer rows contest state rows' p
  stale_or_throw-IsAnswer e none f h = cc
  stale_or_throw-IsAnswer e (some stored) f h = elim (Bool-cases (is_stale contest stored)) [
    | inl older ↦
        let newer : leb_ℤ contest.current_version stored.version ≡ false = ground arith in
        let answer : (rows, projection stored state contest.freeze_at Freshness.stale)
            ≡ (rows', p) =
          ground arith in
        let q = sym (ap (λ (z : List SnapshotRow × ScoreboardProjection). z.1) answer) in
        record {
          extended = inl (sym (ap (λ (z : List SnapshotRow × ScoreboardProjection). z.0) answer));
          state_is = ap (λ (z : ScoreboardProjection). z.state) q;
          fresh =
              subst
                (λ (z : ScoreboardProjection).
                  IsFresh z.freshness state z.version contest.current_version)
                (sym q) (f stored.version contest.current_version newer);
        }
    | inr not_older ↦ absurd (ground arith)
  ]

  fall_back-IsAnswer :
      (scope : ScoreboardScope)
      (built : Result (ViewError R) (List SnapshotRow × ScoreboardProjection))
      → ((v w : ℤ) → leb_ℤ w v ≡ false → IsFresh Freshness.stale state v w)
      → (built ≡ ok (rows', p) → IsAnswer rows contest state rows' p)
      → fall_back rows contest scope state built ≡ ok (rows', p)
      → IsAnswer rows contest state rows' p
  unfolding fall_back
  fall_back-IsAnswer scope (ok answer) f k h = k h
  fall_back-IsAnswer scope (err e) f k h =
      let (o, _, h₁) =
        bind-eq-ok
          (read_latest_snapshot rows contest.contest_id ScoreboardView.public_view
            (scope_key_of scope))
          _ h in
      stale_or_throw-IsAnswer e o f h₁

module _ {R : Type 0} (same : ScoreboardReadModel → ScoreboardReadModel → Bool)
    (lc : String → String → Ordering) (replay : Option ℕ → Result R ContestScoringReplay)
    (rows : List SnapshotRow) (rows' : List SnapshotRow) (p : ScoreboardProjection) where
  generate-IsAnswer :
      (input : MaterializeInput)
      → ((v : ℤ)
          → IsFresh Freshness.current input.state
              (version_or input.version v)
              input.contest.current_version)
      → generate same lc replay rows input ≡ ok (rows', p)
      → IsAnswer rows input.contest input.state rows' p
  unfolding generate
  generate-IsAnswer input f h =
      let (r, e₁, h₁) = bind-eq-ok (lift_replay (replay input.facts_before)) _ h in
      let (u, e₂, h₂) =
        bind-eq-ok (throw_if (is_other_version input.version r.fact_version) snapshot_conflict) _
          h₁ in
      let (board, e₃, h₃) = bind-eq-ok (lift_build (build lc r input.scope)) _ h₂ in
      let (written, e₄, h₄) = bind-eq-ok (write_snapshot same rows _) _ h₃ in
      let (extended, version) = write_snapshot-IsExtended same rows _ written.0 written.1 e₄ in
      let q : projection written.1 input.state input.contest.freeze_at Freshness.current ≡ p =
        ap (λ (z : List SnapshotRow × ScoreboardProjection). z.1) (ok-inj refl h₄) in
      record {
        extended =
            subst (IsExtended rows)
              (ap (λ (z : List SnapshotRow × ScoreboardProjection). z.0) (ok-inj refl h₄)) extended;
        state_is = ap (λ (z : ScoreboardProjection). z.state) (sym q);
        fresh =
            subst
              (λ (z : ScoreboardProjection).
                IsFresh z.freshness input.state z.version input.contest.current_version)
              q
              (subst
                (λ (v : ℤ). IsFresh Freshness.current input.state v input.contest.current_version)
                (sym version) (f r.fact_version));
      }

  exact-version :
      (contest : ScoreboardContestState) (scope : ScoreboardScope) (view : ScoreboardView)
      (state : ProjectionState) (now : ℕ) (s : ScoreboardSnapshotRecord)
      → settled_existing {R = R} rows (live_input same lc replay contest scope view state now)
        ≡ ok (some s)
      → s.version ≡ contest.current_version
  exact-version contest scope view ProjectionState.settled now s h =
      read_snapshot-version rows contest.contest_id view (scope_key_of scope)
        contest.current_version s h
  exact-version contest scope view ProjectionState.live now s h = cc
  exact-version contest scope view ProjectionState.frozen now s h = cc

  pub materialize-IsAnswer :
      (contest : ScoreboardContestState) (scope : ScoreboardScope) (view : ScoreboardView)
      (state : ProjectionState) (now : ℕ)
      → materialize same lc replay rows (live_input same lc replay contest scope view state now)
        ≡ ok (rows', p)
      → IsAnswer rows contest state rows' p
  unfolding materialize
  materialize-IsAnswer contest scope view state now h =
      let input = live_input same lc replay contest scope view state now in
      let (exact, e, h₁) = bind-eq-ok (settled_existing rows input) _ h in
      or_else-IsAnswer rows contest state rows' p exact (generate same lc replay rows input)
        (λ s k.
          IsFresh-current state s.version contest.current_version
            (exact-version contest scope view state now s (e ∙ ap ok k)))
        (generate-IsAnswer input
          (λ v. IsFresh-current state contest.current_version contest.current_version refl))
        h₁

  rebuild_or_fallback-IsAnswer :
      (contest : ScoreboardContestState) (scope : ScoreboardScope) (state : ProjectionState)
      (now : ℕ)
      → ((v w : ℤ) → leb_ℤ w v ≡ false → IsFresh Freshness.stale state v w)
      → rebuild_or_fallback same lc replay rows contest scope state now ≡ ok (rows', p)
      → IsAnswer rows contest state rows' p
  unfolding rebuild_or_fallback
  rebuild_or_fallback-IsAnswer contest scope state now f h =
      let (winner, e, h₁) = bind-eq-ok (read_stored rows contest scope) _ h in
      or_else-IsAnswer rows contest state rows' p winner _
        (λ s k. IsFresh-current state s.version contest.current_version (
          read_snapshot-version rows contest.contest_id ScoreboardView.public_view
            (scope_key_of scope) contest.current_version s (e ∙ ap ok k)))
        (fall_back-IsAnswer rows contest state rows' p scope _ f
          (materialize-IsAnswer contest scope ScoreboardView.public_view state now))
        h₁

  pub cached_materialize-IsAnswer :
      (before : List SnapshotRow) (contest : ScoreboardContestState) (scope : ScoreboardScope)
      (state : ProjectionState) (now : ℕ)
      → ((v w : ℤ) → leb_ℤ w v ≡ false → IsFresh Freshness.stale state v w)
      → cached_materialize same lc replay before rows contest scope state now ≡ ok (rows', p)
      → IsAnswer rows contest state rows' p
  unfolding cached_materialize
  cached_materialize-IsAnswer before contest scope state now f h =
      let (stored, e, h₁) = bind-eq-ok (read_stored before contest scope) _ h in
      or_else-IsAnswer rows contest state rows' p stored _
        (λ s k. IsFresh-current state s.version contest.current_version (
          read_snapshot-version before contest.contest_id ScoreboardView.public_view
            (scope_key_of scope) contest.current_version s (e ∙ ap ok k)))
        (rebuild_or_fallback-IsAnswer contest scope state now f) h₁

  frozen-or_else :
      (contest : ScoreboardContestState) (o : Option ScoreboardSnapshotRecord)
      (rest : Result (ViewError R) (List SnapshotRow × ScoreboardProjection))
      → (rest ≡ ok (rows', p) → IsAnswer rows contest ProjectionState.frozen rows' p)
      → or_else rows ProjectionState.frozen contest.freeze_at o rest ≡ ok (rows', p)
      → IsAnswer rows contest ProjectionState.frozen rows' p
  frozen-or_else contest o rest k h =
      or_else-IsAnswer rows contest ProjectionState.frozen rows' p o rest (λ s e. tt) k h

  build_frozen-IsAnswer :
      (contest : ScoreboardContestState) (scope : ScoreboardScope) (now : ℕ)
      → build_frozen same lc replay rows contest scope now ≡ ok (rows', p)
      → IsAnswer rows contest ProjectionState.frozen rows' p
  unfolding build_frozen materialize
  build_frozen-IsAnswer contest scope now h =
      let input = frozen_input same lc replay contest scope contest.freeze_at now in
      let (winner, _, h₁) =
        bind-eq-ok
          (read_latest_snapshot rows contest.contest_id ScoreboardView.public_view
            (scope_key_of scope))
          _ h in
      frozen-or_else contest winner _
        (λ h₂.
          let (newest, _, h₃) = bind-eq-ok (latest_existing rows input) _ h₂ in
          frozen-or_else contest newest _ (λ h₄. generate-IsAnswer input (λ v. tt) h₄) h₃)
        h₁

  pub read_frozen-IsAnswer :
      (before : List SnapshotRow) (contest : ScoreboardContestState) (scope : ScoreboardScope)
      (now : ℕ)
      → read_frozen same lc replay before rows contest scope now ≡ ok (rows', p)
      → IsAnswer rows contest ProjectionState.frozen rows' p
  unfolding read_frozen
  read_frozen-IsAnswer before contest scope now h =
      let (version, _, h₁) =
        bind-eq-ok
          (read_latest_snapshot_version before contest.contest_id ScoreboardView.public_view
            (scope_key_of scope))
          _ h in
      let (existing, _, h₂) = bind-eq-ok (snapshot_at before contest scope version) _ h₁ in
      frozen-or_else contest existing _ (build_frozen-IsAnswer contest scope now) h₂
