-- ===== src/Scoreboards/Views/Frozen.antt =====
-- What a read of a frozen board depends on
-- (apps/web/server/domains/scoreboards/view-service.ts).
use sauryctf.Prelude.{
  ℕ, String, Bool, ◌||◌, Option, none, some, List, filter, Ordering, leb, ◌≡◌, refl, sym, ap, ◌∙◌,
  Bool-cases, inl, inr,
}
use sauryctf.Prelude.Int.{ℤ, eqb_ℤ}
use sauryctf.Prelude.Date.{at}
use sauryctf.Prelude.Table.{find}
use sauryctf.Prelude.Result.{Result, ok}
use sauryctf.Participations.Tables.{Division}
use sauryctf.Participations.Eligibility.{is_archived}
use sauryctf.Submissions.Replay.Run.{ContestScoringReplay}
use sauryctf.Scoreboards.Builder.{ScoreboardScope, ScoreboardReadModel, build, scope_key_of}
use sauryctf.Scoreboards.Views.Snapshots.{
  ScoreboardView, ContestStateRow, ScoreboardContestState, SnapshotRow, read_contest_state,
  read_latest_snapshot, read_latest_snapshot_version, read_snapshot, find_snapshot, is_in_series,
  latest, read_row, read_version,
}
use sauryctf.Scoreboards.Views.Service.{
  ProjectionState, Freshness, ReadScoreboardInput, is_frozen_at, require_viewer, require_scope,
  generate, materialize, snapshot_at, lift_replay, lift_build, projection,
}
use sauryctf.Scoreboards.Views.Read.{frozen_input, build_frozen, read_frozen, read_view, read}
use sauryctf.Scoreboards.Views.Reads.{state_of}
use sauryctf.Scoreboards.Views.Agrees.{
  answer_of, SamePublic, answer_of-bind, answer_of-then, find_snapshot-filter,
  write_snapshot-agrees, or_else-agrees,
}

module _ {R : Type 0} (same : ScoreboardReadModel → ScoreboardReadModel → Bool)
    (lc : String → String → Ordering) (replay replay' : Option ℕ → Result R ContestScoringReplay)
    (contest : ScoreboardContestState) (version : ℤ) (rows rows' : List SnapshotRow)
    (public : SamePublic contest.contest_id rows rows')
    (facts : replay contest.freeze_at ≡ replay' contest.freeze_at) where
  -- The contest with another version of its scoreboard.
  abbrev other_contest : ScoreboardContestState
  other_contest = record contest { current_version = version }

  found_same :
      (key : String) (v : ℤ)
      → find_snapshot rows contest.contest_id ScoreboardView.public_view key v
        ≡ find_snapshot rows' contest.contest_id ScoreboardView.public_view key v
  found_same key v =
      find_snapshot-filter rows contest.contest_id ScoreboardView.public_view key v
      ∙ ap (find (λ row. eqb_ℤ row.version v)) (public key)
      ∙ sym (find_snapshot-filter rows' contest.contest_id ScoreboardView.public_view key v)

  generate-agrees :
      (scope : ScoreboardScope) (now : ℕ)
      → answer_of (
          generate same lc replay rows
            (frozen_input same lc replay contest scope contest.freeze_at now))
        ≡ answer_of (
            generate same lc replay' rows'
              (frozen_input same lc replay' other_contest scope contest.freeze_at now))
  unfolding generate
  generate-agrees scope now = rw facts (
      answer_of-bind (lift_replay (replay' contest.freeze_at)) _ _ (λ replayed.
        answer_of-bind (lift_build (build lc replayed scope)) _ _ (λ board.
          answer_of-then _ _
            (λ written.
              projection written ProjectionState.frozen contest.freeze_at Freshness.current)
            (write_snapshot-agrees same rows rows' _
              (found_same board.scope_key replayed.fact_version)))))

  build_frozen-agrees :
      (scope : ScoreboardScope) (now : ℕ)
      → answer_of (build_frozen same lc replay rows contest scope now)
        ≡ answer_of (build_frozen same lc replay' rows' other_contest scope now)
  unfolding build_frozen materialize read_latest_snapshot
  build_frozen-agrees scope now = rw (public (scope_key_of scope)) (
      answer_of-bind
        (read_row (
          latest (
            filter (is_in_series contest.contest_id ScoreboardView.public_view (scope_key_of scope))
              rows')))
        _ _
        (λ winner.
          or_else-agrees same rows rows' ProjectionState.frozen contest.freeze_at winner _ _ (
            answer_of-bind
              (read_row (
                latest (
                  filter
                    (is_in_series contest.contest_id ScoreboardView.public_view
                      (scope_key_of scope))
                    rows')))
              _ _
              (λ newest.
                or_else-agrees same rows rows' ProjectionState.frozen contest.freeze_at newest _ _
                  (generate-agrees scope now)))))

  module _ (before before' : List SnapshotRow)
      (public_before : SamePublic contest.contest_id before before') where
    snapshot_at-agrees :
        (scope : ScoreboardScope) (o : Option ℤ)
        → snapshot_at {R = R} before contest scope o ≡ snapshot_at before' other_contest scope o
    unfolding read_snapshot
    snapshot_at-agrees scope none = refl
    snapshot_at-agrees scope (some v) = ap read_row (
        find_snapshot-filter before contest.contest_id ScoreboardView.public_view
          (scope_key_of scope) v
        ∙ ap (find (λ row. eqb_ℤ row.version v)) (public_before (scope_key_of scope))
        ∙ sym (
            find_snapshot-filter before' contest.contest_id ScoreboardView.public_view
              (scope_key_of scope) v))

    read_frozen-agrees :
        (scope : ScoreboardScope) (now : ℕ)
        → answer_of (read_frozen same lc replay before rows contest scope now)
          ≡ answer_of (read_frozen same lc replay' before' rows' other_contest scope now)
    unfolding read_frozen read_latest_snapshot_version
    read_frozen-agrees scope now = rw (public_before (scope_key_of scope)) (
        answer_of-bind
          (read_version (
            latest (
              filter
                (is_in_series contest.contest_id ScoreboardView.public_view (scope_key_of scope))
                before')))
          _ _
          (λ v. rw (snapshot_at-agrees scope v) (
            answer_of-bind (snapshot_at before' other_contest scope v) _ _ (λ existing.
              or_else-agrees same rows rows' ProjectionState.frozen contest.freeze_at existing _ _
                (build_frozen-agrees scope now)))))

    read_view-agrees :
        (scope : ScoreboardScope) (now : ℕ)
        → state_of contest now ScoreboardView.public_view ≡ ProjectionState.frozen
        → answer_of
            (read_view same lc replay before rows contest scope now ScoreboardView.public_view)
          ≡ answer_of (
              read_view same lc replay' before' rows' other_contest scope now
                ScoreboardView.public_view)
    unfolding read_view
    read_view-agrees scope now cold =
        elim (Bool-cases (is_archived contest.publication_status || leb contest.end_at now)) [
          | inl over ↦ let k = rw over at cold in absurd cc
          | inr running ↦
              let k = rw running at cold in
              elim (Bool-cases (is_frozen_at contest.freeze_at now)) [
                | inl is_cold ↦ rw (running, is_cold) (read_frozen-agrees scope now)
                | inr warm ↦ let l = rw warm at k in absurd cc
              ]
        ]

    -- While the public board of a contest is frozen, that is after the freeze, before the end, and
    -- not archived, what a read answers or throws depends on the facts before the freeze and on the
    -- contest's public snapshots only. Two histories that agree on those give the same: the
    -- version of the scoreboard, the later facts, the other snapshots and the other contests may
    -- all differ.
    pub read-frozen :
        (contests contests' : List ContestStateRow) (divisions : List Division) (now : ℕ)
        (input : ReadScoreboardInput)
        → read_contest_state {R = R} contests input.contest_id ≡ ok contest
        → read_contest_state {R = R} contests' input.contest_id ≡ ok other_contest
        → input.view ≡ ScoreboardView.public_view
        → state_of contest now ScoreboardView.public_view ≡ ProjectionState.frozen
        → answer_of (read same lc replay contests divisions before rows (at now) input)
          ≡ answer_of (read same lc replay' contests' divisions before' rows' (at now) input)
    unfolding read require_viewer
    read-frozen contests contests' divisions now input found found' view cold =
        rw (found, found', view)
          (answer_of-bind (require_viewer contest input.viewer_role ScoreboardView.public_view) _ _
            (λ _.
              answer_of-bind (require_scope divisions input.contest_id input.scope) _ _
                (λ _. read_view-agrees input.scope now cold)))
