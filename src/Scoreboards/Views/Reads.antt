-- ===== src/Scoreboards/Views/Reads.antt =====
-- Properties of `read` of `ScoreboardViewService`
-- (apps/web/server/domains/scoreboards/view-service.ts).
use sauryctf.Prelude.{
  ℕ, String, Bool, true, false, ◌||◌, Option, List, Ordering, leb, if◌then◌else◌, ◌≡◌, Bool-cases,
  inl, inr, arith,
}
use sauryctf.Prelude.Date.{Date, at, invalid}
use sauryctf.Prelude.Result.{Result, ok, bind-eq-ok}
use sauryctf.Participations.Tables.{Division}
use sauryctf.Participations.Eligibility.{is_archived}
use sauryctf.Submissions.Replay.Run.{ContestScoringReplay}
use sauryctf.Scoreboards.Builder.{ScoreboardScope, overall, division, ScoreboardReadModel}
use sauryctf.Scoreboards.Views.Snapshots.{
  ScoreboardView, ContestStateRow, ScoreboardContestState, SnapshotRow, read_contest_state,
  division_exists,
}
use sauryctf.Scoreboards.Views.Service.{
  ScoreboardViewerRole, ProjectionState, ReadScoreboardInput, ScoreboardProjection, is_manager,
  is_draft, is_public, is_frozen_at, require_viewer, require_scope, require_valid_now,
}
use sauryctf.Scoreboards.Views.Read.{read_view, read}
use sauryctf.Scoreboards.Views.Answers.{
  IsAnswer, materialize-IsAnswer, cached_materialize-IsAnswer, read_frozen-IsAnswer,
}

-- Who may see a view: an organizer or an administrator the internal one, and everybody the public one
-- of a public contest that is no draft.
abbrev pub IsPermitted : ScoreboardContestState → ScoreboardViewerRole → ScoreboardView → Type 0
IsPermitted contest role ScoreboardView.internal_view = is_manager role ≡ true
IsPermitted contest role ScoreboardView.public_view =
    (is_draft contest.publication_status ≡ false) × (is_public contest.visibility ≡ true)

abbrev pub IsScopeIn : List Division → String → ScoreboardScope → Type 0
IsScopeIn divisions contest_id overall = Unit
IsScopeIn divisions contest_id (division id) = division_exists divisions contest_id id ≡ true

-- The state that a view has at a time.
abbrev pub state_of : ScoreboardContestState → ℕ → ScoreboardView → ProjectionState
state_of contest now ScoreboardView.internal_view = ProjectionState.live
state_of contest now ScoreboardView.public_view =
    if is_archived contest.publication_status || leb contest.end_at now
    then ProjectionState.settled
    else if is_frozen_at contest.freeze_at now
    then ProjectionState.frozen
    else ProjectionState.live

-- What a successful read has checked and answers with.
pub record IsRead (contests : List ContestStateRow) (divisions : List Division)
    (rows : List SnapshotRow) (now : Date) (input : ReadScoreboardInput) (rows' : List SnapshotRow)
    (p : ScoreboardProjection) (R : Type 0) : Type 0 where
  pub now_time : ℕ
  pub time : now ≡ at now_time
  pub contest : ScoreboardContestState
  pub contest_found : read_contest_state {R = R} contests input.contest_id ≡ ok contest
  pub permitted : IsPermitted contest input.viewer_role input.view
  pub scope_in : IsScopeIn divisions input.contest_id input.scope
  pub answer : IsAnswer rows contest (state_of contest now_time input.view) rows' p

module _ {R : Type 0} where
  require_viewer-IsPermitted :
      (contest : ScoreboardContestState) (role : ScoreboardViewerRole) (view : ScoreboardView)
      → require_viewer {R = R} contest role view ≡ ok tt
      → IsPermitted contest role view
  unfolding require_viewer
  require_viewer-IsPermitted contest role ScoreboardView.internal_view h = ground arith
  require_viewer-IsPermitted contest role ScoreboardView.public_view h =
      (ground arith, ground arith)

  require_scope-IsScopeIn :
      (divisions : List Division) (contest_id : String) (scope : ScoreboardScope)
      → require_scope {R = R} divisions contest_id scope ≡ ok tt
      → IsScopeIn divisions contest_id scope
  unfolding require_scope
  require_scope-IsScopeIn divisions contest_id overall h = tt
  require_scope-IsScopeIn divisions contest_id (division id) h = ground arith

  require_valid_now-time : (now : Date) (t : ℕ) → require_valid_now {R = R} now ≡ ok t → now ≡ at t
  require_valid_now-time (at n) t h = ground arith
  require_valid_now-time invalid t h = cc

  module _ (same : ScoreboardReadModel → ScoreboardReadModel → Bool)
      (lc : String → String → Ordering) (replay : Option ℕ → Result R ContestScoringReplay) where
    read_view-IsAnswer :
        (before rows : List SnapshotRow) (contest : ScoreboardContestState)
        (scope : ScoreboardScope) (now : ℕ) (view : ScoreboardView) (rows' : List SnapshotRow)
        (p : ScoreboardProjection)
        → read_view same lc replay before rows contest scope now view ≡ ok (rows', p)
        → IsAnswer rows contest (state_of contest now view) rows' p
    unfolding read_view
    read_view-IsAnswer before rows contest scope now ScoreboardView.internal_view rows' p h =
        materialize-IsAnswer same lc replay rows rows' p contest scope ScoreboardView.internal_view
          ProjectionState.live now h
    read_view-IsAnswer before rows contest scope now ScoreboardView.public_view rows' p h =
        elim (Bool-cases (is_archived contest.publication_status || leb contest.end_at now)) [
          | inl over ↦ rw over (
              cached_materialize-IsAnswer same lc replay rows rows' p before contest scope
                ProjectionState.settled now (λ v w k. k) (rw over at h))
          | inr running ↦
              let h' = rw running at h in
              elim (Bool-cases (is_frozen_at contest.freeze_at now)) [
                | inl cold ↦
                    rw (running, cold)
                      (read_frozen-IsAnswer same lc replay rows rows' p before contest scope now
                        (rw cold at h'))
                | inr warm ↦
                    rw (running, warm)
                      (cached_materialize-IsAnswer same lc replay rows rows' p before contest scope
                        ProjectionState.live now (λ v w k. k) (rw warm at h'))
              ]
        ]

    -- A successful read was permitted and in a division of the contest, keeps all the snapshots and
    -- adds at most one, under a key that none has, and answers in the state of the contest's time: a
    -- current live or settled board has the contest's version, a stale one an older version, and a
    -- frozen board is never stale.
    pub read-IsRead :
        (contests : List ContestStateRow) (divisions : List Division)
        (before rows : List SnapshotRow) (now : Date) (input : ReadScoreboardInput)
        (rows' : List SnapshotRow) (p : ScoreboardProjection)
        → read same lc replay contests divisions before rows now input ≡ ok (rows', p)
        → IsRead contests divisions rows now input rows' p R
    unfolding read
    read-IsRead contests divisions before rows now input rows' p h =
        let (t, e₁, h₁) = bind-eq-ok (require_valid_now now) _ h in
        let (contest, e₂, h₂) = bind-eq-ok (read_contest_state contests input.contest_id) _ h₁ in
        let (_, e₃, h₃) = bind-eq-ok (require_viewer contest input.viewer_role input.view) _ h₂ in
        let (_, e₄, h₄) = bind-eq-ok (require_scope divisions input.contest_id input.scope) _ h₃ in
        record {
          now_time = t;
          time = require_valid_now-time now t e₁;
          contest = contest;
          contest_found = e₂;
          permitted = require_viewer-IsPermitted contest input.viewer_role input.view e₃;
          scope_in = require_scope-IsScopeIn divisions input.contest_id input.scope e₄;
          answer = read_view-IsAnswer before rows contest input.scope t input.view rows' p h₄;
        }
