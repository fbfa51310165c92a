-- ===== src/Scoreboards/Builder/Laws.antt =====
-- What `ScoreboardBuilder` makes of a replay
-- (apps/web/server/domains/scoreboards/builder.ts).
use mathlib.Core.List.{append-nil, append_assoc}
use mathlib.Core.Path.{subst}
use sauryctf.Prelude.{
  ℕ, suc, map_from, String, Bool, true, false, ◌≡◌, refl, sym, ap, ◌∙◌, ==_iff, List, [], ◌∷◌, ◌++◌,
  map, length, filter, All, Ordering, arith, if◌then◌else◌,
}
use sauryctf.Prelude.Keys.{string_key}
use sauryctf.Prelude.Dict.{contains}
use sauryctf.Prelude.Distinct.{IsDistinct, IsDistinct-middle}
use sauryctf.Prelude.Result.{ok, for_each, throw_if, bind-eq-ok, ok-inj}
use sauryctf.Submissions.Replay.Totals.{ParticipationScore, SolveSummary}
use sauryctf.Prelude.Order.{IsComparator}
use sauryctf.Prelude.Sort.{to_sorted, to_sorted-IsAscending}
use sauryctf.Submissions.Replay.Facts.{is_accepted}
use sauryctf.Submissions.Replay.Ranking.{
  RankSummary, rank_summary, ranking_summary, compare_replayed_participation_scores,
}
use sauryctf.Submissions.Replay.Ranking.Laws.{
  IsRanking, ascending-IsRanking, compare_scores-IsComparator,
}
use sauryctf.Submissions.Replay.Run.{ContestScoringReplay}
use sauryctf.Scoreboards.Builder.{
  ScoreboardScope, overall, ScoreboardRow, ScoreboardReadModel, row_of, scope_key_of, Selection,
  is_candidate, is_blank_scope, select_candidate, validate_solve, validate_solves, board_of, build,
}

module _ (scope : ScoreboardScope) where
  abbrev after_score : Selection → ParticipationScore → Selection
  after_score s x = record {
    seen = s.seen ++ x.participation_id ∷ [];
    candidates = if is_candidate scope x then s.candidates ++ x ∷ [] else s.candidates;
  }

  select_candidate-fresh :
      (s : Selection) (x : ParticipationScore)
      → contains s.seen x.participation_id ≡ false
      → select_candidate scope s x ≡ ok (after_score s x)
  unfolding select_candidate
  select_candidate-fresh s x fresh = rw fresh refl

  kept_by_filter :
      (s : Selection) (x : ParticipationScore) (xs : List ParticipationScore)
      → (after_score s x).candidates ++ filter (is_candidate scope) xs
        ≡ s.candidates ++ filter (is_candidate scope) (x ∷ xs)
  kept_by_filter s x xs =
      ground (arith, append_assoc s.candidates (x ∷ []) (filter (is_candidate scope) xs))

  -- The filter keeps the candidates, when no identifier stands twice.
  select-all :
      (xs : List ParticipationScore) (s : Selection)
      → IsDistinct (s.seen ++ map (λ x. x.participation_id) xs)
      → (t : Selection) × (for_each (select_candidate scope) xs s ≡ ok t)
        × (t.candidates ≡ s.candidates ++ filter (is_candidate scope) xs)
  select-all [] s d = (s, refl, sym (append-nil s.candidates))
  select-all (x ∷ xs) s d =
      let ids = map (λ (y : ParticipationScore). y.participation_id) xs in
      let fresh = IsDistinct-middle s.seen x.participation_id ids d in
      let (t, e, kept) =
        select-all xs (after_score s x)
          (subst IsDistinct (sym (append_assoc s.seen (x.participation_id ∷ []) ids)) d) in
      (t, rw (select_candidate-fresh s x fresh) e, kept ∙ kept_by_filter s x xs)

-- The solves of a score fit its count and the board's columns.
pub record IsListed (challenge_ids : List String) (x : ParticipationScore) : Type 0 where
  pub counted : length x.solves ≡ x.official_solve_count
  pub known : All (λ s. contains challenge_ids s.challenge_id ≡ true) x.solves
  pub distinct : IsDistinct (map (λ s. s.challenge_id) x.solves)

module _ (challenge_ids : List String) where
  validate_solve-All :
      (p : String) (xs : List SolveSummary) (solved : List String)
      → All (λ s. contains challenge_ids s.challenge_id ≡ true) xs
      → IsDistinct (solved ++ map (λ s. s.challenge_id) xs)
      → for_each (validate_solve p challenge_ids) xs solved
        ≡ ok (solved ++ map (λ s. s.challenge_id) xs)
  unfolding validate_solve
  validate_solve-All p [] solved k d = ap ok (sym (append-nil solved))
  validate_solve-All p (x ∷ xs) solved k d =
      let ids = map (λ (y : SolveSummary). y.challenge_id) xs in
      let fresh = IsDistinct-middle solved x.challenge_id ids d in
      let step = append_assoc solved (x.challenge_id ∷ []) ids in
      rw (k.0, fresh)
        (validate_solve-All p xs (solved ++ x.challenge_id ∷ []) k.1 (subst IsDistinct (sym step) d)
          ∙ ap ok step)

  validate_solves-ok :
      (x : ParticipationScore)
      → IsListed challenge_ids x
      → validate_solves challenge_ids tt x ≡ ok tt
  unfolding validate_solves
  validate_solves-ok x l = rw (
    (==_iff (length x.solves) x.official_solve_count).1 l.counted,
    validate_solve-All x.participation_id x.solves [] l.known l.distinct,
  )

  validate-All :
      (p : ParticipationScore → Bool) (xs : List ParticipationScore)
      → All (IsListed challenge_ids) xs
      → for_each (validate_solves challenge_ids) (filter p xs) tt ≡ ok tt
  validate-All p [] l = refl
  validate-All p (x ∷ xs) l = ground (arith, validate_solves-ok x l.0, validate-All p xs l.1)

module _ (locale_compare : String → String → Ordering) where
  -- A scope with a division has a board whenever the scores of the replay have distinct
  -- participations and list their solves rightly; its rows are the candidates of the scope.
  pub build-ok :
      (replay : ContestScoringReplay) (scope : ScoreboardScope)
      → is_blank_scope scope ≡ false
      → IsDistinct (map (λ x. x.participation_id) replay.participation_scores)
      → All
          (IsListed (map (λ c. c.challenge_id) replay.challenge_scores))
          replay.participation_scores
      → build locale_compare replay scope
        ≡ ok (
            board_of locale_compare replay scope
              (filter (is_candidate scope) replay.participation_scores))
  unfolding build
  build-ok replay scope named distinct listed =
      let (t, e, kept) =
        select-all scope replay.participation_scores (record { seen = []; candidates = [] })
          distinct in
      rw (
        named,
        e,
        kept,
        validate-All (map (λ c. c.challenge_id) replay.challenge_scores) (is_candidate scope)
            replay.participation_scores listed,
      )

-- What a row says of the ranking.
abbrev pub entry_of : ScoreboardRow → RankSummary
entry_of row = record {
  rank = row.rank;
  participation_id = row.participation_id;
  team_id = row.team_id;
  total_points = row.total_points;
  last_scoring_at = row.last_scoring_at;
}

entries-row_of :
    (i : ℕ) (xs : List ParticipationScore)
    → map entry_of (map_from row_of i xs) ≡ map_from rank_summary i xs
entries-row_of i [] = refl
entries-row_of i (x ∷ xs) = ap (λ l. rank_summary i x ∷ l) (entries-row_of (suc i) xs)

accepted_overall :
    (xs : List ParticipationScore)
    → filter (is_candidate overall) xs ≡ filter (λ x. is_accepted x.status) xs
accepted_overall [] = refl
accepted_overall (x ∷ xs) = ground (arith, accepted_overall xs)

module _ (locale_compare : String → String → Ordering) where
  pub overall_rows :
      (replay : ContestScoringReplay)
      → map entry_of
          (board_of locale_compare replay overall
            (filter (is_candidate overall) replay.participation_scores)).rows
        ≡ ranking_summary locale_compare replay.participation_scores
  unfolding board_of ranking_summary
  overall_rows replay =
      let cmp = compare_replayed_participation_scores locale_compare in
      let scores = replay.participation_scores in
      entries-row_of 0 (to_sorted cmp (filter (is_candidate overall) scores))
      ∙ ap (λ l. map_from rank_summary 0 (to_sorted cmp l)) (accepted_overall scores)

  -- Whatever the replay, a board that is made has the schema and the key of its scope, the ranks 1,
  -- 2 and so on, and no row behind a later one, when the collation is a total preorder.
  pub build-IsRanking :
      IsComparator locale_compare
      → (replay : ContestScoringReplay) (scope : ScoreboardScope) (b : ScoreboardReadModel)
      → build locale_compare replay scope ≡ ok b
      → IsRanking 0 (map entry_of b.rows) × (b.scope_key ≡ scope_key_of scope)
  unfolding build board_of
  build-IsRanking collation replay scope b made =
      let cmp = compare_replayed_participation_scores locale_compare in
      let (_, _, h₁) = bind-eq-ok (throw_if (is_blank_scope scope) _) _ made in
      let (t, _, h₂) =
        bind-eq-ok (for_each (select_candidate scope) replay.participation_scores _) _ h₁ in
      let (_, _, h₃) = bind-eq-ok (for_each (validate_solves _) t.candidates tt) _ h₂ in
      let same : board_of locale_compare replay scope t.candidates ≡ b = ok-inj refl h₃ in
      subst
        (λ (z : ScoreboardReadModel).
          IsRanking 0 (map entry_of z.rows) × (z.scope_key ≡ scope_key_of scope))
        same
        (
          subst (IsRanking 0) (sym (entries-row_of 0 (to_sorted cmp t.candidates))) (
              ascending-IsRanking collation 0 (to_sorted cmp t.candidates)
                (to_sorted-IsAscending (compare_scores-IsComparator collation) t.candidates)),
          refl,
        )
